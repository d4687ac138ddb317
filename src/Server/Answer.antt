-- ===== src/Server/Answer.antt =====
-- Which tasks of src/server.cpp are answered, and what a cancelled task stays.
use rtt_opcua.Base.{
  ℕ, zero, suc, ◌≡◌, refl, ap, ◌≢◌, ◌⊎◌, inl, inr, true, false, List, [], ◌∷◌, ◌++◌, arith, length,
  Bytes,
}
use rtt_opcua.Server.{
  task_cancelled, QueuedTask, new_task, complete, cancel, run_task, Server, modify_at, enqueue,
  request_stop, drain_swap, drain_one, fail_swap, fail_one, report_running, Operation, submit,
  time_out, stop_request, swap_drain, swap_fail, run_one, fail_stopped, fail_failed, report, finish,
  set_failure, step, run,
}
use rtt_opcua.Server.Queue.{state-cases, deque-cases}

-- The task at a position of the store has a property.
abbrev pub At : (QueuedTask → Type 0) → List QueuedTask → ℕ → Type 0
At P [] i = ⊥
At P (t ∷ ts) zero = P t
At P (t ∷ ts) (suc i) = At P ts i

abbrev pub IsCancelled : QueuedTask → Type 0
IsCancelled t = (t.state ≡ task_cancelled) × (t.calls ≡ 0)

-- `invoke` waits for the completion of this task.
abbrev pub IsOpen : QueuedTask → Type 0
IsOpen t = (t.has_completion ≡ true) × (t.done ≡ false)

module _ (f : QueuedTask → QueuedTask) where
  pub At-modify_at :
      ((t : QueuedTask) → IsCancelled t → IsCancelled (f t))
      → (ts : List QueuedTask) (i j : ℕ) → At IsCancelled ts i
      → At IsCancelled (modify_at j f ts) i
  At-modify_at keep [] i j h = h
  At-modify_at keep (t ∷ ts) zero zero h = keep t h
  At-modify_at keep (t ∷ ts) zero (suc j) h = h
  At-modify_at keep (t ∷ ts) (suc i) zero h = h
  At-modify_at keep (t ∷ ts) (suc i) (suc j) h = At-modify_at keep ts i j h

  pub At-of_modify_at :
      ((t : QueuedTask) → IsOpen (f t) → IsOpen t)
      → (ts : List QueuedTask) (i j : ℕ) → At IsOpen (modify_at j f ts) i
      → At IsOpen ts i
  At-of_modify_at back [] i j h = h
  At-of_modify_at back (t ∷ ts) zero zero h = back t h
  At-of_modify_at back (t ∷ ts) zero (suc j) h = h
  At-of_modify_at back (t ∷ ts) (suc i) zero h = h
  At-of_modify_at back (t ∷ ts) (suc i) (suc j) h = At-of_modify_at back ts i j h

  pub At-closed :
      ((t : QueuedTask) → ¬ IsOpen (f t))
      → (ts : List QueuedTask) (i j : ℕ) → At IsOpen (modify_at j f ts) i
      → i ≢ j
  At-closed closes [] i j h e = h
  At-closed closes (t ∷ ts) zero zero h e = closes t h
  At-closed closes (t ∷ ts) zero (suc j) h e = absurd (omega (arith, e))
  At-closed closes (t ∷ ts) (suc i) zero h e = absurd (omega (arith, e))
  At-closed closes (t ∷ ts) (suc i) (suc j) h e = At-closed closes ts i j h (omega (arith, e))

pub At-append :
    (ts : List QueuedTask) (u : QueuedTask) (i : ℕ)
    → At IsCancelled ts i
    → At IsCancelled (ts ++ (u ∷ [])) i
At-append [] u i h = absurd h
At-append (t ∷ ts) u zero h = h
At-append (t ∷ ts) u (suc i) h = At-append ts u i h

pub At-append_cases :
    (ts : List QueuedTask) (u : QueuedTask) (i : ℕ)
    → At IsOpen (ts ++ (u ∷ [])) i
    → At IsOpen ts i ⊎ (i ≡ length ts)
At-append_cases [] u zero h = inr refl
At-append_cases [] u (suc i) h = absurd h
At-append_cases (t ∷ ts) u zero h = inl h
At-append_cases (t ∷ ts) u (suc i) h = elim (At-append_cases ts u i h) [
  | inl k ↦ inl k
  | inr e ↦ inr (ap suc e)
]

pub complete_closes : (error : Bytes) (t : QueuedTask) → ¬ IsOpen (complete error t)
unfolding complete
complete_closes error t h = ground arith

pub run_task_closes : (thrown : Bytes) (t : QueuedTask) → ¬ IsOpen (run_task thrown t)
unfolding run_task complete
run_task_closes thrown t h = ground (arith, state-cases t.state)

pub complete_back : (error : Bytes) (t : QueuedTask) → IsOpen (complete error t) → IsOpen t
complete_back error t h = absurd (complete_closes error t h)

pub run_task_back : (thrown : Bytes) (t : QueuedTask) → IsOpen (run_task thrown t) → IsOpen t
run_task_back thrown t h = absurd (run_task_closes thrown t h)

pub cancel_back : (t : QueuedTask) → IsOpen (cancel t) → IsOpen t
unfolding cancel
cancel_back t h = ground (arith, state-cases t.state)

complete_keeps : (error : Bytes) (t : QueuedTask) → IsCancelled t → IsCancelled (complete error t)
unfolding complete
complete_keeps error t h = ground arith

run_task_keeps : (thrown : Bytes) (t : QueuedTask) → IsCancelled t → IsCancelled (run_task thrown t)
unfolding run_task complete
run_task_keeps thrown t h = ground arith

cancel_keeps : (t : QueuedTask) → IsCancelled t → IsCancelled (cancel t)
unfolding cancel
cancel_keeps t h = ground arith

fail_one_keeps :
    (error : Bytes) (s : Server) (i : ℕ)
    → At IsCancelled s.store i
    → At IsCancelled (fail_one error s).store i
unfolding fail_one
fail_one_keeps error s i h = elim (deque-cases s.failing) [
  | inl e ↦ ground (arith, e, h)
  | inr (j, js, e) ↦
      ground (arith, e, At-modify_at (complete error) (complete_keeps error) s.store i j h)
]

drain_one_keeps :
    (thrown : Bytes) (s : Server) (i : ℕ)
    → At IsCancelled s.store i
    → At IsCancelled (drain_one thrown s).store i
unfolding drain_one
drain_one_keeps thrown s i h = elim (deque-cases s.pending) [
  | inl e ↦ ground (arith, e, h)
  | inr (j, js, e) ↦
      ground (arith, e, At-modify_at (run_task thrown) (run_task_keeps thrown) s.store i j h)
]

step_keeps :
    (s : Server) (op : Operation) (i : ℕ)
    → At IsCancelled s.store i
    → At IsCancelled (step s op).store i
unfolding step enqueue request_stop drain_swap fail_swap report_running
step_keeps s (submit b) i h = ground (arith, At-append s.store (new_task b) i h)
step_keeps s (time_out j) i h = At-modify_at cancel cancel_keeps s.store i j h
step_keeps s stop_request i h = h
step_keeps s swap_drain i h = elim (deque-cases s.pending) [
  | inl e ↦ rw e h
  | inr (j, js, e) ↦ rw e h
]
step_keeps s swap_fail i h = elim (deque-cases s.failing) [
  | inl e ↦ rw e h
  | inr (j, js, e) ↦ rw e h
]
step_keeps s (run_one thrown) i h = drain_one_keeps thrown s i h
step_keeps s fail_stopped i h = fail_one_keeps _ s i h
step_keeps s fail_failed i h = fail_one_keeps _ s i h
step_keeps s report i h = ground arith
step_keeps s finish i h = h
step_keeps s set_failure i h = h

-- A task that `invoke` has cancelled after its time-out, and that was not called before, stays
-- cancelled and is never called, in any interleaving of the threads.
pub timed_out_never_runs :
    (s : Server) (ops : List Operation) (i : ℕ)
    → At IsCancelled s.store i
    → At IsCancelled (run s ops).store i
unfolding run
timed_out_never_runs s [] i h = h
timed_out_never_runs s (op ∷ ops) i h = timed_out_never_runs (step s op) ops i (step_keeps s op i h)
