-- ===== src/Server/Queue.antt =====
-- The promises of the task queue of src/server.cpp, over every interleaving of its steps.
use rtt_opcua.Base.{
  ℕ, zero, suc, ◌≡◌, refl, subst, ◌≢◌, ◌⊎◌, inl, inr, Bool, true, some, List, [], ◌∷◌, ◌++◌, arith,
  get_elem?, All, Bytes, codes,
}
use rtt_opcua.Server.{
  QueuedTaskState, task_queued, task_running, task_cancelled, QueuedTask, new_task, complete,
  cancel, run_task, invoke_result, Server, modify_at, enqueue, request_stop, drain_swap, drain_one,
  fail_swap, fail_one, report_running, Operation, submit, time_out, stop_request, swap_drain,
  swap_fail, run_one, fail_stopped, fail_failed, report, finish, set_failure, step, run,
}

-- A cancelled task is not called, a started one is called once, and a completion without an error
-- is that of a call.
pub record IsSound (t : QueuedTask) : Type 0 where
  pub fresh : t.state ≡ task_queued → t.calls ≡ 0
  pub started : t.state ≡ task_running → t.calls ≡ 1
  pub dropped : t.state ≡ task_cancelled → t.calls ≡ 0
  pub succeeded : t.done ≡ true → t.error ≡ [] → t.calls ≡ 1

pub state-cases :
    (q : QueuedTaskState) → (q ≡ task_queued) ⊎ (q ≡ task_running) ⊎ (q ≡ task_cancelled)
state-cases task_queued = inl refl
state-cases task_running = inr (inl refl)
state-cases task_cancelled = inr (inr refl)

new_task-IsSound : (b : Bool) → IsSound (new_task b)
new_task-IsSound b = ground arith

complete-IsSound :
    (error : Bytes) (t : QueuedTask) → error ≢ [] → IsSound t → IsSound (complete error t)
unfolding complete
complete-IsSound error t h v = ground arith

cancel-IsSound : (t : QueuedTask) → IsSound t → IsSound (cancel t)
unfolding cancel
cancel-IsSound t v = ground (arith, state-cases t.state)

run_task-IsSound : (thrown : Bytes) (t : QueuedTask) → IsSound t → IsSound (run_task thrown t)
unfolding run_task complete
run_task-IsSound thrown t v = ground (arith, state-cases t.state)

module _ (P : QueuedTask → Type 0) (f : QueuedTask → QueuedTask)
    (keep : (t : QueuedTask) → P t → P (f t)) where
  All-modify_at : (i : ℕ) (ts : List QueuedTask) → All P ts → All P (modify_at i f ts)
  All-modify_at i [] h = h
  All-modify_at zero (t ∷ ts) h = (keep t h.0, h.1)
  All-modify_at (suc i) (t ∷ ts) h = (h.0, All-modify_at i ts h.1)

All-append :
    (P : QueuedTask → Type 0) (ts : List QueuedTask) (t : QueuedTask)
    → All P ts
    → P t
    → All P (ts ++ (t ∷ []))
All-append P [] t h k = (k, tt)
All-append P (u ∷ ts) t h k = (h.0, All-append P ts t h.1 k)

pub deque-cases : (xs : List ℕ) → (xs ≡ []) ⊎ ((i : ℕ) × (is : List ℕ) × (xs ≡ i ∷ is))
deque-cases [] = inl refl
deque-cases (i ∷ is) = inr (i, is, refl)

stopped_error : codes "OPC UA server stopped" ≢ []
stopped_error = λ e. cc

failed_error : codes "OPC UA server failed" ≢ []
failed_error = λ e. cc

fail_one-IsSound :
    (error : Bytes) (s : Server)
    → error ≢ []
    → All IsSound s.store
    → All IsSound (fail_one error s).store
unfolding fail_one
fail_one-IsSound error s n h = elim (deque-cases s.failing) [
  | inl e ↦ ground (arith, e, h)
  | inr (i, is, e) ↦ ground (
    arith,
    e,
    All-modify_at IsSound (complete error) (λ t. complete-IsSound error t n) i s.store h,
  )
]

drain_one-IsSound :
    (thrown : Bytes) (s : Server) → All IsSound s.store → All IsSound (drain_one thrown s).store
unfolding drain_one
drain_one-IsSound thrown s h = elim (deque-cases s.pending) [
  | inl e ↦ ground (arith, e, h)
  | inr (i, is, e) ↦
      ground
        (arith, e, All-modify_at IsSound (run_task thrown) (run_task-IsSound thrown) i s.store h)
]

-- Every operation keeps the tasks sound: a queued or cancelled task has not been called, a running
-- one has been called once, and so has one that is done without an error.
pub step-IsSound :
    (s : Server) (op : Operation) → All IsSound s.store → All IsSound (step s op).store
unfolding step enqueue request_stop drain_swap fail_swap report_running
step-IsSound s (submit b) h =
    ground (arith, All-append IsSound s.store (new_task b) h (new_task-IsSound b))
step-IsSound s (time_out i) h = All-modify_at IsSound cancel cancel-IsSound i s.store h
step-IsSound s stop_request h = h
step-IsSound s swap_drain h = elim (deque-cases s.pending) [
  | inl e ↦ rw e h
  | inr (i, is, e) ↦ rw e h
]
step-IsSound s swap_fail h = elim (deque-cases s.failing) [
  | inl e ↦ rw e h
  | inr (i, is, e) ↦ rw e h
]
step-IsSound s (run_one thrown) h = drain_one-IsSound thrown s h
step-IsSound s fail_stopped h = fail_one-IsSound _ s stopped_error h
step-IsSound s fail_failed h = fail_one-IsSound _ s failed_error h
step-IsSound s report h = ground arith
step-IsSound s finish h = h
step-IsSound s set_failure h = h

run-IsSound :
    (s : Server) (ops : List Operation) → All IsSound s.store → All IsSound (run s ops).store
unfolding run
run-IsSound s [] h = h
run-IsSound s (op ∷ ops) h = run-IsSound (step s op) ops (step-IsSound s op h)

All-get :
    (ts : List QueuedTask) (i : ℕ) (t : QueuedTask)
    → All IsSound ts
    → get_elem? ts i ≡ some t
    → IsSound t
All-get [] i t h e = absurd cc
All-get (u ∷ ts) zero t h e = subst IsSound (cc) h.0
All-get (u ∷ ts) (suc i) t h e = All-get ts i t h.1 e

-- An `invoke` that returns success, in any interleaving of the threads, has had its callback called
-- exactly once.
pub invoke_success :
    (s : Server) (ops : List Operation) (i : ℕ) (t : QueuedTask) (error : Bytes)
    → All IsSound s.store
    → get_elem? (run s ops).store i ≡ some t
    → invoke_result t ≡ some (true, error)
    → t.calls ≡ 1
unfolding invoke_result
invoke_success s ops i t error h at_i e =
    let v = All-get (run s ops).store i t (run-IsSound s ops h) at_i in
    ground (arith, v, state-cases t.state, v.succeeded)
