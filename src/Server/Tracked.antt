-- ===== src/Server/Tracked.antt =====
-- No task of src/server.cpp is lost.
use rtt_opcua.Base.{
  ℕ, ◌≡◌, ◌≢◌, ◌⊎◌, inl, inr, Bool, List, [], ◌∷◌, Bool-cases, length, In, In-append_left,
  In-append_right, Bytes,
}
use rtt_opcua.Server.{
  is_running, new_task, complete, cancel, run_task, Server, enqueue, request_stop, drain_swap,
  drain_one, fail_swap, fail_one, report_running, Operation, submit, time_out, stop_request,
  swap_drain, swap_fail, run_one, fail_stopped, fail_failed, report, finish, set_failure, step, run,
}
use rtt_opcua.Server.Queue.{deque-cases}
use rtt_opcua.Server.Answer.{
  At, IsOpen, At-of_modify_at, At-closed, At-append_cases, complete_closes, run_task_closes,
  complete_back, run_task_back, cancel_back,
}

-- Every task that an `invoke` waits for is in one of the three deques.
abbrev pub IsTracked : Server → Type 0
IsTracked s = (i : ℕ) → At IsOpen s.store i → In i s.tasks ⊎ In i s.pending ⊎ In i s.failing

In-tail : (i j : ℕ) (js : List ℕ) → In i (j ∷ js) → i ≢ j → In i js
In-tail i j js (inl e) n = absurd (n e)
In-tail i j js (inr h) n = h

submit-IsTracked : (b : Bool) (s : Server) → IsTracked s → IsTracked (enqueue b s)
unfolding enqueue
submit-IsTracked b s v i = elim (Bool-cases (is_running s.current_state)) [
  | inr e ↦ rw e (v i)
  | inl e ↦ rw e (λ h. elim (At-append_cases s.store (new_task b) i h) [
    | inr k ↦ inl (In-append_right i s.tasks (length s.store ∷ []) (inl k))
    | inl k ↦ elim (v i k) [
      | inl m ↦ inl (In-append_left i s.tasks (length s.store ∷ []) m)
      | inr m ↦ inr m
    ]
  ])
]

drain_one-IsTracked : (thrown : Bytes) (s : Server) → IsTracked s → IsTracked (drain_one thrown s)
unfolding drain_one
drain_one-IsTracked thrown s v i = elim (deque-cases s.pending) [
  | inl e ↦ rw e (λ h. rw e at (v i h))
  | inr (j, js, e) ↦ rw e (λ h.
      elim (rw e at
        (v i (At-of_modify_at (run_task thrown) (run_task_back thrown) s.store i j h))) [
          | inl m ↦ inl m
          | inr (inl m) ↦ inr (
              inl (
                In-tail i j js m
                  (At-closed (run_task thrown) (run_task_closes thrown) s.store i j h)))
          | inr (inr m) ↦ inr (inr m)
        ])
]

fail_one-IsTracked : (error : Bytes) (s : Server) → IsTracked s → IsTracked (fail_one error s)
unfolding fail_one
fail_one-IsTracked error s v i = elim (deque-cases s.failing) [
  | inl e ↦ rw e (λ h. rw e at (v i h))
  | inr (j, js, e) ↦ rw e (λ h.
      elim (rw e at (v i (At-of_modify_at (complete error) (complete_back error) s.store i j h))) [
        | inl m ↦ inl m
        | inr (inl m) ↦ inr (inl m)
        | inr (inr m) ↦ inr (
            inr
              (In-tail i j js m (At-closed (complete error) (complete_closes error) s.store i j h)))
      ])
]

drain_swap-IsTracked : (s : Server) → IsTracked s → IsTracked (drain_swap s)
unfolding drain_swap
drain_swap-IsTracked s v i = elim (deque-cases s.pending) [
  | inl e ↦ rw e (λ h. elim (rw e at (v i h)) [
    | inl m ↦ inr (inl m)
    | inr (inl m) ↦ absurd m
    | inr (inr m) ↦ inr (inr m)
  ])
  | inr (j, js, e) ↦ rw e (λ h. rw e at (v i h))
]

fail_swap-IsTracked : (s : Server) → IsTracked s → IsTracked (fail_swap s)
unfolding fail_swap
fail_swap-IsTracked s v i = elim (deque-cases s.failing) [
  | inl e ↦ rw e (λ h. elim (rw e at (v i h)) [
    | inl m ↦ inr (inr m)
    | inr (inl m) ↦ inr (inl m)
    | inr (inr m) ↦ absurd m
  ])
  | inr (j, js, e) ↦ rw e (λ h. rw e at (v i h))
]

step-IsTracked : (s : Server) (op : Operation) → IsTracked s → IsTracked (step s op)
unfolding step request_stop report_running
step-IsTracked s (submit b) v = submit-IsTracked b s v
step-IsTracked s (time_out j) v = λ i h. v i (At-of_modify_at cancel cancel_back s.store i j h)
step-IsTracked s stop_request v = v
step-IsTracked s swap_drain v = drain_swap-IsTracked s v
step-IsTracked s swap_fail v = fail_swap-IsTracked s v
step-IsTracked s (run_one thrown) v = drain_one-IsTracked thrown s v
step-IsTracked s fail_stopped v = fail_one-IsTracked _ s v
step-IsTracked s fail_failed v = fail_one-IsTracked _ s v
step-IsTracked s report v = elim (Bool-cases s.stop_requested) [ inl e ↦ rw e v | inr e ↦ rw e v ]
step-IsTracked s finish v = v
step-IsTracked s set_failure v = v

run-IsTracked : (s : Server) (ops : List Operation) → IsTracked s → IsTracked (run s ops)
unfolding run
run-IsTracked s [] v = v
run-IsTracked s (op ∷ ops) v = run-IsTracked (step s op) ops (step-IsTracked s op v)

-- No task is lost, in any interleaving of the threads: from a server where every task that is
-- waited for is in one of the three deques, whenever these are empty later, no task with a
-- completion is without an answer.
pub answered_when_drained :
    (s : Server) (ops : List Operation)
    → IsTracked s
    → (run s ops).tasks ≡ []
    → (run s ops).pending ≡ []
    → (run s ops).failing ≡ []
    → (i : ℕ) → ¬ At IsOpen (run s ops).store i
answered_when_drained s ops v a b c i h =
    elim (rw a at rw b at rw c at (run-IsTracked s ops v i h)) [
      | inl k ↦ k
      | inr (inl k) ↦ k
      | inr (inr k) ↦ k
    ]
