-- ===== src/Tests/Invocations.antt =====
-- Invocations on the server: one that succeeds, one that is retained past its deadline, and a drain.
use rtt_opcua.Base.{
  ℕ, ◌+◌, ◌≡◌, refl, ◌⊎◌, inl, inr, Bool, true, false, none, some, List, [], ◌∷◌, ◌++◌, arith,
  is_some, length, Any,
}
use rtt_opcua.Lease.{ComponentState, construct, release, holds}
use rtt_opcua.RemoteOperation.Collect.{send_success, send_not_ready}
use rtt_opcua.Dispatcher.{good, bad_timeout, Dispatcher, drain, not_ready, polled, await_send}
use rtt_opcua.Dispatcher.Invoke.{
  Answers, decode_inputs, collect_send, conclude, invoke_send, invoke_body, Outcome, retain, invoke,
}
use rtt_opcua.Dispatcher.Balance.{SameFlags, invoke_balance}
use rtt_opcua.Dispatcher.Polls.{invoke_returns}
use rtt_opcua.Dispatcher.Drained.{drain_releases}

abbrev active : ComponentState
active = record {
  has_component = true;
  admission_closed = false;
  is_active = true;
  users = 1;
  sleeping = 0;
}

abbrev dispatcher : Dispatcher
dispatcher = record { invocations = 4 ∷ []; draining = false }

-- A sent operation with one output, whose value is 3.
abbrev answers : Answers ℕ ℕ
answers = record {
  arity = 1;
  collect_arity = 1;
  decode = λ index v. some v;
  caller_throws = false;
  check_throws = false;
  caller_ready = true;
  can_send = true;
  schema_sources = none;
  build_value = λ index. some 3;
  handle_ready = true;
  call_polls = not_ready true ∷ [];
  send_polls = polled send_not_ready false ∷ polled send_success true ∷ [];
  wait_ends = false;
  to_variant = λ value. some value;
}

abbrev slow : Answers ℕ ℕ
slow = record answers { send_polls = polled send_not_ready false ∷ polled send_not_ready true ∷ [] }

abbrev finished : Outcome ℕ
finished = record { state = active; dispatcher = dispatcher; status = good; outputs = 3 ∷ [] }

abbrev timed_out : Outcome ℕ
timed_out = record {
  state = record active { users = 2 };
  dispatcher = record dispatcher { invocations = 4 ∷ 5 ∷ [] };
  status = bad_timeout;
  outputs = 0 ∷ [];
}

invoke_times_out : invoke slow true 5 active dispatcher (7 ∷ []) (0 ∷ []) ≡ some timed_out
unfolding invoke construct holds release retain invoke_body decode_inputs invoke_send collect_send
    await_send conclude
invoke_times_out = refl

invoke_balance_example :
    SameFlags active timed_out.state
    × (timed_out.state.users + length dispatcher.invocations
        ≡ active.users + length timed_out.dispatcher.invocations)
    × ((timed_out.dispatcher.invocations ≡ dispatcher.invocations)
        ⊎ ((timed_out.status ≡ bad_timeout)
            × (timed_out.dispatcher.invocations ≡ dispatcher.invocations ++ (5 ∷ []))))
invoke_balance_example =
    invoke_balance slow true 5 active dispatcher (7 ∷ []) (0 ∷ []) timed_out (omega arith)
      invoke_times_out

invoke_returns_example :
    (o : Outcome ℕ) × (invoke answers true 5 active dispatcher (7 ∷ []) (0 ∷ []) ≡ some o)
invoke_returns_example =
    invoke_returns answers true 5 active dispatcher (7 ∷ []) (0 ∷ []) (inl (λ e. cc))
      (inr (inl (λ e. cc))) (inl refl)

abbrev rounds : List (ℕ → Bool)
rounds = (λ i. false) ∷ (λ i. true) ∷ []

drain_releases_example :
    (Any (λ (done : ℕ → Bool). (i : ℕ) → done i ≡ true) rounds
      → is_some (drain rounds active dispatcher) ≡ true)
    × ((end : ComponentState × Dispatcher)
        → drain rounds active dispatcher ≡ some end
        → (end.1 ≡ record { invocations = []; draining = true })
          × (end.0.users + length dispatcher.invocations ≡ active.users))
drain_releases_example = drain_releases rounds active dispatcher (omega arith) (omega arith)
