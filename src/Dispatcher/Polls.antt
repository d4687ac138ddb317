-- ===== src/Dispatcher/Polls.antt =====
-- An invocation in src/operation_dispatcher.cpp returns.
use rtt_opcua.Base.{
  ℕ, ◌≡◌, refl, ◌≢◌, ◌⊎◌, inl, inr, Bool, true, false, Option, none, some, List, [], ◌∷◌, arith,
  Option-cases, is_some, Any,
}
use rtt_opcua.Lease.{ComponentState}
use rtt_opcua.RemoteOperation.Collect.{send_success, send_not_ready, send_failure}
use rtt_opcua.Dispatcher.{
  Dispatcher, CallPoll, not_ready, returned, call_raised, SendPoll, polled, send_raised, Ending,
  succeeded, unavailable, late, raised, await_call, await_send,
}
use rtt_opcua.Dispatcher.Balance.{BodyEnd-cases}
use rtt_opcua.Dispatcher.Invoke.{
  Answers, decode_inputs, collect_call, collect_send, invoke_call, invoke_send, invoke_body,
  Outcome, invoke,
}

-- A look that finds the operation ended, or the deadline passed.
abbrev pub EndsCall : CallPoll → Type 0
EndsCall poll = poll ≢ not_ready false

abbrev pub EndsSend : SendPoll → Type 0
EndsSend poll = poll ≢ polled send_not_ready false

await_call_total :
    (polls : List CallPoll) → Any EndsCall polls → (e : Ending) × (await_call polls ≡ some e)
unfolding await_call
await_call_total [] h = elim h [ ]
await_call_total (not_ready false ∷ polls) (inl h) = absurd (h refl)
await_call_total (not_ready false ∷ polls) (inr h) = await_call_total polls h
await_call_total (not_ready true ∷ polls) h = (late, refl)
await_call_total (returned true ∷ polls) h = (succeeded, refl)
await_call_total (returned false ∷ polls) h = (unavailable, refl)
await_call_total (call_raised ∷ polls) h = (raised, refl)

await_send_total :
    (polls : List SendPoll) → Any EndsSend polls → (e : Ending) × (await_send polls ≡ some e)
unfolding await_send
await_send_total [] h = elim h [ ]
await_send_total (polled send_not_ready false ∷ polls) (inl h) = absurd (h refl)
await_send_total (polled send_not_ready false ∷ polls) (inr h) = await_send_total polls h
await_send_total (polled send_not_ready true ∷ polls) h = (late, refl)
await_send_total (polled send_success l ∷ polls) h = (succeeded, refl)
await_send_total (polled send_failure l ∷ polls) h = (unavailable, refl)
await_send_total (send_raised ∷ polls) h = (raised, refl)

some_of : {A : Type 0} (o : Option A) → is_some o ≡ true → (a : A) × (o ≡ some a)
some_of none h = absurd cc
some_of (some a) h = (a, refl)

module _ {Source Variant : Type 0} (answers : Answers Source Variant) where
  call_total :
      (inputs : List Source) (outputs : List Variant)
      → Any EndsCall answers.call_polls
      → is_some (invoke_call answers inputs outputs) ≡ true
  unfolding invoke_call
  call_total inputs outputs c =
      let (x, e) = await_call_total answers.call_polls c in
      elim (Option-cases answers.schema_sources) [
        | inl f ↦ ground (arith, f)
        | inr (sources, f) ↦ elim (Option-cases (collect_call answers inputs 0 sources)) [
          | inl g ↦ ground (arith, f, g)
          | inr (values, g) ↦ ground (arith, e, f, g)
        ]
      ]

  send_total :
      (outputs : List Variant)
      → Any EndsSend answers.send_polls
      → is_some (invoke_send answers outputs) ≡ true
  unfolding invoke_send
  send_total outputs s =
      let (y, e) = await_send_total answers.send_polls s in
      elim (Option-cases (collect_send answers 0 answers.collect_arity)) [
        | inl g ↦ ground (arith, g)
        | inr (values, g) ↦ ground (arith, e, g)
      ]

  body_total :
      (has_timeout : Bool) (inputs outputs : List Variant)
      → Any EndsCall answers.call_polls
      → Any EndsSend answers.send_polls
      → is_some (invoke_body answers has_timeout inputs outputs) ≡ true
  unfolding invoke_body
  body_total has_timeout inputs outputs c s = elim (Option-cases (decode_inputs answers 0 inputs)) [
    | inl e ↦ ground (arith, e)
    | inr (sources, e) ↦ ground (arith, e, call_total sources outputs c, send_total outputs s)
  ]

  invoke_some :
      (has_timeout : Bool) (id : ℕ) (state : ComponentState) (d : Dispatcher)
      (inputs outputs : List Variant)
      → Any EndsCall answers.call_polls
      → Any EndsSend answers.send_polls
      → (d.draining ≡ false) ⊎ (answers.wait_ends ≡ true)
      → is_some (invoke answers has_timeout id state d inputs outputs) ≡ true
  unfolding invoke
  invoke_some has_timeout id state d inputs outputs c s w =
      let some_body = body_total has_timeout inputs outputs c s in
      elim (BodyEnd-cases (invoke_body answers has_timeout inputs outputs)) [
        | inl e ↦ absurd (cc (rw e at some_body))
        | inr (inl (status, outputs', e)) ↦ ground (arith, e)
        | inr (inr e) ↦ ground (arith, e, w)
      ]

  -- Where a look at the operation finds it ended or the deadline passed, and, if the dispatcher drains,
  -- a later look finds it ended, the invocation returns.
  pub invoke_returns :
      (has_timeout : Bool) (id : ℕ) (state : ComponentState) (d : Dispatcher)
      (inputs outputs : List Variant)
      → Any EndsCall answers.call_polls
      → Any EndsSend answers.send_polls
      → (d.draining ≡ false) ⊎ (answers.wait_ends ≡ true)
      → (o : Outcome Variant) × (invoke answers has_timeout id state d inputs outputs ≡ some o)
  invoke_returns has_timeout id state d inputs outputs c s w =
      some_of (invoke answers has_timeout id state d inputs outputs)
        (invoke_some has_timeout id state d inputs outputs c s w)
