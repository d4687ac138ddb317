-- ===== src/Dispatcher/Invoke.antt =====
-- src/operation_dispatcher.cpp, `invoke` and `encodeOutputs`.
use rtt_opcua.Base.{
  ℕ, zero, suc, ◌+◌, Bool, not, ◌||◌, Option, none, some, List, [], ◌∷◌, ◌++◌, ◌==◌, if◌then◌else◌,
  length, get_elem?, ℤ, pos, negsuc,
}
use rtt_opcua.Lease.{ComponentState, construct, release, holds}
use rtt_opcua.Dispatcher.{
  StatusCode, good, bad_not_connected, bad_configuration_error, bad_invalid_argument,
  bad_internal_error, bad_timeout, bad_resource_unavailable, bad_not_supported,
  bad_unexpected_error, Dispatcher, held_lease, CallPoll, SendPoll, Ending, succeeded, unavailable,
  late, raised, await_call, await_send,
}

-- What RTT and the codecs answer during one invocation: the arities of the operation; the input at
-- an index decoded by the codec of its type; whether the caller's construction or its check throws;
-- whether the caller is ready; whether it can be sent; for an operation that is called, the supported
-- schema's sources; the new value of the collected type at an index; whether the send handle is
-- ready; what each look at the operation finds; and whether a later look, without a deadline, finds it
-- ended.
pub record Answers (Source Variant : Type 0) : Type 0 where
  pub arity : ℕ
  pub collect_arity : ℕ
  pub decode : ℕ → Variant → Option Source
  pub caller_throws : Bool
  pub check_throws : Bool
  pub caller_ready : Bool
  pub can_send : Bool
  pub schema_sources : Option (List ℤ)
  pub build_value : ℕ → Option Source
  pub handle_ready : Bool
  pub call_polls : List CallPoll
  pub send_polls : List SendPoll
  pub wait_ends : Bool
  pub to_variant : Source → Option Variant

-- How the body ends: with a status and the outputs, or with a retained operation.
pub data BodyEnd (Variant : Type 0) : Type 0 where
  replies : StatusCode → List Variant → BodyEnd Variant
  retains : BodyEnd Variant

module _ {Source Variant : Type 0} (answers : Answers Source Variant) where
  -- The loop over the inputs.
  unfoldable pub decode_inputs : ℕ → List Variant → Option (List Source)
  decode_inputs index [] = some []
  decode_inputs index (v ∷ vs) = elim (answers.decode index v) [
    | none ↦ none
    | some source ↦ elim (decode_inputs (index + 1) vs) [
      | none ↦ none
      | some sources ↦ some (source ∷ sources)
    ]
  ]

  -- The loop of `encodeOutputs`: the outputs so far are written when it fails.
  unfoldable pub encode_values : List Source → List Variant → List Variant × StatusCode
  encode_values (source ∷ sources) (old ∷ outputs) = elim (answers.to_variant source) [
    | none ↦ (old ∷ outputs, bad_internal_error)
    | some v ↦ (let (rest, status) = encode_values sources outputs in (v ∷ rest, status))
  ]
  encode_values _ outputs = (outputs, good)

  -- `encodeOutputs`
  unfoldable pub encode_outputs : List Source → List Variant → List Variant × StatusCode
  unfolding encode_values
  encode_outputs values outputs =
      if not (length values == length outputs)
      then (outputs, bad_internal_error)
      else encode_values values outputs

  -- The value that is collected for an output, by its source.
  unfoldable pub collected_value : List Source → ℕ → ℤ → Option Source
  collected_value inputs index (negsuc n) = if n == 0 then answers.build_value index else none
  collected_value inputs index (pos j) = get_elem? inputs j

  -- The loop over the sources of a called operation.
  unfoldable pub collect_call : List Source → ℕ → List ℤ → Option (List Source)
  unfolding collected_value
  collect_call inputs index [] = some []
  collect_call inputs index (source ∷ sources) = elim (collected_value inputs index source) [
    | none ↦ none
    | some value ↦ elim (collect_call inputs (index + 1) sources) [
      | none ↦ none
      | some values ↦ some (value ∷ values)
    ]
  ]

  -- The loop over the collected types of a sent operation: the index and the number that is left.
  unfoldable pub collect_send : ℕ → ℕ → Option (List Source)
  collect_send index zero = some []
  collect_send index (suc left) = elim (answers.build_value index) [
    | none ↦ none
    | some value ↦ elim (collect_send (index + 1) left) [
      | none ↦ none
      | some values ↦ some (value ∷ values)
    ]
  ]

  -- What follows the wait.
  unfoldable pub conclude : List Source → List Variant → Ending → BodyEnd Variant
  unfolding encode_outputs
  conclude values outputs succeeded =
      let (outputs', status) = encode_outputs values outputs in replies status outputs'
  conclude values outputs unavailable = replies bad_resource_unavailable outputs
  conclude values outputs late = retains
  conclude values outputs raised = replies bad_unexpected_error outputs

  -- The wait and what follows it; `none` while the operation neither ends nor is late.
  abbrev pub await_end : List Source → List Variant → Option Ending → Option (BodyEnd Variant)
  await_end values outputs none = none
  await_end values outputs (some ending) = some (conclude values outputs ending)

  -- An operation that is called by a thread.
  unfoldable pub invoke_call : List Source → List Variant → Option (BodyEnd Variant)
  unfolding collect_call await_call conclude
  invoke_call inputs outputs = elim answers.schema_sources [
    | none ↦ some (replies bad_not_supported outputs)
    | some sources ↦
        if not (length sources == length outputs)
        then some (replies bad_not_supported outputs)
        else elim (collect_call inputs 0 sources) [
          | none ↦ some (replies bad_not_supported outputs)
          | some values ↦ await_end values outputs (await_call answers.call_polls)
        ]
  ]

  -- An operation that is sent.
  unfoldable pub invoke_send : List Variant → Option (BodyEnd Variant)
  unfolding collect_send await_send conclude
  invoke_send outputs = elim (collect_send 0 answers.collect_arity) [
    | none ↦ some (replies bad_not_supported outputs)
    | some values ↦
        if not answers.handle_ready
        then some (replies bad_internal_error outputs)
        else await_end values outputs (await_send answers.send_polls)
  ]

  -- The part of `invoke` behind the lease; the flag says that the timeout is positive.
  unfoldable pub invoke_body : Bool → List Variant → List Variant → Option (BodyEnd Variant)
  unfolding decode_inputs invoke_call invoke_send
  invoke_body has_timeout inputs outputs =
      if not has_timeout
      then some (replies bad_configuration_error outputs)
      else if not (length inputs == answers.arity) || not (length outputs == answers.collect_arity)
      then some (replies bad_invalid_argument outputs)
      else if answers.caller_throws
      then some (replies bad_unexpected_error outputs)
      else elim (decode_inputs 0 inputs) [
        | none ↦ some (replies bad_invalid_argument outputs)
        | some sources ↦
            if answers.check_throws
            then some (replies bad_unexpected_error outputs)
            else if not answers.caller_ready
            then some (replies bad_internal_error outputs)
            else if answers.can_send
            then invoke_send outputs
            else invoke_call sources outputs
      ]

-- The state, the dispatcher, the status and the outputs when `invoke` returns.
pub record Outcome (Variant : Type 0) : Type 0 where
  pub state : ComponentState
  pub dispatcher : Dispatcher
  pub status : StatusCode
  pub outputs : List Variant

-- `retainPending` of the invocation with a number: it is kept with its lease, or, while the
-- dispatcher drains, the thread waits in `wait` until it ends, and then its lease is released; `none`
-- where it never ends, so that the wait does not either.
unfoldable pub retain :
    Bool → ℕ → ComponentState → Dispatcher → Option (ComponentState × Dispatcher)
unfolding release
retain wait_ends id state d =
    if not d.draining
    then some (state, record d { invocations = d.invocations ++ (id ∷ []) })
    else if wait_ends
    then some ((release state held_lease).0, d)
    else none

-- `OperationDispatcher::invoke`
unfoldable pub invoke :
    {Source Variant : Type 0}
    → Answers Source Variant
    → Bool
    → ℕ
    → ComponentState
    → Dispatcher
    → List Variant
    → List Variant
    → Option (Outcome Variant)
unfolding construct holds release retain invoke_body
invoke answers has_timeout id state d inputs outputs =
    let (state', lease) = construct state in
    if not (holds lease)
    then some
        (record { state = state'; dispatcher = d; status = bad_not_connected; outputs = outputs })
    else elim (invoke_body answers has_timeout inputs outputs) [
      | none ↦ none
      | some (replies status outputs') ↦ some (record {
        state = (release state' lease).0;
        dispatcher = d;
        status = status;
        outputs = outputs';
      })
      | some retains ↦ elim (retain answers.wait_ends id state' d) [
        | none ↦ none
        | some (after, d') ↦
            some
              (record { state = after; dispatcher = d'; status = bad_timeout; outputs = outputs })
      ]
    ]
