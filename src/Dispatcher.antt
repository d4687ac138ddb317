-- ===== src/Dispatcher.antt =====
-- src/operation_dispatcher.cpp: the invocation of an operation under a lease, with its deadline, and
-- the calls that are retained until they end. What RTT answers during one invocation is an argument.
pub mod Invoke
pub mod Balance
pub mod Values
pub mod Polls
pub mod Good
pub mod Drained
use rtt_opcua.Base.{
  ℕ, Bool, true, false, Option, none, some, List, [], ◌∷◌, if◌then◌else◌, is_empty,
}
use rtt_opcua.Lease.{ComponentState, ComponentLease, release}
use rtt_opcua.RemoteOperation.Collect.{SendStatus, send_success, send_not_ready, send_failure}

pub data StatusCode : Type 0 where
  good bad_not_connected bad_configuration_error bad_invalid_argument : StatusCode
  bad_internal_error bad_timeout bad_resource_unavailable bad_not_supported : StatusCode
  bad_unexpected_error : StatusCode

-- The retained invocations, known by a number each; each holds a lease.
pub record Dispatcher : Type 0 where
  pub invocations : List ℕ
  pub draining : Bool

-- The lease that an invocation holds.
abbrev pub held_lease : ComponentLease
held_lease = record { state = true; component = true }

-- `reapOnce`, where a predicate says which invocations `collectIfDone`; the lease of an invocation
-- that is erased is released.
unfoldable pub reap_once : (ℕ → Bool) → ComponentState → List ℕ → ComponentState × List ℕ
unfolding release
reap_once done state [] = (state, [])
reap_once done state (i ∷ is) =
    let (state', kept) = reap_once done state is in
    if done i then ((release state' held_lease).0, kept) else (state', i ∷ kept)

-- `drain`, with what is done in each round; `none` when there are no more rounds to look at.
unfoldable pub drain_rounds :
    List (ℕ → Bool) → ComponentState → List ℕ → Option (ComponentState × List ℕ)
unfolding reap_once
drain_rounds [] state invocations = none
drain_rounds (done ∷ rounds) state invocations =
    let (state', kept) = reap_once done state invocations in
    let rest = drain_rounds rounds state' kept in
    if is_empty kept then some (state', kept) else rest

unfoldable pub drain :
    List (ℕ → Bool) → ComponentState → Dispatcher → Option (ComponentState × Dispatcher)
unfolding drain_rounds
drain rounds state d = elim (drain_rounds rounds state d.invocations) [
  | none ↦ none
  | some (state', kept) ↦ some (state', record { invocations = kept; draining = true })
]

-- A look at the future of a call: it is not ready, and whether the deadline has passed; it holds the
-- call's result; or it throws.
pub data CallPoll : Type 0 where
  not_ready : Bool → CallPoll
  returned : Bool → CallPoll
  call_raised : CallPoll

-- A look at a sent operation: its status and whether the deadline has passed, or an exception.
pub data SendPoll : Type 0 where
  polled : SendStatus → Bool → SendPoll
  send_raised : SendPoll

-- How the wait for an operation ends.
pub data Ending : Type 0 where
  succeeded unavailable late raised : Ending

-- The loop on the future.
unfoldable pub await_call : List CallPoll → Option Ending
await_call [] = none
await_call (not_ready false ∷ polls) = await_call polls
await_call (not_ready true ∷ polls) = some late
await_call (returned true ∷ polls) = some succeeded
await_call (returned false ∷ polls) = some unavailable
await_call (call_raised ∷ polls) = some raised

-- The loop on the send handle.
unfoldable pub await_send : List SendPoll → Option Ending
await_send [] = none
await_send (polled send_success l ∷ polls) = some succeeded
await_send (polled send_failure l ∷ polls) = some unavailable
await_send (polled send_not_ready true ∷ polls) = some late
await_send (polled send_not_ready false ∷ polls) = await_send polls
await_send (send_raised ∷ polls) = some raised
