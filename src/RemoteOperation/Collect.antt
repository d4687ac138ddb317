-- ===== src/RemoteOperation/Collect.antt =====
-- src/remote_operation.cpp, `RemoteCollectDataSource`: the collection of the outputs of a call that
-- was sent.
use rtt_opcua.Base.{
  Bool, true, false, not, ◌||◌, Option, none, some, List, ◌∷◌, ◌==◌, if◌then◌else◌, length, Bytes,
}
use rtt_opcua.RemoteOperation.Call.{RemoteCallResult, Codecs, assign_output}

-- `RTT::SendStatus`
pub data SendStatus : Type 0 where
  send_success send_not_ready send_failure : SendStatus

-- What the future of the invocation answers: it waits, it holds a result, it holds a null pointer,
-- or it throws.
pub data Future (Variant : Type 0) : Type 0 where
  waiting : Future Variant
  holds : RemoteCallResult Variant → Future Variant
  holds_null : Future Variant
  throws : Future Variant

pub record CollectSource (Source : Type 0) : Type 0 where
  pub has_invocation : Bool
  pub destinations : List Source
  pub output_types : List Bytes
  pub status : SendStatus

unfoldable pub is_final : SendStatus → Bool
is_final send_success = true
is_final send_failure = true
is_final send_not_ready = false

module _ {Store Source Variant : Type 0} (codecs : Codecs Store Source Variant) where
  -- The loop over the destinations.
  unfoldable pub collect_outputs : List Bytes → List Source → List Variant → Store → Store × Bool
  unfolding assign_output
  collect_outputs (type ∷ types) (d ∷ destinations) (v ∷ vs) store =
      let (store', done) = assign_output codecs type (some d) v store in
      let rest = collect_outputs types destinations vs store' in
      if done then rest else (store', false)
  collect_outputs _ _ _ store = (store, true)

  -- The part of `get` behind the wait.
  unfoldable pub take_result :
      Future Variant → CollectSource Source → Store → Store × CollectSource Source
  unfolding collect_outputs
  take_result (holds result) c store =
      if not result.success
        || not (length result.outputs == length c.destinations)
        || not (length c.destinations == length c.output_types)
      then (store, record c { status = send_failure })
      else (let (store', done) =
            collect_outputs c.output_types c.destinations result.outputs store in
          (store', record c { status = if done then send_success else send_failure }))
  take_result holds_null c store = (store, record c { status = send_failure })
  take_result throws c store = (store, record c { status = send_failure })
  take_result waiting c store = (store, c)

  -- `get`; `none` while it blocks on a future that waits.
  unfoldable pub get :
      Bool → Future Variant → CollectSource Source → Store → Option (Store × CollectSource Source)
  unfolding is_final take_result
  get blocking future c store =
      if is_final c.status
      then some (store, c)
      else if not c.has_invocation
      then some (store, record c { status = send_failure })
      else elim future [
        | waiting ↦ if blocking then none else some (store, record c { status = send_not_ready })
        | holds result ↦ some (take_result (holds result) c store)
        | holds_null ↦ some (take_result holds_null c store)
        | throws ↦ some (take_result throws c store)
      ]
