-- ===== src/Dispatcher/Good.antt =====
-- What stands behind the status good of an invocation in src/operation_dispatcher.cpp.
use rtt_opcua.Base.{◌≡◌, true, false, some, List, length, ℤ}
use rtt_opcua.Dispatcher.{Dispatcher, succeeded, await_call, await_send}
use rtt_opcua.Dispatcher.Invoke.{Answers}
use rtt_opcua.Dispatcher.Values.{AreDecoded, AreEncoded, IsCollected}

module _ {Source Variant : Type 0} (answers : Answers Source Variant) where
  -- The operation was sent and a look at its handle found that it had succeeded; there is an output for
  -- each collected type, the encoding of the value that was built at its index.
  abbrev pub IsGoodSend : List Variant → Type 0
  IsGoodSend outputs =
      (answers.can_send ≡ true)
      × (await_send answers.send_polls ≡ some succeeded)
      × (length outputs ≡ answers.collect_arity)
      × AreEncoded answers (λ k value. answers.build_value k ≡ some value) outputs

  -- The operation was called and a look at the future found that it had succeeded; there is an output
  -- for each source of its schema, the encoding of the value that was built for the return value or of
  -- the decoded input that the source names.
  abbrev pub IsGoodCall : List Variant → List Variant → Type 0
  IsGoodCall inputs outputs =
      (answers.can_send ≡ false)
      × (await_call answers.call_polls ≡ some succeeded)
      × ((sources : List ℤ) × (decoded : List Source) × (answers.schema_sources ≡ some sources)
          × AreDecoded answers inputs decoded
          × (length outputs ≡ length sources)
          × AreEncoded answers (IsCollected answers decoded sources) outputs)
