-- ===== src/Session/Call.antt =====
-- The call of a proxy's operation through the session: src/remote_operation.cpp over
-- src/client_session.cpp.
use rtt_opcua.Base.{◌≡◌, sym, ap, subst, ◌↔◌, inl, inr, true, List, [], arith, Bytes}
use rtt_opcua.RemoteOperation.Call.{RemoteCallResult, Codecs, CallAction, read_arguments, execute}
use rtt_opcua.RemoteOperation.Valid.{Delivers, Encodes, call_success_iff}
use rtt_opcua.Session.{Status, ClientSession, got, Answer}
use rtt_opcua.Session.Requests.{request_call, call_locked}
use rtt_opcua.Session.Ready.{Reply-cases, IsReady, call_locked_iff}

module _ {Registry Store Source Variant : Type 0} (status_name : Status → Bytes)
    (codecs : Codecs Store Source Variant) where
  -- The session's call as the call action makes it, with the server's answer to the inputs.
  abbrev pub call_through :
      ClientSession Registry
      → (List Variant → Answer (List Variant))
      → List Variant
      → RemoteCallResult Variant
  call_through s answer inputs = (call_locked status_name true (answer inputs) s).1

  call_successful :
      (s : ClientSession Registry) (a : Answer (List Variant))
      → (call_locked status_name true a s).1.success ≡ true
      → (call_locked status_name true a s).1 ≡ record {
        success = true;
        outputs = (call_locked status_name true a s).1.outputs;
        error = [];
      }
  unfolding call_locked request_call
  call_successful s a h = elim (Reply-cases a.reply) [
    | inl (vs, e) ↦ ground (arith, e, h)
    | inr (inl (c, e)) ↦ absurd (ground (arith, e, h))
    | inr (inr (what, e)) ↦ absurd (ground (arith, e, h))
  ]

  -- A call of a proxy's operation through the session returns true exactly when every argument
  -- encodes, the session is ready, the server answers the encoded arguments with outputs, and these
  -- are delivered to the places that the description's sources name.
  pub session_call_iff :
      (s : ClientSession Registry) (answer : List Variant → Answer (List Variant))
      (a : CallAction Source Variant) (store after : Store)
      → (execute codecs true (call_through s answer) (read_arguments codecs true store a) store
          ≡ (after, true))
        ↔ ((inputs outputs : List Variant) × Encodes codecs store a.arguments inputs
            × IsReady s
            × ((answer inputs).reply ≡ got outputs)
            × Delivers codecs a.arguments a.return_value a.output_types a.output_sources outputs
                store after)
  session_call_iff s answer a store after =
      let iff = call_success_iff codecs (call_through s answer) a store after in
      (
        λ h.
            let (inputs, encodes, success, delivers) = iff.0 h in
            let outputs = (call_through s answer inputs).outputs in
            let (r, e) =
              (call_locked_iff status_name s (answer inputs) outputs).0
                (call_successful s (answer inputs) success) in
            (inputs, outputs, encodes, r, e, delivers),
        λ p.
            let (inputs, outputs, encodes, r, e, delivers) = p in
            let same = (call_locked_iff status_name s (answer inputs) outputs).1 (r, e) in
            iff.1 (
              inputs,
              encodes,
              ap (λ c. c.success) same,
              subst
                  (λ vs.
                    Delivers codecs a.arguments a.return_value a.output_types a.output_sources vs
                      store after)
                  (sym (ap (λ c. c.outputs) same)) delivers,
            ),
      )
