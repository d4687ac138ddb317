-- ===== src/Session/Valid.antt =====
-- The state of a session stays consistent, and a session that is not connected is dead until the
-- next `connect`.
use rtt_opcua.Base.{
  ◌≡◌, refl, ◌∙◌, ◌≢◌, inl, inr, Bool, true, false, none, List, [], ◌∷◌, arith, Option-cases, All,
  Bytes, codes,
}
use rtt_opcua.RemotePort.{failed}
use rtt_opcua.Session.{
  connected, is_connected, Status, ClientSession, Answer, invalidate_interface, disable_early,
  set_interface_access_enabled,
}
use rtt_opcua.Session.Requests.{
  not_ready_error, after_status, after_port_status, read_value, write_value, refuse_port_read,
  read_port_value, write_port_value, request_call, call_locked,
}
use rtt_opcua.Session.Ready.{connected_cases, Reply-cases}
use rtt_opcua.Session.State.{
  fail_discovery, SessionOperation, connects, reads_value, writes_value, reads_port, writes_port,
  calls, discovers, disables_early, sets_access, connects_not, perform, perform_all, IsValid,
  connect-IsValid,
}

module _ {Registry Variant : Type 0} (status_name : Status → Bytes) where
  -- Every operation keeps the state consistent: the client and the registry of types are there
  -- together, a connected session has them and a namespace, a stale one has had them, and the state
  -- is never left at `connecting`.
  pub perform-IsValid :
      (s : ClientSession Registry) (o : SessionOperation Registry Variant)
      → IsValid s
      → IsValid (perform status_name s o)
  unfolding perform read_value write_value read_port_value refuse_port_read write_port_value
      call_locked request_call fail_discovery disable_early set_interface_access_enabled
      not_ready_error after_status after_port_status invalidate_interface is_connected
  perform-IsValid s (connects url w) v = connect-IsValid url w s v
  perform-IsValid s (reads_value b a) v =
      ground (arith, v, connected_cases s.state, Reply-cases a.reply)
  perform-IsValid s (writes_value a) v =
      ground (arith, v, connected_cases s.state, Reply-cases a.reply)
  perform-IsValid s (reads_port a) v =
      ground (arith, v, connected_cases s.state, Reply-cases a.reply)
  perform-IsValid s (writes_port a) v =
      ground (arith, v, connected_cases s.state, Reply-cases a.reply)
  perform-IsValid s (calls b a) v = ground (arith, v, connected_cases s.state, Reply-cases a.reply)
  perform-IsValid s (discovers what c) v = ground (arith, v, connected_cases s.state)
  perform-IsValid s (disables_early b) v = ground (arith, v)
  perform-IsValid s (sets_access true) v = ground (arith, v)
  perform-IsValid s (sets_access false) v = ground (arith, v)

  perform_lost :
      (s : ClientSession Registry) (o : SessionOperation Registry Variant)
      → is_connected s.state ≡ false
      → connects_not o ≡ true
      → (perform status_name s o).state ≡ s.state
  unfolding perform read_value write_value read_port_value write_port_value call_locked
      fail_discovery disable_early set_interface_access_enabled not_ready_error
  perform_lost s (connects url w) h k = absurd cc
  perform_lost s (reads_value b a) h k = ground (arith, h)
  perform_lost s (writes_value a) h k = ground (arith, h)
  perform_lost s (reads_port a) h k = ground (arith, h)
  perform_lost s (writes_port a) h k = ground (arith, h)
  perform_lost s (calls b a) h k = ground (arith, h)
  perform_lost s (discovers what c) h k = ground (arith, h)
  perform_lost s (disables_early b) h k = ground (arith, h)
  perform_lost s (sets_access true) h k = refl
  perform_lost s (sets_access false) h k = refl

  perform_all_lost :
      (s : ClientSession Registry) (os : List (SessionOperation Registry Variant))
      → is_connected s.state ≡ false
      → All (λ o. connects_not o ≡ true) os
      → (perform_all status_name s os).state ≡ s.state
  unfolding perform_all
  perform_all_lost s [] h k = refl
  perform_all_lost s (o ∷ os) h k =
      let e = perform_lost s o h k.0 in
      perform_all_lost (perform status_name s o) os (rw e h) k.1 ∙ e

  -- Once a session is not connected, then whatever is done but a `connect`, its state stays, and every
  -- request fails, whatever the server would answer.
  pub failed_until_connect :
      (s : ClientSession Registry) (os : List (SessionOperation Registry Variant))
      → s.state ≢ connected
      → All (λ o. connects_not o ≡ true) os
      → ((perform_all status_name s os).state ≡ s.state)
        × ((b : Bool) (a : Answer Variant)
            → (read_value status_name b a (perform_all status_name s os)).1 ≡ none)
        × ((a : Answer (Unit {0}))
            → ((write_value status_name a (perform_all status_name s os)).1 ≡ false)
              × ((write_port_value status_name a (perform_all status_name s os)).1 ≡ false))
        × ((a : Answer Variant)
            → (error : Bytes) × ((read_port_value status_name a (perform_all status_name s os)).1
                ≡ failed error))
        × ((b : Bool) (a : Answer (List Variant))
            → (call_locked status_name b a (perform_all status_name s os)).1.success ≡ false)
  unfolding read_value write_value read_port_value write_port_value call_locked not_ready_error
  failed_until_connect s os h k = elim (connected_cases s.state) [
    | inl e ↦ absurd (h e)
    | inr e ↦
        let same = perform_all_lost s os e k in
        let dead : is_connected (perform_all status_name s os).state ≡ false = rw same e in
        (
          same,
          λ b a. ground (arith, dead),
          λ a. (ground (arith, dead), ground (arith, dead)),
          λ a.
              elim (Option-cases
                (not_ready_error (codes "reading ports") (perform_all status_name s os))) [
                  | inl none_yet ↦ absurd (ground (arith, dead, none_yet))
                  | inr (error, some_error) ↦ (error, ground (arith, some_error))
                ],
          λ b a. ground (arith, dead),
        )
  ]
