-- ===== src/Session/Failures.antt =====
-- src/client_session.cpp: what a failed request leaves behind.
use rtt_opcua.Base.{
  ◌≡◌, ◌↔◌, ◌⊎◌, inl, inr, Bool, true, false, not, ◌&&◌, List, arith, Bool-cases, Bytes,
}
use rtt_opcua.Session.{
  is_connected, Status, waiting_for_initial_data, invalidates_interface, is_not_connected,
  is_waiting, ClientSession, Reply, got, bad_status, threw, Answer, invalidate_interface,
}
use rtt_opcua.Session.Requests.{
  not_ready_error, after_status, after_port_status, read_value, write_value, refuse_port_read,
  read_port_value, write_port_value, request_call, call_locked,
}
use rtt_opcua.Session.Ready.{Reply-cases, IsReady, IsHarmless, port_invalidates}

waits_cases :
    {A : Type 0} (r : Reply A)
    → (r ≡ bad_status waiting_for_initial_data)
      ⊎ ((c : Status) → r ≡ bad_status c → is_waiting c ≡ false)
unfolding is_waiting
waits_cases r = elim (Reply-cases r) [
  | inl (v, e) ↦ inr (λ c k. ground (arith, e, k))
  | inr (inl (c, e)) ↦ elim (Bool-cases (is_waiting c)) [
    | inl w ↦ inl (ground (arith, e, w))
    | inr w ↦ inr (λ c' k. ground (arith, e, k, w))
  ]
  | inr (inr (what, e)) ↦ inr (λ c k. ground (arith, e, k))
]

module _ {Registry A : Type 0} (invalidates : Status → Bool) (a : Answer A)
    (after : ClientSession Registry) where
  -- What a request has to keep for each end of it.
  record Outcome : Type 0 where
    on_value : (v : A) → a.reply ≡ got v → IsReady after
    on_status :
        (c : Status)
        → a.reply ≡ bad_status c
        → after.interface_access_enabled ≡ (not (invalidates c) && a.still_connected)
    on_ready :
        (c : Status)
        → a.reply ≡ bad_status c
        → after.interface_access_enabled ≡ true
        → IsReady after
    on_throw : (what : Bytes) → a.reply ≡ threw what → after.interface_access_enabled ≡ false

  keeps_iff : Outcome → IsReady after ↔ IsHarmless invalidates a
  keeps_iff o = elim (Reply-cases a.reply) [
    | inl (v, e) ↦ (λ k. inl (v, e), λ k. o.on_value v e)
    | inr (inl (c, e)) ↦ (
      λ k. inr (
        c,
        e,
        ground (arith, k.enabled, o.on_status c e),
        ground (arith, k.enabled, o.on_status c e),
      ),
      λ k. o.on_ready c e (ground (arith, e, k, o.on_status c e)),
    )
    | inr (inr (what, e)) ↦ (
      λ k. absurd (ground (arith, k.enabled, o.on_throw what e)),
      λ k. absurd (ground (arith, e, k)),
    )
  ]

module _ {Registry : Type 0} (status_name : Status → Bytes) (s : ClientSession Registry)
    (r : IsReady s) where
  write_value_keeps :
      (a : Answer (Unit {0}))
      → IsReady (write_value status_name a s).0 ↔ IsHarmless invalidates_interface a
  unfolding write_value not_ready_error is_connected after_status invalidates_interface
      invalidate_interface
  write_value_keeps a = keeps_iff invalidates_interface a (write_value status_name a s).0 (record {
    on_value = λ v e. ground (arith, e, r.enabled, r.client, r.connection);
    on_status = λ c e. ground (arith, e, r.enabled, r.client, r.connection);
    on_ready = λ c e k. ground (arith, e, r.enabled, r.client, r.connection, k);
    on_throw = λ what e. ground (arith, e, r.enabled, r.client, r.connection);
  })

  write_port_value_keeps :
      (a : Answer (Unit {0}))
      → IsReady (write_port_value status_name a s).0 ↔ IsHarmless port_invalidates a
  unfolding write_port_value is_not_connected not_ready_error is_connected after_port_status
      invalidates_interface invalidate_interface
  write_port_value_keeps a =
      keeps_iff port_invalidates a (write_port_value status_name a s).0 (record {
        on_value = λ v e. ground (arith, e, r.enabled, r.client, r.connection);
        on_status = λ c e. ground (arith, e, r.enabled, r.client, r.connection);
        on_ready = λ c e k. ground (arith, e, r.enabled, r.client, r.connection, k);
        on_throw = λ what e. ground (arith, e, r.enabled, r.client, r.connection);
      })

module _ {Registry Variant : Type 0} (status_name : Status → Bytes) (s : ClientSession Registry)
    (r : IsReady s) where
  read_value_keeps :
      (a : Answer Variant)
      → IsReady (read_value status_name true a s).0 ↔ IsHarmless invalidates_interface a
  unfolding read_value not_ready_error is_connected after_status invalidates_interface
      invalidate_interface
  read_value_keeps a =
      keeps_iff invalidates_interface a (read_value status_name true a s).0 (record {
        on_value = λ v e. ground (arith, e, r.enabled, r.client, r.connection);
        on_status = λ c e. ground (arith, e, r.enabled, r.client, r.connection);
        on_ready = λ c e k. ground (arith, e, r.enabled, r.client, r.connection, k);
        on_throw = λ what e. ground (arith, e, r.enabled, r.client, r.connection);
      })

  read_port_value_keeps :
      (a : Answer Variant)
      → IsReady (read_port_value status_name a s).0
        ↔ ((a.reply ≡ bad_status waiting_for_initial_data) ⊎ IsHarmless port_invalidates a)
  unfolding read_port_value refuse_port_read is_waiting is_not_connected not_ready_error
      is_connected after_port_status invalidates_interface invalidate_interface
  read_port_value_keeps a = elim (waits_cases a.reply) [
    | inl e ↦ (λ k. inl e, λ k. ground (arith, e, r.enabled, r.client, r.connection))
    | inr n ↦
        let keeps : IsReady (read_port_value status_name a s).0 ↔ IsHarmless port_invalidates a =
          keeps_iff port_invalidates a (read_port_value status_name a s).0 (record {
            on_value = λ v e. ground (arith, e, r.enabled, r.client, r.connection);
            on_status = λ c e. ground (arith, e, n c e, r.enabled, r.client, r.connection);
            on_ready = λ c e k. ground (arith, e, n c e, r.enabled, r.client, r.connection, k);
            on_throw = λ what e. ground (arith, e, r.enabled, r.client, r.connection);
          }) in
        (
          λ k. inr (keeps.0 k),
          λ k. elim k [
            | inl e ↦ absurd (ground (arith, n waiting_for_initial_data e))
            | inr h ↦ keeps.1 h
          ],
        )
  ]

  call_locked_keeps :
      (a : Answer (List Variant))
      → IsReady (call_locked status_name true a s).0 ↔ IsHarmless invalidates_interface a
  unfolding call_locked request_call not_ready_error is_connected after_status invalidates_interface
      invalidate_interface
  call_locked_keeps a =
      keeps_iff invalidates_interface a (call_locked status_name true a s).0 (record {
        on_value = λ v e. ground (arith, e, r.enabled, r.client, r.connection);
        on_status = λ c e. ground (arith, e, r.enabled, r.client, r.connection);
        on_ready = λ c e k. ground (arith, e, r.enabled, r.client, r.connection, k);
        on_throw = λ what e. ground (arith, e, r.enabled, r.client, r.connection);
      })

  -- A session that is ready stays ready behind a request exactly when the answer is harmless: it is
  -- good, or a bad status that does not invalidate the interface, with the client still connected.
  -- For the ports, the status `BadNotConnected` does not invalidate the interface either, and for a
  -- port that is read `BadWaitingForInitialData` keeps the session ready whatever the client says.
  pub session_kept_iff :
      (a : Answer Variant) (done : Answer (Unit {0})) (called : Answer (List Variant))
      → (IsReady (read_value status_name true a s).0 ↔ IsHarmless invalidates_interface a)
        × (IsReady (write_value status_name done s).0 ↔ IsHarmless invalidates_interface done)
        × (IsReady (read_port_value status_name a s).0
            ↔ ((a.reply ≡ bad_status waiting_for_initial_data) ⊎ IsHarmless port_invalidates a))
        × (IsReady (write_port_value status_name done s).0 ↔ IsHarmless port_invalidates done)
        × (IsReady (call_locked status_name true called s).0
            ↔ IsHarmless invalidates_interface called)
  session_kept_iff a done called = (
    read_value_keeps a,
    write_value_keeps status_name s r done,
    read_port_value_keeps a,
    write_port_value_keeps status_name s r done,
    call_locked_keeps called,
  )
