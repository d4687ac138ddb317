-- ===== src/Session/Ready.antt =====
-- src/client_session.cpp: which requests of a session succeed, and which leave it usable.
use rtt_opcua.Base.{
  ◌≡◌, refl, ◌↔◌, ◌⊎◌, inl, inr, Bool, true, false, not, ◌&&◌, none, some, List, [], arith,
  Option-cases, Bytes, codes,
}
use rtt_opcua.RemotePort.{value}
use rtt_opcua.Session.{
  ProxyConnectionState, disconnected, connecting, connected, stale, is_connected, Status,
  invalidates_interface, is_not_connected, ClientSession, Reply, got, bad_status, threw, Answer,
}
use rtt_opcua.Session.Requests.{
  not_ready_error, read_value, write_value, refuse_port_read, read_port_value, write_port_value,
  request_call, call_locked,
}

pub connected_cases : (c : ProxyConnectionState) → (c ≡ connected) ⊎ (is_connected c ≡ false)
unfolding is_connected
connected_cases disconnected = inr refl
connected_cases connecting = inr refl
connected_cases connected = inl refl
connected_cases stale = inr refl

pub Reply-cases :
    {A : Type 0} (r : Reply A)
    → ((a : A) × (r ≡ got a))
      ⊎ ((c : Status) × (r ≡ bad_status c))
      ⊎ ((what : Bytes) × (r ≡ threw what))
Reply-cases (got a) = inl (a, refl)
Reply-cases (bad_status c) = inr (inl (c, refl))
Reply-cases (threw what) = inr (inr (what, refl))

pub record IsReady {Registry : Type 0} (s : ClientSession Registry) : Type 0 where
  pub enabled : s.interface_access_enabled ≡ true
  pub client : s.has_client ≡ true
  pub connection : s.state ≡ connected

-- An answer that shows neither that the interface has changed nor that the connection is lost.
abbrev pub IsHarmless : {A : Type 0} → (Status → Bool) → Answer A → Type 0
IsHarmless {A} invalidates a =
    ((v : A) × (a.reply ≡ got v))
    ⊎ ((c : Status) × (a.reply ≡ bad_status c)
        × (invalidates c ≡ false)
        × (a.still_connected ≡ true))

abbrev pub port_invalidates : Status → Bool
port_invalidates c = not (is_not_connected c) && invalidates_interface c

module _ {Registry : Type 0} (s : ClientSession Registry) where
  pub not_ready_error-none : (reason : Bytes) → (not_ready_error reason s ≡ none) ↔ IsReady s
  unfolding not_ready_error is_connected
  not_ready_error-none reason = (
    λ h. elim (connected_cases s.state) [
      | inl e ↦ record {
        enabled = ground (arith, e, h);
        client = ground (arith, e, h);
        connection = e;
      }
      | inr e ↦ absurd (ground (arith, e, h))
    ],
    λ r. ground (arith, r.enabled, r.client, r.connection),
  )

module _ {Registry : Type 0} (status_name : Status → Bytes) (s : ClientSession Registry) where
  write_value_iff :
      (a : Answer (Unit {0}))
      → ((write_value status_name a s).1 ≡ true) ↔ (IsReady s × (a.reply ≡ got tt))
  unfolding write_value
  write_value_iff a =
      let fine = not_ready_error-none s (codes "writing values") in
      (
        λ h. elim (Option-cases (not_ready_error (codes "writing values") s)) [
          | inl e ↦ (fine.0 e, ground (arith, e, h, Reply-cases a.reply))
          | inr (error, e) ↦ absurd (ground (arith, e, h))
        ],
        λ p. let e = fine.1 p.0 in ground (arith, e, p.1),
      )

  write_port_value_iff :
      (a : Answer (Unit {0}))
      → ((write_port_value status_name a s).1 ≡ true) ↔ (IsReady s × (a.reply ≡ got tt))
  unfolding write_port_value
  write_port_value_iff a =
      let fine = not_ready_error-none s (codes "writing ports") in
      (
        λ h. elim (Option-cases (not_ready_error (codes "writing ports") s)) [
          | inl e ↦ (fine.0 e, ground (arith, e, h, Reply-cases a.reply))
          | inr (error, e) ↦ absurd (ground (arith, e, h))
        ],
        λ p. let e = fine.1 p.0 in ground (arith, e, p.1),
      )

module _ {Registry Variant : Type 0} (status_name : Status → Bytes)
    (s : ClientSession Registry) where
  read_value_iff :
      (b : Bool) (a : Answer Variant) (v : Variant)
      → ((read_value status_name b a s).1 ≡ some v) ↔ ((b ≡ true) × IsReady s × (a.reply ≡ got v))
  unfolding read_value
  read_value_iff b a v =
      let fine = not_ready_error-none s (codes "reading values") in
      (
        λ h. elim (Option-cases (not_ready_error (codes "reading values") s)) [
          | inl e ↦ (ground (arith, e, h), fine.0 e, ground (arith, e, h, Reply-cases a.reply))
          | inr (error, e) ↦ absurd (ground (arith, e, h))
        ],
        λ p. let e = fine.1 p.1 in ground (arith, e, p.0, p.2),
      )

  read_port_value_iff :
      (a : Answer Variant) (v : Variant)
      → ((read_port_value status_name a s).1 ≡ value v) ↔ (IsReady s × (a.reply ≡ got v))
  unfolding read_port_value refuse_port_read
  read_port_value_iff a v =
      let fine = not_ready_error-none s (codes "reading ports") in
      (
        λ h. elim (Option-cases (not_ready_error (codes "reading ports") s)) [
          | inl e ↦ (fine.0 e, ground (arith, e, h, Reply-cases a.reply))
          | inr (error, e) ↦ absurd (ground (arith, e, h))
        ],
        λ p. let e = fine.1 p.0 in ground (arith, e, p.1),
      )

  pub call_locked_iff :
      (a : Answer (List Variant)) (vs : List Variant)
      → ((call_locked status_name true a s).1 ≡ record { success = true; outputs = vs; error = [] })
        ↔ (IsReady s × (a.reply ≡ got vs))
  unfolding call_locked request_call is_connected
  call_locked_iff a vs = (
    λ h. elim (connected_cases s.state) [
      | inl e ↦ (
        record { enabled = ground (arith, e, h); client = ground (arith, e, h); connection = e },
        ground (arith, e, h, Reply-cases a.reply),
      )
      | inr e ↦ absurd (ground (arith, e, h))
    ],
    λ p. let r = p.0 in ground (arith, r.enabled, r.client, r.connection, p.1),
  )

  call_unguarded_iff :
      (a : Answer (List Variant)) (vs : List Variant)
      → ((call_locked status_name false a s).1
          ≡ record { success = true; outputs = vs; error = [] })
        ↔ ((s.has_client ≡ true) × (s.state ≡ connected) × (a.reply ≡ got vs))
  unfolding call_locked request_call is_connected
  call_unguarded_iff a vs = (
    λ h. elim (connected_cases s.state) [
      | inl e ↦ (ground (arith, e, h), e, ground (arith, e, h, Reply-cases a.reply))
      | inr e ↦ absurd (ground (arith, e, h))
    ],
    λ p. ground (arith, p.0, p.1, p.2),
  )

  -- A read or a write of a value or of a port, and a call that requires access to the interface,
  -- succeed exactly when the access is enabled, the session is connected, and the server answers
  -- well; the result is then the answer. A value is read only into a destination. A call that does
  -- not require the access succeeds exactly when the session is connected and the server answers well.
  pub requests_succeed_iff :
      (b : Bool) (a : Answer Variant) (done : Answer (Unit {0})) (called : Answer (List Variant))
      (v : Variant) (vs : List Variant)
      → (((read_value status_name b a s).1 ≡ some v) ↔ ((b ≡ true) × IsReady s × (a.reply ≡ got v)))
        × (((write_value status_name done s).1 ≡ true) ↔ (IsReady s × (done.reply ≡ got tt)))
        × (((read_port_value status_name a s).1 ≡ value v) ↔ (IsReady s × (a.reply ≡ got v)))
        × (((write_port_value status_name done s).1 ≡ true) ↔ (IsReady s × (done.reply ≡ got tt)))
        × (((call_locked status_name true called s).1
              ≡ record { success = true; outputs = vs; error = [] })
            ↔ (IsReady s × (called.reply ≡ got vs)))
        × (((call_locked status_name false called s).1
              ≡ record { success = true; outputs = vs; error = [] })
            ↔ ((s.has_client ≡ true) × (s.state ≡ connected) × (called.reply ≡ got vs)))
  requests_succeed_iff b a done called v vs = (
    read_value_iff b a v,
    write_value_iff status_name s done,
    read_port_value_iff a v,
    write_port_value_iff status_name s done,
    call_locked_iff called vs,
    call_unguarded_iff called vs,
  )
