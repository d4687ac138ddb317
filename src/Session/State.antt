-- ===== src/Session/State.antt =====
-- src/client_session.cpp: the state of a session over any sequence of its operations.
use rtt_opcua.Base.{
  ◌^◌, ◌<◌, ◌≡◌, refl, ◌≢◌, inl, inr, Bool, true, false, not, ◌||◌, none, List, [], ◌∷◌, ◌++◌,
  arith, if◌then◌else◌, Option-cases, is_some, Bytes, codes, Result-cases,
}
use rtt_opcua.Session.{
  connecting, connected, stale, is_connected, Status, ClientSession, Answer, ConnectWorld,
  find_namespace, namespace_table, disable_early, set_interface_access_enabled, fail_connect,
  connect_client, connect_namespaces, connect,
}
use rtt_opcua.Session.Requests.{
  with_error, read_value, write_value, read_port_value, write_port_value, call_locked,
}

-- A discovery on a session that is not connected, or that an exception ends; what a discovery does
-- otherwise leaves the state alone.
unfoldable pub fail_discovery :
    {Registry : Type 0} → Bytes → Bool → ClientSession Registry → ClientSession Registry
unfolding is_connected
fail_discovery what still_connected s =
    if not s.has_client || not (is_connected s.state)
    then with_error (codes "OPC UA client is not connected") s
    else record s {
      last_error = codes "failed to discover remote RTT operations: " ++ what;
      state = if still_connected then s.state else stale;
    }

-- One operation, with what it meets.
pub data SessionOperation (Registry Variant : Type 0) : Type 0 where
  connects : Bytes → ConnectWorld Registry → SessionOperation Registry Variant
  reads_value : Bool → Answer Variant → SessionOperation Registry Variant
  writes_value : Answer (Unit {0}) → SessionOperation Registry Variant
  reads_port : Answer Variant → SessionOperation Registry Variant
  writes_port : Answer (Unit {0}) → SessionOperation Registry Variant
  calls : Bool → Answer (List Variant) → SessionOperation Registry Variant
  discovers : Bytes → Bool → SessionOperation Registry Variant
  disables_early : Bool → SessionOperation Registry Variant
  sets_access : Bool → SessionOperation Registry Variant

abbrev pub connects_not : {Registry Variant : Type 0} → SessionOperation Registry Variant → Bool
connects_not (connects url w) = false
connects_not _ = true

module _ {Registry Variant : Type 0} (status_name : Status → Bytes) where
  unfoldable pub perform :
      ClientSession Registry → SessionOperation Registry Variant → ClientSession Registry
  unfolding connect read_value write_value read_port_value write_port_value call_locked
      fail_discovery disable_early set_interface_access_enabled
  perform s (connects url w) = (connect url w s).0
  perform s (reads_value b a) = (read_value status_name b a s).0
  perform s (writes_value a) = (write_value status_name a s).0
  perform s (reads_port a) = (read_port_value status_name a s).0
  perform s (writes_port a) = (write_port_value status_name a s).0
  perform s (calls b a) = (call_locked status_name b a s).0
  perform s (discovers what still_connected) = fail_discovery what still_connected s
  perform s (disables_early b) = disable_early b s
  perform s (sets_access b) = set_interface_access_enabled b s

  unfoldable pub perform_all :
      ClientSession Registry → List (SessionOperation Registry Variant) → ClientSession Registry
  unfolding perform
  perform_all s [] = s
  perform_all s (o ∷ os) = perform_all (perform s o) os

-- The client and the registry come together; a connected session has both and the index of a
-- namespace; the state is not left at `connecting`.
pub record IsValid {Registry : Type 0} (s : ClientSession Registry) : Type 0 where
  pub paired : s.has_client ≡ is_some s.type_registry
  pub settled : s.state ≢ connecting
  pub linked : s.state ≡ connected → (s.has_client ≡ true) × (0 < s.namespace_index)
  pub lost : s.state ≡ stale → s.has_client ≡ true
  pub bounded : s.namespace_index < 2 ^ 16

module _ {Registry : Type 0} where
  connect_namespaces-IsValid :
      (url : Bytes) (w : ConnectWorld Registry) (uris : List Bytes) (s : ClientSession Registry)
      → s.has_client ≡ false
      → s.type_registry ≡ none
      → s.namespace_index < 2 ^ 16
      → IsValid (connect_namespaces url w uris s).0
  unfolding connect_namespaces connect_client fail_connect
  connect_namespaces-IsValid url w uris s c t b = elim (Option-cases (find_namespace 0 uris)) [
    | inl e ↦ ground (arith, e, c, t, b)
    | inr (index, e) ↦ elim (Result-cases (w.make_registry (namespace_table 0 uris))) [
      | inr (error, f) ↦ ground (arith, e, f, c, t, b)
      | inl (registry, f) ↦ elim (Option-cases w.connect_throws) [
        | inl g ↦ ground (arith, e, f, g, c, t, b)
        | inr (what, g) ↦ ground (arith, e, f, g, c, t, b)
      ]
    ]
  ]

  pub connect-IsValid :
      (url : Bytes) (w : ConnectWorld Registry) (s : ClientSession Registry)
      → IsValid s
      → IsValid (connect url w s).0
  unfolding connect fail_connect
  connect-IsValid url w s v =
      elim (Option-cases (if s.has_client then w.disconnect_throws else none)) [
        | inr (what, e) ↦ ground (arith, e, v.bounded)
        | inl e ↦ elim (Result-cases w.namespaces) [
          | inr (what, f) ↦ ground (arith, e, f, v.bounded)
          | inl (uris, f) ↦
              let k =
                connect_namespaces-IsValid url w uris
                  (record s {
                    state = connecting;
                    last_error = [];
                    has_client = false;
                    type_registry = none;
                  })
                  refl refl v.bounded in
              ground (arith, e, f, k)
        ]
      ]
