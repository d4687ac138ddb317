-- ===== src/Session.antt =====
-- src/client_session.cpp: the session of a proxy with its server. What the network client answers
-- is an argument of each operation; so is the making of the registry of types. The destination of
-- an error, which gets the session's last error, is left out.
pub mod Requests
pub mod Ready
pub mod Failures
pub mod State
pub mod Valid
pub mod Call
use rtt_opcua.Base.{
  ℕ, ◌+◌, ◌-◌, ◌%◌, ◌^◌, Bool, true, false, not, ◌||◌, Option, none, some, List, [], ◌∷◌, ◌++◌, ltb,
  ◌==◌, if◌then◌else◌, Bytes, codes, text_eq, Result, err, ok,
}

pub data ProxyConnectionState : Type 0 where
  disconnected connecting connected stale : ProxyConnectionState

unfoldable pub is_connected : ProxyConnectionState → Bool
is_connected connected = true
is_connected _ = false

-- The codes of `::opcua::StatusCode` that the session tells apart, and all other bad ones.
pub data Status : Type 0 where
  node_id_invalid node_id_unknown not_found method_invalid session_id_invalid session_closed :
      Status
  session_not_activated secure_channel_id_invalid secure_channel_closed : Status
  secure_channel_token_unknown connection_rejected connection_closed server_not_connected : Status
  not_connected communication_error timed_out type_mismatch invalid_argument : Status
  waiting_for_initial_data : Status
  other_status : ℕ → Status

-- `invalidatesInterface`
unfoldable pub invalidates_interface : Status → Bool
invalidates_interface waiting_for_initial_data = false
invalidates_interface (other_status code) = false
invalidates_interface node_id_invalid = true
invalidates_interface node_id_unknown = true
invalidates_interface not_found = true
invalidates_interface method_invalid = true
invalidates_interface session_id_invalid = true
invalidates_interface session_closed = true
invalidates_interface session_not_activated = true
invalidates_interface secure_channel_id_invalid = true
invalidates_interface secure_channel_closed = true
invalidates_interface secure_channel_token_unknown = true
invalidates_interface connection_rejected = true
invalidates_interface connection_closed = true
invalidates_interface server_not_connected = true
invalidates_interface not_connected = true
invalidates_interface communication_error = true
invalidates_interface timed_out = true
invalidates_interface type_mismatch = true
invalidates_interface invalid_argument = true

unfoldable pub is_not_connected : Status → Bool
is_not_connected not_connected = true
is_not_connected _ = false

unfoldable pub is_waiting : Status → Bool
is_waiting waiting_for_initial_data = true
is_waiting _ = false

pub record ClientSession (Registry : Type 0) : Type 0 where
  pub has_client : Bool
  pub type_registry : Option Registry
  pub namespace_index : ℕ
  pub state : ProxyConnectionState
  pub interface_access_enabled : Bool
  pub last_error : Bytes

-- How a request ends: with a value, with a bad status, or with an exception and its text.
pub data Reply (A : Type 0) : Type 0 where
  got : A → Reply A
  bad_status : Status → Reply A
  threw : Bytes → Reply A

-- The answer to a request: how it ends, and whether the client is then still connected.
pub record Answer (A : Type 0) : Type 0 where
  pub reply : Reply A
  pub still_connected : Bool

-- What happens during a `connect`: what the disconnection of the old client throws, the namespaces
-- of the server or what their reading throws, the registry for a table of namespaces or its error,
-- and what the connection of the new client throws.
pub record ConnectWorld (Registry : Type 0) : Type 0 where
  pub disconnect_throws : Option Bytes
  pub namespaces : Result Bytes (List Bytes)
  pub make_registry : List (Bytes × ℕ) → Result Bytes Registry
  pub connect_throws : Option Bytes

-- `std::find` on the namespaces, from a position on.
unfoldable pub find_namespace : ℕ → List Bytes → Option ℕ
unfolding text_eq
find_namespace position [] = none
find_namespace position (uri ∷ uris) =
    let rest = find_namespace (position + 1) uris in
    if text_eq uri (codes "urn:orocos:rtt") then some position else rest

-- The table of the namespaces and their positions, cast to 16 bits, from a position on.
unfoldable pub namespace_table : ℕ → List Bytes → List (Bytes × ℕ)
namespace_table position [] = []
namespace_table position (uri ∷ uris) =
    (uri, position % 2 ^ 16) ∷ namespace_table (position + 1) uris

module _ {Registry : Type 0} where
  -- `invalidateInterfaceLocked`
  unfoldable pub invalidate_interface : ClientSession Registry → ClientSession Registry
  invalidate_interface s = record s { interface_access_enabled = false; state = stale }

  -- `setInterfaceAccessEnabled`: what precedes the lock, and what is done under it.
  unfoldable pub disable_early : Bool → ClientSession Registry → ClientSession Registry
  disable_early enabled s = if enabled then s else record s { interface_access_enabled = false }

  unfoldable pub set_interface_access_enabled :
      Bool → ClientSession Registry → ClientSession Registry
  set_interface_access_enabled true s = record s {
    interface_access_enabled = true;
    last_error = [];
  }
  set_interface_access_enabled false s = record s { interface_access_enabled = false }

  -- The end of `connect` by an exception.
  unfoldable pub fail_connect : Bytes → Bytes → ClientSession Registry → ClientSession Registry
  fail_connect url what s = record s {
    last_error = codes "failed to connect to '" ++ (url ++ (codes "': " ++ what));
    has_client = false;
    type_registry = none;
    namespace_index = 0;
    state = disconnected;
  }

  -- The part of `connect` behind the registry.
  unfoldable pub connect_client :
      Bytes → Option Bytes → Registry → ClientSession Registry → ClientSession Registry × Bool
  unfolding fail_connect
  connect_client url connect_throws registry s =
      let s' = record s { type_registry = some registry; has_client = true } in
      elim connect_throws [
        | some what ↦ (fail_connect url what s', false)
        | none ↦ (record s' { state = connected }, true)
      ]

  -- The part behind the reading of the namespaces.
  unfoldable pub connect_namespaces :
      Bytes
      → ConnectWorld Registry
      → List Bytes
      → ClientSession Registry
      → ClientSession Registry × Bool
  unfolding find_namespace namespace_table connect_client
  connect_namespaces url w uris s = elim (find_namespace 0 uris) [
    | none ↦ (
      record s {
        last_error = codes "server does not expose the Orocos RTT OPC UA namespace";
        state = disconnected;
      },
      false,
    )
    | some index ↦
        if index == 0 || ltb (2 ^ 16 - 1) index
        then (
          record s {
            last_error = codes "server returned an invalid Orocos RTT namespace index";
            state = disconnected;
          },
          false,
        )
        else elim (w.make_registry (namespace_table 0 uris)) [
          | err error ↦ (
            record s {
              last_error = codes "failed to bind local OPC UA datatypes: " ++ error;
              namespace_index = 0;
              state = disconnected;
            },
            false,
          )
          | ok registry ↦
              connect_client url w.connect_throws registry
                (record s { namespace_index = index % 2 ^ 16 })
        ]
  ]

  -- `connect`
  unfoldable pub connect :
      Bytes → ConnectWorld Registry → ClientSession Registry → ClientSession Registry × Bool
  unfolding fail_connect connect_namespaces
  connect url w s =
      let s' = record s { state = connecting; last_error = [] } in
      let s'' = record s' { has_client = false; type_registry = none } in
      elim (if s.has_client then w.disconnect_throws else none) [
        | some what ↦ (fail_connect url what s', false)
        | none ↦ elim w.namespaces [
          | err what ↦ (fail_connect url what s'', false)
          | ok uris ↦ connect_namespaces url w uris s''
        ]
      ]
