-- ===== src/Tests/Sessions.antt =====
-- A session: it connects, a read is answered, and an unknown node makes it stale.
use rtt_opcua.Base.{
  ℕ, ◌≡◌, refl, ◌↔◌, ◌⊎◌, Bool, true, false, none, some, List, [], ◌∷◌, arith, ◌==◌, if◌then◌else◌,
  Bytes, codes, text_eq, ok, negsuc,
}
use rtt_opcua.RemotePort.{failed, value}
use rtt_opcua.RemoteOperation.Call.{
  Codecs, CallAction, encode_loop, encode_arguments, destination_of, assign_output, assign_outputs,
  assign_call_outputs, read_arguments, execute,
}
use rtt_opcua.RemoteOperation.Valid.{Delivers, Encodes}
use rtt_opcua.Session.{
  connected, stale, is_connected, Status, node_id_unknown, waiting_for_initial_data,
  invalidates_interface, ClientSession, got, bad_status, Answer, ConnectWorld, find_namespace,
  namespace_table, invalidate_interface, connect_client, connect_namespaces, connect,
}
use rtt_opcua.Session.Requests.{
  not_ready_error, after_status, read_value, write_value, read_port_value, write_port_value,
  request_call, call_locked,
}
use rtt_opcua.Session.Ready.{IsReady, IsHarmless, port_invalidates, requests_succeed_iff}
use rtt_opcua.Session.Failures.{session_kept_iff}
use rtt_opcua.Session.State.{
  SessionOperation, connects, reads_value, calls, sets_access, perform, perform_all, IsValid,
}
use rtt_opcua.Session.Valid.{perform-IsValid, failed_until_connect}
use rtt_opcua.Session.Call.{call_through, session_call_iff}

abbrev status_name : Status → Bytes
status_name c = codes "Bad"

abbrev session : ClientSession ℕ
session = record {
  has_client = true;
  type_registry = some 1;
  namespace_index = 2;
  state = connected;
  interface_access_enabled = true;
  last_error = [];
}

session-IsReady : IsReady session
session-IsReady = record { enabled = refl; client = refl; connection = refl }

session-IsValid : IsValid session
session-IsValid = record {
  paired = refl;
  settled = λ e. cc;
  linked = λ e. (refl, omega arith);
  lost = λ e. refl;
  bounded = omega arith;
}

abbrev good_read : Answer ℕ
good_read = record { reply = got 5; still_connected = true }

abbrev unknown_node : Answer ℕ
unknown_node = record { reply = bad_status node_id_unknown; still_connected = true }

abbrev written : Answer (Unit {0})
written = record { reply = got tt; still_connected = true }

abbrev called : Answer (List ℕ)
called = record { reply = got (8 ∷ []); still_connected = true }

requests_succeed_iff_example :
    (((read_value status_name true good_read session).1 ≡ some 5)
      ↔ ((true ≡ true) × IsReady session × (good_read.reply ≡ got 5)))
    × (((write_value status_name written session).1 ≡ true)
        ↔ (IsReady session × (written.reply ≡ got tt)))
    × (((read_port_value status_name good_read session).1 ≡ value 5)
        ↔ (IsReady session × (good_read.reply ≡ got 5)))
    × (((write_port_value status_name written session).1 ≡ true)
        ↔ (IsReady session × (written.reply ≡ got tt)))
    × (((call_locked status_name true called session).1
          ≡ record { success = true; outputs = 8 ∷ []; error = [] })
        ↔ (IsReady session × (called.reply ≡ got (8 ∷ []))))
    × (((call_locked status_name false called session).1
          ≡ record { success = true; outputs = 8 ∷ []; error = [] })
        ↔ ((session.has_client ≡ true)
            × (session.state ≡ connected)
            × (called.reply ≡ got (8 ∷ []))))
requests_succeed_iff_example =
    requests_succeed_iff status_name session true good_read written called 5 (8 ∷ [])

session_kept_iff_example :
    (IsReady (read_value status_name true unknown_node session).0
      ↔ IsHarmless invalidates_interface unknown_node)
    × (IsReady (write_value status_name written session).0
        ↔ IsHarmless invalidates_interface written)
    × (IsReady (read_port_value status_name unknown_node session).0 ↔ (
        (unknown_node.reply ≡ bad_status waiting_for_initial_data)
        ⊎ IsHarmless port_invalidates unknown_node))
    × (IsReady (write_port_value status_name written session).0
        ↔ IsHarmless port_invalidates written)
    × (IsReady (call_locked status_name true called session).0
        ↔ IsHarmless invalidates_interface called)
session_kept_iff_example =
    session_kept_iff status_name session session-IsReady unknown_node written called

unknown_node_stale : (read_value status_name true unknown_node session).0.state ≡ stale
unfolding read_value not_ready_error is_connected after_status invalidates_interface
    invalidate_interface
unknown_node_stale = refl

abbrev world : ConnectWorld ℕ
world = record {
  disconnect_throws = none;
  namespaces = ok (codes "urn:a" ∷ codes "urn:orocos:rtt" ∷ []);
  make_registry = λ table. ok 3;
  connect_throws = none;
}

abbrev connection : SessionOperation ℕ ℕ
connection = connects (codes "opc.tcp://h") world

perform-IsValid_example : IsValid (perform status_name session connection)
perform-IsValid_example = perform-IsValid status_name session connection session-IsValid

world_connects : (connect (codes "opc.tcp://h") world session).0.namespace_index ≡ 1
unfolding connect connect_namespaces connect_client find_namespace namespace_table text_eq
world_connects = refl

abbrev lost_session : ClientSession ℕ
lost_session = record session { state = stale }

abbrev attempts : List (SessionOperation ℕ ℕ)
attempts = reads_value true good_read ∷ sets_access true ∷ calls true called ∷ []

failed_until_connect_example :
    ((perform_all status_name lost_session attempts).state ≡ stale)
    × ((b : Bool) (a : Answer ℕ)
        → (read_value status_name b a (perform_all status_name lost_session attempts)).1 ≡ none)
    × ((a : Answer (Unit {0}))
        → ((write_value status_name a (perform_all status_name lost_session attempts)).1 ≡ false)
          × ((write_port_value status_name a (perform_all status_name lost_session attempts)).1
              ≡ false))
    × ((a : Answer ℕ)
        → (error : Bytes) × ((read_port_value status_name a
              (perform_all status_name lost_session attempts)).1
            ≡ failed error))
    × ((b : Bool) (a : Answer (List ℕ))
        → (call_locked status_name b a (perform_all status_name lost_session attempts)).1.success
          ≡ false)
failed_until_connect_example =
    failed_until_connect status_name lost_session attempts (λ e. cc) (refl, (refl, (refl, tt)))

-- One input, one output that is written to the cell of the return value.
abbrev Cells : Type 0
Cells = ℕ → ℕ

abbrev codecs : Codecs Cells ℕ ℕ
codecs = record {
  to_variant = λ cells place. some (cells place);
  assign_variant = λ type. some (λ v place cells. ((λ k. if k == place then v else cells k), true));
}

abbrev action : CallAction ℕ ℕ
action = record {
  arguments = 3 ∷ [];
  output_types = codes "int" ∷ [];
  output_sources = negsuc 0 ∷ [];
  return_value = some 9;
  inputs = [];
  prepared = false;
}

abbrev cells : Cells
cells k = k

abbrev cells_after : Cells
cells_after k = if k == 9 then 8 else k

session_call_iff_example :
    (execute codecs true
        (call_through status_name codecs session (λ inputs. called))
        (read_arguments codecs true cells action)
        cells
      ≡ (cells_after, true))
    ↔ ((inputs outputs : List ℕ) × Encodes codecs cells action.arguments inputs
        × IsReady session
        × (called.reply ≡ got outputs)
        × Delivers codecs action.arguments action.return_value action.output_types
            action.output_sources outputs cells cells_after)
session_call_iff_example =
    session_call_iff status_name codecs session (λ inputs. called) action cells cells_after

session_call_writes :
    (execute codecs true
        (call_through status_name codecs session (λ inputs. called))
        (read_arguments codecs true cells action)
        cells).0
      9
    ≡ 8
unfolding execute read_arguments encode_arguments encode_loop assign_call_outputs assign_outputs
    assign_output destination_of call_locked request_call is_connected
session_call_writes = refl
