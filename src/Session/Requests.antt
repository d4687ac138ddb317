-- ===== src/Session/Requests.antt =====
-- src/client_session.cpp: the requests of a session for values, ports and operations.
use rtt_opcua.Base.{
  Bool, true, false, not, ◌&&◌, ◌||◌, Option, none, some, List, [], ◌++◌, if◌then◌else◌, Bytes,
  codes,
}
use rtt_opcua.RemoteOperation.Call.{RemoteCallResult}
use rtt_opcua.RemotePort.{ReadResult, waiting, failed, value}
use rtt_opcua.Session.{
  is_connected, Status, invalidates_interface, is_not_connected, is_waiting, ClientSession, got,
  bad_status, threw, Answer, invalidate_interface,
}

module _ {Registry : Type 0} where
  -- A request that is not made, with the reason.
  abbrev pub with_error : Bytes → ClientSession Registry → ClientSession Registry
  with_error error s = record s { last_error = error }

  unfoldable pub not_ready_error : Bytes → ClientSession Registry → Option Bytes
  unfolding is_connected
  not_ready_error reason s =
      if not s.interface_access_enabled
      then some (codes "remote RTT interface is stale; synchronize it before " ++ reason)
      else if not s.has_client || not (is_connected s.state)
      then some (codes "OPC UA client is not connected")
      else none

-- A call that fails.
abbrev pub failed_call : {Variant : Type 0} → Bytes → RemoteCallResult Variant
failed_call error = record { success = false; outputs = []; error = error }

-- `statusMessage`
unfoldable pub status_message : (Status → Bytes) → Bytes → Status → Bytes
status_message status_name operation status = operation ++ (codes ": " ++ status_name status)

module _ {Registry : Type 0} where
  -- What follows a bad status of a value or a call, and of a port, whose server answers
  -- `BadNotConnected` as long as the component is not there.
  unfoldable pub after_status : Status → Bool → ClientSession Registry → ClientSession Registry
  unfolding invalidates_interface invalidate_interface
  after_status status still_connected s =
      if invalidates_interface status || not still_connected then invalidate_interface s else s

  unfoldable pub after_port_status : Status → Bool → ClientSession Registry → ClientSession Registry
  unfolding invalidates_interface is_not_connected invalidate_interface
  after_port_status status still_connected s =
      if (not (is_not_connected status) && invalidates_interface status) || not still_connected
      then invalidate_interface s
      else s

module _ {Registry : Type 0} (status_name : Status → Bytes) where
  -- `readValue`; the flag says that there is a destination.
  unfoldable pub read_value :
      {Variant : Type 0}
      → Bool
      → Answer Variant
      → ClientSession Registry
      → ClientSession Registry × Option Variant
  unfolding not_ready_error after_status status_message invalidate_interface
  read_value has_destination answer s =
      if not has_destination
      then (with_error (codes "remote RTT value destination must not be null") s, none)
      else elim (not_ready_error (codes "reading values") s) [
        | some error ↦ (with_error error s, none)
        | none ↦ elim answer.reply [
          | got v ↦ (with_error [] s, some v)
          | bad_status status ↦ (
            after_status status answer.still_connected (
                with_error
                  (status_message status_name (codes "failed to read remote RTT value") status) s),
            none,
          )
          | threw what ↦ (
            invalidate_interface (with_error (codes "failed to read remote RTT value: " ++ what) s),
            none,
          )
        ]
      ]

  -- `writeValue`; a request that ends well gives nothing.
  unfoldable pub write_value :
      Answer (Unit {0}) → ClientSession Registry → ClientSession Registry × Bool
  unfolding not_ready_error after_status status_message invalidate_interface
  write_value answer s = elim (not_ready_error (codes "writing values") s) [
    | some error ↦ (with_error error s, false)
    | none ↦ elim answer.reply [
      | got v ↦ (with_error [] s, true)
      | bad_status status ↦ (
        after_status status answer.still_connected (
            with_error
              (status_message status_name (codes "failed to write remote RTT value") status) s),
        false,
      )
      | threw what ↦ (
        invalidate_interface (with_error (codes "failed to write remote RTT value: " ++ what) s),
        false,
      )
    ]
  ]

  -- The bad status of a port that is read.
  unfoldable pub refuse_port_read :
      {Variant : Type 0}
      → Status
      → Bool
      → ClientSession Registry
      → ClientSession Registry × ReadResult Variant
  unfolding is_waiting after_port_status status_message
  refuse_port_read status still_connected s =
      let error =
        status_message status_name (codes "failed to read remote RTT output port") status in
      if is_waiting status
      then (with_error [] s, waiting)
      else (after_port_status status still_connected (with_error error s), failed error)

  -- `readPortValue`
  unfoldable pub read_port_value :
      {Variant : Type 0}
      → Answer Variant
      → ClientSession Registry
      → ClientSession Registry × ReadResult Variant
  unfolding not_ready_error refuse_port_read invalidate_interface
  read_port_value answer s = elim (not_ready_error (codes "reading ports") s) [
    | some error ↦ (with_error error s, failed error)
    | none ↦ elim answer.reply [
      | got v ↦ (with_error [] s, value v)
      | bad_status status ↦ refuse_port_read status answer.still_connected s
      | threw what ↦ (
        invalidate_interface
            (with_error (codes "failed to read remote RTT output port: " ++ what) s),
        failed (codes "failed to read remote RTT output port: " ++ what),
      )
    ]
  ]

  -- `writePortValue`
  unfoldable pub write_port_value :
      Answer (Unit {0}) → ClientSession Registry → ClientSession Registry × Bool
  unfolding not_ready_error after_port_status status_message invalidate_interface
  write_port_value answer s = elim (not_ready_error (codes "writing ports") s) [
    | some error ↦ (with_error error s, false)
    | none ↦ elim answer.reply [
      | got v ↦ (with_error [] s, true)
      | bad_status status ↦ (
        after_port_status status answer.still_connected (
            with_error
              (status_message status_name (codes "failed to write remote RTT input port") status)
              s),
        false,
      )
      | threw what ↦ (
        invalidate_interface
            (with_error (codes "failed to write remote RTT input port: " ++ what) s),
        false,
      )
    ]
  ]

  -- The request of `callLocked`.
  unfoldable pub request_call :
      {Variant : Type 0}
      → Answer (List Variant)
      → ClientSession Registry
      → ClientSession Registry × RemoteCallResult Variant
  unfolding after_status status_message invalidate_interface
  request_call answer s = elim answer.reply [
    | got vs ↦ (with_error [] s, record { success = true; outputs = vs; error = [] })
    | bad_status status ↦
        (let error = status_message status_name (codes "remote RTT operation failed") status in
          (after_status status answer.still_connected (with_error error s), failed_call error))
    | threw what ↦
        (let error = codes "remote RTT operation call failed: " ++ what in
          (invalidate_interface (with_error error s), failed_call error))
  ]

  -- `callLocked`
  unfoldable pub call_locked :
      {Variant : Type 0}
      → Bool
      → Answer (List Variant)
      → ClientSession Registry
      → ClientSession Registry × RemoteCallResult Variant
  unfolding is_connected request_call
  call_locked require_interface_access answer s =
      if require_interface_access && not s.interface_access_enabled
      then (let error =
            codes "remote RTT interface is stale; synchronize it before calling operations" in
          (with_error error s, failed_call error))
      else if not s.has_client || not (is_connected s.state)
      then (let error = codes "OPC UA client is not connected" in
          (with_error error s, failed_call error))
      else request_call answer s
