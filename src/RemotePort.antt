-- ===== src/RemotePort.antt =====
-- src/remote_port.cpp: the local mirror of a remote port and the samples it holds back.
-- The session, the codec and the RTT port are not modelled: what they answer during one call of
-- `pump` is an argument, and the codec's two conversions are functions of the value alone.
pub mod Pump
pub mod Transfer
pub mod Delivery
use rtt_opcua.Base.{
  Bool, true, false, not, ◌&&◌, ◌||◌, Option, none, some, List, [], ◌∷◌, ◌++◌, if◌then◌else◌,
  is_some, Bytes, codes, text_eq,
}

pub data PortDirection : Type 0 where
  input output : PortDirection

pub record RemotePortDescription : Type 0 where
  pub name : Bytes
  pub type_name : Bytes
  pub service_path : List Bytes
  pub description : Bytes
  pub direction : PortDirection

-- What `writePortValue` answers; an exception carries its text if it is a `std::exception`.
pub data SessionWrite : Type 0 where
  accepted : SessionWrite
  refused : Bytes → SessionWrite
  write_threw : Option Bytes → SessionWrite

-- RTT::WriteStatus, or an exception of the port's `write`.
pub data WriteStatus : Type 0 where
  write_success write_failure not_connected : WriteStatus
  mirror_threw : Option Bytes → WriteStatus

-- RemotePortReadResult, or an exception.
pub data ReadResult (Variant : Type 0) : Type 0 where
  waiting : ReadResult Variant
  failed : Bytes → ReadResult Variant
  value : Variant → ReadResult Variant
  read_threw : Option Bytes → ReadResult Variant

pub record Adapter (Source Variant : Type 0) : Type 0 where
  pub description : RemotePortDescription
  pub pending_input_source : Option Source
  pub pending_input : Option Variant
  pub pending_output : Option Source
  pub last_error : Bytes

-- What the outside answers during one `pump` of an input port: the cast and `connected()`, what
-- `buildValue` or `read` throws, if they do, with its text if it is a `std::exception`, else the new
-- sample if they give one, and the session's answer to a write.
pub record InputWorld (Source : Type 0) : Type 0 where
  pub is_input : Bool
  pub connected : Bool
  pub local_throws : Option (Option Bytes)
  pub sample : Option Source
  pub session : SessionWrite

pub record OutputWorld (Variant : Type 0) : Type 0 where
  pub is_output : Bool
  pub connected : Bool
  pub read : ReadResult Variant
  pub mirror : WriteStatus

-- The adapter after a call, with the sample taken from its origin and the one handed over.
pub record InputStep (Source Variant : Type 0) : Type 0 where
  pub adapter : Adapter Source Variant
  pub taken : Option Source
  pub handed : Option Variant

pub record OutputStep (Source Variant : Type 0) : Type 0 where
  pub adapter : Adapter Source Variant
  pub taken : Option Variant
  pub handed : Option Source

-- `TypeCodec::toVariant` and `TypeCodec::makeDataSource`
pub record Codec (Source Variant : Type 0) : Type 0 where
  pub to_variant : Source → Option Variant
  pub make_data_source : Variant → Option Source

unfoldable pub encode_error : Bytes → Bytes
encode_error name =
    codes "failed to encode pending sample for remote input port '" ++ name ++ codes "'"

unfoldable pub decode_error : Bytes → Bytes
decode_error name = codes "failed to decode sample from remote output port '" ++ name ++ codes "'"

-- The handlers of `pump`: an exception with its text, or one of another type.
unfoldable pub pump_error : Bytes → Option Bytes → Bytes
pump_error name (some what) = codes "remote port '" ++ (name ++ (codes "' pump failed: " ++ what))
pump_error name none =
    codes "remote port '" ++ (name ++ codes "' pump failed with an unknown error")

unfoldable pub mirror_error : Bytes → WriteStatus → Bytes
mirror_error name not_connected =
    codes "local mirror for remote output port '" ++ name ++ codes "' returned NotConnected"
mirror_error name _ =
    codes "local mirror for remote output port '" ++ name ++ codes "' returned WriteFailure"

module _ {Source Variant : Type 0} where
  abbrev pub set_error : Bytes → Adapter Source Variant → Adapter Source Variant
  set_error error a = record a { last_error = error }

  abbrev pub clear_error : Adapter Source Variant → Adapter Source Variant
  clear_error a = record a { last_error = [] }

  unfoldable pub has_pending_state : Adapter Source Variant → Bool
  has_pending_state a =
      is_some a.pending_input_source || is_some a.pending_input || is_some a.pending_output

  unfoldable pub discard_pending_state : Adapter Source Variant → Adapter Source Variant
  discard_pending_state a = record a {
    pending_input_source = none;
    pending_input = none;
    pending_output = none;
    last_error = [];
  }

direction_eq : PortDirection → PortDirection → Bool
direction_eq input input = true
direction_eq output output = true
direction_eq _ _ = false

path_eq : List Bytes → List Bytes → Bool
path_eq [] [] = true
path_eq (a ∷ s) (b ∷ t) = text_eq a b && path_eq s t
path_eq _ _ = false

module _ {Source Variant : Type 0} where
  unfoldable pub has_same_identity : Adapter Source Variant → Adapter Source Variant → Bool
  unfolding direction_eq path_eq
  has_same_identity a b =
      text_eq a.description.name b.description.name
      && text_eq a.description.type_name b.description.type_name
      && path_eq a.description.service_path b.description.service_path
      && direction_eq a.description.direction b.description.direction

  -- `transferPendingStateTo`: both adapters after the call, and the result. The error that is
  -- moved from is taken to be empty then, as the standard library leaves it.
  unfoldable pub transfer_pending_state_to :
      Adapter Source Variant
      → Adapter Source Variant
      → Adapter Source Variant × Adapter Source Variant × Bool
  unfolding has_same_identity
  transfer_pending_state_to a b = if not (has_same_identity a b) then (a, b, false) else (
    record a {
      pending_input_source = b.pending_input_source;
      pending_input = b.pending_input;
      pending_output = b.pending_output;
      last_error = [];
    },
    record b {
      pending_input_source = a.pending_input_source;
      pending_input = a.pending_input;
      pending_output = a.pending_output;
      last_error = a.last_error;
    },
    true,
  )
