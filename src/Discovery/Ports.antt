-- ===== src/Discovery/Ports.antt =====
-- src/client_session.cpp, `discoverPorts` behind its browse: the descriptions of the ports of a
-- component, as the session reads and checks them.
use rtt_opcua.Base.{
  ◌+◌, Bool, true, false, not, ◌&&◌, ◌||◌, Option, none, some, List, [], ◌∷◌, ◌++◌, ◌==◌,
  if◌then◌else◌, is_empty, Bytes, codes, text_eq, decimal, Result, err, ok, ◌>>=◌, ℤ, pos, negsuc,
  int_eq,
}
use rtt_opcua.Schema.{TypeCodec}
use rtt_opcua.RemotePort.{PortDirection, input, output, RemotePortDescription}
use rtt_opcua.Session.{Status, Reply, got, bad_status, threw}
use rtt_opcua.Session.Requests.{status_message}
use rtt_opcua.Discovery.{is_unknown, sort_by_name, adjacent_names}

-- The direction's node: no scalar Int32, or a code.
pub data DirectionValue : Type 0 where
  not_int32 : DirectionValue
  code : ℤ → DirectionValue

-- The attributes of the value's node, where all can be read: its data type, its rank, and whether
-- the access level and that of the user allow to read and to write.
pub record ValueAttributes : Type 0 where
  pub data_type : Bytes
  pub value_rank : ℤ
  pub readable : Bool
  pub writable : Bool
  pub user_readable : Bool
  pub user_writable : Bool

-- A port that the browse gives, and the answers about it; the exception of the type's reply is that
-- of its conversion. The class of the value's node says whether it is a variable.
pub record PortNode : Type 0 where
  pub is_local : Bool
  pub name : Bytes
  pub type_name : Reply Bytes
  pub direction : Result Status DirectionValue
  pub description : Result Status Bytes
  pub value_is_variable : Result Status Bool
  pub attributes : Option ValueAttributes

abbrev pub about_port : Bytes → Bytes → Bytes
about_port name text = codes "remote port '" ++ (name ++ (codes "' " ++ text))

unfoldable pub is_input : PortDirection → Bool
is_input input = true
is_input output = false

unfoldable pub bool_eq : Bool → Bool → Bool
bool_eq true b = b
bool_eq false b = not b

-- `accessMatches` for both levels: a port can always be read, and an input port be written.
unfoldable pub access_matches : PortDirection → ValueAttributes → Bool
unfolding is_input bool_eq
access_matches direction a =
    a.readable
    && bool_eq a.writable (is_input direction)
    && (a.user_readable && bool_eq a.user_writable (is_input direction))

abbrev pub unsupported_type : RemotePortDescription → Bytes
unsupported_type p =
    about_port p.name (codes "uses unsupported RTT type '" ++ (p.type_name ++ codes "'"))

abbrev pub add_port :
    Option RemotePortDescription → List RemotePortDescription → List RemotePortDescription
add_port none ports = ports
add_port (some port) ports = port ∷ ports

abbrev pub port_name : RemotePortDescription → Bytes
port_name p = p.name

module _ (status_name : Status → Bytes) (codec_named : Bytes → Option TypeCodec) where
  -- `readStringValue` of the port's type.
  unfoldable pub read_port_type : Reply Bytes → Result Bytes Bytes
  unfolding status_message
  read_port_type (got name) = ok name
  read_port_type (bad_status c) =
      err (status_message status_name (codes "failed to read RTT port type metadata") c)
  read_port_type (threw what) = err (codes "invalid RTT port type metadata: " ++ what)

  -- `readPortDirection`; a number of type `std::int32_t` has at most ten digits.
  unfoldable pub read_port_direction :
      Bytes → Result Status DirectionValue → Result Bytes PortDirection
  unfolding status_message int_eq
  read_port_direction name (err c) =
      err (status_message status_name (codes "failed to read RTT port direction metadata") c)
  read_port_direction name (ok not_int32) =
      err (about_port name (codes "has invalid direction metadata: expected scalar Int32"))
  read_port_direction name (ok (code (pos n))) =
      if n == 0
      then ok input
      else if n == 1
      then ok output
      else err (about_port name (codes "has unsupported direction code " ++ decimal 10 n))
  read_port_direction name (ok (code (negsuc n))) =
      err (about_port name (codes "has unsupported direction code -" ++ decimal 10 (n + 1)))

  unfoldable pub read_port_description : Bytes → Result Status Bytes → Result Bytes Bytes
  unfolding status_message
  read_port_description name (ok text) = ok text
  read_port_description name (err c) = err (
      status_message status_name
        (codes "failed to read description for remote port '" ++ (name ++ codes "'")) c)

  -- The part of `validatePortValue` behind the class of the node.
  unfoldable pub check_attributes :
      RemotePortDescription → TypeCodec → Bool → Option ValueAttributes → Result Bytes (Unit {0})
  unfolding access_matches text_eq int_eq
  check_attributes port codec is_variable none =
      err (codes "failed to read value metadata for remote port '" ++ (port.name ++ codes "'"))
  check_attributes port codec is_variable (some a) =
      if is_variable
        && text_eq a.data_type codec.data_type_node_id
        && (int_eq a.value_rank codec.value_rank && access_matches port.direction a)
      then ok tt
      else err (about_port port.name (codes "exposes an incompatible value Variable"))

  -- `validatePortValue`: whether the value is missing.
  unfoldable pub validate_port_value :
      RemotePortDescription → Result Status Bool → Option ValueAttributes → Result Bytes Bool
  unfolding check_attributes status_message is_unknown
  validate_port_value port value_is_variable attributes = elim (codec_named port.type_name) [
    | none ↦ err (unsupported_type port)
    | some codec ↦
        if not codec.has_value then err (unsupported_type port) else elim value_is_variable [
          | err c ↦
              if is_unknown c
              then ok true
              else err (
                  status_message status_name
                    (codes "failed to read value metadata for remote port '"
                      ++ (port.name ++ codes "'"))
                    c)
          | ok is_variable ↦
              check_attributes port codec is_variable attributes >>= λ valid. ok false
        ]
  ]

  -- One round of the loop, for a local port with a name: a port without a value is left out if it is
  -- an output port.
  unfoldable pub read_port : List Bytes → PortNode → Result Bytes (Option RemotePortDescription)
  unfolding read_port_type read_port_direction read_port_description validate_port_value is_input
  read_port service_path n = read_port_type n.type_name >>= λ type_name.
      read_port_direction n.name n.direction >>= λ direction.
      read_port_description n.name n.description >>= λ description.
      let port : RemotePortDescription = record {
        name = n.name;
        type_name = type_name;
        service_path = service_path;
        description = description;
        direction = direction;
      } in
      validate_port_value port n.value_is_variable n.attributes >>= λ missing.
      if missing && is_input direction
      then err (about_port n.name (codes "does not expose its value Variable"))
      else ok (if missing then none else some port)

  unfoldable pub read_ports : List Bytes → List PortNode → Result Bytes (List RemotePortDescription)
  unfolding read_port
  read_ports service_path [] = ok []
  read_ports service_path (n ∷ ns) =
      if not n.is_local || is_empty n.name
      then read_ports service_path ns
      else read_port service_path n >>= λ port.
          read_ports service_path ns >>= λ ports. ok (add_port port ports)

  -- The discovery behind the browse of the ports, on a session with a type registry.
  unfoldable pub discover_ports :
      List Bytes → List PortNode → Result Bytes (List RemotePortDescription)
  unfolding read_ports sort_by_name adjacent_names
  discover_ports service_path nodes = read_ports service_path nodes >>= λ ports.
      let sorted = sort_by_name port_name ports in
      if adjacent_names port_name sorted
      then err (codes "remote component exposes duplicate port names")
      else ok sorted
