-- ===== src/Tests/Discoveries.antt =====
-- The operation `int f(int, int &)` on its way to a proxy, and a discovery of two methods.
use rtt_opcua.Base.{
  ◌≡◌, refl, ◌↔◌, true, false, Option, none, some, List, [], ◌∷◌, map, if◌then◌else◌, In, Bytes,
  codes, text_eq, err, ok, pos, negsuc, int_eq,
}
use rtt_opcua.Base.Order.{text_less, text_ord, Ascending}
use rtt_opcua.Schema.{TypeInfo, TypeCodec, OperationSchema}
use rtt_opcua.RemotePort.{output, RemotePortDescription}
use rtt_opcua.Schema.Describe.{describe}
use rtt_opcua.RemoteOperation.{RemoteOperationDescription, RemoteOperation}
use rtt_opcua.Session.{Status, node_id_unknown, got, bad_status}
use rtt_opcua.Discovery.{
  MethodNode, is_unknown, check_outputs, check_inputs, description_text, insert_named, sort_by_name,
  adjacent_names, operation_name, read_optional_array, read_properties, read_method_arguments,
  read_input_descriptions, read_operation, read_operations, discover_operations,
}
use rtt_opcua.Discovery.Publish.{PublishedOperation, array_node}
use rtt_opcua.Discovery.Complete.{IsReadOf, discover_operations_ok}
use rtt_opcua.Discovery.Ports.{
  code, PortNode, is_input, bool_eq, access_matches, port_name, read_port_type, read_port_direction,
  read_port_description, check_attributes, validate_port_value, read_port, read_ports,
  discover_ports,
}
use rtt_opcua.Discovery.ValidPorts.{IsMirrored, IsReadFrom, IsPortOf, discover_ports_ok}
use rtt_opcua.Tests.Operations.{int_codec, pointer_text, codec_for, operation, types_named}

abbrev status_name : Status → Bytes
status_name c = codes "Bad"

-- A client that also knows the type of no value.
abbrev void_type : TypeInfo
void_type = record { address = 8; type_name = codes "Void" }

abbrev client_types : Bytes → Option TypeInfo
client_types name = if text_eq name (codes "Void") then some void_type else types_named name

abbrev schema : OperationSchema
schema = describe pointer_text codec_for operation

abbrev published_f : PublishedOperation
published_f = record {
  name = codes "f";
  description = codes "doc";
  input_types = array_node schema.input_type_names schema.input_type_names;
  output_types = array_node schema.output_type_names schema.output_type_names;
  output_sources = array_node schema.output_type_names schema.output_sources;
  inputs = schema.inputs;
  outputs = schema.outputs;
}

abbrev plain_method : Bytes → MethodNode
plain_method name = record {
  is_local = true;
  name = name;
  input_types = bad_status node_id_unknown;
  output_types = bad_status node_id_unknown;
  output_sources = bad_status node_id_unknown;
  properties = got [];
  description = none;
}

abbrev plain_description : Bytes → RemoteOperationDescription
plain_description name = record {
  name = name;
  description = [];
  input_types = [];
  input_names = [];
  input_descriptions = [];
  output_types = [];
  output_sources = [];
}

abbrev methods : List MethodNode
methods = plain_method (codes "stop") ∷ plain_method [] ∷ plain_method (codes "go") ∷ []

abbrev discovered : List RemoteOperationDescription
discovered = plain_description (codes "go") ∷ plain_description (codes "stop") ∷ []

two_methods_read : discover_operations status_name methods ≡ ok discovered
unfolding discover_operations read_operations read_operation read_optional_array is_unknown
    check_outputs read_input_descriptions read_method_arguments read_properties check_inputs
    description_text sort_by_name insert_named text_less adjacent_names text_eq
two_methods_read = refl

discover_operations_ok_example :
    Ascending (map operation_name discovered)
    × ((d : RemoteOperationDescription) → In d discovered ↔ IsReadOf status_name methods d)
discover_operations_ok_example =
    discover_operations_ok status_name methods discovered two_methods_read

abbrev speed_node : PortNode
speed_node = record {
  is_local = true;
  name = codes "speed";
  type_name = got (codes "int");
  direction = ok (code (pos 1));
  description = ok [];
  value_is_variable = ok true;
  attributes = some (record {
    data_type = codes "i=6";
    value_rank = negsuc 0;
    readable = true;
    writable = false;
    user_readable = true;
    user_writable = false;
  });
}

-- An output port without a value is left out.
abbrev silent_node : PortNode
silent_node = record speed_node { name = codes "a"; value_is_variable = err node_id_unknown }

abbrev codec_named : Bytes → Option TypeCodec
codec_named name = if text_eq name (codes "int") then some int_codec else none

abbrev port_nodes : List PortNode
port_nodes = speed_node ∷ silent_node ∷ []

abbrev ports_read : List RemotePortDescription
ports_read =
    record {
      name = codes "speed";
      type_name = codes "int";
      service_path = [];
      description = [];
      direction = output;
    }
    ∷ []

one_port_read : discover_ports status_name codec_named [] port_nodes ≡ ok ports_read
unfolding discover_ports read_ports read_port read_port_type read_port_direction
    read_port_description validate_port_value check_attributes access_matches is_input bool_eq
    is_unknown int_eq sort_by_name insert_named adjacent_names text_eq
one_port_read = refl

discover_ports_ok_example :
    Ascending (map port_name ports_read)
    × ((p : RemotePortDescription)
        → In p ports_read ↔ IsPortOf status_name codec_named [] port_nodes p)
    × ((p : RemotePortDescription)
        → In p ports_read
        → (n : PortNode) × In n port_nodes
          × IsReadFrom status_name codec_named [] n p
          × IsMirrored status_name codec_named [] n p)
discover_ports_ok_example =
    discover_ports_ok status_name codec_named [] port_nodes ports_read one_port_read
