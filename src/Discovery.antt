-- ===== src/Discovery.antt =====
-- src/client_session.cpp, `discoverOperations`: the descriptions of the operations of a component,
-- as the session reads them from the nodes of their methods. The text that a status prints is an
-- argument; an exception of the client itself ends the discovery (Session.State).
pub mod Publish
pub mod Types
pub mod Served
pub mod Usable
pub mod Sorted
pub mod Ports
pub mod ValidPorts
pub mod Complete
use rtt_opcua.Base.Order.{text_less, text_ord}
use rtt_opcua.Base.{
  Bool, true, false, not, ◌&&◌, ◌||◌, Option, none, some, List, [], ◌∷◌, ◌++◌, map, ◌==◌,
  if◌then◌else◌, length, is_empty, Bytes, codes, text_eq, Result, err, ok, ◌>>=◌, ℤ,
}
use rtt_opcua.Schema.{Argument}
use rtt_opcua.RemoteOperation.{RemoteOperationDescription}
use rtt_opcua.Session.{Status, node_id_unknown, Reply, got, bad_status, threw}
use rtt_opcua.Session.Requests.{status_message}

-- A property of a method: whether its node is local, its browse name, and its value; the exception
-- of the reply is that of the conversion to a list of arguments.
pub record PropertyNode : Type 0 where
  pub is_local : Bool
  pub name : Bytes
  pub arguments : Reply (List Argument)

-- A method that the browse of the operations gives, and the answers about its metadata: the
-- exceptions are those of the conversions and that of the browse of its properties, and there may be
-- no description.
pub record MethodNode : Type 0 where
  pub is_local : Bool
  pub name : Bytes
  pub input_types : Reply (List Bytes)
  pub output_types : Reply (List Bytes)
  pub output_sources : Reply (List ℤ)
  pub properties : Reply (List PropertyNode)
  pub description : Option Bytes

unfoldable pub is_unknown : Status → Bool
is_unknown node_id_unknown = true
is_unknown _ = false

-- What `readMethodArguments` has read so far.
pub record MethodArguments : Type 0 where
  pub inputs : Option (List Argument)
  pub outputs : Option (List Argument)

abbrev pub no_arguments : MethodArguments
no_arguments = record { inputs = none; outputs = none }

abbrev pub or_empty : {A : Type 0} → Option (List A) → List A
or_empty none = []
or_empty (some xs) = xs

abbrev pub duplicate_arguments : Bytes → Bytes
duplicate_arguments name = codes "RTT method exposes duplicate " ++ (name ++ codes " metadata")

unfoldable pub check_outputs : Bytes → List Bytes → List ℤ → Result Bytes (Unit {0})
check_outputs name types sources =
    if not (length types == length sources)
    then err
        (codes "remote operation '" ++ (name ++ codes "' has inconsistent RTT output metadata"))
    else ok tt

unfoldable pub check_inputs : Bytes → List Bytes → List Bytes → List Bytes → Result Bytes (Unit {0})
check_inputs name types names descriptions =
    if (not (is_empty names) || not (is_empty descriptions))
      && (not (length names == length types) || not (length descriptions == length types))
    then err (codes "remote operation '" ++ (name ++ codes "' has inconsistent RTT input metadata"))
    else ok tt

-- A description that cannot be read stays empty.
unfoldable pub description_text : Option Bytes → Bytes
description_text (some text) = text
description_text none = []

module _ {A : Type 0} (name_in : A → Bytes) where
  -- `std::sort` by the names; with equal names the discovery fails, whatever their order.
  unfoldable pub insert_named : A → List A → List A
  unfolding text_less
  insert_named o [] = o ∷ []
  insert_named o (x ∷ xs) =
      if text_less (name_in x) (name_in o) then x ∷ insert_named o xs else o ∷ x ∷ xs

  unfoldable pub sort_by_name : List A → List A
  unfolding insert_named
  sort_by_name [] = []
  sort_by_name (o ∷ os) = insert_named o (sort_by_name os)

  -- `std::adjacent_find`
  unfoldable pub adjacent_names : List A → Bool
  unfolding text_eq
  adjacent_names [] = false
  adjacent_names (o ∷ []) = false
  adjacent_names (o ∷ p ∷ os) = text_eq (name_in o) (name_in p) || adjacent_names (p ∷ os)

abbrev pub operation_name : RemoteOperationDescription → Bytes
operation_name o = o.name

module _ (status_name : Status → Bytes) where
  -- `readOptionalArray`: an unknown node is an empty array.
  unfoldable pub read_optional_array : {A : Type 0} → Reply (List A) → Result Bytes (List A)
  unfolding status_message is_unknown
  read_optional_array (got values) = ok values
  read_optional_array (bad_status c) =
      if is_unknown c
      then ok []
      else err (status_message status_name (codes "failed to read RTT method metadata") c)
  read_optional_array (threw what) = err (codes "invalid RTT method metadata: " ++ what)

  unfoldable pub read_arguments_value : Reply (List Argument) → Result Bytes (List Argument)
  unfolding status_message
  read_arguments_value (got arguments) = ok arguments
  read_arguments_value (bad_status c) =
      err (status_message status_name (codes "failed to read RTT method arguments") c)
  read_arguments_value (threw what) = err (codes "invalid RTT method argument metadata: " ++ what)

  -- One property of the method.
  unfoldable pub read_property : PropertyNode → MethodArguments → Result Bytes MethodArguments
  unfolding read_arguments_value text_eq
  read_property p read =
      if not p.is_local
      then ok read
      else if text_eq p.name (codes "InputArguments")
      then elim read.inputs [
        | some inputs ↦ err (duplicate_arguments p.name)
        | none ↦
            read_arguments_value p.arguments >>= λ inputs. ok (record read { inputs = some inputs })
      ]
      else if text_eq p.name (codes "OutputArguments")
      then elim read.outputs [
        | some outputs ↦ err (duplicate_arguments p.name)
        | none ↦ read_arguments_value p.arguments >>= λ outputs.
            ok (record read { outputs = some outputs })
      ]
      else ok read

  unfoldable pub read_properties :
      List PropertyNode → MethodArguments → Result Bytes MethodArguments
  read_properties [] read = ok read
  read_properties (p ∷ ps) read = read_property p read >>= λ read'. read_properties ps read'

  -- `readMethodArguments`
  unfoldable pub read_method_arguments : Reply (List PropertyNode) → Result Bytes MethodArguments
  unfolding read_properties status_message
  read_method_arguments (got ps) = read_properties ps no_arguments
  read_method_arguments (bad_status c) =
      err (status_message status_name (codes "failed to browse RTT method arguments") c)
  read_method_arguments (threw what) =
      err (codes "failed to discover remote RTT operations: " ++ what)

  -- `readInputDescriptions`: the names and the descriptions of the inputs.
  unfoldable pub read_input_descriptions :
      Reply (List PropertyNode) → Result Bytes (List Bytes × List Bytes)
  unfolding read_method_arguments
  read_input_descriptions properties = read_method_arguments properties >>= λ read.
      ok (map (λ a. a.name) (or_empty read.inputs), map (λ a. a.description) (or_empty read.inputs))

  -- One round of the loop over the methods, behind the test in `read_operations` of its node and its
  -- name. The paths of the metadata nodes stand for the answers that the method holds.
  unfoldable pub read_operation : MethodNode → Result Bytes RemoteOperationDescription
  unfolding read_optional_array check_outputs read_input_descriptions check_inputs description_text
  read_operation n = read_optional_array n.input_types >>= λ input_types.
      read_optional_array n.output_types >>= λ output_types.
      read_optional_array n.output_sources >>= λ output_sources.
      check_outputs n.name output_types output_sources >>= λ fine.
      read_input_descriptions n.properties >>= λ texts.
      check_inputs n.name input_types texts.0 texts.1 >>= λ also. ok (record {
        name = n.name;
        description = description_text n.description;
        input_types = input_types;
        input_names = texts.0;
        input_descriptions = texts.1;
        output_types = output_types;
        output_sources = output_sources;
      })

  unfoldable pub read_operations : List MethodNode → Result Bytes (List RemoteOperationDescription)
  unfolding read_operation
  read_operations [] = ok []
  read_operations (n ∷ ns) =
      if not n.is_local || is_empty n.name
      then read_operations ns
      else read_operation n >>= λ o. read_operations ns >>= λ os. ok (o ∷ os)

  -- The discovery behind the browse of the operations.
  unfoldable pub discover_operations :
      List MethodNode → Result Bytes (List RemoteOperationDescription)
  unfolding read_operations sort_by_name adjacent_names
  discover_operations nodes = read_operations nodes >>= λ os.
      let sorted = sort_by_name operation_name os in
      if adjacent_names operation_name sorted
      then err (codes "remote component exposes duplicate operation names")
      else ok sorted
