-- ===== src/Discovery/Publish.antt =====
-- src/object_model.cpp, `appendOperationBundle`: what a method and its metadata publish of a schema.
use rtt_opcua.Base.{
  Bool, false, not, ◌&&◌, Option, none, some, List, [], ◌∷◌, ◌==◌, if◌then◌else◌, length, is_empty,
  Bytes, codes, text_eq, ℤ, negsuc, int_eq,
}
use rtt_opcua.Schema.{Argument, OperationSchema}

-- `kMandatoryOperations`
abbrev pub mandatory_operations : List (Bytes × Bytes)
mandatory_operations =
    (codes "getTaskState", codes "TaskState")
    ∷ (codes "getTargetState", codes "TaskState")
    ∷ (codes "isConfigured", codes "Bool")
    ∷ (codes "isActive", codes "Bool")
    ∷ (codes "isRunning", codes "Bool")
    ∷ (codes "inFatalError", codes "Bool")
    ∷ (codes "inException", codes "Bool")
    ∷ (codes "inRunTimeError", codes "Bool")
    ∷ []

unfoldable pub find_mandatory : Bytes → List (Bytes × Bytes) → Bytes
unfolding text_eq
find_mandatory name [] = []
find_mandatory name ((mandatory, type) ∷ rest) =
    let found = find_mandatory name rest in if text_eq mandatory name then type else found

-- `mandatoryOutputType`; the flag says that the operation belongs to the component itself.
unfoldable pub mandatory_output_type : Bool → Bytes → Bytes
unfolding find_mandatory
mandatory_output_type is_own name =
    if not is_own then [] else find_mandatory name mandatory_operations

-- The nodes of a published operation: an array without elements has no node.
pub record PublishedOperation : Type 0 where
  pub name : Bytes
  pub description : Bytes
  pub input_types : Option (List Bytes)
  pub output_types : Option (List Bytes)
  pub output_sources : Option (List ℤ)
  pub inputs : List Argument
  pub outputs : List Argument

-- An operation is published, it fails the component as a mandatory one, or it is reported.
pub data Publication : Type 0 where
  published : PublishedOperation → Publication
  mandatory_failure : Bytes → Publication
  mapping_failure : Bytes → Bytes → Publication

-- The schema that a mandatory operation has to have.
unfoldable pub is_mandatory_schema : Bytes → OperationSchema → Bool
unfolding text_eq int_eq
is_mandatory_schema type schema =
    is_empty schema.inputs
    && is_empty schema.input_type_names
    && (length schema.outputs == 1)
    && is_single_type schema.output_type_names
    && is_single_source schema.output_sources
  where
    is_single_type : List Bytes → Bool
    is_single_type (name ∷ []) = text_eq name type
    is_single_type _ = false

    is_single_source : List ℤ → Bool
    is_single_source (source ∷ []) = int_eq source (negsuc 0)
    is_single_source _ = false

abbrev pub array_node : {A B : Type 0} → List A → List B → Option (List B)
array_node [] xs = none
array_node (y ∷ ys) xs = some xs

-- The part of `appendOperationBundle` behind the description of an operation.
unfoldable pub publish_operation : Bytes → Bytes → Bytes → OperationSchema → Publication
unfolding is_mandatory_schema
publish_operation mandatory_type name description schema =
    if not schema.supported
    then (if is_empty mandatory_type
        then mapping_failure schema.unsupported_type_name schema.unsupported_reason
        else mandatory_failure (codes "mandatory RTT proxy operation has an unsupported schema"))
    else if not (is_empty mandatory_type) && not (is_mandatory_schema mandatory_type schema)
    then mandatory_failure
        (codes "mandatory RTT proxy operation has an incompatible input/output schema")
    else published (record {
      name = name;
      description = description;
      input_types = array_node schema.input_type_names schema.input_type_names;
      output_types = array_node schema.output_type_names schema.output_type_names;
      output_sources = array_node schema.output_type_names schema.output_sources;
      inputs = schema.inputs;
      outputs = schema.outputs;
    })
