-- ===== src/Schema/Describe.antt =====
-- src/operation_dispatcher.cpp, `describe`, in the order of its loops. The schema under way carries
-- the text of the fingerprint; a schema that is returned early is on the side of the errors.
use rtt_opcua.Base.{
  ℕ, ◌+◌, Bool, true, false, not, ◌&&◌, Option, none, some, List, [], ◌∷◌, ◌++◌, if◌then◌else◌,
  Bytes, codes, text_eq, Result, err, ok, ◌>>=◌, ℤ, negsuc, to_int32,
}
use rtt_opcua.Schema.{
  TypeInfo, TypeCodec, ArgumentDescription, RttOperation, Argument, OperationSchema, empty_schema,
  argument_name, argument_description, is_mutable_reference, unsupported_schema,
  unsupported_value_schema,
}

-- The fingerprint's part for one argument, behind its mark.
abbrev pub mark : Bytes → Bytes → Bytes → TypeInfo → Bytes
mark tag name description type = tag ++ (name ++ (b':' ∷ (description ++ (b':' ∷ type.type_name))))

abbrev pub make_argument : Bytes → Bytes → TypeCodec → Argument
make_argument name description codec = record {
  name = name;
  description = description;
  data_type_node_id = codec.data_type_node_id;
  value_rank = codec.value_rank;
}

-- One round of the loop over the arguments.
unfoldable pub add_input :
    List ArgumentDescription → ℕ → TypeInfo × TypeCodec → OperationSchema → OperationSchema
add_input arguments index (type, codec) schema =
    let name = argument_name arguments index in
    let description = argument_description arguments index in
    record schema {
      inputs = schema.inputs ++ (make_argument name description codec ∷ []);
      input_type_names = schema.input_type_names ++ (type.type_name ∷ []);
      fingerprint = schema.fingerprint ++ mark (codes "|in:") name description type;
    }

-- The indices of the arguments that are mutable references, from an index on.
unfoldable pub mutable_arguments : ℕ → List ArgumentDescription → List ℕ
unfolding is_mutable_reference
mutable_arguments index [] = []
mutable_arguments index (a ∷ arguments) =
    let rest = mutable_arguments (index + 1) arguments in
    if is_mutable_reference a.type_text then index ∷ rest else rest

-- The name, the description and the source of an output, and the mutable arguments that are left.
unfoldable pub choose_output :
    RttOperation → List ArgumentDescription → Bool → List ℕ → Option (Bytes × Bytes × ℤ × List ℕ)
unfolding to_int32
choose_output operation arguments true mutables =
    some (codes "result", operation.description, negsuc 0, mutables)
choose_output operation arguments false [] = none
choose_output operation arguments false (argument ∷ mutables) = some (
  argument_name arguments argument,
  argument_description arguments argument,
  to_int32 argument,
  mutables,
)

unfoldable pub add_output :
    Bytes → Bytes → ℤ → TypeInfo × TypeCodec → OperationSchema → OperationSchema
add_output name description source (type, codec) schema = record schema {
  output_sources = schema.output_sources ++ (source ∷ []);
  outputs = schema.outputs ++ (make_argument name description codec ∷ []);
  output_type_names = schema.output_type_names ++ (type.type_name ∷ []);
  fingerprint = schema.fingerprint ++ mark (codes "|out:") name description type;
}

module _ (codec_for : TypeInfo → Option TypeCodec) where
  -- The test of a type and its codec in both loops.
  unfoldable pub value_codec : Option TypeInfo → Result OperationSchema (TypeInfo × TypeCodec)
  unfolding unsupported_value_schema
  value_codec none = err (unsupported_value_schema none none)
  value_codec (some type) = elim (codec_for type) [
    | none ↦ err (unsupported_value_schema (some type) none)
    | some codec ↦
        if codec.has_value
        then ok (type, codec)
        else err (unsupported_value_schema (some type) (some codec))
  ]

  unfoldable pub describe_inputs :
      List ArgumentDescription
      → ℕ
      → List (Option TypeInfo)
      → OperationSchema
      → Result OperationSchema OperationSchema
  unfolding value_codec add_input
  describe_inputs arguments index [] schema = ok schema
  describe_inputs arguments index (type ∷ types) schema = value_codec type >>= λ found.
      describe_inputs arguments (index + 1) types (add_input arguments index found schema)

  -- The tests of the return type: whether it has a value.
  unfoldable pub describe_return : Option TypeInfo → Result OperationSchema Bool
  unfolding unsupported_value_schema
  describe_return none = err (unsupported_value_schema none none)
  describe_return (some type) = elim (codec_for type) [
    | none ↦ err (unsupported_value_schema (some type) none)
    | some codec ↦
        if not codec.has_value && not (text_eq type.type_name (codes "Void"))
        then err (unsupported_value_schema (some type) (some codec))
        else ok codec.has_value
  ]

  -- The loop over the collected types; the flag says that the next one is the return value, which
  -- is so at index 0 if there is one.
  unfoldable pub describe_outputs :
      RttOperation
      → List ArgumentDescription
      → Bool
      → List ℕ
      → List (Option TypeInfo)
      → OperationSchema
      → Result OperationSchema OperationSchema
  unfolding value_codec choose_output add_output unsupported_schema
  describe_outputs operation arguments is_result mutables [] schema = ok schema
  describe_outputs operation arguments is_result mutables (type ∷ types) schema =
      value_codec type >>= λ found. elim (choose_output operation arguments is_result mutables) [
        | none ↦
            err
              (unsupported_schema (some found.0) (codes "has unsupported mutable output metadata"))
        | some (name, description, source, mutables') ↦
            describe_outputs operation arguments false mutables' types
              (add_output name description source found schema)
      ]

module _ (pointer_text : ℕ → Bytes) (codec_for : TypeInfo → Option TypeCodec) where
  -- The body of the `try` block.
  unfoldable pub describe_with :
      RttOperation → List ArgumentDescription → Result OperationSchema OperationSchema
  unfolding describe_inputs describe_return describe_outputs mutable_arguments
  describe_with operation arguments =
      let start = record empty_schema {
        fingerprint = pointer_text operation.address ++ (b'|' ∷ operation.description);
      } in
      describe_inputs codec_for arguments 0 operation.argument_types start >>= λ schema.
      describe_return codec_for operation.result_type >>= λ has_return_value.
      describe_outputs codec_for operation arguments has_return_value
        (mutable_arguments 0 arguments) operation.collect_types schema

  -- `OperationDispatcher::describe`
  unfoldable pub describe : RttOperation → OperationSchema
  unfolding describe_with unsupported_schema
  describe operation = elim operation.argument_list [
    | none ↦ unsupported_schema none (codes "could not be described for OPC UA publication")
    | some arguments ↦ elim (describe_with operation arguments) [
      | err schema ↦ schema
      | ok schema ↦ record schema { supported = true }
    ]
  ]
