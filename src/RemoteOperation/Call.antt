-- ===== src/RemoteOperation/Call.antt =====
-- src/remote_operation.cpp: the arguments of a remote call, its execution, and the checks of the
-- data sources that a caller hands over. The data sources stand in a store; a codec reads a source
-- of the store as a variant and assigns a variant to one, which can fail after it has written.
use rtt_opcua.Base.{
  ℕ, ◌+◌, Bool, true, false, not, ◌&&◌, ◌||◌, Option, none, some, List, [], ◌∷◌, ◌==◌,
  if◌then◌else◌, length, get_elem?, Bytes, codes, text_eq, Result, err, ok, ◌>>=◌, ℤ, pos, negsuc,
}
use rtt_opcua.Schema.{TypeInfo}
use rtt_opcua.RemoteOperation.{RemoteOperation, has_index}

pub record RemoteCallResult (Variant : Type 0) : Type 0 where
  pub success : Bool
  pub outputs : List Variant
  pub error : Bytes

-- The codecs: `codecForDataSource` with `toVariant`, which may also throw, and `codecForTypeName`
-- with `assignVariant`.
pub record Codecs (Store Source Variant : Type 0) : Type 0 where
  pub to_variant : Store → Source → Option Variant
  pub assign_variant : Bytes → Option (Variant → Source → Store → Store × Bool)

pub record CallAction (Source Variant : Type 0) : Type 0 where
  pub arguments : List Source
  pub output_types : List Bytes
  pub output_sources : List ℤ
  pub return_value : Option Source
  pub inputs : List Variant
  pub prepared : Bool

-- `RTT::internal::SendHandleC` of a remote call: the arguments, and whether they are encoded.
pub record SendAction (Source Variant : Type 0) : Type 0 where
  pub arguments : List Source
  pub inputs : List Variant
  pub prepared : Bool

module _ {Store Source Variant : Type 0} (codecs : Codecs Store Source Variant) where
  -- The loop of `encodeArguments`.
  unfoldable pub encode_loop : Store → List Source → Option (List Variant)
  encode_loop store [] = some []
  encode_loop store (argument ∷ arguments) = elim (codecs.to_variant store argument) [
    | none ↦ none
    | some v ↦ elim (encode_loop store arguments) [ none ↦ none | some vs ↦ some (v ∷ vs) ]
  ]

  -- `encodeArguments`: the inputs, which are cleared on a failure, and the result.
  unfoldable pub encode_arguments : Store → List Source → List Variant × Bool
  unfolding encode_loop
  encode_arguments store arguments = elim (encode_loop store arguments) [
    | none ↦ ([], false)
    | some inputs ↦ (inputs, true)
  ]

  -- The destination of an output.
  unfoldable pub destination_of : List Source → Option Source → ℤ → Option Source
  destination_of arguments return_value (negsuc n) = if n == 0 then return_value else none
  destination_of arguments return_value (pos j) = get_elem? arguments j

  -- One output: the codec of its type, its destination, and the assignment.
  unfoldable pub assign_output : Bytes → Option Source → Variant → Store → Store × Bool
  assign_output type none v store = (store, false)
  assign_output type (some destination) v store = elim (codecs.assign_variant type) [
    | none ↦ (store, false)
    | some assign ↦ assign v destination store
  ]

  -- The loop of `assignCallOutputs`, which ends at the first failure.
  unfoldable pub assign_outputs :
      List Source → Option Source → List Bytes → List ℤ → List Variant → Store → Store × Bool
  unfolding assign_output destination_of
  assign_outputs arguments return_value (type ∷ types) (source ∷ sources) (v ∷ vs) store =
      let (store', done) =
        assign_output type (destination_of arguments return_value source) v store in
      let rest = assign_outputs arguments return_value types sources vs store' in
      if done then rest else (store', false)
  assign_outputs arguments return_value _ _ _ store = (store, true)

  -- `assignCallOutputs`
  unfoldable pub assign_call_outputs :
      RemoteCallResult Variant
      → List Bytes
      → List ℤ
      → List Source
      → Option Source
      → Store
      → Store × Bool
  unfolding assign_outputs
  assign_call_outputs result output_types output_sources arguments return_value store =
      if not result.success
        || not (length result.outputs == length output_types)
        || not (length output_types == length output_sources)
      then (store, false)
      else assign_outputs arguments return_value output_types output_sources result.outputs store

  -- `RemoteCallAction::readArguments`; the flag says that there is a type registry.
  unfoldable pub read_arguments :
      Bool → Store → CallAction Source Variant → CallAction Source Variant
  unfolding encode_arguments
  read_arguments has_registry store a =
      let (inputs, encoded) = encode_arguments store a.arguments in
      if has_registry
      then record a { inputs = inputs; prepared = encoded }
      else record a { prepared = false }

  -- `RemoteCallAction::execute`; the session's call is a function of the inputs.
  unfoldable pub execute :
      Bool
      → (List Variant → RemoteCallResult Variant)
      → CallAction Source Variant
      → Store
      → Store × Bool
  unfolding assign_call_outputs
  execute has_registry call a store =
      if not a.prepared || not has_registry
      then (store, false)
      else assign_call_outputs (call a.inputs) a.output_types a.output_sources a.arguments
          a.return_value store

  -- `RemoteSendAction::readArguments`
  unfoldable pub read_send_arguments :
      Bool → Store → SendAction Source Variant → SendAction Source Variant
  unfolding encode_arguments
  read_send_arguments has_registry store a =
      let (inputs, encoded) = encode_arguments store a.arguments in
      if has_registry
      then record a { inputs = inputs; prepared = encoded }
      else record a { prepared = false }

  -- `RemoteSendAction::execute`: the inputs of the invocation that the handle gets, which is empty if
  -- the thread of the call cannot be started, and the result. Without prepared arguments the handle
  -- stays as it is.
  unfoldable pub execute_send :
      Bool → SendAction Source Variant → Option (List Variant) → Option (List Variant) × Bool
  execute_send starts a handle =
      if not a.prepared
      then (handle, false)
      else if starts
      then (some a.inputs, true)
      else (none, false)

-- A data source that a caller hands over: its type, whether a codec fits it, and whether it can be
-- assigned.
pub record Handed : Type 0 where
  pub type_name : Bytes
  pub has_codec : Bool
  pub is_assignable : Bool

-- The exceptions of RTT's factories.
pub data FactoryError : Type 0 where
  wrong_number_of_args : ℕ → ℕ → FactoryError
  wrong_types_of_args : ℕ → Bytes → Bytes → FactoryError
  non_lvalue_args : ℕ → Bytes → FactoryError

-- One argument of `validateArguments`, at its index.
unfoldable pub check_argument :
    List ℕ → ℕ → TypeInfo → Option Handed → Result FactoryError (Unit {0})
check_argument mutables index type none =
    err (wrong_types_of_args (index + 1) type.type_name (codes "null"))
check_argument mutables index type (some h) =
    if not (text_eq h.type_name type.type_name) || not h.has_codec
    then err (wrong_types_of_args (index + 1) type.type_name h.type_name)
    else if has_index index mutables && not h.is_assignable
    then err (non_lvalue_args (index + 1) h.type_name)
    else ok tt

unfoldable pub check_arguments :
    List ℕ → ℕ → List TypeInfo → List (Option Handed) → Result FactoryError (Unit {0})
unfolding check_argument
check_arguments mutables index (type ∷ types) (a ∷ arguments) =
    check_argument mutables index type a >>= λ fine.
    check_arguments mutables (index + 1) types arguments
check_arguments mutables index [] arguments = ok tt
check_arguments mutables index (type ∷ types) [] = ok tt

-- `validateArguments`
unfoldable pub validate_arguments :
    RemoteOperation → List (Option Handed) → Result FactoryError (Unit {0})
unfolding check_arguments
validate_arguments o arguments =
    if not (length arguments == length o.input_types)
    then err (wrong_number_of_args (length o.input_types) (length arguments))
    else check_arguments o.mutable_arguments 0 o.input_types arguments

-- `validateDestinations`, from an index on.
unfoldable pub check_destination : ℕ → TypeInfo → Option Handed → Result FactoryError (Unit {0})
check_destination index type none =
    err (wrong_types_of_args (index + 1) type.type_name (codes "null"))
check_destination index type (some h) =
    if not h.is_assignable || not (text_eq h.type_name type.type_name)
    then err (wrong_types_of_args (index + 1) type.type_name h.type_name)
    else ok tt

unfoldable pub validate_destinations :
    ℕ → List TypeInfo → List (Option Handed) → Result FactoryError (Unit {0})
unfolding check_destination
validate_destinations index (type ∷ types) (d ∷ destinations) =
    check_destination index type d >>= λ fine. validate_destinations (index + 1) types destinations
validate_destinations index [] destinations = ok tt
validate_destinations index (type ∷ types) [] = ok tt
