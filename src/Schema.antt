-- ===== src/Schema.antt =====
-- src/operation_dispatcher.cpp, `describe`: the schema by which an operation of RTT is published as
-- a method. The operation and the registry of codecs are what RTT and the endpoint answer.
pub mod Describe
pub mod Mutable
pub mod Inputs
pub mod Outputs
pub mod Supported
pub mod Sources
pub mod Publishable
use rtt_opcua.Base.{
  ℕ, ◌+◌, Bool, true, false, not, ◌&&◌, ◌||◌, Option, none, some, List, [], ◌∷◌, ◌++◌, leb, ◌==◌,
  if◌then◌else◌, get_elem?, is_empty, Bytes, codes, decimal, ℤ,
}

-- A `TypeInfo` of RTT, known by its address.
pub record TypeInfo : Type 0 where
  pub address : ℕ
  pub type_name : Bytes

pub record TypeCodec : Type 0 where
  pub has_value : Bool
  pub data_type_node_id : Bytes
  pub value_rank : ℤ

pub record ArgumentDescription : Type 0 where
  pub name : Bytes
  pub description : Bytes
  pub type_text : Bytes

-- What an `OperationInterfacePart` answers: `getArgumentList`, which may throw, `getArgumentType`
-- from 1 to the arity and at 0, and `getCollectType` from 1 to the collect arity.
pub record RttOperation : Type 0 where
  pub address : ℕ
  pub name : Bytes
  pub description : Bytes
  pub argument_list : Option (List ArgumentDescription)
  pub argument_types : List (Option TypeInfo)
  pub result_type : Option TypeInfo
  pub collect_types : List (Option TypeInfo)

-- `::opcua::Argument`, as `describe` makes it.
pub record Argument : Type 0 where
  pub name : Bytes
  pub description : Bytes
  pub data_type_node_id : Bytes
  pub value_rank : ℤ

pub record OperationSchema : Type 0 where
  pub supported : Bool
  pub unsupported_type_name : Bytes
  pub unsupported_reason : Bytes
  pub fingerprint : Bytes
  pub inputs : List Argument
  pub outputs : List Argument
  pub input_type_names : List Bytes
  pub output_type_names : List Bytes
  pub output_sources : List ℤ

abbrev pub empty_schema : OperationSchema
empty_schema = record {
  supported = false;
  unsupported_type_name = [];
  unsupported_reason = [];
  fingerprint = [];
  inputs = [];
  outputs = [];
  input_type_names = [];
  output_type_names = [];
  output_sources = [];
}

-- `argumentName`; a number of type `std::size_t` has at most twenty digits.
unfoldable pub argument_name : List ArgumentDescription → ℕ → Bytes
argument_name arguments index = elim (get_elem? arguments index) [
  | some a ↦ if is_empty a.name then codes "argument" ++ decimal 20 (index + 1) else a.name
  | none ↦ codes "argument" ++ decimal 20 (index + 1)
]

-- `argumentDescription`
unfoldable pub argument_description : List ArgumentDescription → ℕ → Bytes
argument_description arguments index = elim (get_elem? arguments index) [
  | some a ↦ a.description
  | none ↦ []
]

-- `std::isspace`
unfoldable pub is_space : ℕ → Bool
is_space c = c == 32 || (leb 9 c && leb c 13)

-- The first loop of `isMutableReference`: the spaces at the end are taken off.
unfoldable pub trim_back : Bytes → Bytes
trim_back [] = []
trim_back (c ∷ s) = let rest = trim_back s in if is_empty rest && is_space c then [] else c ∷ rest

-- The second loop: those at the front.
unfoldable pub trim_front : Bytes → Bytes
trim_front [] = []
trim_front (c ∷ s) = if is_space c then trim_front s else c ∷ s

unfoldable pub ends_with : ℕ → Bytes → Bool
ends_with c [] = false
ends_with c (x ∷ []) = x == c
ends_with c (x ∷ y ∷ s) = ends_with c (y ∷ s)

unfoldable pub starts_with : Bytes → Bytes → Bool
starts_with [] s = true
starts_with (c ∷ p) [] = false
starts_with (c ∷ p) (x ∷ s) = c == x && starts_with p s

-- `isMutableReference`
unfoldable pub is_mutable_reference : Bytes → Bool
unfolding trim_back trim_front ends_with starts_with
is_mutable_reference type_text =
    let type_text' = trim_back type_text in
    if not (ends_with b'&' type_text')
    then false
    else not (starts_with (codes "const ") (trim_front type_text'))

-- `unsupportedSchema`
unfoldable pub unsupported_schema : Option TypeInfo → Bytes → OperationSchema
unsupported_schema type reason = record empty_schema {
  unsupported_type_name = elim type [ none ↦ codes "<unknown>" | some t ↦ t.type_name ];
  unsupported_reason = reason;
}

-- `unsupportedValueSchema`
unfoldable pub unsupported_value_schema : Option TypeInfo → Option TypeCodec → OperationSchema
unfolding unsupported_schema
unsupported_value_schema none codec = unsupported_schema none (codes "has no RTT type information")
unsupported_value_schema (some type) none =
    unsupported_schema (some type) (codes "has no registered OPC UA protocol")
unsupported_value_schema (some type) (some codec) =
    unsupported_schema (some type) (codes "does not support OPC UA values")
