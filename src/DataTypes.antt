-- ===== src/DataTypes.antt =====
-- src/datatype_registry.cpp: the registry of datatype providers and the order of its providers.
-- `materialize` is a function of other libraries: a provider holds it as a value of a type `F`.
pub mod Sound
pub mod Register
pub mod Again
pub mod Freeze
use rtt_opcua.Base.{
  ◌⊎◌, inl, inr, Bool, true, false, not, ◌&&◌, ◌||◌, Option, none, some, List, [], ◌∷◌, ◌++◌,
  if◌then◌else◌, is_some, is_empty, Bytes, codes, text_eq, has_byte,
}
use rtt_opcua.Base.Order.{text_less, text_ord, sort}

pub record LogicalDataTypeId : Type 0 where
  pub namespace_uri : Bytes
  pub type_node_id : Bytes
  pub binary_encoding_node_id : Bytes

pub data CustomDataTypeKind : Type 0 where
  structure enumeration union_type : CustomDataTypeKind

pub record CustomDataTypeDefinition (F : Type 0) : Type 0 where
  pub name : Bytes
  pub id : LogicalDataTypeId
  pub kind : CustomDataTypeKind
  pub schema_fingerprint : Bytes
  pub materialize : Option F

pub record DataTypeProvider (F : Type 0) : Type 0 where
  pub name : Bytes
  pub namespace_uri : Bytes
  pub dependencies : List Bytes
  pub data_types : List (CustomDataTypeDefinition F)

-- `providers` is the map, as its entries in the order of their keys.
pub record RegistryState (F : Type 0) : Type 0 where
  pub providers : List (Bytes × DataTypeProvider F)
  pub provider_order : List Bytes
  pub frozen : Bool

abbrev pub empty_registry : {F : Type 0} → RegistryState F
empty_registry = record { providers = []; provider_order = []; frozen = false }

unfoldable pub valid_text : Bytes → Bool
valid_text value = not (is_empty value) && not (has_byte 0 value)

unfoldable pub kind_eq : CustomDataTypeKind → CustomDataTypeKind → Bool
kind_eq structure structure = true
kind_eq enumeration enumeration = true
kind_eq union_type union_type = true
kind_eq _ _ = false

unfoldable pub texts_eq : List Bytes → List Bytes → Bool
texts_eq [] [] = true
texts_eq (a ∷ s) (b ∷ t) = text_eq a b && texts_eq s t
texts_eq _ _ = false

unfoldable pub id_eq : LogicalDataTypeId → LogicalDataTypeId → Bool
id_eq a b =
    text_eq a.namespace_uri b.namespace_uri
    && text_eq a.type_node_id b.type_node_id
    && text_eq a.binary_encoding_node_id b.binary_encoding_node_id

-- A logical NodeId: the namespace URI and the identifier.
abbrev pub LogicalNodeId : Type 0
LogicalNodeId = Bytes × Bytes

unfoldable pub node_id_eq : LogicalNodeId → LogicalNodeId → Bool
node_id_eq (u, i) (v, j) = text_eq u v && text_eq i j

unfoldable pub is_occupied : LogicalNodeId → List LogicalNodeId → Bool
is_occupied id [] = false
is_occupied id (x ∷ ids) = node_id_eq x id || is_occupied id ids

unfoldable pub adjacent_equal : List Bytes → Bool
adjacent_equal [] = false
adjacent_equal (a ∷ []) = false
adjacent_equal (a ∷ b ∷ r) = text_eq a b || adjacent_equal (b ∷ r)

unfoldable pub any_invalid_dependency : Bytes → List Bytes → Bool
any_invalid_dependency name [] = false
any_invalid_dependency name (d ∷ ds) =
    not (valid_text d) || text_eq d name || any_invalid_dependency name ds

-- The texts of the registry's errors.
unfoldable pub quoted : Bytes → Bytes → Bytes
quoted message name = message ++ (b'\'' ∷ (name ++ (b'\'' ∷ [])))

unfoldable pub type_id : {F : Type 0} → CustomDataTypeDefinition F → LogicalNodeId
type_id d = (d.id.namespace_uri, d.id.type_node_id)

unfoldable pub encoding_id : {F : Type 0} → CustomDataTypeDefinition F → LogicalNodeId
encoding_id d = (d.id.namespace_uri, d.id.binary_encoding_node_id)

module _ {F : Type 0} where
  unfoldable pub same_definition : CustomDataTypeDefinition F → CustomDataTypeDefinition F → Bool
  unfolding id_eq kind_eq
  same_definition a b =
      text_eq a.name b.name
      && id_eq a.id b.id
      && kind_eq a.kind b.kind
      && text_eq a.schema_fingerprint b.schema_fingerprint
      && ((is_some a.materialize && is_some b.materialize)
          || (not (is_some a.materialize) && not (is_some b.materialize)))

  unfoldable pub same_definitions :
      List (CustomDataTypeDefinition F) → List (CustomDataTypeDefinition F) → Bool
  same_definitions [] [] = true
  same_definitions (a ∷ s) (b ∷ t) = same_definition a b && same_definitions s t
  same_definitions _ _ = false

  unfoldable pub same_provider : DataTypeProvider F → DataTypeProvider F → Bool
  unfolding same_definitions texts_eq
  same_provider a b =
      text_eq a.name b.name
      && text_eq a.namespace_uri b.namespace_uri
      && texts_eq a.dependencies b.dependencies
      && same_definitions a.data_types b.data_types

  -- The NodeIds of the registered datatypes.
  unfoldable pub definition_ids : List (CustomDataTypeDefinition F) → List LogicalNodeId
  definition_ids [] = []
  definition_ids (d ∷ ds) = type_id d ∷ encoding_id d ∷ definition_ids ds

  unfoldable pub occupied_ids : List (Bytes × DataTypeProvider F) → List LogicalNodeId
  unfolding definition_ids
  occupied_ids [] = []
  occupied_ids ((name, p) ∷ rest) = definition_ids p.data_types ++ occupied_ids rest

  unfoldable pub invalid_definition : CustomDataTypeDefinition F → Bool
  unfolding valid_text
  invalid_definition d =
      not (valid_text d.name)
      || not (valid_text d.schema_fingerprint)
      || not (valid_text d.id.namespace_uri)
      || not (valid_text d.id.type_node_id)
      || not (valid_text d.id.binary_encoding_node_id)
      || not (is_some d.materialize)

  -- The loop over the provider's own datatypes, with the NodeIds occupied so far.
  unfoldable pub check_definitions :
      DataTypeProvider F → List LogicalNodeId → List (CustomDataTypeDefinition F) → Option Bytes
  unfolding invalid_definition is_occupied quoted type_id encoding_id
  check_definitions p occupied [] = none
  check_definitions p occupied (d ∷ ds) =
      let rest = check_definitions p (encoding_id d ∷ type_id d ∷ occupied) ds in
      if invalid_definition d
      then some (
          quoted (codes "invalid OPC UA datatype provider: invalid datatype definition in ") p.name)
      else if not (text_eq d.id.namespace_uri p.namespace_uri)
      then some (
          quoted
            (codes "invalid OPC UA datatype provider: datatype namespace does not match provider ")
            p.name)
      else if node_id_eq (type_id d) (encoding_id d)
          || is_occupied (type_id d) occupied
          || is_occupied (encoding_id d) (type_id d ∷ occupied)
      then some (quoted (codes "conflicting OPC UA datatype provider: NodeId collision in ") p.name)
      else rest

  -- `validateAndNormalize`: the error, or the provider with its dependencies sorted.
  unfoldable pub validate_and_normalize :
      DataTypeProvider F → RegistryState F → Bytes ⊎ DataTypeProvider F
  unfolding check_definitions any_invalid_dependency adjacent_equal occupied_ids
  validate_and_normalize p state =
      let normal = record p { dependencies = sort p.dependencies } in
      if not (valid_text p.name) || not (valid_text p.namespace_uri) || is_empty p.data_types
      then inl (
          codes
            "invalid OPC UA datatype provider: name, namespace URI, and datatype list must be nonempty")
      else if any_invalid_dependency p.name p.dependencies
      then inl (quoted (codes "invalid OPC UA datatype provider: invalid dependency for ") p.name)
      else if adjacent_equal normal.dependencies
      then inl (quoted (codes "invalid OPC UA datatype provider: duplicate dependency for ") p.name)
      else elim (check_definitions normal (occupied_ids state.providers) p.data_types) [
        | some error ↦ inl error
        | none ↦ inr normal
      ]

  -- `providers.find(name)`
  unfoldable pub find_provider :
      Bytes → List (Bytes × DataTypeProvider F) → Option (DataTypeProvider F)
  find_provider name [] = none
  find_provider name ((n, p) ∷ rest) = if text_eq n name then some p else find_provider name rest

  -- `providers.emplace(name, provider)`
  unfoldable pub emplace_provider :
      Bytes
      → DataTypeProvider F
      → List (Bytes × DataTypeProvider F)
      → List (Bytes × DataTypeProvider F)
  emplace_provider name p [] = (name, p) ∷ []
  emplace_provider name p ((n, q) ∷ rest) =
      if text_less name n
      then (name, p) ∷ (n, q) ∷ rest
      else if text_less n name
      then (n, q) ∷ emplace_provider name p rest
      else (n, q) ∷ rest

  -- The part of `registerDataTypeProvider` behind the search, for a provider that is not there.
  unfoldable pub add_provider :
      DataTypeProvider F → RegistryState F → RegistryState F × Option Bytes
  add_provider p state = elim (validate_and_normalize p state) [
    | inl error ↦ (state, some error)
    | inr normal ↦
        (record state { providers = emplace_provider normal.name normal state.providers }, none)
  ]

  -- `registerDataTypeProvider`: the registry after the call, and the error where it fails.
  unfoldable pub register_data_type_provider :
      DataTypeProvider F → RegistryState F → RegistryState F × Option Bytes
  unfolding add_provider quoted
  register_data_type_provider provider state =
      let p = record provider { dependencies = sort provider.dependencies } in
      elim (find_provider p.name state.providers) [
        | some existing ↦
            if same_provider existing p
            then (state, none)
            else if state.frozen
            then (
              state,
              some (quoted (codes "late OPC UA datatype provider registration: ") p.name),
            )
            else (state, some (quoted (codes "conflicting OPC UA datatype provider: ") p.name))
        | none ↦
            if state.frozen
            then (
              state,
              some (quoted (codes "late OPC UA datatype provider registration: ") p.name),
            )
            else add_provider p state
      ]
