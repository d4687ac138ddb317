-- ===== src/Tests/Registry.antt =====
-- Three providers, registered against their order and frozen.
use rtt_opcua.Base.{
  ℕ, ◌<◌, ◌≡◌, refl, ◌⊎◌, inl, inr, true, false, none, some, List, [], ◌∷◌, ◌++◌, arith, length, In,
  Bytes, codes, text_eq, has_byte, Distinct, Within,
}
use rtt_opcua.Base.Order.{text_less, text_ord, set_insert, sort}
use rtt_opcua.ProviderOrder.{
  Graph, size_mod, contains_name, find_missing, indegree, dependents, initial_ready, decrement,
  relax, drain_ready, unresolved, ordered, order_error, cyclic_message, compute_provider_order,
}
use rtt_opcua.ProviderOrder.Edges.{names}
use rtt_opcua.ProviderOrder.Invariant.{IsGraph}
use rtt_opcua.ProviderOrder.Order.{Respects}
use rtt_opcua.ProviderOrder.Complete.{compute_provider_order_sound, compute_provider_order_complete}
use rtt_opcua.DataTypes.{
  structure, DataTypeProvider, RegistryState, empty_registry, valid_text, node_id_eq,
  definition_ids, occupied_ids, validate_and_normalize, find_provider, emplace_provider,
  register_data_type_provider,
}
use rtt_opcua.DataTypes.Register.{count_id, keys, IsValid, register-IsValid}
use rtt_opcua.DataTypes.Freeze.{
  dependency_graph, freeze_data_type_registry, frozen_data_type_providers, IsOrdered, Countable,
  freeze_cases, AreUnder, frozen_providers_found,
}

abbrev graph : Graph
graph = (codes "a", codes "b" ∷ []) ∷ (codes "b", []) ∷ []

graph_small : (x : Bytes) (ds : List Bytes) → In (x, ds) graph → length ds < size_mod
graph_small x ds h = ground arith

graph-IsGraph : IsGraph graph
graph-IsGraph = record {
  distinct = ((λ h. ground (arith, h)), ((λ h. h), tt));
  small = graph_small;
}

abbrev right_order : List Bytes
right_order = codes "b" ∷ codes "a" ∷ []

graph_order : compute_provider_order graph ≡ ordered right_order
unfolding compute_provider_order find_missing contains_name drain_ready relax decrement indegree
    initial_ready dependents text_eq set_insert sort text_less
graph_order = refl

cycle_test :
    compute_provider_order ((codes "a", codes "a" ∷ []) ∷ [])
    ≡ order_error (codes "cyclic OPC UA datatype provider dependency: a")
unfolding compute_provider_order find_missing contains_name drain_ready relax decrement indegree
    initial_ready dependents text_eq set_insert sort text_less unresolved cyclic_message
cycle_test = refl

compute_provider_order_sound_example :
    Respects graph [] right_order
    × Distinct right_order
    × Within right_order (names graph)
    × Within (names graph) right_order
compute_provider_order_sound_example =
    compute_provider_order_sound graph right_order graph-IsGraph graph_order

right_order-Respects : Respects graph [] right_order
right_order-Respects = (compute_provider_order_sound graph right_order graph-IsGraph graph_order).0

right_order_all : Within (names graph) right_order
right_order_all = (compute_provider_order_sound graph right_order graph-IsGraph graph_order).3

compute_provider_order_complete_example :
    (result : List Bytes) × (compute_provider_order graph ≡ ordered result)
compute_provider_order_complete_example =
    compute_provider_order_complete graph graph-IsGraph right_order right_order-Respects
      right_order_all

-- A provider of one structure; its factory is a number.
abbrev provider : Bytes → List Bytes → DataTypeProvider ℕ
provider name dependencies = record {
  name = name;
  namespace_uri = codes "urn:" ++ name;
  dependencies = dependencies;
  data_types =
      record {
        name = codes "T";
        id = record {
          namespace_uri = codes "urn:" ++ name;
          type_node_id = codes "types/T";
          binary_encoding_node_id = codes "encodings/T";
        };
        kind = structure;
        schema_fingerprint = codes "v1";
        materialize = some 0;
      }
      ∷ [];
}

abbrev base : DataTypeProvider ℕ
base = provider (codes "b") []

abbrev client : DataTypeProvider ℕ
client = provider (codes "a") (codes "b" ∷ [])

empty-IsValid : IsValid (empty_registry {F = ℕ})
unfolding occupied_ids count_id
empty-IsValid = record { ascending = tt; sound = tt; unshared = λ id. omega arith }

register-IsValid_example : IsValid (register_data_type_provider base empty_registry).0
register-IsValid_example = register-IsValid base empty_registry empty-IsValid

abbrev one_frozen : RegistryState ℕ
one_frozen = record {
  providers = (codes "b", base) ∷ [];
  provider_order = codes "b" ∷ [];
  frozen = true;
}

base_accepted : (register_data_type_provider base empty_registry).1 ≡ none
unfolding register_data_type_provider find_provider validate_and_normalize valid_text has_byte
    text_eq sort node_id_eq
base_accepted = refl

-- The registry with both.
abbrev two : RegistryState ℕ
two = (register_data_type_provider client (register_data_type_provider base empty_registry).0).0

two-IsValid : IsValid two
two-IsValid =
    register-IsValid client (register_data_type_provider base empty_registry).0
      (register-IsValid base empty_registry empty-IsValid)

two_graph : dependency_graph two.providers ≡ graph
unfolding register_data_type_provider find_provider validate_and_normalize valid_text has_byte
    text_eq text_less sort node_id_eq dependency_graph emplace_provider definition_ids
two_graph = refl

two_keys : keys two.providers ≡ names graph
unfolding register_data_type_provider find_provider validate_and_normalize valid_text has_byte
    text_eq text_less sort node_id_eq dependency_graph emplace_provider definition_ids
two_keys = refl

two_open : two.frozen ≡ false
unfolding register_data_type_provider find_provider validate_and_normalize valid_text has_byte
    text_eq text_less sort node_id_eq emplace_provider definition_ids
two_open = refl

two-Countable : Countable two
two-Countable = rw two_graph graph_small

freeze_cases_example :
    ((order : List Bytes) × (freeze_data_type_registry two
        ≡ (record two { provider_order = order; frozen = true }, ordered order))
      × Distinct order
      × IsOrdered (record two { provider_order = order; frozen = true }))
    ⊎ ((e : Bytes) × (freeze_data_type_registry two ≡ (two, order_error e)))
freeze_cases_example = freeze_cases two two-IsValid two-Countable two_open

frozen_providers_found_example :
    ((e : Bytes) × (frozen_data_type_providers two ≡ (two, inl e)))
    ⊎ ((order : List Bytes) × (ps : List (DataTypeProvider ℕ)) × (frozen_data_type_providers two
          ≡ (record two { provider_order = order; frozen = true }, inr (some ps)))
        × (frozen_data_type_providers (record two { provider_order = order; frozen = true })
            ≡ (record two { provider_order = order; frozen = true }, inr (some ps)))
        × Distinct order
        × IsOrdered (record two { provider_order = order; frozen = true })
        × AreUnder two.providers order ps)
frozen_providers_found_example = frozen_providers_found two two-IsValid two-Countable two_open
