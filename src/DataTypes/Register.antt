-- ===== src/DataTypes/Register.antt =====
-- What `registerDataTypeProvider` keeps and finds.
use rtt_opcua.DataTypes.Sound.{IsSound, validate-IsSound, emplace-IsSound}
use rtt_opcua.Base.{
  ℕ, ◌+◌, ◌≤◌, ◌≡◌, refl, ap, subst, ◌↔◌, ◌⊎◌, inl, inr, true, false, none, some, List, [], ◌∷◌,
  ◌++◌, map, arith, if◌then◌else◌, Bool-cases, Option-cases, All, Bytes, text_eq_iff,
}
use rtt_opcua.Base.Order.{text_less_total, text_ord, set_insert, sort, Ascending}
use rtt_opcua.Base.Order.Sets.{set_insert-Ascending}
use rtt_opcua.DataTypes.{
  CustomDataTypeDefinition, DataTypeProvider, RegistryState, LogicalNodeId, node_id_eq, is_occupied,
  adjacent_equal, any_invalid_dependency, type_id, encoding_id, same_provider, definition_ids,
  occupied_ids, check_definitions, validate_and_normalize, find_provider, emplace_provider,
  add_provider, register_data_type_provider,
}

-- How often a NodeId stands in the list.
unfoldable pub count_id : LogicalNodeId → List LogicalNodeId → ℕ
count_id id [] = 0
count_id id (x ∷ ids) = (if node_id_eq x id then 1 else 0) + count_id id ids

count_id-append :
    (id : LogicalNodeId) (ids more : List LogicalNodeId)
    → count_id id (ids ++ more) ≡ count_id id ids + count_id id more
unfolding count_id
count_id-append id [] more = omega arith
count_id-append id (x ∷ ids) more = omega (arith, count_id-append id ids more)

node_id_eq_iff : (x y : LogicalNodeId) → (node_id_eq x y ≡ true) ↔ (x ≡ y)
unfolding node_id_eq
node_id_eq_iff (u, i) (v, j) = ground (arith, text_eq_iff u v, text_eq_iff i j)

free_count :
    (id : LogicalNodeId) (ids : List LogicalNodeId)
    → is_occupied id ids ≡ false
    → count_id id ids ≡ 0
unfolding is_occupied count_id
free_count id [] h = refl
free_count id (x ∷ ids) h = ground (arith, free_count id ids)

-- No NodeId stands in the list twice.
abbrev pub Unshared : List LogicalNodeId → Type 0
Unshared ids = (id : LogicalNodeId) → count_id id ids ≤ 1

take_id :
    (x : LogicalNodeId) (ids : List LogicalNodeId)
    → is_occupied x ids ≡ false
    → Unshared ids
    → Unshared (x ∷ ids)
take_id x ids free h id = elim (Bool-cases (node_id_eq x id)) [
  | inl e ↦
      unfold count_id in
      ground
        (arith, subst (λ t. count_id t ids ≡ 0) ((node_id_eq_iff x id).0 e) (free_count x ids free))
  | inr e ↦ unfold count_id in ground (arith, h id)
]

module _ {F : Type 0} where
  check_definitions_cons :
      (p : DataTypeProvider F) (occupied : List LogicalNodeId) (d : CustomDataTypeDefinition F)
      (ds : List (CustomDataTypeDefinition F))
      → check_definitions p occupied (d ∷ ds) ≡ none
      → (is_occupied (type_id d) occupied ≡ false)
        × (is_occupied (encoding_id d) (type_id d ∷ occupied) ≡ false)
        × (check_definitions p (encoding_id d ∷ type_id d ∷ occupied) ds ≡ none)
  check_definitions_cons p occupied d ds h = unfold check_definitions in ground arith

  check_definitions-Unshared :
      (p : DataTypeProvider F) (occupied : List LogicalNodeId)
      (ds : List (CustomDataTypeDefinition F))
      → check_definitions p occupied ds ≡ none
      → Unshared occupied
      → (id : LogicalNodeId) → count_id id (definition_ids ds) + count_id id occupied ≤ 1
  unfolding definition_ids count_id
  check_definitions-Unshared p occupied [] h u id = omega (arith, u id)
  check_definitions-Unshared p occupied (d ∷ ds) h u id =
      let (free, free', rest) = check_definitions_cons p occupied d ds h in
      let u' =
        take_id (encoding_id d) (type_id d ∷ occupied) free'
          (take_id (type_id d) occupied free u) in
      omega
        (arith, check_definitions-Unshared p (encoding_id d ∷ type_id d ∷ occupied) ds rest u' id)

  abbrev pub keys : List (Bytes × DataTypeProvider F) → List Bytes
  keys m = map (λ e. e.0) m

  -- The registered providers stand in the order of their names, each is sound and stands under its own
  -- name, and no NodeId belongs to two datatypes or to a datatype and an encoding.
  pub record IsValid (s : RegistryState F) : Type 0 where
    pub ascending : Ascending (keys s.providers)
    pub sound : All (λ e. IsSound e.0 e.1) s.providers
    pub unshared : Unshared (occupied_ids s.providers)

  keys-emplace :
      (n : Bytes) (p : DataTypeProvider F) (m : List (Bytes × DataTypeProvider F))
      → keys (emplace_provider n p m) ≡ set_insert n (keys m)
  unfolding emplace_provider set_insert
  keys-emplace n p [] = refl
  keys-emplace n p ((k, q) ∷ m) = ground (arith, keys-emplace n p m)

  occupied-emplace :
      (id : LogicalNodeId) (n : Bytes) (p : DataTypeProvider F)
      (m : List (Bytes × DataTypeProvider F))
      → find_provider n m ≡ none
      → count_id id (occupied_ids (emplace_provider n p m))
        ≡ count_id id (definition_ids p.data_types) + count_id id (occupied_ids m)
  unfolding emplace_provider find_provider occupied_ids
  occupied-emplace id n p [] h = count_id-append id (definition_ids p.data_types) []
  occupied-emplace id n p ((k, q) ∷ m) h = ground (
    arith,
    count_id-append id (definition_ids p.data_types)
        (definition_ids q.data_types ++ occupied_ids m),
    count_id-append id (definition_ids q.data_types) (occupied_ids m),
    count_id-append id (definition_ids q.data_types) (occupied_ids (emplace_provider n p m)),
    occupied-emplace id n p m,
    text_eq_iff k n,
    text_less_total n k,
  )

  -- What a provider that is accepted went through.
  pub validate_lem :
      (p normal : DataTypeProvider F) (s : RegistryState F)
      → validate_and_normalize p s ≡ inr normal
      → (normal ≡ record p { dependencies = sort p.dependencies })
        × (check_definitions normal (occupied_ids s.providers) p.data_types ≡ none)
        × (any_invalid_dependency p.name p.dependencies ≡ false)
        × (adjacent_equal normal.dependencies ≡ false)
  unfolding validate_and_normalize
  validate_lem p normal s h = ground arith

  pub validate_cases :
      (p : DataTypeProvider F) (s : RegistryState F)
      → ((e : Bytes) × (validate_and_normalize p s ≡ inl e))
        ⊎ ((q : DataTypeProvider F) × (validate_and_normalize p s ≡ inr q))
  validate_cases p s =
      elim (validate_and_normalize p s)
        as (λ v. ((e : Bytes) × (v ≡ inl e)) ⊎ ((q : DataTypeProvider F) × (v ≡ inr q))) [
          | inl e ↦ inl (e, refl)
          | inr q ↦ inr (q, refl)
        ]

  add_provider-IsValid :
      (p : DataTypeProvider F) (s : RegistryState F)
      → find_provider p.name s.providers ≡ none
      → IsValid s
      → IsValid (add_provider p s).0
  unfolding add_provider
  add_provider-IsValid p s missing v = elim (validate_cases p s) [
    | inl (e, h) ↦ rw (h, add_provider) v
    | inr (q, h) ↦ rw (h, add_provider) (added q h)
  ]
    where
      added :
          (q : DataTypeProvider F)
          → validate_and_normalize p s ≡ inr q
          → IsValid (record s { providers = emplace_provider q.name q s.providers })
      added q h =
          let (same, fits, _, _) = validate_lem p q s h in
          record {
            ascending =
                rw keys-emplace (set_insert-Ascending q.name (keys s.providers) v.ascending);
            sound = emplace-IsSound q.name q s.providers (validate-IsSound p q s h) v.sound;
            unshared = λ id. ground (
              arith,
              ap (λ (x : DataTypeProvider F). x.data_types) same,
              occupied-emplace id q.name q s.providers
                  (rw (ap (λ (x : DataTypeProvider F). x.name) same) missing),
              check_definitions-Unshared q (occupied_ids s.providers) p.data_types fits v.unshared
                  id,
            );
          }

  -- A registration keeps the registry valid, whether it is accepted or refused. Valid means that the
  -- providers stand in the order of their names, each under its own; that the names, the namespaces, the
  -- identifiers and the fingerprints are texts of at least one byte without a zero; that each provider
  -- has datatypes, all in its namespace and with a factory, and depends on others only, named in order
  -- and each once; and that no NodeId belongs to two datatypes or to a datatype and an encoding.
  pub register-IsValid :
      (p : DataTypeProvider F) (s : RegistryState F)
      → IsValid s
      → IsValid (register_data_type_provider p s).0
  unfolding register_data_type_provider
  register-IsValid p s v =
      let p' = record p { dependencies = sort p.dependencies } in
      elim (Option-cases (find_provider p.name s.providers)) [
        | inl e ↦ ground (arith, e, v, add_provider-IsValid p' s e v)
        | inr (q, e) ↦ ground (arith, e, v)
      ]

  -- A frozen registry does not change, and accepts exactly what it holds already.
  pub register_frozen :
      (p : DataTypeProvider F) (s : RegistryState F)
      → s.frozen ≡ true
      → ((register_data_type_provider p s).0 ≡ s)
        × (((register_data_type_provider p s).1 ≡ none) ↔ (
            (q : DataTypeProvider F) × (find_provider p.name s.providers ≡ some q)
            × (same_provider q (record p { dependencies = sort p.dependencies }) ≡ true)))
  unfolding register_data_type_provider
  register_frozen p s frozen = elim (Option-cases (find_provider p.name s.providers)) [
    | inl e ↦ (ground (arith, e), (λ h. absurd (ground (arith, e, h)), λ h. cc (e, h.1)))
    | inr (q, e) ↦
        (ground (arith, e), (λ h. (q, e, ground (arith, e, h)), λ h. ground (arith, e, h.1, h.2)))
  ]
