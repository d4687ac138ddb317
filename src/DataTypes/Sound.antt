-- ===== src/DataTypes/Sound.antt =====
-- What `validateAndNormalize` of src/datatype_registry.cpp makes sure of for a provider.
use rtt_opcua.Base.{
  ◌≡◌, refl, subst, ◌≢◌, inl, inr, true, false, none, some, List, [], ◌∷◌, arith, Bool-cases,
  Option-cases, All, In, Bytes, text_eq, text_eq_iff, has_byte,
}
use rtt_opcua.Base.Order.{
  text_less, text_less_irrefl, text_less_trans, text_less_total, text_ord, insert_sorted, sort,
  Ascending,
}
use rtt_opcua.DataTypes.{
  CustomDataTypeDefinition, DataTypeProvider, RegistryState, valid_text, LogicalNodeId,
  adjacent_equal, any_invalid_dependency, type_id, encoding_id, occupied_ids, invalid_definition,
  check_definitions, validate_and_normalize, emplace_provider,
}

-- A text of at least one byte, none of them zero.
abbrev pub IsText : Bytes → Type 0
IsText text = (text ≢ []) × (¬ In 0 text)

module _ {F : Type 0} where
  -- A datatype of a provider: its names and identifiers are texts, its namespace is the provider's, and
  -- it can be materialized.
  pub record IsDefinition (namespace_uri : Bytes) (d : CustomDataTypeDefinition F) : Type 0 where
    pub named : IsText d.name
    pub fingerprinted : IsText d.schema_fingerprint
    pub typed : IsText d.id.type_node_id
    pub encoded : IsText d.id.binary_encoding_node_id
    pub same_namespace : d.id.namespace_uri ≡ namespace_uri
    pub materializes : (f : F) × (d.materialize ≡ some f)

  -- A provider under its own name: it has datatypes, and its dependencies are the names of other
  -- providers, in order and each once.
  pub record IsSound (key : Bytes) (p : DataTypeProvider F) : Type 0 where
    pub own_name : key ≡ p.name
    pub named : IsText p.name
    pub spaced : IsText p.namespace_uri
    pub filled : p.data_types ≢ []
    pub others : All (λ d. IsText d × (d ≢ p.name)) p.dependencies
    pub ordered : Ascending p.dependencies
    pub defined : All (IsDefinition p.namespace_uri) p.data_types

no_zero : (s : Bytes) → has_byte 0 s ≡ false → ¬ In 0 s
unfolding has_byte
no_zero [] h m = m
no_zero (c ∷ s) h (inl e) = absurd (ground (arith, h, e))
no_zero (c ∷ s) h (inr m) = no_zero s (ground (arith, h)) m

valid_text-IsText : (s : Bytes) → valid_text s ≡ true → IsText s
unfolding valid_text
valid_text-IsText [] h = absurd cc
valid_text-IsText (c ∷ s) h = ((λ e. absurd cc), no_zero (c ∷ s) (ground (arith, h)))

dependencies-IsText :
    (name : Bytes) (ds : List Bytes)
    → any_invalid_dependency name ds ≡ false
    → All (λ d. IsText d × (d ≢ name)) ds
unfolding any_invalid_dependency
dependencies-IsText name [] h = tt
dependencies-IsText name (d ∷ ds) h = (
  (
    valid_text-IsText d (ground (arith, h)),
    λ e. absurd (ground (arith, h, (text_eq_iff d name).1 e)),
  ),
  dependencies-IsText name ds (ground (arith, h)),
)

insert_sorted-All :
    (P : Bytes → Type 0) (a : Bytes) (xs : List Bytes) → P a → All P xs → All P (insert_sorted a xs)
unfolding insert_sorted
insert_sorted-All P a [] h k = (h, tt)
insert_sorted-All P a (x ∷ xs) h k = elim (Bool-cases (text_less x a)) [
  | inl e ↦ rw e (k.0, insert_sorted-All P a xs h k.1)
  | inr e ↦ rw e (h, k)
]

sort-All : (P : Bytes → Type 0) (xs : List Bytes) → All P xs → All P (sort xs)
unfolding sort
sort-All P [] h = tt
sort-All P (x ∷ xs) h = insert_sorted-All P x (sort xs) h.0 (sort-All P xs h.1)

-- No element is below the one before it.
abbrev NeverFalls : List Bytes → Type 0
NeverFalls [] = Unit
NeverFalls (x ∷ []) = Unit
NeverFalls (x ∷ y ∷ r) = (text_less y x ≡ false) × NeverFalls (y ∷ r)

less_asym : (a b : Bytes) → text_less a b ≡ true → text_less b a ≡ false
less_asym a b h = elim (Bool-cases (text_less b a)) [
  | inl e ↦ absurd (cc (text_less_trans a b a h e, text_less_irrefl a))
  | inr e ↦ e
]

insert_sorted-NeverFalls :
    (a : Bytes) (xs : List Bytes) → NeverFalls xs → NeverFalls (insert_sorted a xs)
unfolding insert_sorted
insert_sorted-NeverFalls a [] h = tt
insert_sorted-NeverFalls a (x ∷ []) h = elim (Bool-cases (text_less x a)) [
  | inl e ↦ rw e (less_asym x a e, tt)
  | inr e ↦ rw e (e, tt)
]
insert_sorted-NeverFalls a (x ∷ y ∷ r) h = elim (Bool-cases (text_less x a)) [
  | inr e ↦ rw e (e, h)
  | inl e ↦
      let rest = insert_sorted-NeverFalls a (y ∷ r) h.1 in
      elim (Bool-cases (text_less y a)) [
        | inl f ↦ rw (e, f) (h.0, (rw f at rest))
        | inr f ↦ rw (e, f) (less_asym x a e, (rw f at rest))
      ]
]

sort-NeverFalls : (xs : List Bytes) → NeverFalls (sort xs)
unfolding sort
sort-NeverFalls [] = tt
sort-NeverFalls (x ∷ xs) = insert_sorted-NeverFalls x (sort xs) (sort-NeverFalls xs)

unequal-Ascending : (xs : List Bytes) → NeverFalls xs → adjacent_equal xs ≡ false → Ascending xs
unfolding adjacent_equal
unequal-Ascending [] h k = tt
unequal-Ascending (x ∷ []) h k = tt
unequal-Ascending (x ∷ y ∷ r) h k = (
  elim (Bool-cases (text_less x y)) [
    | inl e ↦ e
    | inr e ↦ absurd (ground (arith, k, (text_eq_iff x y).1 (text_less_total x y e h.0)))
  ],
  unequal-Ascending (y ∷ r) h.1 (ground (arith, k)),
)

module _ {F : Type 0} where
  invalid_definition-IsDefinition :
      (d : CustomDataTypeDefinition F) (namespace_uri : Bytes)
      → invalid_definition d ≡ false
      → text_eq d.id.namespace_uri namespace_uri ≡ true
      → IsDefinition namespace_uri d
  unfolding invalid_definition
  invalid_definition-IsDefinition d namespace_uri h k = elim (Option-cases d.materialize) [
    | inl e ↦ absurd (ground (arith, h, e))
    | inr (f, e) ↦ record {
      named = valid_text-IsText d.name (ground (arith, h));
      fingerprinted = valid_text-IsText d.schema_fingerprint (ground (arith, h));
      typed = valid_text-IsText d.id.type_node_id (ground (arith, h));
      encoded = valid_text-IsText d.id.binary_encoding_node_id (ground (arith, h));
      same_namespace = (text_eq_iff d.id.namespace_uri namespace_uri).0 k;
      materializes = (f, e);
    }
  ]

  check_definitions-IsDefinition :
      (p : DataTypeProvider F) (occupied : List LogicalNodeId)
      (ds : List (CustomDataTypeDefinition F))
      → check_definitions p occupied ds ≡ none
      → All (IsDefinition p.namespace_uri) ds
  unfolding check_definitions
  check_definitions-IsDefinition p occupied [] h = tt
  check_definitions-IsDefinition p occupied (d ∷ ds) h = (
    invalid_definition-IsDefinition d p.namespace_uri (ground (arith, h)) (ground (arith, h)),
    check_definitions-IsDefinition p (encoding_id d ∷ type_id d ∷ occupied) ds (ground (arith, h)),
  )

  -- A provider that is accepted is sound.
  pub validate-IsSound :
      (p normal : DataTypeProvider F) (s : RegistryState F)
      → validate_and_normalize p s ≡ inr normal
      → IsSound normal.name normal
  unfolding validate_and_normalize
  validate-IsSound p normal s h =
      let q = record p { dependencies = sort p.dependencies } in
      let same : q ≡ normal = ground (arith, h) in
      subst (λ (x : DataTypeProvider F). IsSound x.name x) same
        (record {
          own_name = refl;
          named = valid_text-IsText p.name (ground (arith, h));
          spaced = valid_text-IsText p.namespace_uri (ground (arith, h));
          filled = λ e. absurd (ground (arith, h, e));
          others =
              sort-All (λ d. IsText d × (d ≢ p.name)) p.dependencies
                (dependencies-IsText p.name p.dependencies (ground (arith, h)));
          ordered =
              unequal-Ascending (sort p.dependencies) (sort-NeverFalls p.dependencies)
                (ground (arith, h));
          defined =
              check_definitions-IsDefinition q (occupied_ids s.providers) p.data_types
                (ground (arith, h));
        })

  pub emplace-IsSound :
      (n : Bytes) (p : DataTypeProvider F) (m : List (Bytes × DataTypeProvider F))
      → IsSound n p
      → All (λ e. IsSound e.0 e.1) m
      → All (λ e. IsSound e.0 e.1) (emplace_provider n p m)
  unfolding emplace_provider
  emplace-IsSound n p [] h k = (h, tt)
  emplace-IsSound n p ((a, q) ∷ m) h k = elim (Bool-cases (text_less n a)) [
    | inl e ↦ rw e (h, k)
    | inr e ↦ elim (Bool-cases (text_less a n)) [
      | inl f ↦ rw (e, f) (k.0, emplace-IsSound n p m h k.1)
      | inr f ↦ rw (e, f) k
    ]
  ]
