-- ===== src/DataTypes/Again.antt =====
-- A provider that was accepted is found, and is accepted again without a change.
use rtt_opcua.Base.{
  ◌≡◌, refl, sym, ap, subst, inl, inr, true, none, some, List, [], ◌∷◌, arith, Option-cases, Bytes,
  text_eq, text_eq_iff,
}
use rtt_opcua.Base.Order.{text_less_total, text_ord, sort}
use rtt_opcua.Base.Order.Sets.{sort-NonDescending, sort_sorted}
use rtt_opcua.DataTypes.{
  CustomDataTypeDefinition, DataTypeProvider, RegistryState, texts_eq, same_definition,
  same_definitions, same_provider, find_provider, emplace_provider, add_provider,
  register_data_type_provider,
}
use rtt_opcua.DataTypes.Register.{validate_lem, validate_cases}

text_eq_refl : (s : Bytes) → text_eq s s ≡ true
text_eq_refl s = (text_eq_iff s s).1 refl

texts_eq_refl : (ss : List Bytes) → texts_eq ss ss ≡ true
unfolding texts_eq
texts_eq_refl [] = refl
texts_eq_refl (s ∷ ss) = ground (arith, text_eq_refl s, texts_eq_refl ss)

module _ {F : Type 0} where
  same_definition_refl : (d : CustomDataTypeDefinition F) → same_definition d d ≡ true
  unfolding same_definition
  same_definition_refl d = ground (
    arith,
    text_eq_refl d.name,
    text_eq_refl d.schema_fingerprint,
    text_eq_refl d.id.namespace_uri,
    text_eq_refl d.id.type_node_id,
    text_eq_refl d.id.binary_encoding_node_id,
  )

  same_definitions_refl : (ds : List (CustomDataTypeDefinition F)) → same_definitions ds ds ≡ true
  unfolding same_definitions
  same_definitions_refl [] = refl
  same_definitions_refl (d ∷ ds) = ground (arith, same_definition_refl d, same_definitions_refl ds)

  same_provider_refl : (p : DataTypeProvider F) → same_provider p p ≡ true
  same_provider_refl p =
      unfold same_provider in
      ground (
        arith,
        text_eq_refl p.name,
        text_eq_refl p.namespace_uri,
        texts_eq_refl p.dependencies,
        same_definitions_refl p.data_types,
      )

  find-emplace :
      (n : Bytes) (p : DataTypeProvider F) (m : List (Bytes × DataTypeProvider F))
      → find_provider n m ≡ none
      → find_provider n (emplace_provider n p m) ≡ some p
  unfolding find_provider emplace_provider
  find-emplace n p [] h = ground (arith, text_eq_refl n)
  find-emplace n p ((k, q) ∷ m) h =
      ground (arith, text_eq_refl n, text_eq_iff k n, text_less_total n k, find-emplace n p m)

  -- The provider as it is compared and stored, its dependencies sorted.
  abbrev pub normalized : DataTypeProvider F → DataTypeProvider F
  normalized p = record p { dependencies = sort p.dependencies }

  normalized_twice : (p : DataTypeProvider F) → normalized (normalized p) ≡ normalized p
  normalized_twice p =
      ap (λ (ds : List Bytes). record p { dependencies = ds })
        (sort_sorted (sort p.dependencies) (sort-NonDescending p.dependencies))

  add_provider_lem :
      (p : DataTypeProvider F) (s : RegistryState F)
      → find_provider p.name s.providers ≡ none
      → (add_provider p s).1 ≡ none
      → find_provider p.name (add_provider p s).0.providers ≡ some (normalized p)
  unfolding add_provider
  add_provider_lem p s missing h = elim (validate_cases p s) [
    | inl (e, bad) ↦ absurd (ground (arith, bad, h))
    | inr (q, good) ↦
        rw (good, add_provider)
          (subst
            (λ x.
              find_provider p.name (emplace_provider x.name x s.providers) ≡ some (normalized p))
            (sym (validate_lem p q s good).0)
            (find-emplace p.name (normalized p) s.providers missing))
  ]

  -- After a registration that succeeds, the provider is found under its name.
  pub find-register :
      (p : DataTypeProvider F) (s : RegistryState F)
      → (register_data_type_provider p s).1 ≡ none
      → (q : DataTypeProvider F) × (find_provider p.name
            (register_data_type_provider p s).0.providers
          ≡ some q)
        × (same_provider q (normalized p) ≡ true)
  unfolding register_data_type_provider
  find-register p s h = elim (Option-cases (find_provider p.name s.providers)) [
    | inr (q, e) ↦ (q, ground (arith, e, h), ground (arith, e, h))
    | inl e ↦ (
      normalized (normalized p),
      ground (arith, e, h, add_provider_lem (normalized p) s e),
      rw normalized_twice (same_provider_refl (normalized p)),
    )
  ]

  register_same :
      (p : DataTypeProvider F) (s : RegistryState F) (q : DataTypeProvider F)
      → find_provider p.name s.providers ≡ some q
      → same_provider q (normalized p) ≡ true
      → register_data_type_provider p s ≡ (s, none)
  unfolding register_data_type_provider
  register_same p s q e same = ground arith

  -- Registering a provider again after a registration that succeeded, as each of several type
  -- plugins may do, succeeds and changes nothing.
  pub register_again :
      (p : DataTypeProvider F) (s : RegistryState F)
      → (register_data_type_provider p s).1 ≡ none
      → register_data_type_provider p (register_data_type_provider p s).0
        ≡ ((register_data_type_provider p s).0, none)
  register_again p s h =
      let (q, e, same) = find-register p s h in
      register_same p (register_data_type_provider p s).0 q e same
