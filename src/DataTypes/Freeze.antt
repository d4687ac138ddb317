-- ===== src/DataTypes/Freeze.antt =====
-- src/datatype_registry.cpp: freezing the registry, and the providers in their order.
use rtt_opcua.Base.{
  ◌<◌, ◌≡◌, refl, ap, subst, ◌⊎◌, inl, inr, true, false, Option, none, some, List, [], ◌∷◌, arith,
  if◌then◌else◌, Bool-cases, Option-cases, length, In, Bytes, text_eq, text_eq_iff, Distinct,
  Within,
}
use rtt_opcua.Base.Order.{text_less_irrefl, text_ord, Ascending}
use rtt_opcua.Base.Order.Sets.{Ascending-tail, Ascending-below}
use rtt_opcua.ProviderOrder.{
  Graph, size_mod, OrderResult, ordered, order_error, compute_provider_order,
}
use rtt_opcua.ProviderOrder.Edges.{names}
use rtt_opcua.ProviderOrder.Invariant.{IsGraph}
use rtt_opcua.ProviderOrder.Order.{Respects}
use rtt_opcua.ProviderOrder.Complete.{compute_provider_order_sound}
use rtt_opcua.DataTypes.{DataTypeProvider, RegistryState, find_provider}
use rtt_opcua.DataTypes.Register.{keys, IsValid}

module _ {F : Type 0} where
  -- What `computeProviderOrder` reads of the providers.
  unfoldable pub dependency_graph : List (Bytes × DataTypeProvider F) → Graph
  dependency_graph [] = []
  dependency_graph ((n, p) ∷ m) = (n, p.dependencies) ∷ dependency_graph m

  -- `freezeDataTypeRegistry`
  unfoldable pub freeze_data_type_registry : RegistryState F → RegistryState F × OrderResult
  unfolding dependency_graph
  freeze_data_type_registry s =
      if s.frozen
      then (s, ordered s.provider_order)
      else elim (compute_provider_order (dependency_graph s.providers)) [
        | order_error e ↦ (s, order_error e)
        | ordered order ↦ (record s { provider_order = order; frozen = true }, ordered order)
      ]

  abbrev add_first :
      DataTypeProvider F → Option (List (DataTypeProvider F)) → Option (List (DataTypeProvider F))
  add_first p none = none
  add_first p (some ps) = some (p ∷ ps)

  -- The loop of `frozenDataTypeProviders`; `none` is the exception of `at`.
  unfoldable pub providers_at :
      List (Bytes × DataTypeProvider F) → List Bytes → Option (List (DataTypeProvider F))
  providers_at m [] = some []
  providers_at m (n ∷ order) =
      let rest = providers_at m order in
      elim (find_provider n m) [ none ↦ none | some p ↦ add_first p rest ]

  -- `frozenDataTypeProviders`: the registry, and the providers or the error.
  unfoldable pub frozen_data_type_providers :
      RegistryState F → RegistryState F × (Bytes ⊎ Option (List (DataTypeProvider F)))
  unfolding freeze_data_type_registry providers_at
  frozen_data_type_providers s =
      let (s', result) = freeze_data_type_registry s in
      elim result [
        | order_error e ↦ (s', inl e)
        | ordered order ↦ (s', inr (providers_at s'.providers s'.provider_order))
      ]

  names_of_graph : (m : List (Bytes × DataTypeProvider F)) → names (dependency_graph m) ≡ keys m
  unfolding dependency_graph
  names_of_graph [] = refl
  names_of_graph (e ∷ m) = ap (λ (l : List Bytes). e.0 ∷ l) (names_of_graph m)

  -- A frozen registry has an order of all its providers, each behind its dependencies.
  pub record IsOrdered (s : RegistryState F) : Type 0 where
    pub respects : Respects (dependency_graph s.providers) [] s.provider_order
    pub total : Within (keys s.providers) s.provider_order
    pub only : Within s.provider_order (keys s.providers)

OrderResult-cases :
    (r : OrderResult)
    → ((order : List Bytes) × (r ≡ ordered order)) ⊎ ((e : Bytes) × (r ≡ order_error e))
OrderResult-cases (ordered order) = inl (order, refl)
OrderResult-cases (order_error e) = inr (e, refl)

Ascending-Distinct : (xs : List Bytes) → Ascending xs → Distinct xs
Ascending-Distinct [] h = tt
Ascending-Distinct (x ∷ xs) h = (
  (λ k. cc (Ascending-below x xs h x k, text_less_irrefl x)),
  Ascending-Distinct xs (Ascending-tail x xs h),
)

module _ {F : Type 0} where
  -- No provider has more dependencies than a size can count.
  abbrev pub Countable : RegistryState F → Type 0
  Countable s =
      (x : Bytes) (ds : List Bytes)
      → In (x, ds) (dependency_graph s.providers)
      → length ds < size_mod

  IsGraph-of :
      (s : RegistryState F) → IsValid s → Countable s → IsGraph (dependency_graph s.providers)
  IsGraph-of s v small = record {
    distinct = rw (names_of_graph s.providers) (Ascending-Distinct (keys s.providers) v.ascending);
    small = small;
  }

  -- Freezing a valid registry that is not frozen yet and whose providers have fewer than 2^64
  -- dependencies each: where it succeeds the registry is frozen with
  -- an order of all its providers, each once and behind its dependencies, and the order is returned;
  -- where it fails the registry is as before.
  pub freeze_cases :
      (s : RegistryState F)
      → IsValid s
      → Countable s
      → s.frozen ≡ false
      → ((order : List Bytes) × (freeze_data_type_registry s
            ≡ (record s { provider_order = order; frozen = true }, ordered order))
          × Distinct order
          × IsOrdered (record s { provider_order = order; frozen = true }))
        ⊎ ((e : Bytes) × (freeze_data_type_registry s ≡ (s, order_error e)))
  unfolding freeze_data_type_registry
  freeze_cases s v small open_yet =
      elim (OrderResult-cases (compute_provider_order (dependency_graph s.providers))) [
        | inl (order, e) ↦ inl (order, ground (arith, e), (sound order e).0, (sound order e).1)
        | inr (e, h) ↦ inr (e, ground (arith, h))
      ]
    where
      sound :
          (order : List Bytes)
          → compute_provider_order (dependency_graph s.providers) ≡ ordered order
          → Distinct order × IsOrdered (record s { provider_order = order; frozen = true })
      sound order e =
          let (r, d, w, f) =
            compute_provider_order_sound (dependency_graph s.providers) order (IsGraph-of s v small)
              e in
          (
            d,
            record {
              respects = r;
              total = subst (λ l. Within l order) (names_of_graph s.providers) f;
              only = subst (λ l. Within order l) (names_of_graph s.providers) w;
            },
          )

  find_known :
      (n : Bytes) (m : List (Bytes × DataTypeProvider F))
      → In n (keys m)
      → (p : DataTypeProvider F) × (find_provider n m ≡ some p)
  unfolding find_provider
  find_known n [] h = elim h [ ]
  find_known n ((k, q) ∷ m) h = elim (Bool-cases (text_eq k n)) [
    | inl e ↦ (q, rw e)
    | inr e ↦ let (p, f) = find_known n m (ground (arith, h, text_eq_iff k n)) in (p, rw e f)
  ]

  -- The providers stand in the registry under the names, one by one.
  abbrev pub AreUnder :
      List (Bytes × DataTypeProvider F) → List Bytes → List (DataTypeProvider F) → Type 0
  AreUnder m [] [] = Unit {0}
  AreUnder m (n ∷ order) (p ∷ ps) = In (n, p) m × AreUnder m order ps
  AreUnder m [] (p ∷ ps) = ⊥
  AreUnder m (n ∷ order) [] = ⊥

  find_known-In :
      (n : Bytes) (m : List (Bytes × DataTypeProvider F)) (p : DataTypeProvider F)
      → find_provider n m ≡ some p
      → In (n, p) m
  unfolding find_provider
  find_known-In n [] p h = absurd cc
  find_known-In n ((k, q) ∷ m) p h = elim (Bool-cases (text_eq k n)) [
    | inl e ↦
        let same : q ≡ p = ground (arith, e, h) in
        let equal : k ≡ n = (text_eq_iff k n).0 e in inl (cc (same, equal))
    | inr e ↦ inr (find_known-In n m p (ground (arith, e, h)))
  ]

  providers_at-AreUnder :
      (m : List (Bytes × DataTypeProvider F)) (order : List Bytes) (ps : List (DataTypeProvider F))
      → providers_at m order ≡ some ps
      → AreUnder m order ps
  unfolding providers_at
  providers_at-AreUnder m [] ps h = let e : [] ≡ ps = cc in subst (AreUnder m []) e tt
  providers_at-AreUnder m (n ∷ order) ps h = elim (Option-cases (find_provider n m)) [
    | inl e ↦ absurd (ground (arith, e, h))
    | inr (p, e) ↦ elim (Option-cases (providers_at m order)) [
      | inl f ↦ absurd (ground (arith, e, f, h))
      | inr (rest, f) ↦
          let same : p ∷ rest ≡ ps = ground (arith, e, f, h) in
          subst (AreUnder m (n ∷ order)) same
            (find_known-In n m p e, providers_at-AreUnder m order rest f)
    ]
  ]

  providers_at_total :
      (m : List (Bytes × DataTypeProvider F)) (order : List Bytes)
      → Within order (keys m)
      → (ps : List (DataTypeProvider F)) × (providers_at m order ≡ some ps)
  unfolding providers_at
  providers_at_total m [] w = ([], refl)
  providers_at_total m (n ∷ order) w =
      let (p, e) = find_known n m (w n (inl refl)) in
      let (ps, f) = providers_at_total m order (λ a h. w a (inr h)) in
      (p ∷ ps, ground (arith, e, f))

  -- The providers of a frozen registry are looked up without a miss.
  frozen_providers_listed :
      (s : RegistryState F)
      → s.frozen ≡ true
      → IsOrdered s
      → (ps : List (DataTypeProvider F)) × (frozen_data_type_providers s ≡ (s, inr (some ps)))
  unfolding frozen_data_type_providers
  frozen_providers_listed s frozen whole =
      let (ps, e) = providers_at_total s.providers s.provider_order whole.only in
      (ps, ground (arith, e))

  -- The listing of the providers of a valid registry that is not frozen yet and whose providers have
  -- fewer than 2^64 dependencies each fails and leaves the
  -- registry as it was, or it freezes the registry with an order of all its providers, each once and
  -- behind its dependencies, and gives the registered providers in this order, without an exception;
  -- every later listing then gives the same.
  pub frozen_providers_found :
      (s : RegistryState F)
      → IsValid s
      → Countable s
      → s.frozen ≡ false
      → ((e : Bytes) × (frozen_data_type_providers s ≡ (s, inl e)))
        ⊎ ((order : List Bytes) × (ps : List (DataTypeProvider F)) × (frozen_data_type_providers s
              ≡ (record s { provider_order = order; frozen = true }, inr (some ps)))
            × (frozen_data_type_providers (record s { provider_order = order; frozen = true })
                ≡ (record s { provider_order = order; frozen = true }, inr (some ps)))
            × Distinct order
            × IsOrdered (record s { provider_order = order; frozen = true })
            × AreUnder s.providers order ps)
  unfolding frozen_data_type_providers
  frozen_providers_found s v small open_yet = elim (freeze_cases s v small open_yet) [
    | inr (e, h) ↦ inl (e, ground (arith, h))
    | inl (order, h, distinct, total) ↦
        let s' = record s { provider_order = order; frozen = true } in
        let (ps, again) = frozen_providers_listed s' refl total in
        let at : providers_at s.providers order ≡ some ps = ground (arith, again) in
        inr (
          order,
          ps,
          ground (arith, h, at),
          again,
          distinct,
          total,
          providers_at-AreUnder s.providers order ps at,
        )
  ]
