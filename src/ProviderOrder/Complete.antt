-- ===== src/ProviderOrder/Complete.antt =====
-- `computeProviderOrder` finds an order of the providers in which every dependency stands before
-- the provider that names it, exactly when there is one.
use rtt_opcua.Base.{
  suc, ◌≡◌, refl, sym, ap, subst, ◌⊎◌, inl, inr, true, none, List, [], ◌∷◌, arith, length, All, In,
  All-In, All-of_In, Bytes, text_eq_iff, Distinct, Within, length_le-Within, Within-full,
}
use rtt_opcua.ProviderOrder.{
  Graph, contains_name, missing_in, find_missing, indegree, initial_ready, drain_ready, ordered,
  order_present, compute_provider_order,
}
use rtt_opcua.ProviderOrder.Edges.{names, In-names, same_dependencies}
use rtt_opcua.ProviderOrder.Invariant.{IsGraph}
use rtt_opcua.ProviderOrder.Start.{initial_Inv}
use rtt_opcua.ProviderOrder.Order.{
  Respects, drain_Respects, finish, finish_cases, drain_settles, Respects-Distinct, Respects-Within,
  settled_order,
}

length-names : (g : Graph) → length (names g) ≡ length g
length-names [] = refl
length-names (e ∷ g) = ap suc (length-names g)

-- The order that the loop finds, and the list of all names taken.
found : Graph → List Bytes
found g = (drain_ready (length g) g (initial_ready g (indegree g) []) (indegree g)).0

found-Respects : (g : Graph) → IsGraph g → Respects g [] (found g)
unfolding found
found-Respects g ok = drain_Respects (length g) g [] _ _ ok (initial_Inv g ok)

found_settles :
    (g : Graph)
    → IsGraph g
    → (x : Bytes) (ds : List Bytes) → In (x, ds) g
    → All (λ d. In d (finish [] (found g))) ds
    → In x (finish [] (found g))
unfolding found
found_settles g ok =
    drain_settles (length g) g [] (initial_ready g (indegree g) []) (indegree g) ok
      (initial_Inv g ok) tt (λ a h. elim h [ ]) (omega (arith, length-names g))

order_present_lem :
    (g : Graph) (order : List Bytes)
    → order_present g ≡ ordered order
    → (order ≡ found g) × (length order ≡ length g)
unfolding order_present found
order_present_lem g order h = ground arith

order_present_full : (g : Graph) → length (found g) ≡ length g → order_present g ≡ ordered (found g)
unfolding order_present found
order_present_full g h = ground arith

compute_present :
    (g : Graph) (order : List Bytes)
    → compute_provider_order g ≡ ordered order
    → order_present g ≡ ordered order
unfolding compute_provider_order
compute_present g order h = ground arith

-- An order that is returned holds every provider exactly once, each behind all its dependencies.
pub compute_provider_order_sound :
    (g : Graph) (order : List Bytes)
    → IsGraph g
    → compute_provider_order g ≡ ordered order
    → Respects g [] order × Distinct order × Within order (names g) × Within (names g) order
compute_provider_order_sound g order ok h =
    let (same, full) = order_present_lem g order (compute_present g order h) in
    let r : Respects g [] order =
      subst (λ (o : List Bytes). Respects g [] o) (sym same) (found-Respects g ok) in
    let d = Respects-Distinct g [] order r in
    let w = Respects-Within g [] order r in
    (r, d, w, Within-full order (names g) d w (omega (arith, length-names g, full)))

contains_provider : (d : Bytes) (g : Graph) → In d (names g) → contains_name d g ≡ true
unfolding contains_name
contains_provider d [] h = elim h [ ]
contains_provider d ((n, ds) ∷ g) h = ground (arith, text_eq_iff n d, contains_provider d g)

none-missing_in :
    (g : Graph) (ds : List Bytes) → All (λ d. In d (names g)) ds → missing_in g ds ≡ none
unfolding missing_in
none-missing_in g [] h = refl
none-missing_in g (d ∷ ds) h = ground (arith, contains_provider d g h.0, none-missing_in g ds h.1)

-- The dependencies of a provider in the order are taken before it, or stand in the order.
dependency_placed :
    (g : Graph) (taken order : List Bytes) (n d : Bytes) (ds : List Bytes)
    → Distinct (names g)
    → Respects g taken order
    → In n order
    → In (n, ds) g
    → In d ds
    → In d taken ⊎ In d order
dependency_placed g taken [] n d ds dis r h k m = elim h [ ]
dependency_placed g taken (x ∷ rest) n d ds dis r (inl e) k m =
    let (_, es, p, all) = r.0 in
    let same = same_dependencies g x es ds dis p (subst (λ t. In (t, ds) g) e k) in
    inl (All-In (λ u. In u taken) d ds (subst (λ l. All (λ u. In u taken) l) same all) m)
dependency_placed g taken (x ∷ rest) n d ds dis r (inr h) k m =
    elim (dependency_placed g (x ∷ taken) rest n d ds dis r.1 h k m) [
      | inl (inl e) ↦ inr (inl e)
      | inl (inr t) ↦ inl t
      | inr q ↦ inr (inr q)
    ]

module _ (g : Graph) (ok : IsGraph g) (order : List Bytes) (r : Respects g [] order)
    (all : Within (names g) order) where
  dependency_present : (n : Bytes) (ds : List Bytes) → In (n, ds) g → All (λ d. In d (names g)) ds
  dependency_present n ds h =
      All-of_In (λ d. In d (names g)) ds
        λ d m.
          elim (dependency_placed g [] order n d ds ok.distinct r (all n (In-names g n ds h)) h m) [
            | inl t ↦ elim t [ ]
            | inr q ↦ Respects-Within g [] order r d q
          ]

  none_missing :
      (part : Graph) → ((e : Bytes × List Bytes) → In e part → In e g) → find_missing g part ≡ none
  unfolding find_missing
  none_missing [] w = refl
  none_missing ((n, ds) ∷ part) w = ground (
    arith,
    none-missing_in g ds (dependency_present n ds (w (n, ds) (inl refl))),
    none_missing part (λ e h. w e (inr h)),
  )

  found_all : Within (names g) (found g)
  found_all a h =
      elim (finish_cases a [] (found g) (
        settled_order g (finish [] (found g)) [] order (found_settles g ok) (λ b k. elim k [ ]) r a
          (all a h))) [ inl t ↦ elim t [ ] | inr q ↦ q ]

  found_full : length (found g) ≡ length g
  found_full = omega (
    arith,
    length-names g,
    length_le-Within (names g) (found g) ok.distinct found_all,
    length_le-Within (found g) (names g) (Respects-Distinct g [] (found g) (found-Respects g ok))
        (Respects-Within g [] (found g) (found-Respects g ok)),
  )

  -- Where some order of all providers puts each behind its dependencies, an order is returned:
  -- neither error is reported, and the loop does not run out of fuel.
  pub compute_provider_order_complete :
      (result : List Bytes) × (compute_provider_order g ≡ ordered result)
  unfolding compute_provider_order
  compute_provider_order_complete =
      (found g, ground (arith, none_missing g (λ e h. h), order_present_full g found_full))
