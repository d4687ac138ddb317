-- ===== src/Base/Order/Sets.antt =====
-- The elements and the order of the ordered containers.
use rtt_opcua.Base.Tests.{Bool-cases}
use rtt_opcua.Base.Lists.{In}
use rtt_opcua.Base.Order.{
  Ord, text_ord, set_insert, set_contains, insert_sorted, sort, unique, Ascending,
}
use mathlib.Core.Path.{◌≡◌, refl, subst, sym, ap, ◌∙◌}
use mathlib.Core.Logic.{◌↔◌, ◌⊎◌, inl, inr}
use mathlib.Core.Bool.{true, false}
use mathlib.Core.List.{List, [], ◌∷◌}
use native.Mathlib.Omega.{arith}

module _ {A : Type 0} ⦃o : Ord A⦄ where
  pub set_insert-In : (a : A) (xs : List A) → In a (set_insert a xs)
  unfolding set_insert
  set_insert-In a [] = inl refl
  set_insert-In a (x ∷ xs) = ground (arith, set_insert-In a xs, o.less_total a x)

  pub set_insert_keeps : (a b : A) (xs : List A) → In b xs → In b (set_insert a xs)
  unfolding set_insert
  set_insert_keeps a b [] h = elim h [ ]
  set_insert_keeps a b (x ∷ xs) h = ground (arith, set_insert_keeps a b xs)

  pub set_insert_cases : (a b : A) (xs : List A) → In b (set_insert a xs) → (b ≡ a) ⊎ In b xs
  unfolding set_insert
  set_insert_cases a b [] h = h
  set_insert_cases a b (x ∷ xs) h = ground (arith, set_insert_cases a b xs)

  pub set_contains_iff : (a : A) (xs : List A) → (set_contains a xs ≡ true) ↔ In a xs
  unfolding set_contains
  set_contains_iff a [] = (λ h. cc, λ h. elim h [ ])
  set_contains_iff a (x ∷ xs) = (
    λ h. ground (arith, set_contains_iff a xs, o.less_total a x),
    λ h. ground (arith, set_contains_iff a xs, o.less_irrefl a, o.less_irrefl x),
  )

  Ascending-cons :
      (x : A) (xs : List A)
      → Ascending xs
      → ((a : A) → In a xs → o.less x a ≡ true)
      → Ascending (x ∷ xs)
  Ascending-cons x [] h below = tt
  Ascending-cons x (y ∷ r) h below = (below y (inl refl), h)

  pub Ascending-tail : (x : A) (xs : List A) → Ascending (x ∷ xs) → Ascending xs
  Ascending-tail x [] h = tt
  Ascending-tail x (y ∷ r) h = h.1

  pub Ascending-below :
      (x : A) (xs : List A) → Ascending (x ∷ xs) → (a : A) → In a xs → o.less x a ≡ true
  Ascending-below x [] h a k = elim k [ ]
  Ascending-below x (y ∷ r) h a (inl e) = subst (λ t. o.less x t ≡ true) (sym e) h.0
  Ascending-below x (y ∷ r) h a (inr k) = o.less_trans x y a h.0 (Ascending-below y r h.1 a k)

  pub set_insert-Ascending : (a : A) (xs : List A) → Ascending xs → Ascending (set_insert a xs)
  unfolding set_insert
  set_insert-Ascending a [] h = tt
  set_insert-Ascending a (x ∷ xs) h = elim (Bool-cases (o.less a x)) [
    | inl e ↦ rw e (e, h)
    | inr e ↦ rw e (elim (Bool-cases (o.less x a)) [
      | inl f ↦ rw f (
          Ascending-cons x (set_insert a xs) (set_insert-Ascending a xs (Ascending-tail x xs h))
            λ b k. elim (set_insert_cases a b xs k) [
              | inl q ↦ subst (λ t. o.less x t ≡ true) (sym q) f
              | inr q ↦ Ascending-below x xs h b q
            ])
      | inr f ↦ rw f h
    ])
  ]

  insert_sorted-In : (a b : A) (xs : List A) → In b (insert_sorted a xs) ↔ ((b ≡ a) ⊎ In b xs)
  unfolding insert_sorted
  insert_sorted-In a b [] = (λ h. h, λ h. h)
  insert_sorted-In a b (x ∷ xs) =
      (λ h. ground (arith, insert_sorted-In a b xs), λ h. ground (arith, insert_sorted-In a b xs))

  pub sort-In : (b : A) (xs : List A) → In b (sort xs) ↔ In b xs
  unfolding sort
  sort-In b [] = (λ h. h, λ h. h)
  sort-In b (x ∷ xs) = (
    λ h. ground (arith, sort-In b xs, insert_sorted-In x b (sort xs)),
    λ h. ground (arith, sort-In b xs, insert_sorted-In x b (sort xs)),
  )

  -- No element is above the next.
  abbrev pub NonDescending : List A → Type 0
  NonDescending [] = Unit
  NonDescending (x ∷ []) = Unit
  NonDescending (x ∷ y ∷ r) = (o.less y x ≡ false) × NonDescending (y ∷ r)

  insert_sorted-NonDescending :
      (a : A) (xs : List A) → NonDescending xs → NonDescending (insert_sorted a xs)
  unfolding insert_sorted
  insert_sorted-NonDescending a [] h = tt
  insert_sorted-NonDescending a (x ∷ []) h = ground (arith, o.less_trans x a x, o.less_irrefl x)
  insert_sorted-NonDescending a (x ∷ y ∷ r) h =
      ground (arith, insert_sorted-NonDescending a (y ∷ r), o.less_trans x a x, o.less_irrefl x)

  pub sort-NonDescending : (xs : List A) → NonDescending (sort xs)
  unfolding sort
  sort-NonDescending [] = tt
  sort-NonDescending (x ∷ xs) = insert_sorted-NonDescending x (sort xs) (sort-NonDescending xs)

  pub unique-In : (b : A) (xs : List A) → In b (unique xs) ↔ In b xs
  unfolding unique
  unique-In b [] = (λ h. h, λ h. h)
  unique-In b (x ∷ []) = (λ h. h, λ h. h)
  unique-In b (x ∷ y ∷ r) = (
    λ h. ground (arith, unique-In b (y ∷ r)),
    λ h. ground (arith, unique-In b (y ∷ r), o.less_total x y),
  )

  unique_above :
      (z x : A) (xs : List A)
      → o.less z x ≡ true
      → Ascending (unique (x ∷ xs))
      → Ascending (z ∷ unique (x ∷ xs))
  unfolding unique
  unique_above z x [] k h = (k, tt)
  unique_above z x (y ∷ r) k h = ground (arith, unique_above z y r, o.less_total x y)

  pub unique-Ascending : (xs : List A) → NonDescending xs → Ascending (unique xs)
  unfolding unique
  unique-Ascending [] h = tt
  unique-Ascending (x ∷ []) h = tt
  unique-Ascending (x ∷ y ∷ r) h = ground (arith, unique-Ascending (y ∷ r) h.1, unique_above x y r)

  insert_sorted_least : (x : A) (xs : List A) → NonDescending (x ∷ xs) → insert_sorted x xs ≡ x ∷ xs
  unfolding insert_sorted
  insert_sorted_least x [] h = refl
  insert_sorted_least x (y ∷ r) h = ground arith

  -- A sorted list is what sorting it gives.
  pub sort_sorted : (xs : List A) → NonDescending xs → sort xs ≡ xs
  unfolding sort
  sort_sorted [] h = refl
  sort_sorted (x ∷ []) h = insert_sorted_least x [] tt
  sort_sorted (x ∷ y ∷ r) h =
      ap (insert_sorted x) (sort_sorted (y ∷ r) h.1) ∙ insert_sorted_least x (y ∷ r) h
