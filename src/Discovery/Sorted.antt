-- ===== src/Discovery/Sorted.antt =====
-- The sorting by names and the test of equal names in the discoveries of src/client_session.cpp.
use rtt_opcua.Base.Order.{
  text_less, text_less_irrefl, text_less_trans, text_less_total, text_ord, Ascending,
}
use rtt_opcua.Base.{
  ◌≡◌, ◌↔◌, ◌⊎◌, inl, inr, true, false, List, [], ◌∷◌, map, arith, Bool-cases, In, Bytes,
  text_eq_iff,
}
use rtt_opcua.Discovery.{insert_named, sort_by_name, adjacent_names}

less_asym : (s t : Bytes) → text_less s t ≡ true → text_less t s ≡ false
less_asym s t h = elim (Bool-cases (text_less t s)) [
  | inl e ↦ absurd (cc (text_less_trans s t s h e, text_less_irrefl s))
  | inr e ↦ e
]

module _ {A : Type 0} (name_in : A → Bytes) where
  -- No name is above the next.
  abbrev InOrder : List A → Type 0
  InOrder [] = Unit {0}
  InOrder (o ∷ []) = Unit {0}
  InOrder (o ∷ p ∷ os) = (text_less (name_in p) (name_in o) ≡ false) × InOrder (p ∷ os)

  insert_named-InOrder : (o : A) (os : List A) → InOrder os → InOrder (insert_named name_in o os)
  unfolding insert_named
  insert_named-InOrder o [] h = tt
  insert_named-InOrder o (x ∷ []) h = ground (arith, less_asym (name_in x) (name_in o))
  insert_named-InOrder o (x ∷ y ∷ os) h =
      ground (arith, less_asym (name_in x) (name_in o), insert_named-InOrder o (y ∷ os), h)

  pub sort_by_name-InOrder : (os : List A) → InOrder (sort_by_name name_in os)
  unfolding sort_by_name
  sort_by_name-InOrder [] = tt
  sort_by_name-InOrder (o ∷ os) =
      insert_named-InOrder o (sort_by_name name_in os) (sort_by_name-InOrder os)

  insert_named-In : (o d : A) (os : List A) → In d (insert_named name_in o os) ↔ ((d ≡ o) ⊎ In d os)
  unfolding insert_named
  insert_named-In o d [] = (λ h. h, λ h. h)
  insert_named-In o d (x ∷ os) = ground (arith, insert_named-In o d os)

  pub sort_by_name-In : (d : A) (os : List A) → In d (sort_by_name name_in os) ↔ In d os
  unfolding sort_by_name
  sort_by_name-In d [] = (λ h. h, λ h. h)
  sort_by_name-In d (o ∷ os) =
      ground (arith, insert_named-In o d (sort_by_name name_in os), sort_by_name-In d os)

  -- Without equal neighbours the names ascend.
  names-Ascending :
      (os : List A) → InOrder os → adjacent_names name_in os ≡ false → Ascending (map name_in os)
  unfolding adjacent_names
  names-Ascending [] h k = tt
  names-Ascending (o ∷ []) h k = tt
  names-Ascending (o ∷ p ∷ os) h k = elim (Bool-cases (text_less (name_in o) (name_in p))) [
    | inl e ↦ (e, names-Ascending (p ∷ os) h.1 (ground (arith, k)))
    | inr e ↦ absurd (
        ground (
          arith,
          k,
          text_eq_iff (name_in o) (name_in p),
          text_less_total (name_in o) (name_in p) e h.0,
        ))
  ]

  pub sort_by_name-Ascending :
      (os : List A)
      → adjacent_names name_in (sort_by_name name_in os) ≡ false
      → Ascending (map name_in (sort_by_name name_in os))
  sort_by_name-Ascending os h =
      names-Ascending (sort_by_name name_in os) (sort_by_name-InOrder os) h
