-- ===== src/Base/Order.antt =====
-- The order that `std::less` and a defaulted `<=>` give, and the ordered containers over it:
-- `std::set`, `std::sort` and `std::unique`.
pub mod Sets
use rtt_opcua.Base.Tests.{if◌then◌else◌, ltb, ◌==◌}
use rtt_opcua.Base.Text.{Bytes}
use mathlib.Core.Path.{◌≡◌, refl}
use mathlib.Core.Bool.{Bool, true, false, ◌&&◌, ◌||◌, not}
use mathlib.Core.List.{List, [], ◌∷◌}
use native.Mathlib.Omega.{arith}

-- A strict total order as a test.
pub record Ord {ℓ} (A : Type ℓ) : Type ℓ where
  pub less : A → A → Bool
  pub less_irrefl : (a : A) → less a a ≡ false
  pub less_trans : (a b c : A) → less a b ≡ true → less b c ≡ true → less a c ≡ true
  pub less_total : (a b : A) → less a b ≡ false → less b a ≡ false → a ≡ b

-- Byte strings compare lexicographically.
unfoldable pub text_less : Bytes → Bytes → Bool
text_less [] [] = false
text_less [] (b ∷ t) = true
text_less (a ∷ s) [] = false
text_less (a ∷ s) (b ∷ t) = ltb a b || (a == b && text_less s t)

pub text_less_irrefl : (s : Bytes) → text_less s s ≡ false
unfolding text_less
text_less_irrefl [] = refl
text_less_irrefl (a ∷ s) = ground (arith, text_less_irrefl s)

pub text_less_trans :
    (s t u : Bytes) → text_less s t ≡ true → text_less t u ≡ true → text_less s u ≡ true
unfolding text_less
text_less_trans [] [] u h k = cc
text_less_trans [] (b ∷ t) [] h k = cc
text_less_trans [] (b ∷ t) (c ∷ u) h k = refl
text_less_trans (a ∷ s) [] u h k = cc
text_less_trans (a ∷ s) (b ∷ t) [] h k = cc
text_less_trans (a ∷ s) (b ∷ t) (c ∷ u) h k = ground (arith, text_less_trans s t u)

pub text_less_total : (s t : Bytes) → text_less s t ≡ false → text_less t s ≡ false → s ≡ t
unfolding text_less
text_less_total [] [] h k = refl
text_less_total [] (b ∷ t) h k = cc
text_less_total (a ∷ s) [] h k = cc
text_less_total (a ∷ s) (b ∷ t) h k = ground (arith, text_less_total s t)

instance abbrev pub text_ord : Ord Bytes
text_ord = record {
  less = text_less;
  less_irrefl = text_less_irrefl;
  less_trans = text_less_trans;
  less_total = text_less_total;
}

module _ {ℓ} {A : Type ℓ} ⦃o : Ord A⦄ where
  -- `set.insert(value)`: the set as its elements in order.
  unfoldable pub set_insert : A → List A → List A
  set_insert a [] = a ∷ []
  set_insert a (x ∷ xs) =
      if o.less a x then a ∷ x ∷ xs else if o.less x a then x ∷ set_insert a xs else x ∷ xs

  -- `set.contains(value)`
  unfoldable pub set_contains : A → List A → Bool
  set_contains a [] = false
  set_contains a (x ∷ xs) = (not (o.less a x) && not (o.less x a)) || set_contains a xs

  unfoldable pub insert_sorted : A → List A → List A
  insert_sorted a [] = a ∷ []
  insert_sorted a (x ∷ xs) = if o.less x a then x ∷ insert_sorted a xs else a ∷ x ∷ xs

  -- `std::sort`: elements that compare equal are the same, so any sort gives this list.
  unfoldable pub sort : List A → List A
  unfolding insert_sorted
  sort [] = []
  sort (x ∷ xs) = insert_sorted x (sort xs)

  -- `std::unique` and `erase`: of each run of equal elements the first stays.
  unfoldable pub unique : List A → List A
  unique [] = []
  unique (x ∷ []) = x ∷ []
  unique (x ∷ y ∷ r) =
      let rest = unique (y ∷ r) in if not (o.less x y) && not (o.less y x) then rest else x ∷ rest

  -- Every element is below the next.
  abbrev pub Ascending : List A → Type 0
  Ascending [] = Unit
  Ascending (x ∷ []) = Unit
  Ascending (x ∷ y ∷ r) = (o.less x y ≡ true) × Ascending (y ∷ r)
