-- ===== src/Base/Names.antt =====
-- Lists of names without repetition, and counting with them.
use rtt_opcua.Base.Tests.{if◌then◌else◌, Bool-cases}
use rtt_opcua.Base.Lists.{length, In}
use rtt_opcua.Base.Text.{Bytes, text_eq, text_eq_iff}
use Prim.Native.Nat.{suc, ◌≤◌}
use mathlib.Core.Path.{◌≡◌, refl, sym, subst}
use mathlib.Core.Logic.{◌↔◌, inl, inr, ◌≢◌}
use mathlib.Core.Bool.{Bool, true, false, ◌||◌}
use mathlib.Core.List.{List, [], ◌∷◌}
use native.Mathlib.Omega.{arith}

abbrev pub Distinct : List Bytes → Type 0
Distinct [] = Unit {0}
Distinct (x ∷ xs) = (¬ In x xs) × Distinct xs

-- Every element of the first list is in the second.
abbrev pub Within : List Bytes → List Bytes → Type 0
Within xs ys = (a : Bytes) → In a xs → In a ys

unfoldable pub listed : Bytes → List Bytes → Bool
listed a [] = false
listed a (x ∷ xs) = text_eq x a || listed a xs

pub listed_iff : (a : Bytes) (xs : List Bytes) → (listed a xs ≡ true) ↔ In a xs
unfolding listed
listed_iff a [] = (λ h. cc, λ h. elim h [ ])
listed_iff a (x ∷ xs) = (
  λ h. ground (arith, text_eq_iff x a, listed_iff a xs),
  λ h. ground (arith, text_eq_iff x a, listed_iff a xs),
)

pub not_listed : (a : Bytes) (xs : List Bytes) → listed a xs ≡ false → ¬ In a xs
not_listed a xs h k = cc ((listed_iff a xs).1 k)

pub listed_of_not : (a : Bytes) (xs : List Bytes) → (¬ In a xs) → listed a xs ≡ false
listed_of_not a xs h = elim (Bool-cases (listed a xs)) [
  | inl e ↦ absurd (h ((listed_iff a xs).0 e))
  | inr e ↦ e
]

without : Bytes → List Bytes → List Bytes
without a [] = []
without a (x ∷ xs) = if text_eq x a then xs else x ∷ without a xs

length-without : (a : Bytes) (xs : List Bytes) → In a xs → suc (length (without a xs)) ≡ length xs
unfolding without
length-without a [] h = elim h [ ]
length-without a (x ∷ xs) h = ground (arith, text_eq_iff x a, length-without a xs)

In-without : (a b : Bytes) (xs : List Bytes) → a ≢ b → In b xs → In b (without a xs)
unfolding without
In-without a b [] n h = elim h [ ]
In-without a b (x ∷ xs) n h = ground (arith, text_eq_iff x a, In-without a b xs n)

pub length_le-Within : (xs ys : List Bytes) → Distinct xs → Within xs ys → length xs ≤ length ys
length_le-Within [] ys d w = omega arith
length_le-Within (x ∷ xs) ys d w =
    let rest =
      length_le-Within xs (without x ys) d.1
        λ a h. In-without x a ys (λ e. d.0 (subst (λ t. In t xs) (sym e) h)) (w a (inr h)) in
    omega (arith, rest, length-without x ys (w x (inl refl)))

-- A list without repetition that is as long as one that holds all its elements holds all of that.
pub Within-full :
    (xs ys : List Bytes) → Distinct xs → Within xs ys → length ys ≤ length xs → Within ys xs
Within-full xs ys d w h a k = elim (Bool-cases (listed a xs)) [
  | inl e ↦ (listed_iff a xs).0 e
  | inr e ↦
      let more : suc (length xs) ≤ length ys =
        length_le-Within (a ∷ xs) ys (not_listed a xs e, d) (extend k) in
      absurd (omega arith)
]
  where
    extend : In a ys → Within (a ∷ xs) ys
    extend q b (inl e) = subst (λ t. In t ys) (sym e) q
    extend q b (inr r) = w b r
