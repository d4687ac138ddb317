-- ===== src/Schema/Sources.antt =====
-- The sources of the outputs in `describe` of src/operation_dispatcher.cpp: in range, and each once.
use rtt_opcua.Base.{
  ℕ, zero, suc, ◌+◌, ◌^◌, ◌≤◌, ◌<◌, ◌≡◌, refl, ◌⊎◌, inl, inr, Bool, true, false, List, [], ◌∷◌, map,
  arith, Bool-cases, length, All, In, take, Unique, ℤ, pos, negsuc, to_int32, to_int32_small,
}
use rtt_opcua.Schema.{ArgumentDescription, is_mutable_reference}
use rtt_opcua.Schema.Describe.{mutable_arguments}
use rtt_opcua.Schema.Outputs.{wanted, room}

-- The mutable arguments from an index on are in range, and none is listed twice.
pub mutable_range :
    (index : ℕ) (arguments : List ArgumentDescription)
    → All (λ j. (index ≤ j) × (j < index + length arguments)) (mutable_arguments index arguments)
unfolding mutable_arguments
mutable_range index [] = tt
mutable_range index (a ∷ arguments) =
    let rest =
      widen (mutable_arguments (index + 1) arguments) (mutable_range (index + 1) arguments) in
    elim (Bool-cases (is_mutable_reference a.type_text)) [
      | inl e ↦ rw e ((omega arith, omega arith), rest)
      | inr e ↦ rw e rest
    ]
  where
    widen :
        (js : List ℕ)
        → All (λ j. (index + 1 ≤ j) × (j < index + 1 + length arguments)) js
        → All (λ j. (index ≤ j) × (j < index + suc (length arguments))) js
    widen [] h = tt
    widen (j ∷ js) h = (omega (arith, h.0), widen js h.1)

pub fresh_below : (i k : ℕ) (js : List ℕ) → i < k → All (λ j. k ≤ j) js → ¬ In i js
fresh_below i k [] lt h m = m
fresh_below i k (j ∷ js) lt h (inl e) = absurd (omega (arith, h.0, e))
fresh_below i k (j ∷ js) lt h (inr m) = fresh_below i k js lt h.1 m

pub lower_ends : (k n : ℕ) (js : List ℕ) → All (λ j. (k ≤ j) × (j < n)) js → All (λ j. k ≤ j) js
lower_ends k n [] h = tt
lower_ends k n (j ∷ js) h = (h.0.0, lower_ends k n js h.1)

pub mutable_Unique :
    (index : ℕ) (arguments : List ArgumentDescription) → Unique (mutable_arguments index arguments)
unfolding mutable_arguments
mutable_Unique index [] = tt
mutable_Unique index (a ∷ arguments) = elim (Bool-cases (is_mutable_reference a.type_text)) [
  | inl e ↦ rw e (
    fresh_below index (index + 1) (mutable_arguments (index + 1) arguments) (omega arith) (
        lower_ends (index + 1) (index + 1 + length arguments) _
          (mutable_range (index + 1) arguments)),
    mutable_Unique (index + 1) arguments,
  )
  | inr e ↦ rw e (mutable_Unique (index + 1) arguments)
]

-- The source of an output: the return value, or an argument.
abbrev pub IsSource : ℕ → ℤ → Type 0
IsSource n source = (source ≡ negsuc 0) ⊎ ((j : ℕ) × (source ≡ pos j) × (j < n))

pub In-to_int32 :
    (n m : ℕ) (js : List ℕ)
    → n ≤ 2 ^ 31
    → m < n
    → All (λ j. (0 ≤ j) × (j < n)) js
    → In (to_int32 m) (map to_int32 js)
    → In m js
In-to_int32 n m [] small lt h k = k
In-to_int32 n m (j ∷ js) small lt h (inl e) =
    inl (ground (arith, to_int32_small m (omega arith), to_int32_small j (omega (arith, h.0)), e))
In-to_int32 n m (j ∷ js) small lt h (inr k) = inr (In-to_int32 n m js small lt h.1 k)

pub sources_Unique :
    (n : ℕ) (js : List ℕ)
    → n ≤ 2 ^ 31
    → All (λ j. (0 ≤ j) × (j < n)) js
    → Unique js
    → Unique (map to_int32 js)
sources_Unique n [] small h u = tt
sources_Unique n (j ∷ js) small h u =
    ((λ k. u.0 (In-to_int32 n j js small h.0.1 h.1 k)), sources_Unique n js small h.1 u.1)

pub sources_valid :
    (n : ℕ) (js : List ℕ)
    → n ≤ 2 ^ 31
    → All (λ j. (0 ≤ j) × (j < n)) js
    → All (IsSource n) (map to_int32 js)
sources_valid n [] small h = tt
sources_valid n (j ∷ js) small h =
    (inr (j, to_int32_small j (omega (arith, h.0)), h.0.1), sources_valid n js small h.1)

pub no_result :
    (n : ℕ) (js : List ℕ)
    → n ≤ 2 ^ 31
    → All (λ j. (0 ≤ j) × (j < n)) js
    → ¬ In (negsuc 0) (map to_int32 js)
no_result n [] small h k = k
no_result n (j ∷ js) small h (inl e) = absurd (cc (to_int32_small j (omega (arith, h.0)), e))
no_result n (j ∷ js) small h (inr k) = no_result n js small h.1 k

pub wanted_Unique :
    (b : Bool) (n : ℕ) (js : List ℕ)
    → n ≤ 2 ^ 31
    → All (λ j. (0 ≤ j) × (j < n)) js
    → Unique js
    → Unique (wanted b js)
wanted_Unique true n js small h u = (no_result n js small h, sources_Unique n js small h u)
wanted_Unique false n js small h u = sources_Unique n js small h u

pub wanted_valid :
    (b : Bool) (n : ℕ) (js : List ℕ)
    → n ≤ 2 ^ 31
    → All (λ j. (0 ≤ j) × (j < n)) js
    → All (IsSource n) (wanted b js)
wanted_valid true n js small h = (inl refl, sources_valid n js small h)
wanted_valid false n js small h = sources_valid n js small h

pub length-take : (n : ℕ) (xs : List ℤ) → n ≤ length xs → length (take n xs) ≡ n
length-take zero xs h = omega arith
length-take (suc n) [] h = absurd (omega (arith, h))
length-take (suc n) (x ∷ xs) h = omega (arith, length-take n xs (omega (arith, h)))

pub length-sources : (js : List ℕ) → length (map to_int32 js) ≡ length js
length-sources [] = refl
length-sources (j ∷ js) = omega (arith, length-sources js)

pub length-wanted : (b : Bool) (js : List ℕ) → length (wanted b js) ≡ room b js
length-wanted true js = omega (arith, length-sources js)
length-wanted false js = length-sources js

pub zero-add : (n : ℕ) → 0 + n ≡ n
zero-add n = omega arith
