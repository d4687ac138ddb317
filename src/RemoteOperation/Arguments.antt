-- ===== src/RemoteOperation/Arguments.antt =====
-- The arguments that the constructor of `RemoteOperation` describes.
use rtt_opcua.Base.{
  ℕ, zero, suc, ◌+◌, ◌≡◌, refl, ap, ◌≢◌, ◌↔◌, ◌⊎◌, inl, inr, true, none, some, List, [], ◌∷◌, ◌++◌,
  arith, if◌then◌else◌, Bool-cases, Option-cases, length, get_elem?, In, Bytes, codes, decimal, ℤ,
  pos,
}
use rtt_opcua.Schema.{TypeInfo, ArgumentDescription}
use rtt_opcua.RemoteOperation.{
  RemoteOperationDescription, has_index, remote_argument_name, remote_argument_description,
  make_arguments,
}

-- The name of the argument at an index, from the given names: an argument without one is numbered.
abbrev pub IsNamed : List Bytes → ℕ → Bytes → Type 0
IsNamed names k name =
    ((get_elem? names k ≡ some name) × (name ≢ []))
    ⊎ (((get_elem? names k ≡ none) ⊎ (get_elem? names k ≡ some []))
        × (name ≡ codes "argument" ++ decimal 20 (k + 1)))

abbrev pub IsDescribed : List Bytes → ℕ → Bytes → Type 0
IsDescribed descriptions k description =
    (get_elem? descriptions k ≡ some description)
    ⊎ ((get_elem? descriptions k ≡ none) × (description ≡ []))

-- The type text of the argument at an index: a reference if a source names the argument.
abbrev pub IsTyped : List ℤ → ℕ → TypeInfo → Bytes → Type 0
IsTyped sources k type text =
    (In (pos k) sources × (text ≡ type.type_name ++ codes " &"))
    ⊎ ((¬ In (pos k) sources) × (text ≡ type.type_name))

pub has_index_iff : (j : ℕ) (js : List ℕ) → (has_index j js ≡ true) ↔ In j js
unfolding has_index
has_index_iff j [] = (λ h. absurd cc, λ h. absurd h)
has_index_iff j (k ∷ js) = ground (arith, has_index_iff j js)

pub name-IsNamed : (names : List Bytes) (k : ℕ) → IsNamed names k (remote_argument_name names k)
unfolding remote_argument_name
name-IsNamed names k = elim (Option-cases (get_elem? names k)) [
  | inl e ↦ ground (arith, e)
  | inr ([], e) ↦ ground (arith, e)
  | inr (c ∷ s, e) ↦ ground (arith, e)
]

pub description-IsDescribed :
    (descriptions : List Bytes) (k : ℕ)
    → IsDescribed descriptions k (remote_argument_description descriptions k)
unfolding remote_argument_description
description-IsDescribed descriptions k = ground (arith, Option-cases (get_elem? descriptions k))

pub make_arguments_at :
    (d : RemoteOperationDescription) (js : List ℕ) (index : ℕ) (types : List TypeInfo)
    → (length (make_arguments d js index types) ≡ length types)
      × ((k : ℕ) (a : ArgumentDescription)
          → get_elem? (make_arguments d js index types) k ≡ some a
          → (type : TypeInfo) × (get_elem? types k ≡ some type)
            × (a.name ≡ remote_argument_name d.input_names (index + k))
            × (a.description ≡ remote_argument_description d.input_descriptions (index + k))
            × (a.type_text ≡ (
                if has_index (index + k) js then type.type_name ++ codes " &" else type.type_name)))
unfolding make_arguments
make_arguments_at d js index [] = (refl, λ k a g. absurd cc)
make_arguments_at d js index (t ∷ types) =
    let (n, below) = make_arguments_at d js (index + 1) types in (ap suc n, made_at below)
  where
    made_at :
        ((k : ℕ) (a : ArgumentDescription)
          → get_elem? (make_arguments d js (index + 1) types) k ≡ some a
          → (type : TypeInfo) × (get_elem? types k ≡ some type)
            × (a.name ≡ remote_argument_name d.input_names (index + 1 + k))
            × (a.description ≡ remote_argument_description d.input_descriptions (index + 1 + k))
            × (a.type_text ≡ (
                if has_index (index + 1 + k) js
                then type.type_name ++ codes " &"
                else type.type_name)))
        → (k : ℕ) (a : ArgumentDescription)
        → get_elem? (make_arguments d js index (t ∷ types)) k ≡ some a
        → (type : TypeInfo) × (get_elem? (t ∷ types) k ≡ some type)
          × (a.name ≡ remote_argument_name d.input_names (index + k))
          × (a.description ≡ remote_argument_description d.input_descriptions (index + k))
          × (a.type_text
              ≡ (if has_index (index + k) js then type.type_name ++ codes " &" else type.type_name))
    made_at below zero a g =
        let here : index + 0 ≡ index = omega arith in
        (
          t,
          refl,
          rw here (ground (arith, g)),
          rw here (ground (arith, g)),
          rw here (ground (arith, g)),
        )
    made_at below (suc k) a g =
        let (type, e, n, d', x) = below k a g in
        let next : index + suc k ≡ index + 1 + k = omega arith in
        (type, e, rw next n, rw next d', rw next x)

pub typed_of :
    (sources : List ℤ) (js : List ℕ) (k : ℕ) (type : TypeInfo)
    → ((j : ℕ) → In j js ↔ In (pos j) sources)
    → IsTyped sources k type
        (if has_index k js then type.type_name ++ codes " &" else type.type_name)
typed_of sources js k type same = elim (Bool-cases (has_index k js)) [
  | inl e ↦ inl ((same k).0 ((has_index_iff k js).0 e), ground (arith, e))
  | inr e ↦ inr ((λ m. absurd (cc (e, (has_index_iff k js).1 ((same k).1 m)))), ground (arith, e))
]
