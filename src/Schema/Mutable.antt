-- ===== src/Schema/Mutable.antt =====
-- The type texts of mutable references, as `isMutableReference` of src/operation_dispatcher.cpp finds
-- them, and the arguments that have them.
use rtt_opcua.Schema.Describe.{mutable_arguments}
use rtt_opcua.Base.{
  ℕ, ◌+◌, ◌≤◌, ◌≡◌, refl, sym, ap, subst, ◌∙◌, ◌↔◌, ◌⊎◌, inl, inr, true, false, List, [], ◌∷◌, ◌++◌,
  append_assoc, arith, Bool-cases, All, List-cases, Bytes, codes,
}
use rtt_opcua.Schema.{
  ArgumentDescription, is_space, trim_back, trim_front, ends_with, starts_with,
  is_mutable_reference,
}

-- A space, a tabulator, or another character of white space.
abbrev pub IsSpace : ℕ → Type 0
IsSpace c = (c ≡ 32) ⊎ ((9 ≤ c) × (c ≤ 13))

abbrev pub Unspaced : Bytes → Type 0
Unspaced [] = Unit
Unspaced (c ∷ s) = ¬ IsSpace c

-- The text of a mutable reference: but for white space around it, it ends with `&`, and it does not
-- begin with `const `.
abbrev pub IsMutableText : Bytes → Type 0
IsMutableText text =
    (front core back : Bytes) × (text ≡ front ++ (core ++ (b'&' ∷ back)))
    × All IsSpace front
    × All IsSpace back
    × Unspaced (core ++ (b'&' ∷ []))
    × (¬ ((rest : Bytes) × (core ++ (b'&' ∷ []) ≡ codes "const " ++ rest)))

-- The indices, counted from the given one, of the arguments that are mutable references, in order.
abbrev pub AreMutable : ℕ → List ArgumentDescription → List ℕ → Type 0
AreMutable index [] js = js ≡ []
AreMutable index (a ∷ arguments) js =
    (IsMutableText a.type_text
      × ((js' : List ℕ) × (js ≡ index ∷ js') × AreMutable (index + 1) arguments js'))
    ⊎ ((¬ IsMutableText a.type_text) × AreMutable (index + 1) arguments js)

is_space_iff : (c : ℕ) → (is_space c ≡ true) ↔ IsSpace c
unfolding is_space
is_space_iff c = ground arith

trim_spaces : (s : Bytes) → All IsSpace s → trim_back s ≡ []
unfolding trim_back
trim_spaces [] h = refl
trim_spaces (c ∷ s) h = ground (arith, trim_spaces s h.1, (is_space_iff c).1 h.0)

trim_back_ampersand :
    (core back : Bytes) → All IsSpace back → trim_back (core ++ (b'&' ∷ back)) ≡ core ++ (b'&' ∷ [])
unfolding trim_back is_space
trim_back_ampersand [] back h = ground (arith, trim_spaces back h)
trim_back_ampersand (c ∷ []) back h = ground (arith, trim_back_ampersand [] back h)
trim_back_ampersand (c ∷ d ∷ core) back h = ground (arith, trim_back_ampersand (d ∷ core) back h)

trim_back_split : (s : Bytes) → (back : Bytes) × (s ≡ trim_back s ++ back) × All IsSpace back
unfolding trim_back
trim_back_split [] = ([], refl, tt)
trim_back_split (c ∷ s) =
    let (back, e, spaces) = trim_back_split s in
    elim (List-cases (trim_back s)) [
      | inl none_left ↦ elim (Bool-cases (is_space c)) [
        | inl space ↦
            let same : s ≡ back = e ∙ ap (λ (l : Bytes). l ++ back) none_left in
            (
              c ∷ s,
              ground (arith, none_left, space),
              ((is_space_iff c).0 space, subst (All IsSpace) (sym same) spaces),
            )
        | inr dark ↦ (back, ground (arith, dark, e), spaces)
      ]
      | inr (d, t, some_left) ↦ (back, ground (arith, some_left, e), spaces)
    ]

trim_front_split :
    (s : Bytes)
    → (front : Bytes) × (s ≡ front ++ trim_front s) × All IsSpace front × Unspaced (trim_front s)
unfolding trim_front
trim_front_split [] = ([], refl, tt, tt)
trim_front_split (c ∷ s) =
    let (front, e, spaces, dark) = trim_front_split s in
    elim (Bool-cases (is_space c)) [
      | inl space ↦
          rw space
            (c ∷ front, ap (λ (l : Bytes). c ∷ l) e, ((is_space_iff c).0 space, spaces), dark)
      | inr solid ↦ rw solid ([], refl, tt, λ h. absurd (cc (solid, (is_space_iff c).1 h)))
    ]

trim_front_ok : (front s : Bytes) → All IsSpace front → Unspaced s → trim_front (front ++ s) ≡ s
unfolding trim_front
trim_front_ok [] [] h u = refl
trim_front_ok [] (c ∷ s) h u = ground (arith, (is_space_iff c).0, u)
trim_front_ok (c ∷ front) s h u =
    ground (arith, (is_space_iff c).1 h.0, trim_front_ok front s h.1 u)

starts_with_iff : (p s : Bytes) → (starts_with p s ≡ true) ↔ ((rest : Bytes) × (s ≡ p ++ rest))
unfolding starts_with
starts_with_iff [] s = (λ h. (s, refl), λ h. refl)
starts_with_iff (c ∷ p) [] = (λ h. absurd cc, λ h. absurd (cc (h.1)))
starts_with_iff (c ∷ p) (x ∷ s) = (
  λ h. let (rest, e) = (starts_with_iff p s).0 (ground (arith, h)) in (rest, ground (arith, h, e)),
  λ h. let e = h.1 in ground (arith, (starts_with_iff p s).1 (h.0, cc e), e),
)

ends_with_iff :
    (c : ℕ) (s : Bytes) → (ends_with c s ≡ true) ↔ ((core : Bytes) × (s ≡ core ++ (c ∷ [])))
unfolding ends_with
ends_with_iff c [] = (
  λ h. absurd cc,
  λ h.
      absurd
        (elim (List-cases h.0) [ inl e ↦ cc (rw e at h.1) | inr (x, t, e) ↦ cc (rw e at h.1) ]),
)
ends_with_iff c (x ∷ []) = (
  λ h. ([], ground (arith, h)),
  λ h. elim (List-cases h.0) [
    | inl e ↦ let k = rw e at h.1 in ground (arith, k)
    | inr (y, [], e) ↦ absurd (cc (rw e at h.1))
    | inr (y, z ∷ t, e) ↦ absurd (cc (rw e at h.1))
  ],
)
ends_with_iff c (x ∷ y ∷ s) = (
  λ h. let (core, e) = (ends_with_iff c (y ∷ s)).0 h in (x ∷ core, ap (λ (l : Bytes). x ∷ l) e),
  λ h. elim (List-cases h.0) [
    | inl e ↦ absurd (cc (rw e at h.1))
    | inr (z, t, e) ↦ let k = rw e at h.1 in (ends_with_iff c (y ∷ s)).1 (t, cc k)
  ],
)

ends_with-trim_front : (s : Bytes) → ends_with b'&' s ≡ true → ends_with b'&' (trim_front s) ≡ true
unfolding ends_with trim_front is_space
ends_with-trim_front [] h = h
ends_with-trim_front (c ∷ []) h = ground (arith, h)
ends_with-trim_front (c ∷ d ∷ s) h = ground (arith, h, ends_with-trim_front (d ∷ s) h)

IsMutableText-is_mutable_reference :
    (text : Bytes) → IsMutableText text → is_mutable_reference text ≡ true
unfolding is_mutable_reference
IsMutableText-is_mutable_reference text (front, core, back, e, before, behind, dark, plain) =
    let body = core ++ (b'&' ∷ []) in
    let whole : trim_back text ≡ front ++ body =
      ap trim_back (e ∙ sym (append_assoc front core (b'&' ∷ back)))
      ∙ trim_back_ampersand (front ++ core) back behind
      ∙ append_assoc front core (b'&' ∷ []) in
    let ends : ends_with b'&' (front ++ body) ≡ true =
      (ends_with_iff b'&' (front ++ body)).1
        (front ++ core, sym (append_assoc front core (b'&' ∷ []))) in
    let inner = trim_front_ok front body before dark in
    elim (Bool-cases (starts_with (codes "const ") body)) [
      | inl s ↦ absurd (plain ((starts_with_iff (codes "const ") body).0 s))
      | inr s ↦ ground (arith, whole, ends, inner, s)
    ]

is_mutable_reference-IsMutableText :
    (text : Bytes) → is_mutable_reference text ≡ true → IsMutableText text
unfolding is_mutable_reference
is_mutable_reference-IsMutableText text h =
    let (back, e, behind) = trim_back_split text in
    let (front, f, before, dark) = trim_front_split (trim_back text) in
    let ends : ends_with b'&' (trim_back text) ≡ true = ground (arith, h) in
    let plain : starts_with (codes "const ") (trim_front (trim_back text)) ≡ false =
      ground (arith, h, ends) in
    let (core, g) =
      (ends_with_iff b'&' (trim_front (trim_back text))).0
        (ends_with-trim_front (trim_back text) ends) in
    (
      front,
      core,
      back,
      e
          ∙ ap (λ (l : Bytes). l ++ back) (f ∙ ap (λ (l : Bytes). front ++ l) g)
          ∙ append_assoc front (core ++ (b'&' ∷ [])) back
          ∙ ap (λ (l : Bytes). front ++ l) (append_assoc core (b'&' ∷ []) back),
      before,
      behind,
      subst Unspaced g dark,
      λ p. absurd (
          cc (
            plain,
            (starts_with_iff (codes "const ") (trim_front (trim_back text))).1 (p.0, g ∙ p.1),
          )),
    )

-- The test of the program finds exactly the texts of mutable references.
pub is_mutable_reference_iff :
    (text : Bytes) → (is_mutable_reference text ≡ true) ↔ IsMutableText text
is_mutable_reference_iff text =
    (is_mutable_reference-IsMutableText text, IsMutableText-is_mutable_reference text)

-- The program lists exactly the mutable references.
pub mutable_arguments-AreMutable :
    (index : ℕ) (arguments : List ArgumentDescription) (js : List ℕ)
    → AreMutable index arguments js
    → js ≡ mutable_arguments index arguments
unfolding mutable_arguments
mutable_arguments-AreMutable index [] js h = h
mutable_arguments-AreMutable index (a ∷ arguments) js (inl (m, (js', e, h))) = ground (
  arith,
  IsMutableText-is_mutable_reference a.type_text m,
  e,
  mutable_arguments-AreMutable (index + 1) arguments js' h,
)
mutable_arguments-AreMutable index (a ∷ arguments) js (inr (m, h)) =
    elim (Bool-cases (is_mutable_reference a.type_text)) [
      | inl e ↦ absurd (m (is_mutable_reference-IsMutableText a.type_text e))
      | inr e ↦ ground (arith, e, mutable_arguments-AreMutable (index + 1) arguments js h)
    ]
