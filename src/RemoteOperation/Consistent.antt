-- ===== src/RemoteOperation/Consistent.antt =====
-- Which sources the constructor of `RemoteOperation` accepts.
use rtt_opcua.Base.{
  ℕ, zero, suc, ◌≡◌, refl, sym, subst, ◌↔◌, ◌⊎◌, inl, inr, Bool, true, false, ◌&&◌, ◌||◌, none,
  some, List, [], ◌∷◌, arith, ◌==◌, Bool-cases, Option-cases, is_some, length, get_elem?, All, In,
  Unique, Bytes, ok, bind_parts, ℤ, pos, negsuc, int_eq, int_eq_iff,
}
use rtt_opcua.Schema.{TypeInfo}
use rtt_opcua.RemoteOperation.{has_index, Collected, argument_at, check_source, check_sources}

-- A source is the return value, or an argument whose type is that of the output.
abbrev pub Fits : List TypeInfo → ℤ → TypeInfo → Type 0
Fits inputs source type =
    (source ≡ negsuc 0)
    ⊎ ((j : ℕ) × (input : TypeInfo) × (source ≡ pos j)
        × (get_elem? inputs j ≡ some input)
        × (type.address ≡ input.address))

abbrev pub AllFit : List TypeInfo → List ℤ → List TypeInfo → Type 0
AllFit inputs (source ∷ sources) (type ∷ types) =
    Fits inputs source type × AllFit inputs sources types
AllFit inputs [] types = Unit {0}
AllFit inputs (source ∷ sources) [] = Unit {0}

-- A source that an earlier output has taken.
pub taken : Collected → ℤ → Bool
taken c (pos j) = has_index j c.mutables
taken c (negsuc n) = n == 0 && is_some c.return_type

argument_at-some :
    (inputs : List TypeInfo) (j : ℕ) (input : TypeInfo)
    → get_elem? inputs j ≡ some input
    → argument_at inputs (pos j) ≡ some (j, input)
unfolding argument_at
argument_at-some inputs j input h = ground (arith, h)

abbrev pub nothing_collected : Collected
nothing_collected = record { return_type = none; mutables = [] }

pub free-All : (sources : List ℤ) → All (λ x. taken nothing_collected x ≡ false) sources
unfolding taken has_index
free-All [] = tt
free-All (pos j ∷ sources) = (refl, free-All sources)
free-All (negsuc n ∷ sources) = (ground arith, free-All sources)

pub taken_result : (c : Collected) → taken c (negsuc 0) ≡ is_some c.return_type
unfolding taken
taken_result c = ground arith

pub taken_index : (c : Collected) (j : ℕ) → taken c (pos j) ≡ has_index j c.mutables
unfolding taken
taken_index c j = refl

taken_return :
    (c : Collected) (t : TypeInfo) (x : ℤ)
    → taken (record c { return_type = some t }) x ≡ (int_eq x (negsuc 0) || taken c x)
unfolding taken int_eq
taken_return c t (pos j) = ground arith
taken_return c t (negsuc n) = ground arith

taken_mutable :
    (c : Collected) (j : ℕ) (x : ℤ)
    → taken (record c { mutables = j ∷ c.mutables }) x ≡ (int_eq x (pos j) || taken c x)
unfolding taken int_eq has_index
taken_mutable c j (pos k) = ground arith
taken_mutable c j (negsuc n) = ground arith

check_source_ok :
    (name : Bytes) (inputs : List TypeInfo) (source : ℤ) (type : TypeInfo) (c c' : Collected)
    → check_source name inputs source type c ≡ ok c'
    → Fits inputs source type
      × (taken c source ≡ false)
      × ((x : ℤ) → taken c' x ≡ (int_eq x source || taken c x))
unfolding check_source int_eq taken has_index argument_at
check_source_ok name inputs (negsuc zero) type c c' h = elim (Option-cases c.return_type) [
  | inr (t, e) ↦ absurd (ground (arith, e, h))
  | inl e ↦
      let same : c' ≡ record c { return_type = some type } = ground (arith, e, h) in
      (inl refl, ground (arith, e), λ x. rw same (taken_return c type x))
]
check_source_ok name inputs (negsuc (suc n)) type c c' h = absurd (ground (arith, h))
check_source_ok name inputs (pos j) type c c' h = elim (Option-cases (get_elem? inputs j)) [
  | inl e ↦ absurd (ground (arith, e, h))
  | inr (input, e) ↦
      let same : c' ≡ record c { mutables = j ∷ c.mutables } = ground (arith, e, h) in
      (
        inr (j, input, refl, e, ground (arith, e, h)),
        ground (arith, e, h),
        λ x. rw same (taken_mutable c j x),
      )
]

check_source_total :
    (name : Bytes) (inputs : List TypeInfo) (source : ℤ) (type : TypeInfo) (c : Collected)
    → Fits inputs source type
    → taken c source ≡ false
    → (c' : Collected) × (check_source name inputs source type c ≡ ok c')
unfolding check_source int_eq taken has_index
check_source_total name inputs source type c (inl e) h = (
  record c { return_type = some type },
  subst (λ (s : ℤ). check_source name inputs s type c ≡ ok (record c { return_type = some type }))
      (sym e) (ground (arith, (rw e at h))),
)
check_source_total name inputs source type c (inr (j, input, e, at_j, same)) h = (
  record c { mutables = j ∷ c.mutables },
  subst (λ (s : ℤ). check_source name inputs s type c ≡ ok (record c { mutables = j ∷ c.mutables }))
      (sym e) (ground (arith, argument_at-some inputs j input at_j, same, (rw e at h))),
)

free_rest :
    (source : ℤ) (c c' : Collected)
    → ((x : ℤ) → taken c' x ≡ (int_eq x source || taken c x))
    → (sources : List ℤ) → All (λ x. taken c' x ≡ false) sources
    → (¬ In source sources) × All (λ x. taken c x ≡ false) sources
free_rest source c c' same [] h = ((λ k. k), tt)
free_rest source c c' same (x ∷ sources) h =
    let (new, rest) = free_rest source c c' same sources h.1 in
    (
      λ k. elim k [
        | inl e ↦ absurd (ground (arith, same x, h.0, int_eq_iff x source, e))
        | inr m ↦ new m
      ],
      (ground (arith, same x, h.0), rest),
    )

free_more :
    (source : ℤ) (c c' : Collected)
    → ((x : ℤ) → taken c' x ≡ (int_eq x source || taken c x))
    → (sources : List ℤ) → (¬ In source sources)
    → All (λ x. taken c x ≡ false) sources
    → All (λ x. taken c' x ≡ false) sources
free_more source c c' same [] n h = tt
free_more source c c' same (x ∷ sources) n h = (
  elim (Bool-cases (int_eq x source)) [
    | inl e ↦ absurd (n (inl (sym ((int_eq_iff x source).0 e))))
    | inr e ↦ ground (arith, same x, h.0, e)
  ],
  free_more source c c' same sources (λ m. n (inr m)) h.1,
)

module _ (name : Bytes) (inputs : List TypeInfo) where
  pub check_sources_ok :
      (sources : List ℤ) (types : List TypeInfo) (c c' : Collected)
      → length sources ≡ length types
      → check_sources name inputs sources types c ≡ ok c'
      → AllFit inputs sources types
        × Unique sources
        × All (λ x. taken c x ≡ false) sources
        × ((x : ℤ) → (taken c' x ≡ true) ↔ (In x sources ⊎ (taken c x ≡ true)))
  unfolding check_sources
  check_sources_ok [] types c c' same h =
      let e : c ≡ c' = cc in
      (tt, tt, tt, λ x. (λ k. inr (rw e k), λ k. elim k [ inl m ↦ absurd m | inr k ↦ rw⁻¹ e k ]))
  check_sources_ok (s ∷ sources) [] c c' same h = absurd (omega (arith, same))
  check_sources_ok (s ∷ sources) (t ∷ types) c c' same h =
      let (c1, e, rest) = bind_parts (check_source name inputs s t c) _ c' h in
      let (fit, free, step) = check_source_ok name inputs s t c c1 e in
      let (fits, unique, frees, final) =
        check_sources_ok sources types c1 c' (omega (arith, same)) rest in
      let (new, frees') = free_rest s c c1 step sources frees in
      (
        (fit, fits),
        (new, unique),
        (free, frees'),
        λ x. ground (arith, final x, step x, int_eq_iff x s),
      )

  pub check_sources_total :
      (sources : List ℤ) (types : List TypeInfo) (c : Collected)
      → AllFit inputs sources types
      → Unique sources
      → All (λ x. taken c x ≡ false) sources
      → (c' : Collected) × (check_sources name inputs sources types c ≡ ok c')
  unfolding check_sources
  check_sources_total [] types c f u h = (c, refl)
  check_sources_total (s ∷ sources) [] c f u h = (c, refl)
  check_sources_total (s ∷ sources) (t ∷ types) c f u h =
      let (c1, e) = check_source_total name inputs s t c f.0 h.0 in
      let (fit, free, step) = check_source_ok name inputs s t c c1 e in
      let (c', rest) =
        check_sources_total sources types c1 f.1 u.1 (free_more s c c1 step sources u.0 h.1) in
      (c', rw e rest)
