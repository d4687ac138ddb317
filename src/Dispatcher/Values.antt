-- ===== src/Dispatcher/Values.antt =====
-- The values that an invocation in src/operation_dispatcher.cpp collects, decodes and encodes, each at
-- its index.
use rtt_opcua.Base.{
  ℕ, zero, suc, ◌+◌, ◌≡◌, refl, sym, ap, subst, ◌∙◌, ◌⊎◌, inl, inr, some, List, [], ◌∷◌, arith,
  Option-cases, length, get_elem?, ℤ, pos, negsuc,
}
use rtt_opcua.Schema.Sources.{zero-add}
use rtt_opcua.Dispatcher.{good}
use rtt_opcua.Dispatcher.Invoke.{
  Answers, decode_inputs, encode_values, collected_value, collect_call, collect_send,
}

module _ {Source Variant : Type 0} (answers : Answers Source Variant) where
  -- The sources are the inputs, each decoded by the codec of its index.
  abbrev pub AreDecoded : List Variant → List Source → Type 0
  AreDecoded inputs sources =
      (length sources ≡ length inputs)
      × ((k : ℕ) (source : Source)
          → get_elem? sources k ≡ some source
          → (v : Variant) × (get_elem? inputs k ≡ some v) × (answers.decode k v ≡ some source))

  -- The outputs are the codecs' encodings of values, and `P` holds of the index and the value of each.
  abbrev pub AreEncoded : (ℕ → Source → Type 0) → List Variant → Type 0
  AreEncoded P outputs =
      (k : ℕ) (v : Variant)
      → get_elem? outputs k ≡ some v
      → (value : Source) × P k value × (answers.to_variant value ≡ some v)

  -- The value of the output at an index of an operation that is called: what is built for it where its
  -- source is the return value, and else the decoded input that its source names.
  abbrev pub IsCollected : List Source → List ℤ → ℕ → Source → Type 0
  IsCollected inputs sources k value =
      ((get_elem? sources k ≡ some (negsuc 0)) × (answers.build_value k ≡ some value))
      ⊎ ((j : ℕ) × (get_elem? sources k ≡ some (pos j)) × (get_elem? inputs j ≡ some value))

  decode_inputs_at :
      (index : ℕ) (inputs : List Variant) (sources : List Source)
      → decode_inputs answers index inputs ≡ some sources
      → (length sources ≡ length inputs)
        × ((k : ℕ) (source : Source)
            → get_elem? sources k ≡ some source
            → (v : Variant) × (get_elem? inputs k ≡ some v)
              × (answers.decode (index + k) v ≡ some source))
  unfolding decode_inputs
  decode_inputs_at index [] sources h =
      let e : [] ≡ sources = cc in (ground (arith, e), λ k source g. absurd (cc (rw (sym e) at g)))
  decode_inputs_at index (v ∷ inputs) sources h = elim (Option-cases (answers.decode index v)) [
    | inl e ↦ absurd (ground (arith, e, h))
    | inr (s, e) ↦ elim (Option-cases (decode_inputs answers (index + 1) inputs)) [
      | inl f ↦ absurd (ground (arith, e, f, h))
      | inr (rest, f) ↦
          let same : s ∷ rest ≡ sources = ground (arith, e, f, h) in
          let (a, b) = decode_inputs_at (index + 1) inputs rest f in
          subst
            (λ (l : List Source).
              (length l ≡ suc (length inputs))
              × ((k : ℕ) (source : Source)
                  → get_elem? l k ≡ some source
                  → (w : Variant) × (get_elem? (v ∷ inputs) k ≡ some w)
                    × (answers.decode (index + k) w ≡ some source)))
            same (omega (arith, a), decoded_at s rest e b)
    ]
  ]
    where
      decoded_at :
          (s : Source) (rest : List Source)
          → answers.decode index v ≡ some s
          → ((k : ℕ) (source : Source)
              → get_elem? rest k ≡ some source
              → (w : Variant) × (get_elem? inputs k ≡ some w)
                × (answers.decode (index + 1 + k) w ≡ some source))
          → (k : ℕ) (source : Source) → get_elem? (s ∷ rest) k ≡ some source
          → (w : Variant) × (get_elem? (v ∷ inputs) k ≡ some w)
            × (answers.decode (index + k) w ≡ some source)
      decoded_at s rest e b zero source g = (v, refl, ground (arith, e, g))
      decoded_at s rest e b (suc k) source g =
          let (w, x, y) = b k source g in
          (w, x, subst (λ i. answers.decode i w ≡ some source) (omega arith) y)

  pub collect_send_at :
      (index left : ℕ) (values : List Source)
      → collect_send answers index left ≡ some values
      → (length values ≡ left)
        × ((k : ℕ) (value : Source)
            → get_elem? values k ≡ some value
            → answers.build_value (index + k) ≡ some value)
  unfolding collect_send
  collect_send_at index zero values h =
      let e : [] ≡ values = cc in (ground (arith, e), λ k value g. absurd (cc (rw (sym e) at g)))
  collect_send_at index (suc left) values h = elim (Option-cases (answers.build_value index)) [
    | inl e ↦ absurd (ground (arith, e, h))
    | inr (s, e) ↦ elim (Option-cases (collect_send answers (index + 1) left)) [
      | inl f ↦ absurd (ground (arith, e, f, h))
      | inr (rest, f) ↦
          let same : s ∷ rest ≡ values = ground (arith, e, f, h) in
          let (a, b) = collect_send_at (index + 1) left rest f in
          subst
            (λ (l : List Source).
              (length l ≡ suc left)
              × ((k : ℕ) (value : Source)
                  → get_elem? l k ≡ some value
                  → answers.build_value (index + k) ≡ some value))
            same (omega (arith, a), built_at s rest e b)
    ]
  ]
    where
      built_at :
          (s : Source) (rest : List Source)
          → answers.build_value index ≡ some s
          → ((k : ℕ) (value : Source)
              → get_elem? rest k ≡ some value
              → answers.build_value (index + 1 + k) ≡ some value)
          → (k : ℕ) (value : Source) → get_elem? (s ∷ rest) k ≡ some value
          → answers.build_value (index + k) ≡ some value
      built_at s rest e b zero value g =
          subst (λ i. answers.build_value i ≡ some value) (omega arith) (e ∙ g)
      built_at s rest e b (suc k) value g =
          subst (λ i. answers.build_value i ≡ some value) (omega arith) (b k value g)

  collected_at :
      (inputs : List Source) (index : ℕ) (source : ℤ) (value : Source)
      → collected_value answers inputs index source ≡ some value
      → ((source ≡ negsuc 0) × (answers.build_value index ≡ some value))
        ⊎ ((j : ℕ) × (source ≡ pos j) × (get_elem? inputs j ≡ some value))
  unfolding collected_value
  collected_at inputs index (negsuc zero) value h = inl (refl, h)
  collected_at inputs index (negsuc (suc n)) value h = absurd (ground (arith, h))
  collected_at inputs index (pos j) value h = inr (j, refl, h)

  collect_call_at :
      (inputs : List Source) (index : ℕ) (sources : List ℤ) (values : List Source)
      → collect_call answers inputs index sources ≡ some values
      → (length values ≡ length sources)
        × ((k : ℕ) (value : Source)
            → get_elem? values k ≡ some value
            → (source : ℤ) × (get_elem? sources k ≡ some source)
              × (collected_value answers inputs (index + k) source ≡ some value))
  unfolding collect_call
  collect_call_at inputs index [] values h =
      let e : [] ≡ values = cc in (ground (arith, e), λ k value g. absurd (cc (rw (sym e) at g)))
  collect_call_at inputs index (source ∷ sources) values h =
      elim (Option-cases (collected_value answers inputs index source)) [
        | inl e ↦ absurd (ground (arith, e, h))
        | inr (s, e) ↦ elim (Option-cases (collect_call answers inputs (index + 1) sources)) [
          | inl f ↦ absurd (ground (arith, e, f, h))
          | inr (rest, f) ↦
              let same : s ∷ rest ≡ values = ground (arith, e, f, h) in
              let (a, b) = collect_call_at inputs (index + 1) sources rest f in
              subst
                (λ (l : List Source).
                  (length l ≡ suc (length sources))
                  × ((k : ℕ) (value : Source)
                      → get_elem? l k ≡ some value
                      → (x : ℤ) × (get_elem? (source ∷ sources) k ≡ some x)
                        × (collected_value answers inputs (index + k) x ≡ some value)))
                same (omega (arith, a), value_at s rest e b)
        ]
      ]
    where
      value_at :
          (s : Source) (rest : List Source)
          → collected_value answers inputs index source ≡ some s
          → ((k : ℕ) (value : Source)
              → get_elem? rest k ≡ some value
              → (x : ℤ) × (get_elem? sources k ≡ some x)
                × (collected_value answers inputs (index + 1 + k) x ≡ some value))
          → (k : ℕ) (value : Source) → get_elem? (s ∷ rest) k ≡ some value
          → (x : ℤ) × (get_elem? (source ∷ sources) k ≡ some x)
            × (collected_value answers inputs (index + k) x ≡ some value)
      value_at s rest e b zero value g = (
        source,
        refl,
        subst (λ i. collected_value answers inputs i source ≡ some value) (omega arith) (e ∙ g),
      )
      value_at s rest e b (suc k) value g =
          let (x, y, z) = b k value g in
          (x, y, subst (λ i. collected_value answers inputs i x ≡ some value) (omega arith) z)

  pub decode_inputs-AreDecoded :
      (inputs : List Variant) (sources : List Source)
      → decode_inputs answers 0 inputs ≡ some sources
      → AreDecoded inputs sources
  decode_inputs-AreDecoded inputs sources h =
      let (a, b) = decode_inputs_at 0 inputs sources h in
      (
        a,
        λ k source g.
            let (v, x, y) = b k source g in
            (v, x, subst (λ i. answers.decode i v ≡ some source) (zero-add k) y),
      )

  pub collect_call-IsCollected :
      (inputs : List Source) (sources : List ℤ) (values : List Source)
      → collect_call answers inputs 0 sources ≡ some values
      → (k : ℕ) (value : Source) → get_elem? values k ≡ some value
      → IsCollected inputs sources k value
  collect_call-IsCollected inputs sources values h k value g =
      let (x, y, z) = (collect_call_at inputs 0 sources values h).1 k value g in
      let z' = subst (λ i. collected_value answers inputs i x ≡ some value) (zero-add k) z in
      elim (collected_at inputs k x value z') [
        | inl (e, b) ↦ inl (y ∙ ap (λ i. some i) e, b)
        | inr (j, e, b) ↦ inr (j, y ∙ ap (λ i. some i) e, b)
      ]

  pub encode_values_at :
      (values : List Source) (outputs outputs' : List Variant)
      → length values ≡ length outputs
      → encode_values answers values outputs ≡ (outputs', good)
      → AreEncoded (λ k value. get_elem? values k ≡ some value) outputs'
  unfolding encode_values
  encode_values_at [] [] outputs' same h =
      let e : [] ≡ outputs' = cc in λ k v g. absurd (cc (rw (sym e) at g))
  encode_values_at [] (o ∷ outputs) outputs' same h = absurd (omega (arith, same))
  encode_values_at (s ∷ values) [] outputs' same h = absurd (omega (arith, same))
  encode_values_at (s ∷ values) (o ∷ outputs) outputs' same h =
      elim (Option-cases (answers.to_variant s)) [
        | inl e ↦ absurd (ground (arith, e, h))
        | inr (v, e) ↦
            let rest = encode_values answers values outputs in
            let e' : v ∷ rest.0 ≡ outputs' = ground (arith, e, h) in
            let fine : rest.1 ≡ good = ground (arith, e, h) in
            let below =
              encode_values_at values outputs rest.0 (omega (arith, same)) (ground (arith, fine)) in
            subst (AreEncoded (λ k value. get_elem? (s ∷ values) k ≡ some value)) e'
              (λ k w g. encoded_at v rest.0 e below k w g)
      ]
    where
      encoded_at :
          (v : Variant) (vs : List Variant)
          → answers.to_variant s ≡ some v
          → AreEncoded (λ k value. get_elem? values k ≡ some value) vs
          → AreEncoded (λ k value. get_elem? (s ∷ values) k ≡ some value) (v ∷ vs)
      encoded_at v vs e below zero w g = (s, refl, e ∙ g)
      encoded_at v vs e below (suc k) w g = below k w g

  pub encode_values-length :
      (values : List Source) (outputs : List Variant)
      → length (encode_values answers values outputs).0 ≡ length outputs
  unfolding encode_values
  encode_values-length [] outputs = refl
  encode_values-length (s ∷ values) [] = refl
  encode_values-length (s ∷ values) (o ∷ outputs) =
      ground (arith, Option-cases (answers.to_variant s), encode_values-length values outputs)
