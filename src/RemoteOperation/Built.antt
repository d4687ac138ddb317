-- ===== src/RemoteOperation/Built.antt =====
-- What the constructor of `RemoteOperation` makes of a description that it accepts.
use rtt_opcua.RemoteOperation.Arguments.{
  IsNamed, IsDescribed, IsTyped, has_index_iff, name-IsNamed, description-IsDescribed,
  make_arguments_at, typed_of,
}
use rtt_opcua.Base.{
  ℕ, zero, suc, ◌+◌, ◌≡◌, refl, sym, ap, subst, ◌∙◌, ◌↔◌, ◌⊎◌, inl, inr, true, Option, some, List,
  [], ◌∷◌, arith, Option-cases, length, get_elem?, In, Bytes, codes, ok, bind_parts, ℤ, pos, negsuc,
  int_eq,
}
use rtt_opcua.Schema.{TypeInfo, TypeCodec, ArgumentDescription}
use rtt_opcua.RemoteOperation.{
  RemoteOperationDescription, RemoteOperation, Collected, argument_at, check_source, check_sources,
  make_arguments, resolve_types, choose_return, check_count, make_remote_operation,
}
use rtt_opcua.RemoteOperation.Consistent.{
  taken, nothing_collected, free-All, taken_result, taken_index, check_sources_ok,
}
use rtt_opcua.RemoteOperation.Accepted.{Resolves, IsConsistent, resolve_types_ok, accepted_iff}

module _ (types_named : Bytes → Option TypeInfo) (codec_for : TypeInfo → Option TypeCodec) where
  -- The operation has the description, its types, its mutable arguments and its return type: that of
  -- the source -1, or else `Void`. There is an argument for each input.
  pub record IsBuilt (d : RemoteOperationDescription) (o : RemoteOperation) : Type 0 where
    pub described : o.description ≡ d
    pub inputs : Resolves types_named codec_for d.input_types o.input_types
    pub outputs : Resolves types_named codec_for d.output_types o.output_types
    pub mutables : (j : ℕ) → In j o.mutable_arguments ↔ In (pos j) d.output_sources
    pub returns :
        ((k : ℕ) × (get_elem? d.output_sources k ≡ some (negsuc 0))
          × (get_elem? o.output_types k ≡ some o.return_type))
        ⊎ ((¬ In (negsuc 0) d.output_sources) × (types_named (codes "Void") ≡ some o.return_type))
    pub counted : length o.arguments ≡ length o.input_types
    pub arguments :
        (k : ℕ) (a : ArgumentDescription)
        → get_elem? o.arguments k ≡ some a
        → (type : TypeInfo) × (get_elem? o.input_types k ≡ some type)
          × IsNamed d.input_names k a.name
          × IsDescribed d.input_descriptions k a.description
          × IsTyped d.output_sources k type a.type_text

  source_return :
      (name : Bytes) (inputs : List TypeInfo) (source : ℤ) (type : TypeInfo) (c c' : Collected)
      → check_source name inputs source type c ≡ ok c'
      → ((source ≡ negsuc 0) × (c'.return_type ≡ some type)) ⊎ (c'.return_type ≡ c.return_type)
  unfolding check_source int_eq
  source_return name inputs (negsuc zero) type c c' h = elim (Option-cases c.return_type) [
    | inr (t, e) ↦ absurd (ground (arith, e, h))
    | inl e ↦ inl (refl, ground (arith, e, h))
  ]
  source_return name inputs (negsuc (suc n)) type c c' h =
      elim (Option-cases (argument_at inputs (negsuc (suc n)))) [
        | inl e ↦ absurd (ground (arith, e, h))
        | inr (p, e) ↦ inr (ground (arith, e, h))
      ]
  source_return name inputs (pos j) type c c' h = elim (Option-cases (argument_at inputs (pos j))) [
    | inl e ↦ absurd (ground (arith, e, h))
    | inr (p, e) ↦ inr (ground (arith, e, h))
  ]

  sources_return :
      (name : Bytes) (inputs : List TypeInfo) (sources : List ℤ) (types : List TypeInfo)
      (c c' : Collected)
      → check_sources name inputs sources types c ≡ ok c'
      → ((k : ℕ) × (t : TypeInfo) × (get_elem? sources k ≡ some (negsuc 0))
          × (get_elem? types k ≡ some t)
          × (c'.return_type ≡ some t))
        ⊎ (c'.return_type ≡ c.return_type)
  unfolding check_sources
  sources_return name inputs [] types c c' h = inr (ground (arith, h))
  sources_return name inputs (s ∷ sources) [] c c' h = inr (ground (arith, h))
  sources_return name inputs (s ∷ sources) (t ∷ types) c c' h =
      let (c1, e, rest) = bind_parts (check_source name inputs s t c) _ c' h in
      elim (sources_return name inputs sources types c1 c' rest) [
        | inl (k, u, f, g, r) ↦ inl (suc k, u, f, g, r)
        | inr r ↦ elim (source_return name inputs s t c c1 e) [
          | inl (f, g) ↦ inl (0, t, ap (λ i. some i) f, refl, r ∙ g)
          | inr g ↦ inr (r ∙ g)
        ]
      ]

  mutables_of :
      (sources : List ℤ) (c : Collected)
      → ((x : ℤ) → (taken c x ≡ true) ↔ (In x sources ⊎ (taken nothing_collected x ≡ true)))
      → (j : ℕ) → In j c.mutables ↔ In (pos j) sources
  mutables_of sources c final j = (
    λ m. elim ((final (pos j)).0 (taken_index c j ∙ (has_index_iff j c.mutables).1 m)) [
      | inl h ↦ h
      | inr h ↦ absurd (cc (h, (free-All (pos j ∷ [])).0))
    ],
    λ m. (has_index_iff j c.mutables).0 (sym (taken_index c j) ∙ (final (pos j)).1 (inl m)),
  )

  returns_built :
      (name : Bytes) (inputs outputs : List TypeInfo) (sources : List ℤ) (c : Collected)
      (r : TypeInfo)
      → check_sources name inputs sources outputs nothing_collected ≡ ok c
      → ((x : ℤ) → (taken c x ≡ true) ↔ (In x sources ⊎ (taken nothing_collected x ≡ true)))
      → choose_return types_named codec_for c.return_type ≡ ok r
      → ((k : ℕ) × (get_elem? sources k ≡ some (negsuc 0)) × (get_elem? outputs k ≡ some r))
        ⊎ ((¬ In (negsuc 0) sources) × (types_named (codes "Void") ≡ some r))
  unfolding choose_return
  returns_built name inputs outputs sources c r h final l =
      elim (sources_return name inputs sources outputs nothing_collected c h) [
        | inl (k, t, at_k, type, e) ↦
            let same : t ≡ r = ground (arith, e, l) in inl (k, at_k, type ∙ ap (λ i. some i) same)
        | inr e ↦ elim (Option-cases (types_named (codes "Void"))) [
          | inl f ↦ absurd (ground (arith, e, f, l))
          | inr (t, f) ↦ inr (
            (λ m. absurd (cc (sym (taken_result c) ∙ (final (negsuc 0)).1 (inl m), e))),
            ground (arith, e, f, l),
          )
        ]
      ]

  pub make_remote_operation-IsBuilt :
      (d : RemoteOperationDescription) (o : RemoteOperation)
      → make_remote_operation types_named codec_for true d ≡ ok o
      → IsBuilt d o
  unfolding make_remote_operation check_count
  make_remote_operation-IsBuilt d o h =
      let (inputs, e, rest) =
        bind_parts
          (resolve_types types_named codec_for (codes "unsupported remote RTT input type '")
            d.input_types)
          _ o h in
      let (outputs, f, rest2) =
        bind_parts
          (resolve_types types_named codec_for (codes "unsupported remote RTT output type '")
            d.output_types)
          _ o rest in
      let (counted, g, rest3) =
        bind_parts (check_count types_named codec_for d outputs) _ o rest2 in
      let (c, k, rest4) =
        bind_parts (check_sources d.name inputs d.output_sources outputs nothing_collected) _ o
          rest3 in
      let (r, l, last) = bind_parts (choose_return types_named codec_for c.return_type) _ o rest4 in
      let equal : length outputs ≡ length d.output_sources = ground (arith, g) in
      let (fits, unique, free, final) =
        check_sources_ok d.name inputs d.output_sources outputs nothing_collected c (sym equal) k in
      let mutables = mutables_of d.output_sources c final in
      let (many, made) = make_arguments_at d c.mutables 0 inputs in
      let same : record {
        description = d;
        input_types = inputs;
        output_types = outputs;
        return_type = r;
        mutable_arguments = c.mutables;
        arguments = make_arguments d c.mutables 0 inputs;
      }
          ≡ o =
        ground (arith, last) in
      subst (IsBuilt d) same (record {
        described = refl;
        inputs = resolve_types_ok types_named codec_for _ d.input_types inputs e;
        outputs = resolve_types_ok types_named codec_for _ d.output_types outputs f;
        mutables = mutables;
        returns = returns_built d.name inputs outputs d.output_sources c r k final l;
        counted = many;
        arguments = λ i a at_i.
            let (type, t, n, s, x) = made i a at_i in
            let from_zero : 0 + i ≡ i = omega arith in
            (
              type,
              t,
              subst (IsNamed d.input_names i) (sym n) (rw from_zero (name-IsNamed d.input_names i)),
              subst (IsDescribed d.input_descriptions i) (sym s)
                  (rw from_zero (description-IsDescribed d.input_descriptions i)),
              subst (IsTyped d.output_sources i type) (sym x)
                  (rw from_zero (typed_of d.output_sources c.mutables i type mutables)),
            );
      })

  -- The constructor of the proxy's operation succeeds exactly on a consistent description: all types
  -- are registered and have codecs, there is a source for each output, no source is named twice, a
  -- source is the return value or an argument of the output's type, and without a return value
  -- `Void` is registered. Then the operation keeps the description and has its types; its mutable
  -- arguments are those that the sources name; its return type is that of the output whose source is the
  -- return value, or else `Void`; and there is an argument for each input, with its name or a number,
  -- its description, and its type's name, as a reference where a source names it.
  pub make_remote_operation_iff :
      (d : RemoteOperationDescription)
      → (((o : RemoteOperation) × (make_remote_operation types_named codec_for true d ≡ ok o)) ↔ (
          (inputs outputs : List TypeInfo) × IsConsistent types_named codec_for d inputs outputs))
        × ((o : RemoteOperation)
            → make_remote_operation types_named codec_for true d ≡ ok o
            → IsBuilt d o)
  make_remote_operation_iff d =
      (accepted_iff types_named codec_for d, make_remote_operation-IsBuilt d)
