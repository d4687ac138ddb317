-- ===== src/RemoteOperation/Accepted.antt =====
-- Which descriptions the constructor of `RemoteOperation` accepts.
use rtt_opcua.Base.{
  ◌≡◌, refl, sym, subst, ◌∙◌, ◌↔◌, ◌⊎◌, inl, inr, true, Option, none, some, List, [], ◌∷◌, arith,
  Option-cases, is_some, length, In, Unique, Bytes, codes, ok, bind_parts, ℤ, negsuc,
}
use rtt_opcua.Schema.{TypeInfo, TypeCodec}
use rtt_opcua.RemoteOperation.{
  RemoteOperationDescription, RemoteOperation, Collected, check_sources, make_arguments,
  resolve_type, resolve_types, choose_return, check_count, make_remote_operation,
}
use rtt_opcua.RemoteOperation.Consistent.{
  AllFit, taken, nothing_collected, free-All, taken_result, check_sources_ok, check_sources_total,
}

module _ (types_named : Bytes → Option TypeInfo) (codec_for : TypeInfo → Option TypeCodec) where
  -- The names are those of registered types with a codec, in this order.
  abbrev pub Resolves : List Bytes → List TypeInfo → Type 0
  Resolves [] [] = Unit {0}
  Resolves (name ∷ names) (type ∷ types) =
      ((types_named name ≡ some type) × ((c : TypeCodec) × (codec_for type ≡ some c)))
      × Resolves names types
  Resolves [] (type ∷ types) = ⊥
  Resolves (name ∷ names) [] = ⊥

  pub record IsConsistent (d : RemoteOperationDescription) (inputs outputs : List TypeInfo)
      : Type 0 where
    pub inputs_known : Resolves d.input_types inputs
    pub outputs_known : Resolves d.output_types outputs
    pub counted : length outputs ≡ length d.output_sources
    pub fits : AllFit inputs d.output_sources outputs
    pub unique : Unique d.output_sources
    pub returns :
        In (negsuc 0) d.output_sources ⊎ ((t : TypeInfo) × (types_named (codes "Void") ≡ some t))

  resolve_type_ok :
      (text name : Bytes) (type : TypeInfo)
      → resolve_type types_named codec_for text name ≡ ok type
      → (types_named name ≡ some type) × ((c : TypeCodec) × (codec_for type ≡ some c))
  unfolding resolve_type
  resolve_type_ok text name type h = elim (Option-cases (types_named name)) [
    | inl e ↦ absurd (ground (arith, e, h))
    | inr (t, e) ↦ elim (Option-cases (codec_for t)) [
      | inl f ↦ absurd (ground (arith, e, f, h))
      | inr (c, f) ↦
          let same : t ≡ type = ground (arith, e, f, h) in (rw⁻¹ same e, (c, rw⁻¹ same f))
    ]
  ]

  pub resolve_types_ok :
      (text : Bytes) (names : List Bytes) (types : List TypeInfo)
      → resolve_types types_named codec_for text names ≡ ok types
      → Resolves names types
  unfolding resolve_types
  resolve_types_ok text [] [] h = tt
  resolve_types_ok text [] (t ∷ types) h = cc
  resolve_types_ok text (n ∷ names) types h =
      let (t, e, rest) = bind_parts (resolve_type types_named codec_for text n) _ types h in
      let (ts, f, last) =
        bind_parts (resolve_types types_named codec_for text names) _ types rest in
      let same : t ∷ ts ≡ types = cc in
      subst (λ (l : List TypeInfo). Resolves (n ∷ names) l) same
        (resolve_type_ok text n t e, resolve_types_ok text names ts f)

  resolve_types_total :
      (text : Bytes) (names : List Bytes) (types : List TypeInfo)
      → Resolves names types
      → resolve_types types_named codec_for text names ≡ ok types
  unfolding resolve_types resolve_type
  resolve_types_total text [] [] h = refl
  resolve_types_total text [] (t ∷ types) h = absurd h
  resolve_types_total text (n ∷ names) [] h = absurd h
  resolve_types_total text (n ∷ names) (t ∷ types) h =
      ground (arith, h.0.0, h.0.1.1, resolve_types_total text names types h.1)

  return_known :
      (type : Option TypeInfo) (r : TypeInfo)
      → choose_return types_named codec_for type ≡ ok r
      → (is_some type ≡ true) ⊎ ((t : TypeInfo) × (types_named (codes "Void") ≡ some t))
  unfolding choose_return
  return_known (some t) r h = inl refl
  return_known none r h = elim (Option-cases (types_named (codes "Void"))) [
    | inl e ↦ absurd (ground (arith, e, h))
    | inr (t, e) ↦ inr (t, e)
  ]

  return_found :
      (type : Option TypeInfo)
      → (is_some type ≡ true) ⊎ ((t : TypeInfo) × (types_named (codes "Void") ≡ some t))
      → (r : TypeInfo) × (choose_return types_named codec_for type ≡ ok r)
  unfolding choose_return
  return_found (some t) h = (t, refl)
  return_found none (inl e) = absurd cc
  return_found none (inr (t, e)) = (t, ground (arith, e))

  returns_of :
      (sources : List ℤ) (c : Collected) (r : TypeInfo)
      → ((taken c (negsuc 0) ≡ true)
          ↔ (In (negsuc 0) sources ⊎ (taken nothing_collected (negsuc 0) ≡ true)))
      → choose_return types_named codec_for c.return_type ≡ ok r
      → In (negsuc 0) sources ⊎ ((t : TypeInfo) × (types_named (codes "Void") ≡ some t))
  returns_of sources c r final h = elim (return_known c.return_type r h) [
    | inr k ↦ inr k
    | inl k ↦ elim (final.0 (taken_result c ∙ k)) [
      | inl m ↦ inl m
      | inr e ↦ absurd (cc (e, (free-All (negsuc 0 ∷ [])).0))
    ]
  ]

  found_of :
      (sources : List ℤ) (c : Collected)
      → ((taken c (negsuc 0) ≡ true)
          ↔ (In (negsuc 0) sources ⊎ (taken nothing_collected (negsuc 0) ≡ true)))
      → In (negsuc 0) sources ⊎ ((t : TypeInfo) × (types_named (codes "Void") ≡ some t))
      → (r : TypeInfo) × (choose_return types_named codec_for c.return_type ≡ ok r)
  found_of sources c final (inl m) =
      return_found c.return_type (inl (sym (taken_result c) ∙ final.1 (inl m)))
  found_of sources c final (inr k) = return_found c.return_type (inr k)

  -- The constructor of the proxy's operation succeeds exactly on a consistent description.
  pub accepted_iff :
      (d : RemoteOperationDescription)
      → ((o : RemoteOperation) × (make_remote_operation types_named codec_for true d ≡ ok o))
        ↔ ((inputs outputs : List TypeInfo) × IsConsistent d inputs outputs)
  unfolding make_remote_operation check_count choose_return
  accepted_iff d = (
    λ p.
        let (inputs, e, rest) =
          bind_parts
            (resolve_types types_named codec_for (codes "unsupported remote RTT input type '")
              d.input_types)
            _ p.0 p.1 in
        let (outputs, f, rest2) =
          bind_parts
            (resolve_types types_named codec_for (codes "unsupported remote RTT output type '")
              d.output_types)
            _ p.0 rest in
        let (counted, g, rest3) =
          bind_parts (check_count types_named codec_for d outputs) _ p.0 rest2 in
        let (c, k, rest4) =
          bind_parts (check_sources d.name inputs d.output_sources outputs nothing_collected) _ p.0
            rest3 in
        let (r, l, last) =
          bind_parts (choose_return types_named codec_for c.return_type) _ p.0 rest4 in
        let equal : length outputs ≡ length d.output_sources = ground (arith, g) in
        let (fits, unique, free, final) =
          check_sources_ok d.name inputs d.output_sources outputs nothing_collected c (sym equal)
            k in
        (
          inputs,
          outputs,
          record {
            inputs_known = resolve_types_ok _ d.input_types inputs e;
            outputs_known = resolve_types_ok _ d.output_types outputs f;
            counted = equal;
            fits = fits;
            unique = unique;
            returns = returns_of d.output_sources c r (final (negsuc 0)) l;
          },
        ),
    λ p.
        let (inputs, outputs, v) = p in
        let e =
          resolve_types_total (codes "unsupported remote RTT input type '") d.input_types inputs
            v.inputs_known in
        let f =
          resolve_types_total (codes "unsupported remote RTT output type '") d.output_types outputs
            v.outputs_known in
        let g : check_count types_named codec_for d outputs ≡ ok tt = ground (arith, v.counted) in
        let (c, k) =
          check_sources_total d.name inputs d.output_sources outputs nothing_collected v.fits
            v.unique (free-All d.output_sources) in
        let (fits, unique, free, final) =
          check_sources_ok d.name inputs d.output_sources outputs nothing_collected c
            (sym v.counted) k in
        let (r, l) = found_of d.output_sources c (final (negsuc 0)) v.returns in
        (
          record {
            description = d;
            input_types = inputs;
            output_types = outputs;
            return_type = r;
            mutable_arguments = c.mutables;
            arguments = make_arguments d c.mutables 0 inputs;
          },
          rw e (rw f (rw g (rw k (rw l refl)))),
        ),
  )
