-- ===== src/Schema/Inputs.antt =====
-- What the loop of `describe` over the arguments adds to the schema, and when it succeeds.
use rtt_opcua.Base.{
  ℕ, ◌+◌, ◌≡◌, refl, sym, subst, ◌∙◌, inl, inr, true, false, Option, none, some, List, [], ◌∷◌,
  ◌++◌, map, append-nil, append_assoc, arith, Option-cases, length, length-append, All, Bytes, err,
  ok, Result-cases, bind_parts,
}
use rtt_opcua.Schema.{
  TypeInfo, TypeCodec, ArgumentDescription, OperationSchema, unsupported_schema,
  unsupported_value_schema,
}
use rtt_opcua.Schema.Describe.{add_input, value_codec, describe_inputs}

abbrev pub name_of : Option TypeInfo → Bytes
name_of none = []
name_of (some type) = type.type_name

module _ (codec_for : TypeInfo → Option TypeCodec) where
  -- The type is known, and its codec has a value.
  abbrev pub HasValue : Option TypeInfo → Type 0
  HasValue type =
      (t : TypeInfo) × (c : TypeCodec) × (type ≡ some t)
      × (codec_for t ≡ some c)
      × (c.has_value ≡ true)

  pub value_codec_ok :
      (type : Option TypeInfo) (found : TypeInfo × TypeCodec)
      → value_codec codec_for type ≡ ok found
      → (type ≡ some found.0) × (codec_for found.0 ≡ some found.1) × (found.1.has_value ≡ true)
  unfolding value_codec
  value_codec_ok none found h = absurd cc
  value_codec_ok (some t) found h = elim (Option-cases (codec_for t)) [
    | inl e ↦ absurd (ground (arith, e, h))
    | inr (c, e) ↦ ground (arith, e, h)
  ]

  pub value_codec-some :
      (t : TypeInfo) (c : TypeCodec)
      → codec_for t ≡ some c
      → c.has_value ≡ true
      → value_codec codec_for (some t) ≡ ok (t, c)
  unfolding value_codec
  value_codec-some t c e h = ground (arith, e, h)

  pub value_codec_err :
      (type : Option TypeInfo) (e : OperationSchema)
      → value_codec codec_for type ≡ err e
      → e.supported ≡ false
  unfolding value_codec unsupported_value_schema unsupported_schema
  value_codec_err none e h = ground arith
  value_codec_err (some t) e h = elim (Option-cases (codec_for t)) [
    | inl f ↦ ground (arith, f, h)
    | inr (c, f) ↦ ground (arith, f, h)
  ]

  -- What the loop over the arguments has done when it ends.
  pub record InputsDone (types : List (Option TypeInfo)) (old new : OperationSchema) : Type 0 where
    pub values : All HasValue types
    pub input_names : new.input_type_names ≡ old.input_type_names ++ map name_of types
    pub counted : length new.inputs ≡ length old.inputs + length types
    pub sources : new.output_sources ≡ old.output_sources
    pub output_names : new.output_type_names ≡ old.output_type_names
    pub outputs : new.outputs ≡ old.outputs

  pub describe_inputs_ok :
      (arguments : List ArgumentDescription) (index : ℕ) (types : List (Option TypeInfo))
      (old new : OperationSchema)
      → describe_inputs codec_for arguments index types old ≡ ok new
      → InputsDone types old new
  unfolding describe_inputs add_input
  describe_inputs_ok arguments index [] old new h =
      let same : old ≡ new = cc in
      subst (λ (s : OperationSchema). InputsDone [] old s) same
        record {
          values = tt;
          input_names = sym (append-nil old.input_type_names);
          counted = omega arith;
          sources = refl;
          output_names = refl;
          outputs = refl;
        }
  describe_inputs_ok arguments index (type ∷ types) old new h =
      let (found, e, rest) = bind_parts (value_codec codec_for type) _ new h in
      let (known, codec, value) = value_codec_ok type found e in
      let d =
        describe_inputs_ok arguments (index + 1) types (add_input arguments index found old) new
          rest in
      record {
        values = ((found.0, found.1, known, codec, value), d.values);
        input_names =
            d.input_names
            ∙ (append_assoc old.input_type_names (found.0.type_name ∷ []) (map name_of types)
                ∙ rw known refl);
        counted = omega (arith, d.counted, length-append old.inputs (_ ∷ []));
        sources = d.sources;
        output_names = d.output_names;
        outputs = d.outputs;
      }

  pub describe_inputs_total :
      (arguments : List ArgumentDescription) (index : ℕ) (types : List (Option TypeInfo))
      (old : OperationSchema)
      → All HasValue types
      → (new : OperationSchema) × (describe_inputs codec_for arguments index types old ≡ ok new)
  unfolding describe_inputs
  describe_inputs_total arguments index [] old h = (old, refl)
  describe_inputs_total arguments index (type ∷ types) old h =
      let (t, c, known, codec, value) = h.0 in
      let (new, e) =
        describe_inputs_total arguments (index + 1) types (add_input arguments index (t, c) old)
          h.1 in
      (new, rw known (rw (value_codec-some t c codec value) e))

  pub describe_inputs_err :
      (arguments : List ArgumentDescription) (index : ℕ) (types : List (Option TypeInfo))
      (old e : OperationSchema)
      → describe_inputs codec_for arguments index types old ≡ err e
      → e.supported ≡ false
  unfolding describe_inputs
  describe_inputs_err arguments index [] old e h = absurd cc
  describe_inputs_err arguments index (type ∷ types) old e h =
      elim (Result-cases (value_codec codec_for type)) [
        | inl (found, f) ↦
            describe_inputs_err arguments (index + 1) types (add_input arguments index found old) e
              (rw f at h)
        | inr (e', f) ↦
            let same : e' ≡ e = cc (f, h) in
            subst (λ (s : OperationSchema). s.supported ≡ false) same (value_codec_err type e' f)
      ]
