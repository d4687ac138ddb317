-- ===== src/Schema/Outputs.antt =====
-- What the loop of `describe` over the outputs adds to the schema, and when it succeeds.
use rtt_opcua.Base.{
  ℕ, suc, ◌+◌, ◌≤◌, ◌≡◌, refl, sym, subst, ◌∙◌, inl, inr, Bool, true, false, Option, some, List, [],
  ◌∷◌, ◌++◌, map, append-nil, append_assoc, arith, length, length-append, All, take, Bytes, codes,
  err, ok, Result-cases, bind_parts, ℤ, negsuc, to_int32,
}
use rtt_opcua.Schema.{
  TypeInfo, TypeCodec, ArgumentDescription, RttOperation, OperationSchema, argument_name,
  argument_description, unsupported_schema,
}
use rtt_opcua.Schema.Describe.{choose_output, add_output, value_codec, describe_outputs}
use rtt_opcua.Schema.Inputs.{name_of, HasValue, value_codec_ok, value_codec-some, value_codec_err}

-- The sources that the outputs can have, in their order.
abbrev pub wanted : Bool → List ℕ → List ℤ
wanted true mutables = negsuc 0 ∷ map to_int32 mutables
wanted false mutables = map to_int32 mutables

abbrev pub room : Bool → List ℕ → ℕ
room true mutables = suc (length mutables)
room false mutables = length mutables

module _ (codec_for : TypeInfo → Option TypeCodec) (operation : RttOperation)
    (arguments : List ArgumentDescription) where
  pub record OutputsDone (is_result : Bool) (mutables : List ℕ) (types : List (Option TypeInfo))
      (old new : OperationSchema) : Type 0 where
    pub values : All (HasValue codec_for) types
    pub fits : length types ≤ room is_result mutables
    pub sources :
        new.output_sources ≡ old.output_sources ++ take (length types) (wanted is_result mutables)
    pub output_names : new.output_type_names ≡ old.output_type_names ++ map name_of types
    pub counted : length new.outputs ≡ length old.outputs + length types
    pub inputs : new.inputs ≡ old.inputs
    pub input_names : new.input_type_names ≡ old.input_type_names

  done_empty :
      (is_result : Bool) (mutables : List ℕ) (old : OperationSchema)
      → OutputsDone is_result mutables [] old old
  done_empty is_result mutables old = record {
    values = tt;
    fits = omega arith;
    sources = sym (append-nil old.output_sources);
    output_names = sym (append-nil old.output_type_names);
    counted = omega arith;
    inputs = refl;
    input_names = refl;
  }

  -- One round, with the source that it takes.
  done_step :
      (is_result : Bool) (mutables rest : List ℕ) (source : ℤ) (name description : Bytes)
      (type : Option TypeInfo) (types : List (Option TypeInfo)) (found : TypeInfo × TypeCodec)
      (old new : OperationSchema)
      → wanted is_result mutables ≡ source ∷ wanted false rest
      → room is_result mutables ≡ suc (room false rest)
      → value_codec codec_for type ≡ ok found
      → OutputsDone false rest types (add_output name description source found old) new
      → OutputsDone is_result mutables (type ∷ types) old new
  unfolding add_output
  done_step is_result mutables rest source name description type types found old new w r e d =
      let (known, codec, value) = value_codec_ok codec_for type found e in
      record {
        values = ((found.0, found.1, known, codec, value), d.values);
        fits = omega (arith, d.fits, r);
        sources =
            d.sources
            ∙ (append_assoc old.output_sources (source ∷ [])
                  (take (length types) (wanted false rest))
                ∙ rw w refl);
        output_names =
            d.output_names
            ∙ (append_assoc old.output_type_names (found.0.type_name ∷ []) (map name_of types)
                ∙ rw known refl);
        counted = omega (arith, d.counted, length-append old.outputs (_ ∷ []));
        inputs = d.inputs;
        input_names = d.input_names;
      }

  pub describe_outputs_ok :
      (is_result : Bool) (mutables : List ℕ) (types : List (Option TypeInfo))
      (old new : OperationSchema)
      → describe_outputs codec_for operation arguments is_result mutables types old ≡ ok new
      → OutputsDone is_result mutables types old new
  unfolding describe_outputs choose_output
  describe_outputs_ok is_result mutables [] old new h =
      let same : old ≡ new = cc in
      subst (λ (s : OperationSchema). OutputsDone is_result mutables [] old s) same
        (done_empty is_result mutables old)
  describe_outputs_ok true mutables (type ∷ types) old new h =
      let (found, e, rest) = bind_parts (value_codec codec_for type) _ new h in
      done_step true mutables mutables (negsuc 0) _ _ type types found old new refl refl e
        (describe_outputs_ok false mutables types _ new rest)
  describe_outputs_ok false [] (type ∷ types) old new h =
      let (found, e, rest) = bind_parts (value_codec codec_for type) _ new h in absurd cc
  describe_outputs_ok false (m ∷ mutables) (type ∷ types) old new h =
      let (found, e, rest) = bind_parts (value_codec codec_for type) _ new h in
      done_step false (m ∷ mutables) mutables (to_int32 m) _ _ type types found old new refl refl e
        (describe_outputs_ok false mutables types _ new rest)

  pub describe_outputs_total :
      (is_result : Bool) (mutables : List ℕ) (types : List (Option TypeInfo))
      (old : OperationSchema)
      → All (HasValue codec_for) types
      → length types ≤ room is_result mutables
      → (new : OperationSchema) × (describe_outputs codec_for operation arguments is_result mutables
            types old
          ≡ ok new)
  unfolding describe_outputs choose_output
  describe_outputs_total is_result mutables [] old h fits = (old, refl)
  describe_outputs_total true mutables (type ∷ types) old h fits =
      let (t, c, known, codec, value) = h.0 in
      let (new, e) =
        describe_outputs_total false mutables types
          (add_output (codes "result") operation.description (negsuc 0) (t, c) old) h.1
          (omega (arith, fits)) in
      (new, rw known (rw (value_codec-some codec_for t c codec value) e))
  describe_outputs_total false [] (type ∷ types) old h fits = absurd (omega (arith, fits))
  describe_outputs_total false (m ∷ mutables) (type ∷ types) old h fits =
      let (t, c, known, codec, value) = h.0 in
      let (new, e) =
        describe_outputs_total false mutables types
          (add_output (argument_name arguments m) (argument_description arguments m) (to_int32 m)
            (t, c) old)
          h.1 (omega (arith, fits)) in
      (new, rw known (rw (value_codec-some codec_for t c codec value) e))

  pub describe_outputs_err :
      (is_result : Bool) (mutables : List ℕ) (types : List (Option TypeInfo))
      (old e : OperationSchema)
      → describe_outputs codec_for operation arguments is_result mutables types old ≡ err e
      → e.supported ≡ false
  unfolding describe_outputs choose_output unsupported_schema
  describe_outputs_err is_result mutables [] old e h = absurd cc
  describe_outputs_err true mutables (type ∷ types) old e h =
      elim (Result-cases (value_codec codec_for type)) [
        | inl (found, f) ↦
            describe_outputs_err false mutables types
              (add_output (codes "result") operation.description (negsuc 0) found old) e (rw f at h)
        | inr (e', f) ↦
            let same : e' ≡ e = cc (f, h) in
            subst (λ (s : OperationSchema). s.supported ≡ false) same
              (value_codec_err codec_for type e' f)
      ]
  describe_outputs_err false [] (type ∷ types) old e h =
      elim (Result-cases (value_codec codec_for type)) [
        | inl (found, f) ↦
            let text = codes "has unsupported mutable output metadata" in
            let same : unsupported_schema (some found.0) text ≡ e = cc (f, h) in
            subst (λ (s : OperationSchema). s.supported ≡ false) same refl
        | inr (e', f) ↦
            let same : e' ≡ e = cc (f, h) in
            subst (λ (s : OperationSchema). s.supported ≡ false) same
              (value_codec_err codec_for type e' f)
      ]
  describe_outputs_err false (m ∷ mutables) (type ∷ types) old e h =
      elim (Result-cases (value_codec codec_for type)) [
        | inl (found, f) ↦
            describe_outputs_err false mutables types
              (add_output (argument_name arguments m) (argument_description arguments m)
                (to_int32 m) found old)
              e (rw f at h)
        | inr (e', f) ↦
            let same : e' ≡ e = cc (f, h) in
            subst (λ (s : OperationSchema). s.supported ≡ false) same
              (value_codec_err codec_for type e' f)
      ]
