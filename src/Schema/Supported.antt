-- ===== src/Schema/Supported.antt =====
-- Which operations `describe` supports, and the sources of their outputs.
use rtt_opcua.Base.{
  ℕ, ◌≤◌, ◌≡◌, refl, subst, ◌⊎◌, inl, inr, Bool, true, false, Option, none, some, List, ◌∷◌, ◌++◌,
  map, arith, Option-cases, length, All, take, Bytes, codes, text_eq_iff, err, ok, Result-cases,
  bind_parts,
}
use rtt_opcua.Schema.{
  TypeInfo, TypeCodec, ArgumentDescription, RttOperation, OperationSchema, empty_schema,
  unsupported_schema, unsupported_value_schema,
}
use rtt_opcua.Schema.Describe.{mutable_arguments, describe_inputs, describe_return, describe_with}
use rtt_opcua.Schema.Inputs.{name_of, HasValue, InputsDone, describe_inputs_ok, describe_inputs_err}
use rtt_opcua.Schema.Outputs.{wanted, room, OutputsDone, describe_outputs_ok, describe_outputs_err}

module _ (pointer_text : ℕ → Bytes) (codec_for : TypeInfo → Option TypeCodec) where
  -- The return type has a codec; one without a value is that of `Void`.
  pub record ReturnFits (type : Option TypeInfo) (has_value : Bool) : Type 0 where
    pub known : TypeInfo
    pub codec : TypeCodec
    pub type_known : type ≡ some known
    pub codec_known : codec_for known ≡ some codec
    pub same_value : codec.has_value ≡ has_value
    pub void : (has_value ≡ true) ⊎ (known.type_name ≡ codes "Void")

  -- An operation that can be published, with its arguments and whether it returns a value.
  pub record IsPublishable (operation : RttOperation) (arguments : List ArgumentDescription)
      (has_value : Bool) : Type 0 where
    pub listed_arguments : operation.argument_list ≡ some arguments
    pub input_values : All (HasValue codec_for) operation.argument_types
    pub result : ReturnFits operation.result_type has_value
    pub output_values : All (HasValue codec_for) operation.collect_types
    pub enough : length operation.collect_types ≤ room has_value (mutable_arguments 0 arguments)

  return_ok :
      (type : Option TypeInfo) (b : Bool)
      → describe_return codec_for type ≡ ok b
      → ReturnFits type b
  unfolding describe_return
  return_ok none b h = absurd cc
  return_ok (some t) b h = elim (Option-cases (codec_for t)) [
    | inl e ↦ absurd (ground (arith, e, h))
    | inr (c, e) ↦ record {
      known = t;
      codec = c;
      type_known = refl;
      codec_known = e;
      same_value = ground (arith, e, h);
      void = ground (arith, e, h, text_eq_iff t.type_name (codes "Void"));
    }
  ]

  pub return_total :
      (type : Option TypeInfo) (b : Bool)
      → ReturnFits type b
      → describe_return codec_for type ≡ ok b
  unfolding describe_return
  return_total type b r = rw r.type_known (
      ground
        (arith, r.codec_known, r.same_value, r.void, text_eq_iff r.known.type_name (codes "Void")))

  return_err :
      (type : Option TypeInfo) (e : OperationSchema)
      → describe_return codec_for type ≡ err e
      → e.supported ≡ false
  unfolding describe_return unsupported_value_schema unsupported_schema
  return_err none e h = ground arith
  return_err (some t) e h = elim (Option-cases (codec_for t)) [
    | inl f ↦ ground (arith, f, h)
    | inr (c, f) ↦ ground (arith, f, h)
  ]

  abbrev start : RttOperation → OperationSchema
  start operation = record empty_schema {
    fingerprint = pointer_text operation.address ++ (b'|' ∷ operation.description);
  }

  -- The schema between the loops and behind them.
  pub record Described (operation : RttOperation) (arguments : List ArgumentDescription)
      (new : OperationSchema) : Type 0 where
    pub middle : OperationSchema
    pub has_value : Bool
    pub inputs : InputsDone codec_for operation.argument_types (start operation) middle
    pub result : ReturnFits operation.result_type has_value
    pub outputs :
        OutputsDone codec_for operation arguments has_value
          (mutable_arguments 0 arguments)
          operation.collect_types
          middle
          new

  pub describe_with_ok :
      (operation : RttOperation) (arguments : List ArgumentDescription) (new : OperationSchema)
      → describe_with pointer_text codec_for operation arguments ≡ ok new
      → Described operation arguments new
  unfolding describe_with
  describe_with_ok operation arguments new h =
      let (middle, e, rest) =
        bind_parts
          (describe_inputs codec_for arguments 0 operation.argument_types (start operation)) _ new
          h in
      let (b, f, last) = bind_parts (describe_return codec_for operation.result_type) _ new rest in
      record {
        middle = middle;
        has_value = b;
        inputs =
            describe_inputs_ok codec_for arguments 0 operation.argument_types (start operation)
              middle e;
        result = return_ok operation.result_type b f;
        outputs =
            describe_outputs_ok codec_for operation arguments b (mutable_arguments 0 arguments)
              operation.collect_types middle new last;
      }

  pub describe_with_err :
      (operation : RttOperation) (arguments : List ArgumentDescription) (e : OperationSchema)
      → describe_with pointer_text codec_for operation arguments ≡ err e
      → e.supported ≡ false
  unfolding describe_with
  describe_with_err operation arguments e h =
      elim (Result-cases
        (describe_inputs codec_for arguments 0 operation.argument_types (start operation))) [
          | inr (e', f) ↦
              let same : e' ≡ e = cc (f, h) in
              subst (λ (s : OperationSchema). s.supported ≡ false) same
                (describe_inputs_err codec_for arguments 0 operation.argument_types
                  (start operation) e' f)
          | inl (middle, f) ↦
              elim (Result-cases (describe_return codec_for operation.result_type)) [
                | inr (e', g) ↦
                    let same : e' ≡ e = cc (f, g, h) in
                    subst (λ (s : OperationSchema). s.supported ≡ false) same
                      (return_err operation.result_type e' g)
                | inl (b, g) ↦
                    describe_outputs_err codec_for operation arguments b
                      (mutable_arguments 0 arguments) operation.collect_types middle e
                      (rw g at (rw f at h))
              ]
        ]

  pub Described-sources :
      {operation : RttOperation} {arguments : List ArgumentDescription} {new : OperationSchema}
      (d : Described operation arguments new)
      → new.output_sources
        ≡ take (length operation.collect_types) (wanted d.has_value (mutable_arguments 0 arguments))
  Described-sources d = cc (d.outputs.sources, d.inputs.sources)

  pub Described-input_names :
      {operation : RttOperation} {arguments : List ArgumentDescription} {new : OperationSchema}
      (d : Described operation arguments new)
      → new.input_type_names ≡ map name_of operation.argument_types
  Described-input_names d = cc (d.outputs.input_names, d.inputs.input_names)

  pub Described-output_names :
      {operation : RttOperation} {arguments : List ArgumentDescription} {new : OperationSchema}
      (d : Described operation arguments new)
      → new.output_type_names ≡ map name_of operation.collect_types
  Described-output_names d = cc (d.outputs.output_names, d.inputs.output_names)
