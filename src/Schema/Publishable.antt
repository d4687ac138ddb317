-- ===== src/Schema/Publishable.antt =====
-- The promises of `describe` in src/operation_dispatcher.cpp.
use rtt_opcua.Base.{
  ℕ, ◌^◌, ◌≤◌, ◌<◌, ◌≡◌, subst, ◌↔◌, inl, inr, Bool, true, Option, some, List, ◌∷◌, ◌++◌, map,
  arith, Option-cases, length, All, Unique, Unique-take, All-take, Bytes, Result-cases,
}
use rtt_opcua.Schema.{
  TypeInfo, TypeCodec, ArgumentDescription, RttOperation, OperationSchema, empty_schema,
}
use rtt_opcua.Schema.Describe.{mutable_arguments, describe_with, describe}
use rtt_opcua.Schema.Inputs.{name_of, describe_inputs_total}
use rtt_opcua.Schema.Outputs.{wanted, describe_outputs_total}
use rtt_opcua.Schema.Supported.{
  IsPublishable, return_total, Described, describe_with_ok, describe_with_err, Described-sources,
  Described-input_names, Described-output_names,
}
use rtt_opcua.Schema.Sources.{
  mutable_range, mutable_Unique, IsSource, wanted_Unique, wanted_valid, length-take, length-wanted,
  zero-add,
}

module _ (pointer_text : ℕ → Bytes) (codec_for : TypeInfo → Option TypeCodec)
    (operation : RttOperation) where
  -- The schema of a supported operation, opened.
  pub describe_ok :
      (describe pointer_text codec_for operation).supported ≡ true
      → (arguments : List ArgumentDescription) × (new : OperationSchema) × (operation.argument_list
          ≡ some arguments)
        × Described pointer_text codec_for operation arguments new
        × (describe pointer_text codec_for operation ≡ record new { supported = true })
  unfolding describe
  describe_ok h = elim (Option-cases operation.argument_list) [
    | inl e ↦ absurd (ground (arith, e, h))
    | inr (arguments, e) ↦
        elim (Result-cases (describe_with pointer_text codec_for operation arguments)) [
          | inl (new, f) ↦ (
            arguments,
            new,
            e,
            describe_with_ok pointer_text codec_for operation arguments new f,
            ground (arith, e, f),
          )
          | inr (bad, f) ↦ absurd (
              ground (
                arith,
                e,
                f,
                h,
                describe_with_err pointer_text codec_for operation arguments bad f,
              ))
        ]
  ]

  -- An operation is supported exactly when its arguments can be listed, every argument and every
  -- collected type is known and has a codec with a value, the return type has a codec, with a value
  -- unless it is Void, and there are no more outputs than the return value and the mutable arguments.
  pub describe_supported_iff : ((describe pointer_text codec_for operation).supported ≡ true) ↔ (
      (arguments : List ArgumentDescription) × (has_value : Bool) × IsPublishable pointer_text
        codec_for operation arguments has_value)
  unfolding describe describe_with
  describe_supported_iff = (
    λ h.
        let (arguments, new, e, d, same) = describe_ok h in
        (
          arguments,
          d.has_value,
          record {
            listed_arguments = e;
            input_values = d.inputs.values;
            result = d.result;
            output_values = d.outputs.values;
            enough = d.outputs.fits;
          },
        ),
    λ p.
        let (arguments, b, v) = p in
        let (middle, f) =
          describe_inputs_total codec_for arguments 0 operation.argument_types
            (record empty_schema {
              fingerprint = pointer_text operation.address ++ (b'|' ∷ operation.description);
            })
            v.input_values in
        let g = return_total pointer_text codec_for operation.result_type b v.result in
        let (new, k) =
          describe_outputs_total codec_for operation arguments b (mutable_arguments 0 arguments)
            operation.collect_types middle v.output_values v.enough in
        ground (arith, v.listed_arguments, f, g, k),
  )

  -- The schema of a supported operation with at most 2^31 arguments names one type for each argument
  -- and, for each output, a type and a source; a source is the return value or the index of an
  -- argument, and no source is named twice.
  pub describe_sources :
      (arguments : List ArgumentDescription)
      → operation.argument_list ≡ some arguments
      → length arguments ≤ 2 ^ 31
      → (describe pointer_text codec_for operation).supported ≡ true
      → ((describe pointer_text codec_for operation).input_type_names
          ≡ map name_of operation.argument_types)
        × ((describe pointer_text codec_for operation).output_type_names
            ≡ map name_of operation.collect_types)
        × (length (describe pointer_text codec_for operation).output_sources
            ≡ length operation.collect_types)
        × All
            (IsSource (length arguments))
            (describe pointer_text codec_for operation).output_sources
        × Unique (describe pointer_text codec_for operation).output_sources
  describe_sources arguments listing small h =
      let (arguments', new, e, d, same) = describe_ok h in
      let equal : arguments' ≡ arguments = cc in
      let range : All (λ j. (0 ≤ j) × (j < length arguments)) (mutable_arguments 0 arguments') =
        rw equal (
          subst (λ (n : ℕ). All (λ j. (0 ≤ j) × (j < n)) (mutable_arguments 0 arguments))
            (zero-add (length arguments)) (mutable_range 0 arguments)) in
      let n = length operation.collect_types in
      let js = mutable_arguments 0 arguments' in
      let sources = Described-sources pointer_text codec_for d in
      let counted =
        length-take n (wanted d.has_value js)
          (omega (arith, d.outputs.fits, length-wanted d.has_value js)) in
      let valid =
        All-take (IsSource (length arguments)) n (wanted d.has_value js)
          (wanted_valid d.has_value (length arguments) js small range) in
      let unique = Unique-take n (wanted d.has_value js) (
        wanted_Unique d.has_value (length arguments) js small range
          (mutable_Unique 0 arguments')) in
      rw same (
        Described-input_names pointer_text codec_for d,
        Described-output_names pointer_text codec_for d,
        rw sources counted,
        rw sources valid,
        rw sources unique,
      )
