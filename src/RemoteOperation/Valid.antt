-- ===== src/RemoteOperation/Valid.antt =====
-- Which arguments and destinations src/remote_operation.cpp accepts, and what a call writes.
use rtt_opcua.Base.{
  ℕ, zero, suc, ◌+◌, ◌≡◌, refl, subst, ◌↔◌, ◌⊎◌, inl, inr, Bool, true, Option, none, some, List, [],
  ◌∷◌, arith, Bool-cases, Option-cases, length, get_elem?, In, Bytes, text_eq_iff, ok, bind_parts,
  ℤ, pos, negsuc,
}
use rtt_opcua.Schema.{TypeInfo}
use rtt_opcua.RemoteOperation.{RemoteOperation, has_index}
use rtt_opcua.RemoteOperation.Call.{
  RemoteCallResult, Codecs, CallAction, encode_loop, encode_arguments, destination_of,
  assign_output, assign_outputs, assign_call_outputs, read_arguments, execute, Handed,
  check_argument, check_arguments, validate_arguments,
}

-- The argument at an index is there, has the type and a codec, and can be assigned if the operation
-- writes it.
pub record IsArgument (mutables : List ℕ) (index : ℕ) (type : TypeInfo) (a : Option Handed)
    : Type 0 where
  pub handed : Handed
  pub present : a ≡ some handed
  pub same_type : handed.type_name ≡ type.type_name
  pub codec : handed.has_codec ≡ true
  pub assignable : In index mutables → handed.is_assignable ≡ true

abbrev pub AreArguments : List ℕ → ℕ → List TypeInfo → List (Option Handed) → Type 0
AreArguments mutables index (type ∷ types) (a ∷ arguments) =
    IsArgument mutables index type a × AreArguments mutables (index + 1) types arguments
AreArguments mutables index [] arguments = Unit {0}
AreArguments mutables index (type ∷ types) [] = Unit {0}

has_index_iff : (j : ℕ) (js : List ℕ) → (has_index j js ≡ true) ↔ In j js
unfolding has_index
has_index_iff j [] = ground arith
has_index_iff j (k ∷ js) = ground (arith, has_index_iff j js)

check_argument_iff :
    (mutables : List ℕ) (index : ℕ) (type : TypeInfo) (a : Option Handed)
    → (check_argument mutables index type a ≡ ok tt) ↔ IsArgument mutables index type a
unfolding check_argument
check_argument_iff mutables index type none = (λ h. absurd cc, λ v. absurd (cc (v.present)))
check_argument_iff mutables index type (some a) = (
  λ h. record {
    handed = a;
    present = refl;
    same_type = ground (arith, h, text_eq_iff a.type_name type.type_name);
    codec = ground (arith, h);
    assignable = λ m. ground (arith, h, has_index_iff index mutables, m);
  },
  λ v.
      let same : a ≡ v.handed = cc (v.present) in
      ground (
        arith,
        same,
        v.same_type,
        v.codec,
        v.assignable,
        has_index_iff index mutables,
        text_eq_iff a.type_name type.type_name,
      ),
)

check_arguments_iff :
    (mutables : List ℕ) (index : ℕ) (types : List TypeInfo) (arguments : List (Option Handed))
    → (check_arguments mutables index types arguments ≡ ok tt)
      ↔ AreArguments mutables index types arguments
unfolding check_arguments
check_arguments_iff mutables index [] arguments = (λ h. tt, λ v. refl)
check_arguments_iff mutables index (type ∷ types) [] = (λ h. tt, λ v. refl)
check_arguments_iff mutables index (type ∷ types) (a ∷ arguments) =
    let rest = check_arguments_iff mutables (index + 1) types arguments in
    (
      λ h.
          let (u, e, f) = bind_parts (check_argument mutables index type a) _ tt h in
          ((check_argument_iff mutables index type a).0 e, rest.0 f),
      λ v. rw ((check_argument_iff mutables index type a).1 v.0) (rest.1 v.1),
    )

-- The arguments of a call are accepted exactly when there are as many as the operation has, and each
-- is there, has the argument's type and a codec, and can be assigned where the operation writes it.
pub validate_arguments_iff :
    (o : RemoteOperation) (arguments : List (Option Handed))
    → (validate_arguments o arguments ≡ ok tt) ↔ (
        (length arguments ≡ length o.input_types)
        × AreArguments o.mutable_arguments 0 o.input_types arguments)
unfolding validate_arguments
validate_arguments_iff o arguments =
    let rest = check_arguments_iff o.mutable_arguments 0 o.input_types arguments in
    (
      λ h. (ground (arith, h), rest.0 (ground (arith, h))),
      λ v. let c = rest.1 v.1 in ground (arith, v.0, c),
    )

-- The place that a source names: -1 is the return value, and j is the argument j, counted from 0.
abbrev pub IsPlace : {Source : Type 0} → List Source → Option Source → ℤ → Source → Type 0
IsPlace arguments return_value source place =
    ((source ≡ negsuc 0) × (return_value ≡ some place))
    ⊎ ((j : ℕ) × (source ≡ pos j) × (get_elem? arguments j ≡ some place))

module _ {Store Source Variant : Type 0} (codecs : Codecs Store Source Variant)
    (arguments : List Source) (return_value : Option Source) where
  destination_of-IsPlace :
      (source : ℤ) (place : Source)
      → (destination_of codecs arguments return_value source ≡ some place)
        ↔ IsPlace arguments return_value source place
  unfolding destination_of
  destination_of-IsPlace (negsuc zero) place =
      (λ h. inl (refl, h), λ p. elim p [ inl (e, h) ↦ h | inr (j, e, h) ↦ absurd (cc e) ])
  destination_of-IsPlace (negsuc (suc n)) place = (
    λ h. absurd (ground (arith, h)),
    λ p. elim p [ inl (e, h) ↦ absurd (ground (arith, e)) | inr (j, e, h) ↦ absurd (cc e) ],
  )
  destination_of-IsPlace (pos k) place = (
    λ h. inr (k, refl, h),
    λ p. elim p [ inl (e, h) ↦ absurd (cc e) | inr (j, e, h) ↦ ground (arith, e, h) ],
  )

module _ {Store Source Variant : Type 0} (codecs : Codecs Store Source Variant) where
  -- The outputs go, in their order and without a failure, to the places that their sources name.
  abbrev pub Delivers :
      List Source → Option Source → List Bytes → List ℤ → List Variant → Store → Store → Type 0
  Delivers arguments return_value [] [] [] store after = store ≡ after
  Delivers arguments return_value (type ∷ types) (source ∷ sources) (v ∷ vs) store after =
      (between : Store) × (destination : Source) × (assign : Variant
        → Source
        → Store
        → Store × Bool)
      × IsPlace arguments return_value source destination
      × (codecs.assign_variant type ≡ some assign)
      × (assign v destination store ≡ (between, true))
      × Delivers arguments return_value types sources vs between after
  Delivers arguments return_value _ _ _ store after = ⊥

  -- What the arguments encode to, one after the other.
  abbrev pub Encodes : Store → List Source → List Variant → Type 0
  Encodes store [] [] = Unit {0}
  Encodes store (s ∷ sources) (v ∷ vs) =
      (codecs.to_variant store s ≡ some v) × Encodes store sources vs
  Encodes store [] (v ∷ vs) = ⊥
  Encodes store (s ∷ sources) [] = ⊥

  encode_sound :
      (store : Store) (sources : List Source) (vs : List Variant)
      → encode_loop codecs store sources ≡ some vs
      → Encodes store sources vs
  unfolding encode_loop
  encode_sound store [] [] h = tt
  encode_sound store [] (v ∷ vs) h = cc
  encode_sound store (s ∷ sources) vs h = elim (Option-cases (codecs.to_variant store s)) [
    | inl e ↦ absurd (ground (arith, e, h))
    | inr (w, e) ↦ elim (Option-cases (encode_loop codecs store sources)) [
      | inl f ↦ absurd (ground (arith, e, f, h))
      | inr (ws, f) ↦
          let same : w ∷ ws ≡ vs = ground (arith, e, f, h) in
          subst (λ (l : List Variant). Encodes store (s ∷ sources) l) same
            (e, encode_sound store sources ws f)
    ]
  ]

  encode_complete :
      (store : Store) (sources : List Source) (vs : List Variant)
      → Encodes store sources vs
      → encode_loop codecs store sources ≡ some vs
  unfolding encode_loop
  encode_complete store [] [] h = refl
  encode_complete store [] (v ∷ vs) h = absurd h
  encode_complete store (s ∷ sources) [] h = absurd h
  encode_complete store (s ∷ sources) (v ∷ vs) h =
      ground (arith, h.0, encode_complete store sources vs h.1)

  module _ (arguments : List Source) (return_value : Option Source) where
    deliver_sound :
        (types : List Bytes) (sources : List ℤ) (vs : List Variant) (store after : Store)
        → length vs ≡ length types
        → length types ≡ length sources
        → assign_outputs codecs arguments return_value types sources vs store ≡ (after, true)
        → Delivers arguments return_value types sources vs store after
    unfolding assign_outputs assign_output
    deliver_sound [] [] [] store after a b h = cc
    deliver_sound [] [] (v ∷ vs) store after a b h = absurd (omega (arith, a))
    deliver_sound [] (s ∷ sources) vs store after a b h = absurd (omega (arith, b))
    deliver_sound (t ∷ types) [] vs store after a b h = absurd (omega (arith, b))
    deliver_sound (t ∷ types) (s ∷ sources) [] store after a b h = absurd (omega (arith, a))
    deliver_sound (t ∷ types) (s ∷ sources) (v ∷ vs) store after a b h =
        elim (Option-cases (destination_of codecs arguments return_value s)) [
          | inl d ↦ absurd (ground (arith, d, h))
          | inr (place, d) ↦ elim (Option-cases (codecs.assign_variant t)) [
            | inl e ↦ absurd (ground (arith, d, e, h))
            | inr (assign, e) ↦ elim (Bool-cases (assign v place store).1) [
              | inr f ↦ absurd (ground (arith, d, e, f, h))
              | inl f ↦
                  let between = (assign v place store).0 in
                  (
                    between,
                    place,
                    assign,
                    (destination_of-IsPlace codecs arguments return_value s place).0 d,
                    e,
                    ground (arith, f),
                    deliver_sound types sources vs between after (omega (arith, a))
                        (omega (arith, b)) (ground (arith, d, e, f, h)),
                  )
            ]
          ]
        ]

    deliver_complete :
        (types : List Bytes) (sources : List ℤ) (vs : List Variant) (store after : Store)
        → Delivers arguments return_value types sources vs store after
        → (assign_outputs codecs arguments return_value types sources vs store ≡ (after, true))
          × (length vs ≡ length types)
          × (length types ≡ length sources)
    unfolding assign_outputs assign_output
    deliver_complete [] [] [] store after h = (rw h refl, refl, refl)
    deliver_complete [] [] (v ∷ vs) store after h = absurd h
    deliver_complete [] (s ∷ sources) vs store after h = absurd h
    deliver_complete (t ∷ types) [] vs store after h = absurd h
    deliver_complete (t ∷ types) (s ∷ sources) [] store after h = absurd h
    deliver_complete (t ∷ types) (s ∷ sources) (v ∷ vs) store after h =
        let (between, place, assign, named, e, f, rest) = h in
        let d = (destination_of-IsPlace codecs arguments return_value s place).1 named in
        let (k, a, b) = deliver_complete types sources vs between after rest in
        (ground (arith, d, e, f, k), omega (arith, a), omega (arith, b))

  -- A remote call returns true exactly when every argument encodes, the session's call of the method
  -- on the encoded arguments succeeds, and its outputs are delivered to the places that the
  -- description's sources name; the store is then the one behind the last output.
  pub call_success_iff :
      (call : List Variant → RemoteCallResult Variant) (a : CallAction Source Variant)
      (store after : Store)
      → (execute codecs true call (read_arguments codecs true store a) store ≡ (after, true)) ↔ (
          (inputs : List Variant) × Encodes store a.arguments inputs
          × ((call inputs).success ≡ true)
          × Delivers a.arguments a.return_value a.output_types a.output_sources
              (call inputs).outputs
              store
              after)
  unfolding execute read_arguments encode_arguments assign_call_outputs
  call_success_iff call a store after = (
    λ h. elim (Option-cases (encode_loop codecs store a.arguments)) [
      | inl e ↦ absurd (ground (arith, e, h))
      | inr (inputs, e) ↦ (
        inputs,
        encode_sound store a.arguments inputs e,
        ground (arith, e, h),
        deliver_sound a.arguments a.return_value a.output_types a.output_sources
            (call inputs).outputs store after (ground (arith, e, h)) (ground (arith, e, h))
            (ground (arith, e, h)),
      )
    ],
    λ p.
        let (inputs, encoded, fine, delivered) = p in
        let e = encode_complete store a.arguments inputs encoded in
        let (k, m, n) =
          deliver_complete a.arguments a.return_value a.output_types a.output_sources
            (call inputs).outputs store after delivered in
        ground (arith, e, fine, k, m, n),
  )
