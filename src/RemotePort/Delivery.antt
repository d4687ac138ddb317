-- ===== src/RemotePort/Delivery.antt =====
-- No sample is lost, doubled or reordered between its origin and its destination, whatever the
-- outside answers.
use mathlib.Core.List.{map-append}
use rtt_opcua.Base.{
  ◌≡◌, refl, sym, ap, ◌∙◌, ◌≡⟨◌⟩◌, ◌∎, ◌⊎◌, inl, inr, true, Option, none, some, List, [], ◌∷◌, ◌++◌,
  map, append-nil, append_assoc, arith, Option-cases,
}
use rtt_opcua.RemotePort.{accepted, Adapter, InputWorld, OutputWorld, Codec}
use rtt_opcua.RemotePort.Pump.{pump_input, pump_output}

abbrev pub to_list : {A : Type 0} → Option A → List A
to_list none = []
to_list (some a) = a ∷ []

-- The joining of two steps of a run.
regroup :
    {A : Type 0} (before t ts h hs middle end : List A)
    → before ++ t ≡ h ++ middle
    → middle ++ ts ≡ hs ++ end
    → before ++ (t ++ ts) ≡ (h ++ hs) ++ end
regroup before t ts h hs middle end e f =
    before ++ (t ++ ts)
    ≡⟨ sym (append_assoc before t ts) ⟩ (before ++ t) ++ ts
    ≡⟨ ap (λ (l : List _). l ++ ts) e ⟩ (h ++ middle) ++ ts
    ≡⟨ append_assoc h middle ts ⟩ h ++ (middle ++ ts)
    ≡⟨ ap (λ (l : List _). h ++ l) f ⟩ h ++ (hs ++ end)
    ≡⟨ sym (append_assoc h hs end) ⟩ (h ++ hs) ++ end ∎

module _ {Source Variant : Type 0} (codec : Codec Source Variant) where
  -- The samples that an input adapter holds, oldest first, as they will be encoded.
  abbrev pub held_input : Adapter Source Variant → List (Option Variant)
  held_input a =
      map some (to_list a.pending_input) ++ map codec.to_variant (to_list a.pending_input_source)

  abbrev pub held_output : Adapter Source Variant → List Source
  held_output a = to_list a.pending_output

  input_step_conserves :
      (world : InputWorld Source) (a : Adapter Source Variant)
      → held_input a ++ map codec.to_variant (to_list (pump_input codec world a).taken)
        ≡ map some (to_list (pump_input codec world a).handed)
          ++ held_input (pump_input codec world a).adapter
  unfolding pump_input
  input_step_conserves world a = ground arith

  -- The samples among the read values that decode.
  abbrev pub decoded : List Variant → List Source
  decoded [] = []
  decoded (v ∷ vs) = to_list (codec.make_data_source v) ++ decoded vs

  output_step_conserves :
      (world : OutputWorld Variant) (a : Adapter Source Variant)
      → held_output a ++ decoded (to_list (pump_output codec world a).taken)
        ≡ to_list (pump_output codec world a).handed
          ++ held_output (pump_output codec world a).adapter
  unfolding pump_output
  output_step_conserves world a = ground arith

  -- A sequence of pumps: the adapter at the end, all samples taken and all samples handed over.
  unfoldable pub run_input :
      List (InputWorld Source)
      → Adapter Source Variant
      → Adapter Source Variant × List Source × List Variant
  run_input [] a = (a, [], [])
  run_input (world ∷ worlds) a =
      let step = pump_input codec world a in
      let (end, taken, handed) = run_input worlds step.adapter in
      (end, to_list step.taken ++ taken, to_list step.handed ++ handed)

  unfoldable pub run_output :
      List (OutputWorld Variant)
      → Adapter Source Variant
      → Adapter Source Variant × List Variant × List Source
  run_output [] a = (a, [], [])
  run_output (world ∷ worlds) a =
      let step = pump_output codec world a in
      let (end, taken, handed) = run_output worlds step.adapter in
      (end, to_list step.taken ++ taken, to_list step.handed ++ handed)

  -- Whatever the port and the session answer over a sequence of pumps: what was held before and
  -- the samples read from the local port, encoded in the order of reading, are the values that
  -- the session accepted, in order, and then what is still held.
  pub run_input_conserves :
      (worlds : List (InputWorld Source)) (a : Adapter Source Variant)
      → held_input a ++ map codec.to_variant (run_input worlds a).1
        ≡ map some (run_input worlds a).2 ++ held_input (run_input worlds a).0
  unfolding run_input
  run_input_conserves [] a = append-nil (held_input a)
  run_input_conserves (world ∷ worlds) a =
      let s = pump_input codec world a in
      let r = run_input worlds s.adapter in
      let join =
        regroup (held_input a) (map codec.to_variant (to_list s.taken)) (map codec.to_variant r.1)
          (map some (to_list s.handed)) (map some r.2) (held_input s.adapter) (held_input r.0)
          (input_step_conserves world a) (run_input_conserves worlds s.adapter) in
      rw (map-append codec.to_variant (to_list s.taken) r.1, map-append some (to_list s.handed) r.2)
        join

  decoded-append : (vs ws : List Variant) → decoded (vs ++ ws) ≡ decoded vs ++ decoded ws
  decoded-append [] ws = refl
  decoded-append (v ∷ vs) ws =
      ap (λ (l : List Source). to_list (codec.make_data_source v) ++ l) (decoded-append vs ws)
      ∙ sym (append_assoc (to_list (codec.make_data_source v)) (decoded vs) (decoded ws))

  -- Whatever the remote read and the mirror answer over a sequence of pumps: what was held before
  -- and the read values that decode, in the order of reading, are the samples that the mirror
  -- took, in order, and then what is still held.
  pub run_output_conserves :
      (worlds : List (OutputWorld Variant)) (a : Adapter Source Variant)
      → held_output a ++ decoded (run_output worlds a).1
        ≡ (run_output worlds a).2 ++ held_output (run_output worlds a).0
  unfolding run_output
  run_output_conserves [] a = append-nil (held_output a)
  run_output_conserves (world ∷ worlds) a =
      let s = pump_output codec world a in
      let r = run_output worlds s.adapter in
      rw (decoded-append (to_list s.taken) r.1) (
        regroup (held_output a) (decoded (to_list s.taken)) (decoded r.1) (to_list s.handed) r.2
          (held_output s.adapter) (held_output r.0) (output_step_conserves world a)
          (run_output_conserves worlds s.adapter))

  -- Where the codec encodes every sample, one pump of an input port whose session accepts the
  -- write leaves nothing held, of an adapter that held at most one sample.
  pub pump_input_drains :
      (world : InputWorld Source) (a : Adapter Source Variant)
      → world.is_input ≡ true
      → world.session ≡ accepted
      → ((s : Source) → (v : Variant) × (codec.to_variant s ≡ some v))
      → (a.pending_input ≡ none) ⊎ (a.pending_input_source ≡ none)
      → held_input (pump_input codec world a).adapter ≡ []
  unfolding pump_input
  pump_input_drains world a port fine encodes one = elim (Option-cases a.pending_input) [
    | inr (v, e) ↦ ground arith
    | inl e ↦ elim (Option-cases a.pending_input_source) [
      | inr (s, f) ↦ ground (arith, encodes s)
      | inl f ↦ elim (Option-cases world.sample) [
        | inr (s, g) ↦ ground (arith, encodes s)
        | inl g ↦ ground arith
      ]
    ]
  ]
