-- ===== src/RemoteOperation/Settled.antt =====
-- When the outputs of a remote call are assigned, and that it happens once.
use rtt_opcua.Base.{
  ◌≡◌, refl, subst, ◌≢◌, ◌↔◌, ◌⊎◌, inl, inr, Bool, true, false, some, List, [], ◌∷◌, arith,
  Bool-cases, Option-cases, length, Bytes,
}
use rtt_opcua.RemoteOperation.Call.{RemoteCallResult, Codecs, assign_output}
use rtt_opcua.RemoteOperation.Collect.{
  send_success, send_not_ready, send_failure, Future, waiting, holds, holds_null, throws,
  CollectSource, is_final, collect_outputs, take_result, get,
}

-- The outputs are assigned to their destinations one after the other, without a failure.
pub data Assigns {Store Source Variant : Type 0} (codecs : Codecs Store Source Variant)
    : List Bytes → List Source → List Variant → Store → Store → Type 0 where
  none_left : (store : Store) → Assigns codecs [] [] [] store store
  one_more :
      {types : List Bytes} {destinations : List Source} {vs : List Variant} {after : Store}
      (type : Bytes) (destination : Source) (v : Variant) (store between : Store)
      (assign : Variant → Source → Store → Store × Bool)
      → codecs.assign_variant type ≡ some assign
      → assign v destination store ≡ (between, true)
      → Assigns codecs types destinations vs between after
      → Assigns codecs (type ∷ types) (destination ∷ destinations) (v ∷ vs) store after

module _ {Store Source Variant : Type 0} (codecs : Codecs Store Source Variant) where
  collect_sound :
      (types : List Bytes) (destinations : List Source) (vs : List Variant) (store after : Store)
      → length vs ≡ length destinations
      → length destinations ≡ length types
      → collect_outputs codecs types destinations vs store ≡ (after, true)
      → Assigns codecs types destinations vs store after
  unfolding collect_outputs assign_output
  collect_sound [] [] [] store after a b h =
      let same : store ≡ after = cc in
      subst (λ (s : Store). Assigns codecs [] [] [] store s) same (none_left store)
  collect_sound (type ∷ types) (d ∷ destinations) (v ∷ vs) store after a b h =
      elim (Option-cases (codecs.assign_variant type)) [
        | inl e ↦ absurd (ground (arith, e, h))
        | inr (assign, e) ↦ elim (Bool-cases (assign v d store).1) [
          | inr f ↦ absurd (ground (arith, e, f, h))
          | inl f ↦ one_more type d v store (assign v d store).0 assign e (ground (arith, f)) (
              collect_sound types destinations vs (assign v d store).0 after (omega (arith, a))
                (omega (arith, b)) (ground (arith, e, f, h)))
        ]
      ]
  collect_sound [] (d ∷ destinations) vs store after a b h = absurd (omega (arith, b))
  collect_sound (type ∷ types) [] vs store after a b h = absurd (omega (arith, b))
  collect_sound [] [] (v ∷ vs) store after a b h = absurd (omega (arith, a))
  collect_sound (type ∷ types) (d ∷ destinations) [] store after a b h = absurd (omega (arith, a))

  collect_complete :
      {types : List Bytes} {destinations : List Source} {vs : List Variant} {store after : Store}
      → Assigns codecs types destinations vs store after
      → (collect_outputs codecs types destinations vs store ≡ (after, true))
        × (length vs ≡ length destinations)
        × (length destinations ≡ length types)
  unfolding collect_outputs assign_output
  collect_complete (none_left store) = (refl, refl, refl)
  collect_complete (one_more type d v store between assign e f rest) =
      let (k, a, b) = collect_complete rest in
      (ground (arith, e, f, k), omega (arith, a), omega (arith, b))

  -- A `get` on an unfinished collection with an invocation ends in success exactly when the future
  -- holds a successful result whose outputs are assigned, each by the codec of its type, to the
  -- destinations in their order; the store is then the one behind the last assignment.
  pub get_success_iff :
      (blocking : Bool) (future : Future Variant) (c : CollectSource Source) (store after : Store)
      → c.status ≡ send_not_ready
      → c.has_invocation ≡ true
      → (get codecs blocking future c store ≡ some (after, record c { status = send_success })) ↔ (
          (result : RemoteCallResult Variant) × (future ≡ holds result)
          × (result.success ≡ true)
          × Assigns codecs c.output_types c.destinations result.outputs store after)
  unfolding get take_result is_final
  get_success_iff blocking waiting c store after open_yet valid =
      (λ h. absurd (ground (arith, open_yet, valid, h)), λ p. absurd (cc (p.1)))
  get_success_iff blocking holds_null c store after open_yet valid =
      (λ h. absurd (ground (arith, open_yet, valid, h)), λ p. absurd (cc (p.1)))
  get_success_iff blocking throws c store after open_yet valid =
      (λ h. absurd (ground (arith, open_yet, valid, h)), λ p. absurd (cc (p.1)))
  get_success_iff blocking (holds result) c store after open_yet valid = (
    λ h. (
      result,
      refl,
      ground (arith, open_yet, valid, h),
      collect_sound c.output_types c.destinations result.outputs store after
          (ground (arith, open_yet, valid, h)) (ground (arith, open_yet, valid, h))
          (ground (arith, open_yet, valid, h)),
    ),
    λ p.
        let same : p.0 ≡ result = cc (p.1) in
        let (k, a, b) = collect_complete p.3 in ground (arith, open_yet, valid, same, p.2, k, a, b),
  )

  keep_final :
      (blocking : Bool) (future : Future Variant) (c : CollectSource Source) (later : Store)
      → is_final c.status ≡ true
      → get codecs blocking future c later ≡ some (later, c)
  unfolding get
  keep_final b f c later final = rw final refl

  take_result_final :
      (future : Future Variant) (c : CollectSource Source) (store : Store)
      → future ≢ waiting
      → is_final (take_result codecs future c store).1.status ≡ true
  unfolding take_result is_final
  take_result_final waiting c store h = absurd (h refl)
  take_result_final holds_null c store h = refl
  take_result_final throws c store h = refl
  take_result_final (holds result) c store h = ground arith

  failure_final : is_final send_failure ≡ true
  unfolding is_final
  failure_final = refl

  abbrev Settles : Bool → Future Variant → CollectSource Source → Store → Type 0
  Settles blocking future c store =
      (after : Store) × (c' : CollectSource Source) × (get codecs blocking future c store
        ≡ some (after, c'))
      × ((future ≢ waiting) ⊎ (c.has_invocation ≡ false)
          → (blocking' : Bool) (future' : Future Variant) (later : Store)
          → get codecs blocking' future' c' later ≡ some (later, c'))

  settle :
      (blocking : Bool) (future : Future Variant) (c : CollectSource Source) (store : Store)
      → is_final c.status ≡ false
      → c.has_invocation ≡ true
      → (blocking ≡ false) ⊎ (future ≢ waiting)
      → Settles blocking future c store
  unfolding get
  settle blocking waiting c store e n (inl b) = (
    store,
    record c { status = send_not_ready },
    ground (arith, e, n, b),
    λ k. elim k [ inl w ↦ absurd (w refl) | inr m ↦ absurd cc ],
  )
  settle blocking waiting c store e n (inr w) = absurd (w refl)
  settle blocking holds_null c store e n h =
      let p = take_result codecs holds_null c store in
      (
        p.0,
        p.1,
        ground (arith, e, n),
        λ k b f l. keep_final b f _ l (take_result_final holds_null c store (λ g. cc)),
      )
  settle blocking throws c store e n h =
      let p = take_result codecs throws c store in
      (
        p.0,
        p.1,
        ground (arith, e, n),
        λ k b f l. keep_final b f _ l (take_result_final throws c store (λ g. cc)),
      )
  settle blocking (holds r) c store e n h =
      let p = take_result codecs (holds r) c store in
      (
        p.0,
        p.1,
        ground (arith, e, n),
        λ k b f l. keep_final b f _ l (take_result_final (holds r) c store (λ g. cc)),
      )

  -- A `get` returns unless it blocks on a future that waits. Where the future does not wait, or there
  -- is no invocation, the status is then final, and every later `get` returns the same status and
  -- assigns nothing, whatever the future answers.
  pub get_settles :
      (blocking : Bool) (future : Future Variant) (c : CollectSource Source) (store : Store)
      → (blocking ≡ false) ⊎ (future ≢ waiting)
      → (after : Store) × (c' : CollectSource Source) × (get codecs blocking future c store
          ≡ some (after, c'))
        × ((future ≢ waiting) ⊎ (c.has_invocation ≡ false)
            → (blocking' : Bool) (future' : Future Variant) (later : Store)
            → get codecs blocking' future' c' later ≡ some (later, c'))
  unfolding get
  get_settles blocking future c store h = elim (Bool-cases (is_final c.status)) [
    | inl e ↦ (store, c, rw e refl, λ k b f l. keep_final b f c l e)
    | inr e ↦ elim (Bool-cases c.has_invocation) [
      | inr n ↦ (
        store,
        record c { status = send_failure },
        ground (arith, e, n),
        λ k b f l. keep_final b f _ l failure_final,
      )
      | inl n ↦ settle blocking future c store e n h
    ]
  ]
