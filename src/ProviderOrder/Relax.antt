-- ===== src/ProviderOrder/Relax.antt =====
-- What one round of the outer loop does to the counts and to the ready set.
use rtt_opcua.Base.{
  ℕ, ◌+◌, ◌-◌, ◌≤◌, ◌<◌, ◌≡◌, ◌∙◌, ◌⊎◌, inl, List, [], ◌∷◌, arith, dec_lt, ◌==◌, if◌then◌else◌, In,
  Bytes, text_eq, text_eq_iff,
}
use rtt_opcua.Base.Order.{text_ord, set_insert, Ascending}
use rtt_opcua.Base.Order.Sets.{
  set_insert-In, set_insert_keeps, set_insert_cases, set_insert-Ascending,
}
use rtt_opcua.ProviderOrder.{Counts, size_mod, update, decrement, relax}

-- How often the name stands in the list.
unfoldable pub occurrences : Bytes → List Bytes → ℕ
occurrences x [] = 0
occurrences x (d ∷ ds) = (if text_eq d x then 1 else 0) + occurrences x ds

pub occurrences-In : (x : Bytes) (ds : List Bytes) → 0 < occurrences x ds → In x ds
unfolding occurrences
occurrences-In x [] h = elim h [ ]
occurrences-In x (d ∷ ds) h = ground (arith, text_eq_iff d x, occurrences-In x ds)

pub In-occurrences : (x : Bytes) (ds : List Bytes) → In x ds → 0 < occurrences x ds
unfolding occurrences
In-occurrences x [] h = elim h [ ]
In-occurrences x (d ∷ ds) h = ground (arith, text_eq_iff d x, In-occurrences x ds)

decrement_lem : (n : ℕ) → 0 < n → n < size_mod → decrement n ≡ n - 1
unfolding decrement
decrement_lem n h k = omega arith

-- No count is below the number of times that its name is listed, and none is too large to count.
pub record Fits (ds : List Bytes) (counts : Counts) : Type 0 where
  pub enough : (y : Bytes) → occurrences y ds ≤ counts y
  pub small : (y : Bytes) → counts y < size_mod

Fits-update :
    (d : Bytes) (ds : List Bytes) (counts : Counts)
    → Fits (d ∷ ds) counts
    → Fits ds (update counts d (decrement (counts d)))
unfolding occurrences
Fits-update d ds counts f = record {
  enough = λ y. ground (
    arith,
    f.enough y,
    f.enough d,
    f.small d,
    decrement_lem (counts d),
    text_eq_iff d y,
    text_eq_iff d d,
  );
  small = λ y.
      ground (arith, f.small y, f.enough d, f.small d, decrement_lem (counts d), text_eq_iff d d);
}

-- Each count falls by the number of times that its name is listed.
pub relax_counts :
    (ds ready : List Bytes) (counts : Counts) (x : Bytes)
    → Fits ds counts
    → (relax ds ready counts).1 x ≡ counts x - occurrences x ds
unfolding relax occurrences
relax_counts [] ready counts x f = omega arith
relax_counts (d ∷ ds) ready counts x f =
    let count = decrement (counts d) in
    relax_counts ds (if count == 0 then set_insert d ready else ready) (update counts d count) x
      (Fits-update d ds counts f)
    ∙ ground
        (arith, f.enough d, f.small d, decrement_lem (counts d), text_eq_iff d x, text_eq_iff d d)

-- A name in the ready set was there before, or is listed and its count has come to zero.
pub relax_ready_cases :
    (ds ready : List Bytes) (counts : Counts) (x : Bytes)
    → Fits ds counts
    → In x (relax ds ready counts).0
    → In x ready ⊎ (In x ds × ((relax ds ready counts).1 x ≡ 0))
unfolding relax
relax_ready_cases [] ready counts x f h = inl h
relax_ready_cases (d ∷ ds) ready counts x f h =
    let count = decrement (counts d) in
    let ready' = if count == 0 then set_insert d ready else ready in
    let counts' = update counts d count in
    ground (
      arith,
      relax_ready_cases ds ready' counts' x (Fits-update d ds counts f) h,
      set_insert_cases d x ready,
      relax_counts ds ready' counts' x (Fits-update d ds counts f),
      text_eq_iff d x,
    )

-- A name that is listed and whose count comes to zero is in the ready set, and so is a name that
-- was there.
pub relax_ready_keeps :
    (ds ready : List Bytes) (counts : Counts) (x : Bytes)
    → In x ready
    → In x (relax ds ready counts).0
unfolding relax
relax_ready_keeps [] ready counts x h = h
relax_ready_keeps (d ∷ ds) ready counts x h = ground (
  arith,
  set_insert_keeps d x ready,
  relax_ready_keeps ds (set_insert d ready) (update counts d (decrement (counts d))) x,
  relax_ready_keeps ds ready (update counts d (decrement (counts d))) x,
)

pub relax_ready_finds :
    (ds ready : List Bytes) (counts : Counts) (x : Bytes)
    → Fits ds counts
    → In x ds
    → counts x ≡ occurrences x ds
    → In x (relax ds ready counts).0
unfolding relax
relax_ready_finds [] ready counts x f h e = elim h [ ]
relax_ready_finds (d ∷ ds) ready counts x f h e =
    let count = decrement (counts d) in
    let ready' = if count == 0 then set_insert d ready else ready in
    let counts' = update counts d count in
    elim (dec_lt 0 (occurrences x ds)) [
      | yes more ↦
          relax_ready_finds ds ready' counts' x (Fits-update d ds counts f)
            (occurrences-In x ds more)
            (unfold occurrences in
              ground (
                arith,
                e,
                f.enough d,
                f.small d,
                decrement_lem (counts d),
                text_eq_iff d x,
                text_eq_iff d d,
              ))
      | no last ↦ relax_ready_keeps ds ready' counts' x (
          unfold occurrences in
          ground (
            arith,
            h,
            e,
            In-occurrences x ds,
            set_insert-In d ready,
            f.enough d,
            f.small d,
            decrement_lem (counts d),
            text_eq_iff d x,
          ))
    ]

pub relax-Ascending :
    (ds ready : List Bytes) (counts : Counts)
    → Ascending ready
    → Ascending (relax ds ready counts).0
unfolding relax
relax-Ascending [] ready counts h = h
relax-Ascending (d ∷ ds) ready counts h = ground (
  arith,
  set_insert-Ascending d ready h,
  relax-Ascending ds (set_insert d ready) (update counts d (decrement (counts d))),
  relax-Ascending ds ready (update counts d (decrement (counts d))) h,
)
