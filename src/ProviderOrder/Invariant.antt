-- ===== src/ProviderOrder/Invariant.antt =====
-- The invariant of the outer loop: what the counts and the ready set say of the providers that
-- have not been taken.
use rtt_opcua.Base.{
  ℕ, ◌+◌, ◌≤◌, ◌<◌, ◌≡◌, refl, sym, ap, subst, ◌∙◌, ◌⊎◌, inl, inr, false, List, [], ◌∷◌, arith,
  dec_lt, if◌then◌else◌, length, All, In, Bytes, text_eq_iff, Distinct, listed, listed_iff,
  listed_of_not,
}
use rtt_opcua.Base.Order.{text_less_irrefl, text_ord, sort, Ascending}
use rtt_opcua.Base.Order.Sets.{Ascending-tail, Ascending-below}
use rtt_opcua.ProviderOrder.{Graph, Counts, size_mod, dependents, relax}
use rtt_opcua.ProviderOrder.Relax.{
  occurrences, occurrences-In, In-occurrences, Fits, relax_counts, relax_ready_cases,
  relax_ready_keeps, relax_ready_finds, relax-Ascending,
}
use rtt_opcua.ProviderOrder.Edges.{
  occurrences-sort, names, dependents_absent, dependents_present, provider_cases, same_dependencies,
}

-- How many of the dependencies have not been taken.
unfoldable pub open_count : List Bytes → List Bytes → ℕ
open_count taken [] = 0
open_count taken (d ∷ ds) = (if listed d taken then 0 else 1) + open_count taken ds

pub open_count-taken :
    (taken : List Bytes) (name : Bytes) (ds : List Bytes)
    → listed name taken ≡ false
    → open_count (name ∷ taken) ds + occurrences name ds ≡ open_count taken ds
unfolding open_count occurrences listed
open_count-taken taken name [] h = omega arith
open_count-taken taken name (d ∷ ds) h =
    ground (arith, open_count-taken taken name ds h, text_eq_iff name d, text_eq_iff d name)

pub open_count-In :
    (taken : List Bytes) (ds : List Bytes) → open_count taken ds ≡ 0 → All (λ d. In d taken) ds
unfolding open_count
open_count-In taken [] h = tt
open_count-In taken (d ∷ ds) h = ground (arith, open_count-In taken ds, listed_iff d taken)

pub open_count-zero :
    (taken : List Bytes) (ds : List Bytes) → All (λ d. In d taken) ds → open_count taken ds ≡ 0
unfolding open_count
open_count-zero taken [] h = omega arith
open_count-zero taken (d ∷ ds) h = ground (arith, open_count-zero taken ds, listed_iff d taken)

-- The names of the providers differ, and no list of dependencies is too long for its count.
pub record IsGraph (g : Graph) : Type 0 where
  pub distinct : Distinct (names g)
  pub small : (x : Bytes) (ds : List Bytes) → In (x, ds) g → length ds < size_mod

open_count-le : (taken ds : List Bytes) → open_count taken ds ≤ length ds
unfolding open_count
open_count-le taken [] = omega arith
open_count-le taken (d ∷ ds) = ground (arith, open_count-le taken ds)

pub record Inv (g : Graph) (taken ready : List Bytes) (counts : Counts) : Type 0 where
  pub tracked : (x : Bytes) (ds : List Bytes) → In (x, ds) g → counts x ≡ open_count taken ds
  pub others : (x : Bytes) → (¬ In x (names g)) → counts x ≡ 0
  pub ready_new : (x : Bytes) → In x ready → ¬ In x taken
  pub ready_open :
      (x : Bytes) → In x ready → (ds : List Bytes) × In (x, ds) g × (open_count taken ds ≡ 0)
  pub ascending : Ascending ready
  pub closed : (x : Bytes) (ds : List Bytes) → In (x, ds) g → In x taken → open_count taken ds ≡ 0
  pub complete :
      (x : Bytes) (ds : List Bytes)
      → In (x, ds) g
      → open_count taken ds ≡ 0
      → In x taken ⊎ In x ready

-- The dependents of the name, as the inner loop goes through them.
abbrev pub next : Graph → Bytes → List Bytes
next g name = sort (dependents g name)

module _ (g : Graph) (ok : IsGraph g) (taken ready : List Bytes) (name : Bytes) (counts : Counts)
    (inv : Inv g taken (name ∷ ready) counts) where
  new_name : listed name taken ≡ false
  new_name = listed_of_not name taken (inv.ready_new name (inl refl))

  next_present :
      (y : Bytes) (ds : List Bytes)
      → In (y, ds) g
      → occurrences y (next g name) ≡ occurrences name ds
  next_present y ds h =
      occurrences-sort y (dependents g name) ∙ dependents_present g name y ds ok.distinct h

  next_absent : (y : Bytes) → (¬ In y (names g)) → occurrences y (next g name) ≡ 0
  next_absent y h = occurrences-sort y (dependents g name) ∙ dependents_absent g name y h

  next-Fits : Fits (next g name) counts
  next-Fits = record {
    enough = λ y. elim (provider_cases g y) [
      | inl (ds, h) ↦
          omega (
            arith,
            next_present y ds h,
            inv.tracked y ds h,
            open_count-taken taken name ds new_name,
          )
      | inr h ↦ omega (arith, next_absent y h)
    ];
    small = λ y. elim (provider_cases g y) [
      | inl (ds, h) ↦ omega (arith, inv.tracked y ds h, open_count-le taken ds, ok.small y ds h)
      | inr h ↦ omega (arith, inv.others y h)
    ];
  }

  counts_after :
      (x : Bytes) (ds : List Bytes)
      → In (x, ds) g
      → (relax (next g name) ready counts).1 x ≡ open_count (name ∷ taken) ds
  counts_after x ds h = omega (
    arith,
    relax_counts (next g name) ready counts x next-Fits,
    next_present x ds h,
    inv.tracked x ds h,
    open_count-taken taken name ds new_name,
  )

  -- A provider that has been taken has no dependency left.
  settled :
      (x : Bytes) (ds : List Bytes) → In (x, ds) g → In x (name ∷ taken) → open_count taken ds ≡ 0
  settled x ds h (inl e) =
      let (es, p, none_open) = inv.ready_open name (inl refl) in
      let same = same_dependencies g x ds es ok.distinct h (subst (λ t. In (t, es) g) (sym e) p) in
      ap (open_count taken) same ∙ none_open
  settled x ds h (inr t) = inv.closed x ds h t

  -- A provider that lists the name has not been taken, nor is it the name itself.
  waiting_new :
      (x : Bytes) (ds : List Bytes) → In (x, ds) g → 0 < occurrences name ds → ¬ In x (name ∷ taken)
  waiting_new x ds h k t = omega (arith, open_count-taken taken name ds new_name, settled x ds h t)

  still_new : (x : Bytes) → In x ready → ¬ In x (name ∷ taken)
  still_new x k (inl e) = cc (Ascending-below name ready inv.ascending x k, text_less_irrefl x)
  still_new x k (inr t) = inv.ready_new x (inr k) t

  ready_before :
      (x : Bytes)
      → In x ready
      → (¬ In x (name ∷ taken))
        × (ds : List Bytes) × In (x, ds) g
        × (open_count (name ∷ taken) ds ≡ 0)
  ready_before x k =
      let (ds, p, q) = inv.ready_open x (inr k) in
      (still_new x k, ds, p, omega (arith, open_count-taken taken name ds new_name, q))

  ready_now :
      (x : Bytes)
      → In x (next g name)
      → (relax (next g name) ready counts).1 x ≡ 0
      → (¬ In x (name ∷ taken))
        × (ds : List Bytes) × In (x, ds) g
        × (open_count (name ∷ taken) ds ≡ 0)
  ready_now x k zeroed = elim (provider_cases g x) [
    | inl (ds, h) ↦ (
      waiting_new x ds h (omega (arith, next_present x ds h, In-occurrences x (next g name) k)),
      ds,
      h,
      omega (arith, counts_after x ds h),
    )
    | inr h ↦ absurd (omega (arith, next_absent x h, In-occurrences x (next g name) k))
  ]

  ready_after :
      (x : Bytes)
      → In x (relax (next g name) ready counts).0
      → (¬ In x (name ∷ taken))
        × (ds : List Bytes) × In (x, ds) g
        × (open_count (name ∷ taken) ds ≡ 0)
  ready_after x h = elim (relax_ready_cases (next g name) ready counts x next-Fits h) [
    | inl k ↦ ready_before x k
    | inr (k, zeroed) ↦ ready_now x k zeroed
  ]

  complete_after :
      (x : Bytes) (ds : List Bytes)
      → In (x, ds) g
      → open_count (name ∷ taken) ds ≡ 0
      → In x (name ∷ taken) ⊎ In x (relax (next g name) ready counts).0
  complete_after x ds h e = elim (dec_lt 0 (occurrences name ds)) [
    | yes more ↦ inr (
        relax_ready_finds (next g name) ready counts x next-Fits
          (occurrences-In x (next g name) (omega (arith, next_present x ds h)))
          (omega (
            arith,
            next_present x ds h,
            inv.tracked x ds h,
            open_count-taken taken name ds new_name,
          )))
    | no fewer ↦
        elim (inv.complete x ds h (omega (arith, open_count-taken taken name ds new_name))) [
          | inl t ↦ inl (inr t)
          | inr (inl q) ↦ inl (inl q)
          | inr (inr k) ↦ inr (relax_ready_keeps (next g name) ready counts x k)
        ]
  ]

  -- Taking the first ready name keeps the invariant.
  pub advance :
      Inv g (name ∷ taken) (relax (next g name) ready counts).0 (relax (next g name) ready counts).1
  advance = record {
    tracked = counts_after;
    others = λ x h. omega (
      arith,
      relax_counts (next g name) ready counts x next-Fits,
      next_absent x h,
      inv.others x h,
    );
    ready_new = λ x h. (ready_after x h).0;
    ready_open = λ x h. let (_, ds, p, q) = ready_after x h in (ds, p, q);
    ascending =
        relax-Ascending (next g name) ready counts (Ascending-tail name ready inv.ascending);
    closed = λ x ds h t. omega (arith, open_count-taken taken name ds new_name, settled x ds h t);
    complete = complete_after;
  }
