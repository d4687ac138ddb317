-- ===== src/ProviderOrder/Order.antt =====
-- The outer loop yields an order that respects the dependencies, and misses no provider that
-- any such order could take.
use rtt_opcua.Base.{
  ℕ, zero, suc, ◌+◌, ◌≤◌, refl, sym, subst, ◌⊎◌, inl, inr, List, [], ◌∷◌, arith, length, All, In,
  All-In, All-of_In, Bytes, Distinct, Within, Within-full,
}
use rtt_opcua.Base.Order.{text_ord}
use rtt_opcua.ProviderOrder.{Graph, Counts, relax, drain_ready}
use rtt_opcua.ProviderOrder.Edges.{names, In-names}
use rtt_opcua.ProviderOrder.Invariant.{open_count-In, open_count-zero, IsGraph, Inv, next, advance}

-- Behind the names already taken, each name of the order is new, is a provider, and has all its
-- dependencies before it.
abbrev pub Respects : Graph → List Bytes → List Bytes → Type 0
Respects g taken [] = Unit
Respects g taken (x ∷ rest) =
    ((¬ In x taken) × (ds : List Bytes) × In (x, ds) g × All (λ d. In d taken) ds)
    × Respects g (x ∷ taken) rest

pub drain_Respects :
    (fuel : ℕ) (g : Graph) (taken ready : List Bytes) (counts : Counts)
    → IsGraph g
    → Inv g taken ready counts
    → Respects g taken (drain_ready fuel g ready counts).0
unfolding drain_ready
drain_Respects zero g taken ready counts ok inv = tt
drain_Respects (suc fuel) g taken [] counts ok inv = tt
drain_Respects (suc fuel) g taken (name ∷ ready) counts ok inv =
    let (ds, p, none_open) = inv.ready_open name (inl refl) in
    (
      (inv.ready_new name (inl refl), ds, p, open_count-In taken ds none_open),
      drain_Respects fuel g (name ∷ taken) (relax (next g name) ready counts).0
          (relax (next g name) ready counts).1 ok (advance g ok taken ready name counts inv),
    )

-- The names taken in the end, the last one first.
abbrev pub finish : List Bytes → List Bytes → List Bytes
finish taken [] = taken
finish taken (x ∷ rest) = finish (x ∷ taken) rest

pub finish_cases :
    (y : Bytes) (taken order : List Bytes) → In y (finish taken order) → In y taken ⊎ In y order
finish_cases y taken [] h = inl h
finish_cases y taken (x ∷ rest) h = elim (finish_cases y (x ∷ taken) rest h) [
  | inl (inl e) ↦ inr (inl e)
  | inl (inr k) ↦ inl k
  | inr k ↦ inr (inr k)
]

-- With a round of fuel for every provider not taken, the loop ends with an empty ready set: each
-- provider whose dependencies have all been taken has been taken.
pub drain_settles :
    (fuel : ℕ) (g : Graph) (taken ready : List Bytes) (counts : Counts)
    → IsGraph g
    → Inv g taken ready counts
    → Distinct taken
    → Within taken (names g)
    → length (names g) ≤ fuel + length taken
    → (x : Bytes) (ds : List Bytes) → In (x, ds) g
    → All (λ d. In d (finish taken (drain_ready fuel g ready counts).0)) ds
    → In x (finish taken (drain_ready fuel g ready counts).0)
unfolding drain_ready
drain_settles zero g taken ready counts ok inv dis w enough x ds h all =
    Within-full taken (names g) dis w (omega arith) x (In-names g x ds h)
drain_settles (suc fuel) g taken [] counts ok inv dis w enough x ds h all =
    elim (inv.complete x ds h (open_count-zero taken ds all)) [ inl t ↦ t | inr k ↦ elim k [ ] ]
drain_settles (suc fuel) g taken (name ∷ ready) counts ok inv dis w enough x ds h all =
    drain_settles fuel g (name ∷ taken) (relax (next g name) ready counts).0
      (relax (next g name) ready counts).1 ok (advance g ok taken ready name counts inv)
      (inv.ready_new name (inl refl), dis) extended (omega arith) x ds h all
  where
    extended : Within (name ∷ taken) (names g)
    extended a (inl e) =
        let (es, p, q) = inv.ready_open name (inl refl) in
        subst (λ t. In t (names g)) (sym e) (In-names g name es p)
    extended a (inr t) = w a t

Respects-new :
    (g : Graph) (taken order : List Bytes)
    → Respects g taken order
    → (y : Bytes) → In y order
    → ¬ In y taken
Respects-new g taken [] r y h t = elim h [ ]
Respects-new g taken (x ∷ rest) r y (inl e) t = r.0.0 (subst (λ u. In u taken) e t)
Respects-new g taken (x ∷ rest) r y (inr h) t = Respects-new g (x ∷ taken) rest r.1 y h (inr t)

pub Respects-Distinct :
    (g : Graph) (taken order : List Bytes) → Respects g taken order → Distinct order
Respects-Distinct g taken [] r = tt
Respects-Distinct g taken (x ∷ rest) r = (
  (λ h. Respects-new g (x ∷ taken) rest r.1 x h (inl refl)),
  Respects-Distinct g (x ∷ taken) rest r.1,
)

pub Respects-Within :
    (g : Graph) (taken order : List Bytes) → Respects g taken order → Within order (names g)
Respects-Within g taken [] r a h = elim h [ ]
Respects-Within g taken (x ∷ rest) r a (inl e) =
    let (_, ds, p, q) = r.0 in subst (λ t. In t (names g)) (sym e) (In-names g x ds p)
Respects-Within g taken (x ∷ rest) r a (inr h) = Respects-Within g (x ∷ taken) rest r.1 a h

-- What is settled by the loop holds every name of an order that respects the dependencies.
pub settled_order :
    (g : Graph) (final taken order : List Bytes)
    → ((x : Bytes) (ds : List Bytes) → In (x, ds) g → All (λ d. In d final) ds → In x final)
    → Within taken final
    → Respects g taken order
    → Within order final
settled_order g final taken [] settle w r a h = elim h [ ]
settled_order g final taken (x ∷ rest) settle w r a h = elim h [
  | inl e ↦ subst (λ t. In t final) (sym e) here
  | inr k ↦ settled_order g final (x ∷ taken) rest settle more r.1 a k
]
  where
    here : In x final
    here =
        let (_, ds, p, all) = r.0 in
        settle x ds p
          (All-of_In (λ d. In d final) ds (λ d k. w d (All-In (λ d. In d taken) d ds all k)))

    more : Within (x ∷ taken) final
    more b (inl e) = subst (λ t. In t final) (sym e) here
    more b (inr k) = w b k
