-- ===== src/ProviderOrder/Start.antt =====
-- The invariant holds where the outer loop starts.
use rtt_opcua.Base.{
  ◌≡◌, refl, sym, ◌∙◌, ◌⊎◌, inl, inr, List, [], ◌∷◌, arith, ◌==◌, if◌then◌else◌, length, In, Bytes,
  text_eq_iff, Distinct, listed,
}
use rtt_opcua.Base.Order.{text_ord, set_insert, Ascending}
use rtt_opcua.Base.Order.Sets.{
  set_insert-In, set_insert_keeps, set_insert_cases, set_insert-Ascending,
}
use rtt_opcua.ProviderOrder.{Graph, Counts, indegree, initial_ready}
use rtt_opcua.ProviderOrder.Edges.{names, In-names, names-In}
use rtt_opcua.ProviderOrder.Invariant.{open_count, IsGraph, Inv}

indegree_of :
    (g : Graph) (x : Bytes) (ds : List Bytes)
    → Distinct (names g)
    → In (x, ds) g
    → indegree g x ≡ length ds
unfolding indegree
indegree_of [] x ds d h = elim h [ ]
indegree_of ((n, es) ∷ g) x ds d (inl p) = ground (arith, text_eq_iff n x)
indegree_of ((n, es) ∷ g) x ds d (inr h) =
    ground (arith, text_eq_iff n x, d.0, In-names g x ds h, indegree_of g x ds d.1 h)

indegree_absent : (g : Graph) (x : Bytes) → (¬ In x (names g)) → indegree g x ≡ 0
unfolding indegree
indegree_absent [] x h = refl
indegree_absent ((n, es) ∷ g) x h =
    ground (arith, text_eq_iff n x, h, indegree_absent g x (λ k. h (inr k)))

open_count-nil : (ds : List Bytes) → open_count [] ds ≡ length ds
unfolding open_count listed
open_count-nil [] = refl
open_count-nil (d ∷ ds) = omega (arith, open_count-nil ds)

initial_ready_cases :
    (g : Graph) (counts : Counts) (ready : List Bytes) (x : Bytes)
    → In x (initial_ready g counts ready)
    → In x ready ⊎ (In x (names g) × (counts x ≡ 0))
unfolding initial_ready
initial_ready_cases [] counts ready x h = inl h
initial_ready_cases ((n, ds) ∷ g) counts ready x h = ground (
  arith,
  initial_ready_cases g counts (if counts n == 0 then set_insert n ready else ready) x h,
  set_insert_cases n x ready,
)

initial_ready_keeps :
    (g : Graph) (counts : Counts) (ready : List Bytes) (x : Bytes)
    → In x ready
    → In x (initial_ready g counts ready)
unfolding initial_ready
initial_ready_keeps [] counts ready x h = h
initial_ready_keeps ((n, ds) ∷ g) counts ready x h = ground (
  arith,
  initial_ready_keeps g counts (if counts n == 0 then set_insert n ready else ready) x,
  set_insert_keeps n x ready,
)

initial_ready_finds :
    (g : Graph) (counts : Counts) (ready : List Bytes) (x : Bytes)
    → In x (names g)
    → counts x ≡ 0
    → In x (initial_ready g counts ready)
unfolding initial_ready
initial_ready_finds [] counts ready x h e = elim h [ ]
initial_ready_finds ((n, ds) ∷ g) counts ready x h e = ground (
  arith,
  initial_ready_finds g counts (if counts n == 0 then set_insert n ready else ready) x,
  initial_ready_keeps g counts (set_insert n ready) x,
  set_insert-In n ready,
)

initial_ready-Ascending :
    (g : Graph) (counts : Counts) (ready : List Bytes)
    → Ascending ready
    → Ascending (initial_ready g counts ready)
unfolding initial_ready
initial_ready-Ascending [] counts ready h = h
initial_ready-Ascending ((n, ds) ∷ g) counts ready h = ground (
  arith,
  initial_ready-Ascending g counts (if counts n == 0 then set_insert n ready else ready),
  set_insert-Ascending n ready h,
)

pub initial_Inv : (g : Graph) → IsGraph g → Inv g [] (initial_ready g (indegree g) []) (indegree g)
initial_Inv g ok = record {
  tracked = λ x ds h. indegree_of g x ds ok.distinct h ∙ sym (open_count-nil ds);
  others = λ x h. indegree_absent g x h;
  ready_new = λ x h k. k;
  ready_open = λ x h. start_open x (initial_ready_cases g (indegree g) [] x h);
  ascending = initial_ready-Ascending g (indegree g) [] tt;
  closed = λ x ds h k. elim k [ ];
  complete = λ x ds h e. inr (
      initial_ready_finds g (indegree g) [] x (In-names g x ds h)
        (indegree_of g x ds ok.distinct h ∙ sym (open_count-nil ds) ∙ e));
}
  where
    start_open :
        (x : Bytes)
        → ⊥ ⊎ (In x (names g) × (indegree g x ≡ 0))
        → (ds : List Bytes) × In (x, ds) g × (open_count [] ds ≡ 0)
    start_open x (inl k) = elim k [ ]
    start_open x (inr (k, e)) =
        let (ds, h) = names-In g x k in
        (ds, h, open_count-nil ds ∙ sym (indegree_of g x ds ok.distinct h) ∙ e)
