-- ===== src/Discovery/Complete.antt =====
-- What a discovery of operations in src/client_session.cpp gives.
use rtt_opcua.Base.Order.{text_ord, Ascending}
use rtt_opcua.Base.{
  ◌≡◌, refl, subst, ◌↔◌, inl, inr, true, false, not, ◌||◌, List, [], ◌∷◌, map, arith, Bool-cases,
  is_empty, In, Bytes, ok, ◌>>=◌, bind_parts,
}
use rtt_opcua.RemoteOperation.{RemoteOperationDescription}
use rtt_opcua.Session.{Status}
use rtt_opcua.Discovery.{
  MethodNode, sort_by_name, adjacent_names, operation_name, read_operation, read_operations,
  discover_operations,
}
use rtt_opcua.Discovery.Sorted.{sort_by_name-In, sort_by_name-Ascending}

module _ (status_name : Status → Bytes) where
  -- The description is read of one of the nodes, a local one with a name.
  abbrev pub IsReadOf : List MethodNode → RemoteOperationDescription → Type 0
  IsReadOf nodes d =
      (n : MethodNode) × In n nodes
      × (n.is_local ≡ true)
      × (is_empty n.name ≡ false)
      × (read_operation status_name n ≡ ok d)

  read_operations-In :
      (nodes : List MethodNode) (os : List RemoteOperationDescription)
      → read_operations status_name nodes ≡ ok os
      → (d : RemoteOperationDescription) → In d os ↔ IsReadOf nodes d
  unfolding read_operations
  read_operations-In [] os h d = let e : os ≡ [] = cc in (λ k. absurd (rw e at k), λ p. absurd p.1)
  read_operations-In (n ∷ ns) os h d = elim (Bool-cases (not n.is_local || is_empty n.name)) [
    | inl skipped ↦
        let rest = read_operations-In ns os (ground (arith, skipped, h)) d in
        (
          λ k. let p = rest.0 k in (p.0, inr p.1, p.2, p.3, p.4),
          λ (m, i, l, e, r). elim i [
            | inl same ↦ absurd (ground (arith, skipped, (rw same at l), (rw same at e)))
            | inr j ↦ rest.1 (m, j, l, e, r)
          ],
        )
    | inr kept ↦
        let both : (read_operation status_name n >>= λ o.
        read_operations status_name ns >>= λ os'. ok (o ∷ os'))
            ≡ ok os =
          ground (arith, kept, h) in
        let (o, e, more) = bind_parts (read_operation status_name n) _ os both in
        let (os', f, last) = bind_parts (read_operations status_name ns) _ os more in
        let same : o ∷ os' ≡ os = ground (arith, last) in
        let rest = read_operations-In ns os' f d in
        subst (λ xs. In d xs ↔ IsReadOf (n ∷ ns) d) same
          (
            λ k. elim k [
              | inl q ↦ (n, inl refl, ground (arith, kept), ground (arith, kept), rw q e)
              | inr j ↦ (let p = rest.0 j in (p.0, inr p.1, p.2, p.3, p.4))
            ],
            λ (m, i, l, w, r). elim i [
              | inl q ↦ inl (ground (arith, (rw q at r), e))
              | inr j ↦ inr (rest.1 (m, j, l, w, r))
            ],
          )
  ]

  -- A discovery that succeeds gives exactly the descriptions that are read of the local methods with
  -- a name, in the order of their names, of which no two are the same.
  pub discover_operations_ok :
      (nodes : List MethodNode) (os : List RemoteOperationDescription)
      → discover_operations status_name nodes ≡ ok os
      → Ascending (map operation_name os)
        × ((d : RemoteOperationDescription) → In d os ↔ IsReadOf nodes d)
  unfolding discover_operations
  discover_operations_ok nodes os h =
      let (all, e, rest) = bind_parts (read_operations status_name nodes) _ os h in
      let distinct : adjacent_names operation_name (sort_by_name operation_name all) ≡ false =
        ground (arith, rest) in
      let same : sort_by_name operation_name all ≡ os = ground (arith, rest, distinct) in
      subst
        (λ xs.
          Ascending (map operation_name xs)
          × ((d : RemoteOperationDescription) → In d xs ↔ IsReadOf nodes d))
        same
        (
          sort_by_name-Ascending operation_name all distinct,
          λ d.
              let a = sort_by_name-In operation_name d all in
              let b = read_operations-In nodes all e d in (λ k. b.0 (a.0 k), λ k. a.1 (b.1 k)),
        )
