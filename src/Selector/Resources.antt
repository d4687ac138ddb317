-- ===== src/Selector/Resources.antt =====
-- The resources that src/publication_selector.cpp offers to the selectors: those that parse.
use rtt_opcua.Selector.Issues.{issue_ord, match_publication_selectors}
use rtt_opcua.Base.{
  ◌≡◌, refl, subst, ◌↔◌, ◌⊎◌, inl, inr, true, false, none, some, List, [], ◌∷◌, arith, Option-cases,
  In, Bytes,
}
use rtt_opcua.Selector.{
  SelectorSegment, Reason, no_match, parsed, malformed, parse_selector, parse_resource, matches,
  kind_malformed, kind_unmatched, SelectorIssue, parse_resources,
}
use rtt_opcua.Selector.Publish.{Found, any_found, PicksAny, picked_paths}
use rtt_opcua.Selector.Report.{ComplaintAny, reported_issues}

-- The path of a resource that parses and whose segments the selector matches.
abbrev pub IsMatched : List SelectorSegment → List Bytes → Bytes → Type 0
IsMatched ss resource_paths path =
    (segments : List Bytes) × In path resource_paths
    × (parse_resource path ≡ some segments)
    × (matches ss segments ≡ true)

-- The selector matches no resource that parses.
abbrev pub IsUnmatched : List SelectorSegment → List Bytes → Type 0
IsUnmatched ss resource_paths =
    (path : Bytes) (segments : List Bytes)
    → In path resource_paths
    → parse_resource path ≡ some segments
    → matches ss segments ≡ false

parse_skipped :
    (p : Bytes) (paths : List Bytes)
    → parse_resource p ≡ none
    → parse_resources paths ≡ parse_resources (p ∷ paths)
unfolding parse_resources
parse_skipped p paths e = ground (arith, e)

parse_kept :
    (p : Bytes) (paths segments : List Bytes)
    → parse_resource p ≡ some segments
    → record { path = p; segments = segments } ∷ parse_resources paths ≡ parse_resources (p ∷ paths)
unfolding parse_resources
parse_kept p paths segments e = ground (arith, e)

Found-IsMatched :
    (ss : List SelectorSegment) (paths : List Bytes) (path : Bytes)
    → Found ss (parse_resources paths) path ↔ IsMatched ss paths path
unfolding parse_resources
Found-IsMatched ss [] path = (λ h. absurd h, λ h. absurd h.1)
Found-IsMatched ss (p ∷ paths) path =
    let rest = Found-IsMatched ss paths path in
    elim (Option-cases (parse_resource p)) [
      | inl e ↦
          subst (λ rs. Found ss rs path ↔ IsMatched ss (p ∷ paths) path) (parse_skipped p paths e)
            (
              λ h. let (segments, i, f, g) = rest.0 h in (segments, inr i, f, g),
              λ (segments, i, f, g). elim i [
                | inl same ↦ absurd (cc (e, f, same))
                | inr j ↦ rest.1 (segments, j, f, g)
              ],
            )
      | inr (found, e) ↦
          subst (λ rs. Found ss rs path ↔ IsMatched ss (p ∷ paths) path)
            (parse_kept p paths found e)
            (
              λ h. elim h [
                | inl (g, same) ↦ (found, inl same, cc (e, same), g)
                | inr k ↦ (let (segments, i, f, g) = rest.0 k in (segments, inr i, f, g))
              ],
              λ (segments, i, f, g). elim i [
                | inl same ↦ inl (cc (g, same_segments p path found segments e f same), same)
                | inr j ↦ inr (rest.1 (segments, j, f, g))
              ],
            )
    ]
  where
    same_segments :
        (p path : Bytes) (found segments : List Bytes)
        → parse_resource p ≡ some found
        → parse_resource path ≡ some segments
        → path ≡ p
        → segments ≡ found
    same_segments p path found segments e f same = cc

any_found-IsUnmatched :
    (ss : List SelectorSegment) (paths : List Bytes)
    → (any_found ss (parse_resources paths) ≡ false) ↔ IsUnmatched ss paths
unfolding parse_resources
any_found-IsUnmatched ss [] = (λ h path segments i e. absurd i, λ h. refl)
any_found-IsUnmatched ss (p ∷ paths) =
    let rest = any_found-IsUnmatched ss paths in
    elim (Option-cases (parse_resource p)) [
      | inl e ↦
          subst (λ rs. (any_found ss rs ≡ false) ↔ IsUnmatched ss (p ∷ paths))
            (parse_skipped p paths e)
            (
              λ h path segments i f. elim i [
                | inl same ↦ absurd (cc (e, f, same))
                | inr j ↦ rest.0 h path segments j f
              ],
              λ h. rest.1 (λ path segments i f. h path segments (inr i) f),
            )
      | inr (found, e) ↦
          subst (λ rs. (any_found ss rs ≡ false) ↔ IsUnmatched ss (p ∷ paths))
            (parse_kept p paths found e)
            (
              λ h path segments i f. elim i [
                | inl same ↦
                    let first : matches ss found ≡ false = ground (arith, h) in
                    let equal : some segments ≡ some found = cc (e, f, same) in cc (first, equal)
                | inr j ↦ rest.0 (ground (arith, h)) path segments j f
              ],
              λ h. ground (
                arith,
                h p found (inl refl) e,
                rest.1 (λ path segments i f. h path segments (inr i) f),
              ),
            )
    ]

-- A selector of the list that parses and matches the path.
abbrev pub IsSelected : List Bytes → List Bytes → Bytes → Type 0
IsSelected selectors resource_paths path =
    (s : Bytes) × (ss : List SelectorSegment) × In s selectors
    × (parse_selector s ≡ parsed ss)
    × IsMatched ss resource_paths path

pub PicksAny-IsSelected :
    (selectors paths : List Bytes) (path : Bytes)
    → PicksAny (parse_resources paths) selectors path ↔ IsSelected selectors paths path
PicksAny-IsSelected [] paths path = (λ h. absurd h, λ h. absurd h.2)
PicksAny-IsSelected (s ∷ selectors) paths path =
    let rest = PicksAny-IsSelected selectors paths path in
    (
      λ h. elim h [
        | inl (ss, e, found) ↦ (s, ss, inl refl, e, (Found-IsMatched ss paths path).0 found)
        | inr k ↦ (let (t, ss, i, e, m) = rest.0 k in (t, ss, inr i, e, m))
      ],
      λ (t, ss, i, e, m). elim i [
        | inl same ↦ inl (ss, (rw same at e), (Found-IsMatched ss paths path).1 m)
        | inr j ↦ inr (rest.1 (t, ss, j, e, m))
      ],
    )

-- The issue of a selector of the list: the parser's reason, or that it matches nothing.
abbrev pub IsComplaint : List Bytes → List Bytes → SelectorIssue → Type 0
IsComplaint selectors resource_paths issue =
    (s : Bytes) × In s selectors
    × (((r : Reason) × (parse_selector s ≡ malformed r)
          × (issue ≡ record { kind = kind_malformed; selector = s; reason = r }))
        ⊎ ((ss : List SelectorSegment) × (parse_selector s ≡ parsed ss)
            × IsUnmatched ss resource_paths
            × (issue ≡ record { kind = kind_unmatched; selector = s; reason = no_match })))

pub ComplaintAny-IsComplaint :
    (selectors paths : List Bytes) (issue : SelectorIssue)
    → ComplaintAny (parse_resources paths) selectors issue ↔ IsComplaint selectors paths issue
ComplaintAny-IsComplaint [] paths issue = (λ h. absurd h, λ h. absurd h.1)
ComplaintAny-IsComplaint (s ∷ selectors) paths issue =
    let rest = ComplaintAny-IsComplaint selectors paths issue in
    (
      λ h. elim h [
        | inl (inl m) ↦ (s, inl refl, inl m)
        | inl (inr (ss, e, f, g)) ↦
            (s, inl refl, inr (ss, e, (any_found-IsUnmatched ss paths).0 f, g))
        | inr k ↦ (let (t, i, m) = rest.0 k in (t, inr i, m))
      ],
      λ (t, i, m). elim i [
        | inr j ↦ inr (rest.1 (t, j, m))
        | inl same ↦ inl (elim m [
          | inl (r, e, g) ↦ inl (r, (rw same at e), (rw same at g))
          | inr (ss, e, u, g) ↦
              inr (ss, (rw same at e), (any_found-IsUnmatched ss paths).1 u, (rw same at g))
        ])
      ],
    )

-- A path is selected exactly when it is one of the given resource paths, it parses, and a selector of
-- the list parses and matches its segments.
pub match_publication_selectors_paths :
    (selectors resource_paths : List Bytes) (path : Bytes)
    → In path (match_publication_selectors selectors resource_paths).resource_paths
      ↔ IsSelected selectors resource_paths path
match_publication_selectors_paths selectors resource_paths path =
    let picked = picked_paths selectors resource_paths path in
    let same = PicksAny-IsSelected selectors resource_paths path in
    (λ h. same.0 (picked.0 h), λ h. picked.1 (same.1 h))

-- The reported issues are exactly those of the selectors that do not parse, with the parser's
-- reason, and of those that parse and match none of the given resource paths that parse.
pub match_publication_selectors_issues :
    (selectors resource_paths : List Bytes) (issue : SelectorIssue)
    → In issue (match_publication_selectors selectors resource_paths).issues
      ↔ IsComplaint selectors resource_paths issue
match_publication_selectors_issues selectors resource_paths issue =
    let reported = reported_issues selectors resource_paths issue in
    let same = ComplaintAny-IsComplaint selectors resource_paths issue in
    (λ h. same.0 (reported.0 h), λ h. reported.1 (same.1 h))
