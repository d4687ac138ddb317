-- ===== src/Selector/Publish.antt =====
-- What `matchPublicationSelectors` selects, and what it reports.
use rtt_opcua.Base.{
  ◌≡◌, refl, subst, ◌↔◌, ◌⊎◌, inl, inr, Bool, true, false, ◌||◌, List, [], ◌∷◌, ◌++◌, arith,
  if◌then◌else◌, In, Bytes,
}
use rtt_opcua.Base.Order.{text_ord, set_insert, Ascending}
use rtt_opcua.Base.Order.Sets.{
  set_insert-In, set_insert_keeps, set_insert_cases, set_insert-Ascending,
}
use rtt_opcua.Selector.Issues.{issue_ord, match_publication_selectors}
use rtt_opcua.Selector.{
  SelectorSegment, Reason, no_match, Parsed, parsed, malformed, parse_selector, matches,
  kind_malformed, kind_unmatched, ParsedResource, parse_resources, collect_matches, SelectorMatch,
  add_issue, match_selector, match_selectors,
}

-- One of the resources has the path and is matched by the segments.
abbrev pub Found : List SelectorSegment → List ParsedResource → Bytes → Type 0
Found segments [] path = ⊥
Found segments (r ∷ rest) path =
    ((matches segments r.segments ≡ true) × (path ≡ r.path)) ⊎ Found segments rest path

collect_cases :
    (segments : List SelectorSegment) (rs : List ParsedResource) (paths : List Bytes) (b : Bool)
    (path : Bytes)
    → In path (collect_matches segments rs (paths, b)).0
    → In path paths ⊎ Found segments rs path
unfolding collect_matches
collect_cases segments [] paths b path h = inl h
collect_cases segments (r ∷ rs) paths b path h = ground (
  arith,
  collect_cases segments rs (set_insert r.path paths) true path,
  collect_cases segments rs paths b path,
  set_insert_cases r.path path paths,
)

collect_keeps :
    (segments : List SelectorSegment) (rs : List ParsedResource) (paths : List Bytes) (b : Bool)
    (path : Bytes)
    → In path paths
    → In path (collect_matches segments rs (paths, b)).0
unfolding collect_matches
collect_keeps segments [] paths b path h = h
collect_keeps segments (r ∷ rs) paths b path h = ground (
  arith,
  collect_keeps segments rs (set_insert r.path paths) true path,
  collect_keeps segments rs paths b path,
  set_insert_keeps r.path path paths,
)

collect_finds :
    (segments : List SelectorSegment) (rs : List ParsedResource) (paths : List Bytes) (b : Bool)
    (path : Bytes)
    → Found segments rs path
    → In path (collect_matches segments rs (paths, b)).0
unfolding collect_matches
collect_finds segments [] paths b path h = elim h [ ]
collect_finds segments (r ∷ rs) paths b path h = ground (
  arith,
  collect_finds segments rs (set_insert r.path paths) true path,
  collect_finds segments rs paths b path,
  collect_keeps segments rs (set_insert r.path paths) true path,
  set_insert-In r.path paths,
)

-- Whether some resource is matched.
abbrev pub any_found : List SelectorSegment → List ParsedResource → Bool
any_found segments [] = false
any_found segments (r ∷ rest) = matches segments r.segments || any_found segments rest

collect_matched :
    (segments : List SelectorSegment) (rs : List ParsedResource) (paths : List Bytes) (b : Bool)
    → (collect_matches segments rs (paths, b)).1 ≡ (b || any_found segments rs)
unfolding collect_matches
collect_matched segments [] paths b = ground arith
collect_matched segments (r ∷ rs) paths b = ground (
  arith,
  collect_matched segments rs (set_insert r.path paths) true,
  collect_matched segments rs paths b,
)

pub collect_Ascending :
    (segments : List SelectorSegment) (rs : List ParsedResource) (paths : List Bytes) (b : Bool)
    → Ascending paths
    → Ascending (collect_matches segments rs (paths, b)).0
unfolding collect_matches
collect_Ascending segments [] paths b h = h
collect_Ascending segments (r ∷ rs) paths b h = ground (
  arith,
  collect_Ascending segments rs (set_insert r.path paths) true,
  collect_Ascending segments rs paths b,
  set_insert-Ascending r.path paths,
)

-- The selector is well formed and matches a resource of that path.
abbrev pub Picks : List ParsedResource → Bytes → Bytes → Type 0
Picks rs selector path =
    (segments : List SelectorSegment) × (parse_selector selector ≡ parsed segments)
    × Found segments rs path

-- Some selector of the list picks the path.
abbrev pub PicksAny : List ParsedResource → List Bytes → Bytes → Type 0
PicksAny rs [] path = ⊥
PicksAny rs (s ∷ selectors) path = Picks rs s path ⊎ PicksAny rs selectors path

pub Parsed-cases :
    (p : Parsed)
    → ((r : Reason) × (p ≡ malformed r)) ⊎ ((ss : List SelectorSegment) × (p ≡ parsed ss))
Parsed-cases (malformed r) = inl (r, refl)
Parsed-cases (parsed ss) = inr (ss, refl)

pub match_malformed :
    (rs : List ParsedResource) (s : Bytes) (m : SelectorMatch) (r : Reason)
    → parse_selector s ≡ malformed r
    → match_selector rs s m ≡ add_issue kind_malformed s r m
unfolding match_selector add_issue
match_malformed rs s m r e = rw (e, match_selector)

pub match_parsed :
    (rs : List ParsedResource) (s : Bytes) (m : SelectorMatch) (ss : List SelectorSegment)
    → parse_selector s ≡ parsed ss
    → ((match_selector rs s m).resource_paths ≡ (collect_matches ss rs (m.resource_paths, false)).0)
      × ((match_selector rs s m).issues ≡ (
          if any_found ss rs
          then m.issues
          else m.issues
            ++ (record { kind = kind_unmatched; selector = s; reason = no_match } ∷ [])))
unfolding match_selector add_issue
match_parsed rs s m ss e = ground (arith, collect_matched ss rs m.resource_paths false)

match_selector_cases :
    (rs : List ParsedResource) (s : Bytes) (m : SelectorMatch) (path : Bytes)
    → In path (match_selector rs s m).resource_paths
    → In path m.resource_paths ⊎ Picks rs s path
unfolding add_issue
match_selector_cases rs s m path h = elim (Parsed-cases (parse_selector s)) [
  | inl (r, e) ↦ inl (subst (λ x. In path x.resource_paths) (match_malformed rs s m r e) h)
  | inr (ss, e) ↦
      elim (collect_cases ss rs m.resource_paths false path
        (subst (In path) (match_parsed rs s m ss e).0 h)) [ inl k ↦ inl k | inr k ↦ inr (ss, e, k) ]
]

match_selector_keeps :
    (rs : List ParsedResource) (s : Bytes) (m : SelectorMatch) (path : Bytes)
    → In path m.resource_paths
    → In path (match_selector rs s m).resource_paths
match_selector_keeps rs s m path h = elim (Parsed-cases (parse_selector s)) [
  | inl (r, e) ↦ rw (match_malformed rs s m r e) (unfold add_issue in h)
  | inr (ss, e) ↦
      rw ((match_parsed rs s m ss e).0) (collect_keeps ss rs m.resource_paths false path h)
]

match_selector_finds :
    (rs : List ParsedResource) (s : Bytes) (m : SelectorMatch) (path : Bytes)
    → Picks rs s path
    → In path (match_selector rs s m).resource_paths
match_selector_finds rs s m path (ss, e, k) =
    rw ((match_parsed rs s m ss e).0) (collect_finds ss rs m.resource_paths false path k)

match_selectors_cases :
    (rs : List ParsedResource) (selectors : List Bytes) (m : SelectorMatch) (path : Bytes)
    → In path (match_selectors rs selectors m).resource_paths
    → In path m.resource_paths ⊎ PicksAny rs selectors path
unfolding match_selectors
match_selectors_cases rs [] m path h = inl h
match_selectors_cases rs (s ∷ selectors) m path h =
    elim (match_selectors_cases rs selectors (match_selector rs s m) path h) [
      | inl k ↦ elim (match_selector_cases rs s m path k) [ inl q ↦ inl q | inr q ↦ inr (inl q) ]
      | inr k ↦ inr (inr k)
    ]

match_selectors_keeps :
    (rs : List ParsedResource) (selectors : List Bytes) (m : SelectorMatch) (path : Bytes)
    → In path m.resource_paths
    → In path (match_selectors rs selectors m).resource_paths
unfolding match_selectors
match_selectors_keeps rs [] m path h = h
match_selectors_keeps rs (s ∷ selectors) m path h =
    match_selectors_keeps rs selectors (match_selector rs s m) path
      (match_selector_keeps rs s m path h)

match_selectors_finds :
    (rs : List ParsedResource) (selectors : List Bytes) (m : SelectorMatch) (path : Bytes)
    → PicksAny rs selectors path
    → In path (match_selectors rs selectors m).resource_paths
unfolding match_selectors
match_selectors_finds rs [] m path h = elim h [ ]
match_selectors_finds rs (s ∷ selectors) m path (inl k) =
    match_selectors_keeps rs selectors (match_selector rs s m) path
      (match_selector_finds rs s m path k)
match_selectors_finds rs (s ∷ selectors) m path (inr k) =
    match_selectors_finds rs selectors (match_selector rs s m) path k

-- A path is selected exactly when a selector of the list picks it.
pub picked_paths :
    (selectors resource_paths : List Bytes) (path : Bytes)
    → In path (match_publication_selectors selectors resource_paths).resource_paths
      ↔ PicksAny (parse_resources resource_paths) selectors path
unfolding match_publication_selectors
picked_paths selectors resource_paths path = (
  λ h. elim (match_selectors_cases (parse_resources resource_paths) selectors _ path h) [
    | inl k ↦ elim k [ ]
    | inr k ↦ k
  ],
  match_selectors_finds (parse_resources resource_paths) selectors _ path,
)
