-- ===== src/Selector/Report.antt =====
-- The issues that `matchPublicationSelectors` reports, and the order of its results.
use rtt_opcua.Base.{
  ◌≡◌, subst, ◌↔◌, ◌⊎◌, inl, inr, false, List, [], ◌∷◌, ◌++◌, if◌then◌else◌, Bool-cases, In,
  In-append_left, In-append_right, In-append_cases, Bytes,
}
use rtt_opcua.Base.Order.{text_ord, Ascending}
use rtt_opcua.Base.Order.Sets.{sort-In, sort-NonDescending, unique-In, unique-Ascending}
use rtt_opcua.Selector.{
  SelectorSegment, Reason, no_match, parsed, malformed, parse_selector, kind_malformed,
  kind_unmatched, SelectorIssue, ParsedResource, parse_resources, SelectorMatch, add_issue,
  match_selector, match_selectors,
}
use rtt_opcua.Selector.Issues.{issue_ord, match_publication_selectors}
use rtt_opcua.Selector.Publish.{
  any_found, collect_Ascending, Parsed-cases, match_malformed, match_parsed,
}

-- What is wrong with one selector: it does not parse, or it matches no resource.
abbrev pub Complaint : List ParsedResource → Bytes → SelectorIssue → Type 0
Complaint rs s issue =
    ((r : Reason) × (parse_selector s ≡ malformed r)
      × (issue ≡ record { kind = kind_malformed; selector = s; reason = r }))
    ⊎ ((ss : List SelectorSegment) × (parse_selector s ≡ parsed ss)
        × (any_found ss rs ≡ false)
        × (issue ≡ record { kind = kind_unmatched; selector = s; reason = no_match }))

abbrev pub ComplaintAny : List ParsedResource → List Bytes → SelectorIssue → Type 0
ComplaintAny rs [] issue = ⊥
ComplaintAny rs (s ∷ selectors) issue = Complaint rs s issue ⊎ ComplaintAny rs selectors issue

match_selector_issue :
    (rs : List ParsedResource) (s : Bytes) (m : SelectorMatch) (issue : SelectorIssue)
    → In issue (match_selector rs s m).issues
    → In issue m.issues ⊎ Complaint rs s issue
unfolding add_issue
match_selector_issue rs s m issue h = elim (Parsed-cases (parse_selector s)) [
  | inl (r, e) ↦
      elim (In-append_cases issue m.issues
        (record { kind = kind_malformed; selector = s; reason = r } ∷ [])
        (subst (λ x. In issue x.issues) (match_malformed rs s m r e) h)) [
          | inl k ↦ inl k
          | inr (inl k) ↦ inr (inl (r, e, k))
          | inr (inr k) ↦ absurd k
        ]
  | inr (ss, e) ↦ unmatched_issue ss e (subst (In issue) (match_parsed rs s m ss e).1 h)
]
  where
    unmatched_issue :
        (ss : List SelectorSegment)
        → parse_selector s ≡ parsed ss
        → In issue (
            if any_found ss rs
            then m.issues
            else m.issues
              ++ (record { kind = kind_unmatched; selector = s; reason = no_match } ∷ []))
        → In issue m.issues ⊎ Complaint rs s issue
    unmatched_issue ss e k = elim (Bool-cases (any_found ss rs)) [
      | inl f ↦ inl (rw f at k)
      | inr f ↦ elim (In-append_cases issue m.issues _ (rw f at k)) [
        | inl q ↦ inl q
        | inr (inl q) ↦ inr (inr (ss, e, f, q))
        | inr (inr q) ↦ absurd q
      ]
    ]

match_selector_issues_keep :
    (rs : List ParsedResource) (s : Bytes) (m : SelectorMatch) (issue : SelectorIssue)
    → In issue m.issues
    → In issue (match_selector rs s m).issues
unfolding add_issue
match_selector_issues_keep rs s m issue h = elim (Parsed-cases (parse_selector s)) [
  | inl (r, e) ↦ rw (match_malformed rs s m r e) (In-append_left issue m.issues _ h)
  | inr (ss, e) ↦ rw ((match_parsed rs s m ss e).1) (elim (Bool-cases (any_found ss rs)) [
    | inl f ↦ rw f h
    | inr f ↦ rw f (In-append_left issue m.issues _ h)
  ])
]

match_selector_reports :
    (rs : List ParsedResource) (s : Bytes) (m : SelectorMatch) (issue : SelectorIssue)
    → Complaint rs s issue
    → In issue (match_selector rs s m).issues
unfolding add_issue
match_selector_reports rs s m issue (inl (r, e, k)) =
    rw (match_malformed rs s m r e) (In-append_right issue m.issues _ (inl k))
match_selector_reports rs s m issue (inr (ss, e, f, k)) =
    rw ((match_parsed rs s m ss e).1) (rw f (In-append_right issue m.issues _ (inl k)))

match_selectors_issue :
    (rs : List ParsedResource) (selectors : List Bytes) (m : SelectorMatch) (issue : SelectorIssue)
    → In issue (match_selectors rs selectors m).issues
    → In issue m.issues ⊎ ComplaintAny rs selectors issue
unfolding match_selectors
match_selectors_issue rs [] m issue h = inl h
match_selectors_issue rs (s ∷ selectors) m issue h =
    elim (match_selectors_issue rs selectors (match_selector rs s m) issue h) [
      | inl k ↦ elim (match_selector_issue rs s m issue k) [ inl q ↦ inl q | inr q ↦ inr (inl q) ]
      | inr k ↦ inr (inr k)
    ]

match_selectors_issues_keep :
    (rs : List ParsedResource) (selectors : List Bytes) (m : SelectorMatch) (issue : SelectorIssue)
    → In issue m.issues
    → In issue (match_selectors rs selectors m).issues
unfolding match_selectors
match_selectors_issues_keep rs [] m issue h = h
match_selectors_issues_keep rs (s ∷ selectors) m issue h =
    match_selectors_issues_keep rs selectors (match_selector rs s m) issue
      (match_selector_issues_keep rs s m issue h)

match_selectors_reports :
    (rs : List ParsedResource) (selectors : List Bytes) (m : SelectorMatch) (issue : SelectorIssue)
    → ComplaintAny rs selectors issue
    → In issue (match_selectors rs selectors m).issues
unfolding match_selectors
match_selectors_reports rs [] m issue h = elim h [ ]
match_selectors_reports rs (s ∷ selectors) m issue (inl k) =
    match_selectors_issues_keep rs selectors (match_selector rs s m) issue
      (match_selector_reports rs s m issue k)
match_selectors_reports rs (s ∷ selectors) m issue (inr k) =
    match_selectors_reports rs selectors (match_selector rs s m) issue k

-- The reported issues are the complaints about the selectors.
pub reported_issues :
    (selectors resource_paths : List Bytes) (issue : SelectorIssue)
    → In issue (match_publication_selectors selectors resource_paths).issues
      ↔ ComplaintAny (parse_resources resource_paths) selectors issue
unfolding match_publication_selectors
reported_issues selectors resource_paths issue = (
  λ h.
      elim (match_selectors_issue (parse_resources resource_paths) selectors _ issue
        ((sort-In issue _).0 ((unique-In issue _).0 h))) [ inl k ↦ absurd k | inr k ↦ k ],
  λ h. (unique-In issue _).1 (
      (sort-In issue _).1
        (match_selectors_reports (parse_resources resource_paths) selectors _ issue h)),
)

match_selectors-Ascending :
    (rs : List ParsedResource) (selectors : List Bytes) (m : SelectorMatch)
    → Ascending m.resource_paths
    → Ascending (match_selectors rs selectors m).resource_paths
unfolding match_selectors
match_selectors-Ascending rs [] m h = h
match_selectors-Ascending rs (s ∷ selectors) m h =
    match_selectors-Ascending rs selectors (match_selector rs s m)
      (elim (Parsed-cases (parse_selector s)) [
        | inl (r, e) ↦ rw (match_malformed rs s m r e) (unfold add_issue in h)
        | inr (ss, e) ↦
            rw ((match_parsed rs s m ss e).0) (collect_Ascending ss rs m.resource_paths false h)
      ])

-- Both results are strictly ascending: no path and no issue is listed twice.
pub match_publication_selectors-Ascending :
    (selectors resource_paths : List Bytes)
    → Ascending (match_publication_selectors selectors resource_paths).resource_paths
      × Ascending (match_publication_selectors selectors resource_paths).issues
unfolding match_publication_selectors
match_publication_selectors-Ascending selectors resource_paths = (
  match_selectors-Ascending (parse_resources resource_paths) selectors _ tt,
  unique-Ascending _ (sort-NonDescending _),
)
