-- ===== src/Tests/Selectors.antt =====
-- Selectors, escaping and paths: inputs from tests/publication_selector_test.cpp and the README.
use rtt_opcua.Selector.Resources.{
  IsSelected, IsComplaint, match_publication_selectors_paths, match_publication_selectors_issues,
}
use rtt_opcua.Base.{
  ◌≡◌, refl, ◌≢◌, ◌↔◌, ◌⊎◌, true, none, some, List, [], ◌∷◌, map, arith, In, Bytes, codes, text_eq,
  has_byte,
}
use rtt_opcua.Base.Order.{text_less, text_ord, set_insert, sort, unique}
use rtt_opcua.NodeId.{escape_byte, escape_bytes, escape_node_id_segment, make_node_path}
use rtt_opcua.Selector.{
  decode_loop, decode_canonical_segment, split_path, SelectorSegment, literal, single_wildcard,
  recursive_wildcard, partial_wildcard, no_match, parse_segment, parse_segments, parse_selector,
  decode_segments, parse_resource, matches, kind_malformed, kind_unmatched, SelectorIssue,
  SelectorMatch, match_selector, issue_less,
}
use rtt_opcua.Selector.Decode.{decode_iff}
use rtt_opcua.Selector.Split.{split_path-make_node_path, escape_collision}
use rtt_opcua.Selector.Match.{Covers, matches_iff}
use rtt_opcua.Selector.Issues.{issue_ord, match_publication_selectors}

-- escapeNodeIdSegment("motion/raw*")
escape_test : escape_node_id_segment (codes "motion/raw*") ≡ codes "motion%2Fraw%2A"
unfolding escape_node_id_segment escape_bytes escape_byte
escape_test = refl

decode_test : decode_canonical_segment (codes "motion%2fraw") ≡ none
unfolding decode_canonical_segment decode_loop
decode_test = refl

abbrev inventory : List Bytes
inventory =
    codes "operations/add" ∷ codes "services/math" ∷ codes "services/math/operations/scale" ∷ []

abbrev selectors : List Bytes
selectors = codes "services/math/**" ∷ codes "ports/*" ∷ codes "mo*/x" ∷ []

abbrev selected : SelectorMatch
selected = match_publication_selectors selectors inventory

selected_paths_test :
    selected.resource_paths ≡ codes "services/math" ∷ codes "services/math/operations/scale" ∷ []
unfolding match_publication_selectors match_selector parse_selector parse_segments parse_segment
    split_path parse_resource decode_segments decode_canonical_segment decode_loop
    escape_node_id_segment escape_bytes escape_byte text_eq has_byte matches set_insert text_less
    sort unique issue_less
selected_paths_test = refl

selected_issues_test :
    selected.issues
    ≡ record { kind = kind_malformed; selector = codes "mo*/x"; reason = partial_wildcard }
      ∷ record { kind = kind_unmatched; selector = codes "ports/*"; reason = no_match }
      ∷ []
unfolding match_publication_selectors match_selector parse_selector parse_segments parse_segment
    split_path parse_resource decode_segments decode_canonical_segment decode_loop
    escape_node_id_segment escape_bytes escape_byte text_eq has_byte matches set_insert text_less
    sort unique issue_less
selected_issues_test = refl

abbrev math_pattern : List SelectorSegment
math_pattern = literal (codes "services") ∷ single_wildcard ∷ recursive_wildcard ∷ []

matches_iff_example :
    (matches math_pattern (codes "services" ∷ codes "math" ∷ []) ≡ true)
    ↔ Covers math_pattern (codes "services" ∷ codes "math" ∷ [])
matches_iff_example = matches_iff math_pattern (codes "services" ∷ codes "math" ∷ []) (λ e. cc)

match_publication_selectors_paths_example :
    In (codes "services/math") selected.resource_paths
    ↔ IsSelected selectors inventory (codes "services/math")
match_publication_selectors_paths_example =
    match_publication_selectors_paths selectors inventory (codes "services/math")

abbrev unmatched_ports : SelectorIssue
unmatched_ports = record { kind = kind_unmatched; selector = codes "ports/*"; reason = no_match }

match_publication_selectors_issues_example :
    In unmatched_ports selected.issues ↔ IsComplaint selectors inventory unmatched_ports
match_publication_selectors_issues_example =
    match_publication_selectors_issues selectors inventory unmatched_ports

decode_iff_example :
    (decode_canonical_segment (codes "a%2Fb") ≡ some (codes "a/b"))
    ↔ ((codes "a/b" ≢ []) × (codes "a%2Fb" ≡ escape_node_id_segment (codes "a/b")))
decode_iff_example = decode_iff (codes "a%2Fb") (codes "a/b") (omega arith)

abbrev component_path : List Bytes
component_path = codes "components" ∷ codes "a/b" ∷ []

split_path-make_node_path_example :
    split_path (make_node_path component_path)
    ≡ codes "rtt" ∷ map escape_node_id_segment component_path
split_path-make_node_path_example = split_path-make_node_path component_path (omega arith)

escape_collision_example : (escape_node_id_segment [] ≡ escape_node_id_segment (0 ∷ [])) ↔ (
    (◌≡◌ {A = Bytes} [] (0 ∷ []))
    ⊎ ((◌≡◌ {A = Bytes} [] []) × (◌≡◌ {A = Bytes} (0 ∷ []) (0 ∷ [])))
    ⊎ ((◌≡◌ {A = Bytes} [] (0 ∷ [])) × (◌≡◌ {A = Bytes} (0 ∷ []) [])))
escape_collision_example = escape_collision [] (0 ∷ []) tt (omega arith)
