-- ===== src/Selector.antt =====
-- src/publication_selector.cpp: selector parsing and matching.
pub mod Decode
pub mod Split
pub mod Match
pub mod Issues
pub mod Publish
pub mod Report
pub mod Resources
use rtt_opcua.Base.{
  ℕ, zero, suc, ◌+◌, ◌-◌, ◌*◌, bit_or, Bytes, codes, text_eq, has_byte, List, [], ◌∷◌, ◌++◌, Bool,
  true, false, not, ◌||◌, ◌⊎◌, inl, inr, ◌&&◌, leb, ltb, ◌==◌, if◌then◌else◌, Option, none, some,
  length, is_empty,
}
use rtt_opcua.Base.Order.{set_insert, text_less, text_ord}
use rtt_opcua.NodeId.{escape_node_id_segment}

unfoldable pub is_upper_hex_digit : ℕ → Bool
is_upper_hex_digit c = (leb b'0' c && leb c b'9') || (leb b'A' c && leb c b'F')

-- The conversions to `unsigned char` change nothing at a digit, the only input of the function.
unfoldable pub hex_value : ℕ → ℕ
hex_value c = if leb b'0' c && leb c b'9' then c - b'0' else c - b'A' + 10

unfoldable pub hex_pair : ℕ → ℕ → ℕ
unfolding hex_value
hex_pair high low = bit_or (hex_value high * 16) (hex_value low)

abbrev push : ℕ → Option Bytes → Option Bytes
push c none = none
push c (some s) = some (c ∷ s)

-- The loop of `decodeCanonicalSegment`: a percent sign takes the two characters behind it.
unfoldable pub decode_loop : Bytes → Option Bytes
unfolding is_upper_hex_digit hex_pair
decode_loop [] = some []
decode_loop (c ∷ []) = if c == b'%' then none else some (c ∷ [])
decode_loop (c ∷ d ∷ []) =
    let rest = push c (decode_loop (d ∷ [])) in if c == b'%' then none else rest
decode_loop (c ∷ d ∷ e ∷ s) =
    let plain = push c (decode_loop (d ∷ e ∷ s)) in
    let escaped = push (hex_pair d e) (decode_loop s) in
    if c == b'%'
    then if is_upper_hex_digit d && is_upper_hex_digit e then escaped else none
    else plain

-- `decodeCanonicalSegment`
unfoldable pub decode_canonical_segment : Bytes → Option Bytes
decode_canonical_segment segment = elim (decode_loop segment) [
  | none ↦ none
  | some decoded ↦ if text_eq (escape_node_id_segment decoded) segment then some decoded else none
]

abbrev push_head : ℕ → List Bytes → List Bytes
push_head c [] = (c ∷ []) ∷ []
push_head c (s ∷ rest) = (c ∷ s) ∷ rest

-- `splitPath`: the pieces between the slashes, one more than there are slashes.
unfoldable pub split_path : Bytes → List Bytes
split_path [] = [] ∷ []
split_path (c ∷ s) = let rest = split_path s in if c == b'/' then [] ∷ rest else push_head c rest

pub data SelectorSegment : Type 0 where
  literal : Bytes → SelectorSegment
  single_wildcard recursive_wildcard : SelectorSegment

-- The texts that `parseSelector` and `matchPublicationSelectors` give as a reason.
pub data Reason : Type 0 where
  selector_empty empty_segment recursive_not_terminal partial_wildcard not_canonical : Reason
  no_match : Reason

unfoldable pub reason_text : Reason → Bytes
reason_text selector_empty = codes "selector is empty"
reason_text empty_segment = codes "selector contains an empty segment"
reason_text recursive_not_terminal = codes "recursive wildcard must be terminal"
reason_text partial_wildcard = codes "wildcard must occupy an entire segment"
reason_text not_canonical = codes "literal segment is not canonically escaped"
reason_text no_match = codes "selector did not match a logical resource"

pub data Parsed : Type 0 where
  parsed : List SelectorSegment → Parsed
  malformed : Reason → Parsed

abbrev pub add_segment : SelectorSegment → Parsed → Parsed
add_segment s (parsed ss) = parsed (s ∷ ss)
add_segment s (malformed r) = malformed r

-- The loop body on one segment; `last` says that no segment follows.
unfoldable pub parse_segment : Bytes → Bool → Reason ⊎ SelectorSegment
parse_segment segment last =
    if is_empty segment
    then inl empty_segment
    else if text_eq segment (codes "**")
    then (if last then inr recursive_wildcard else inl recursive_not_terminal)
    else if text_eq segment (codes "*")
    then inr single_wildcard
    else if has_byte b'*' segment
    then inl partial_wildcard
    else elim (decode_canonical_segment segment) [
      | none ↦ inl not_canonical
      | some decoded ↦ inr (literal decoded)
    ]

unfoldable pub parse_segments : List Bytes → Parsed
parse_segments [] = parsed []
parse_segments (segment ∷ rest) = elim (parse_segment segment (is_empty rest)) [
  | inl reason ↦ malformed reason
  | inr s ↦ add_segment s (parse_segments rest)
]

-- `parseSelector`
unfoldable pub parse_selector : Bytes → Parsed
parse_selector selector =
    if is_empty selector then malformed selector_empty else parse_segments (split_path selector)

abbrev add_decoded : Bytes → Option (List Bytes) → Option (List Bytes)
add_decoded s none = none
add_decoded s (some ss) = some (s ∷ ss)

unfoldable pub decode_segments : List Bytes → Option (List Bytes)
decode_segments [] = some []
decode_segments (segment ∷ rest) =
    let more = decode_segments rest in
    if is_empty segment then none else elim (decode_canonical_segment segment) [
      | none ↦ none
      | some decoded ↦ add_decoded decoded more
    ]

-- `parseResource`: the decoded segments of a resource path.
unfoldable pub parse_resource : Bytes → Option (List Bytes)
parse_resource path = if is_empty path then none else decode_segments (split_path path)

-- `selector.segments.back().kind == recursive_wildcard`
unfoldable pub ends_recursive : List SelectorSegment → Bool
ends_recursive [] = false
ends_recursive (recursive_wildcard ∷ []) = true
ends_recursive (s ∷ []) = false
ends_recursive (s ∷ t ∷ rest) = ends_recursive (t ∷ rest)

unfoldable pub segment_matches : SelectorSegment → Bytes → Bool
segment_matches single_wildcard name = true
segment_matches recursive_wildcard name = false
segment_matches (literal s) name = text_eq s name

-- The loop over the first `fixed` segments.
unfoldable pub prefix_matches : ℕ → List SelectorSegment → List Bytes → Bool
unfolding segment_matches
prefix_matches zero segments resource = true
prefix_matches (suc fixed) (s ∷ segments) (name ∷ resource) =
    segment_matches s name && prefix_matches fixed segments resource
prefix_matches (suc fixed) _ _ = false

-- `matches`
unfoldable pub matches : List SelectorSegment → List Bytes → Bool
unfolding ends_recursive prefix_matches
matches segments resource =
    let recursive = ends_recursive segments in
    let fixed = if recursive then length segments - 1 else length segments in
    if (not recursive && not (length resource == fixed))
      || (recursive && ltb (length resource) fixed)
    then false
    else prefix_matches fixed segments resource

pub data SelectorIssueKind : Type 0 where
  kind_malformed kind_unmatched : SelectorIssueKind

pub record SelectorIssue : Type 0 where
  pub kind : SelectorIssueKind
  pub selector : Bytes
  pub reason : Reason

pub record ParsedResource : Type 0 where
  pub path : Bytes
  pub segments : List Bytes

-- The resources that parse, in order.
unfoldable pub parse_resources : List Bytes → List ParsedResource
unfolding parse_resource
parse_resources [] = []
parse_resources (path ∷ paths) = elim (parse_resource path) [
  | none ↦ parse_resources paths
  | some segments ↦ record { path = path; segments = segments } ∷ parse_resources paths
]

-- The loop over the resources for one selector: the grown set, and whether one matched.
unfoldable pub collect_matches :
    List SelectorSegment → List ParsedResource → List Bytes × Bool → List Bytes × Bool
collect_matches segments [] found = found
collect_matches segments (r ∷ rest) (paths, matched) =
    collect_matches segments rest
      (if matches segments r.segments then (set_insert r.path paths, true) else (paths, matched))

pub record SelectorMatch : Type 0 where
  pub resource_paths : List Bytes
  pub issues : List SelectorIssue

unfoldable pub add_issue : SelectorIssueKind → Bytes → Reason → SelectorMatch → SelectorMatch
add_issue kind selector reason m = record m {
  issues = m.issues ++ (record { kind = kind; selector = selector; reason = reason } ∷ []);
}

-- The body of the loop over the selectors.
unfoldable pub match_selector : List ParsedResource → Bytes → SelectorMatch → SelectorMatch
unfolding collect_matches add_issue
match_selector resources selector m = elim (parse_selector selector) [
  | malformed reason ↦ add_issue kind_malformed selector reason m
  | parsed segments ↦
      let (paths, matched) = collect_matches segments resources (m.resource_paths, false) in
      let found = record m { resource_paths = paths } in
      if matched then found else add_issue kind_unmatched selector no_match found
]

unfoldable pub match_selectors : List ParsedResource → List Bytes → SelectorMatch → SelectorMatch
match_selectors resources [] m = m
match_selectors resources (s ∷ selectors) m =
    match_selectors resources selectors (match_selector resources s m)

unfoldable pub kind_less : SelectorIssueKind → SelectorIssueKind → Bool
kind_less kind_malformed kind_unmatched = true
kind_less _ _ = false

-- The defaulted `<=>` of `SelectorIssue`: its members in the order of their declaration.
unfoldable pub issue_less : SelectorIssue → SelectorIssue → Bool
unfolding kind_less reason_text
issue_less a b =
    kind_less a.kind b.kind
    || (not (kind_less b.kind a.kind)
        && (text_less a.selector b.selector
            || (text_eq a.selector b.selector
                && text_less (reason_text a.reason) (reason_text b.reason))))
