-- ===== src/Selector/Issues.antt =====
-- The order of the issues, and `matchPublicationSelectors`, which sorts them.
use rtt_opcua.Base.{◌≡◌, true, false, List, [], arith, Bytes, text_eq_iff}
use rtt_opcua.Base.Order.{
  Ord, text_less, text_less_irrefl, text_less_trans, text_less_total, text_ord, sort, unique,
}
use rtt_opcua.Selector.{
  Reason, reason_text, SelectorIssueKind, SelectorIssue, parse_resources, SelectorMatch,
  match_selectors, kind_less, issue_less,
}

kind_of_less : (a b : SelectorIssueKind) → kind_less a b ≡ false → kind_less b a ≡ false → a ≡ b
unfolding kind_less
kind_of_less a b h k = ground arith

kind_less_trans :
    (a b c : SelectorIssueKind) → kind_less a b ≡ true → kind_less b c ≡ true → kind_less a c ≡ true
unfolding kind_less
kind_less_trans a b c h k = ground arith

-- No two reasons have the same text.
reason_text_total :
    (a b : Reason)
    → text_less (reason_text a) (reason_text b) ≡ false
    → text_less (reason_text b) (reason_text a) ≡ false
    → a ≡ b
unfolding reason_text text_less
reason_text_total a b h k = ground arith

pub issue_less_irrefl : (a : SelectorIssue) → issue_less a a ≡ false
unfolding issue_less
issue_less_irrefl a =
    ground (arith, text_less_irrefl a.selector, text_less_irrefl (reason_text a.reason))

pub issue_less_total :
    (a b : SelectorIssue) → issue_less a b ≡ false → issue_less b a ≡ false → a ≡ b
unfolding issue_less
issue_less_total a b h k = ground (
  arith,
  text_less_irrefl a.selector,
  text_eq_iff a.selector b.selector,
  text_eq_iff b.selector a.selector,
  text_less_total a.selector b.selector,
  reason_text_total a.reason b.reason,
  kind_of_less a.kind b.kind,
)

pub issue_less_trans :
    (a b c : SelectorIssue) → issue_less a b ≡ true → issue_less b c ≡ true → issue_less a c ≡ true
unfolding issue_less
issue_less_trans a b c h k = ground (
  arith,
  kind_less_trans a.kind b.kind c.kind,
  kind_less_trans c.kind b.kind a.kind,
  kind_of_less a.kind b.kind,
  kind_of_less b.kind c.kind,
  kind_of_less a.kind c.kind,
  text_eq_iff a.selector b.selector,
  text_eq_iff b.selector c.selector,
  text_eq_iff a.selector c.selector,
  text_less_trans a.selector b.selector c.selector,
  text_less_trans (reason_text a.reason) (reason_text b.reason) (reason_text c.reason),
)

instance abbrev pub issue_ord : Ord SelectorIssue
issue_ord = record {
  less = issue_less;
  less_irrefl = issue_less_irrefl;
  less_trans = issue_less_trans;
  less_total = issue_less_total;
}

-- `matchPublicationSelectors`
unfoldable pub match_publication_selectors : List Bytes → List Bytes → SelectorMatch
unfolding match_selectors parse_resources
match_publication_selectors selectors resource_paths =
    let m =
      match_selectors (parse_resources resource_paths) selectors
        (record { resource_paths = []; issues = [] }) in
    record m { issues = unique (sort m.issues) }
