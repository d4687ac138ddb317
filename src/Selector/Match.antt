-- ===== src/Selector/Match.antt =====
-- `matches` decides the glob relation that the selector syntax describes.
use rtt_opcua.Base.{
  ◌≡◌, refl, subst, ◌≢◌, ◌↔◌, true, false, ◌&&◌, List, [], ◌∷◌, arith, and_parts, Bytes,
  text_eq_iff,
}
use rtt_opcua.Selector.{
  SelectorSegment, literal, single_wildcard, recursive_wildcard, segment_matches, matches,
}

-- A pattern covers a path: `*` covers one segment, a literal covers itself, and a final `**`
-- covers whatever is left.
pub data Covers : List SelectorSegment → List Bytes → Type 0 where
  done : Covers [] []
  any_rest : (rest : List Bytes) → Covers (recursive_wildcard ∷ []) rest
  one :
      {segments : List SelectorSegment} {path : List Bytes} (name : Bytes)
      → Covers segments path
      → Covers (single_wildcard ∷ segments) (name ∷ path)
  same :
      {segments : List SelectorSegment} {path : List Bytes} (name : Bytes)
      → Covers segments path
      → Covers (literal name ∷ segments) (name ∷ path)

matches-cons :
    (s t : SelectorSegment) (segments : List SelectorSegment) (name : Bytes) (path : List Bytes)
    → matches (s ∷ t ∷ segments) (name ∷ path)
      ≡ (segment_matches s name && matches (t ∷ segments) path)
unfolding matches segment_matches
matches-cons single_wildcard t segments name path = ground arith
matches-cons recursive_wildcard t segments name path = ground arith
matches-cons (literal s) t segments name path = ground arith

extend :
    (s : SelectorSegment) (segments : List SelectorSegment) (name : Bytes) (path : List Bytes)
    → segment_matches s name ≡ true
    → Covers segments path
    → (segments ≢ [] → matches segments path ≡ true)
    → matches (s ∷ segments) (name ∷ path) ≡ true
extend single_wildcard [] name path e done ih = unfold matches in ground arith
extend recursive_wildcard [] name path e c ih = unfold segment_matches in cc
extend (literal s) [] name path e done ih = unfold matches segment_matches in ground arith
extend s (t ∷ segments) name path e c ih = rw matches-cons (ground (arith, ih (λ k. cc)))

Covers-matches :
    {segments : List SelectorSegment} {path : List Bytes}
    → Covers segments path
    → segments ≢ []
    → matches segments path ≡ true
Covers-matches done h = absurd (h refl)
Covers-matches (any_rest rest) h = unfold matches in ground arith
Covers-matches (one {segments = segments} {path = path} name c) h =
    extend single_wildcard segments name path (unfold segment_matches in refl) c (Covers-matches c)
Covers-matches (same {segments = segments} {path = path} name c) h =
    extend (literal name) segments name path
      (unfold segment_matches in (text_eq_iff name name).1 refl) c (Covers-matches c)

matches_nil :
    (s t : SelectorSegment) (segments : List SelectorSegment)
    → matches (s ∷ t ∷ segments) [] ≡ false
unfolding matches
matches_nil single_wildcard t segments = ground arith
matches_nil recursive_wildcard t segments = ground arith
matches_nil (literal s) t segments = ground arith

cover_first :
    (s : SelectorSegment) (segments : List SelectorSegment) (name : Bytes) (path : List Bytes)
    → segment_matches s name ≡ true
    → Covers segments path
    → Covers (s ∷ segments) (name ∷ path)
unfolding segment_matches
cover_first single_wildcard segments name path e c = one name c
cover_first recursive_wildcard segments name path e c = cc
cover_first (literal s) segments name path e c =
    subst (λ n. Covers (literal s ∷ segments) (n ∷ path)) ((text_eq_iff s name).0 e) (same s c)

cover_single :
    (path : List Bytes)
    → matches (single_wildcard ∷ []) path ≡ true
    → Covers (single_wildcard ∷ []) path
unfolding matches
cover_single [] e = absurd (ground arith)
cover_single (n ∷ []) e = one n done
cover_single (n ∷ m ∷ path) e = absurd (ground arith)

cover_literal :
    (s : Bytes) (path : List Bytes)
    → matches (literal s ∷ []) path ≡ true
    → Covers (literal s ∷ []) path
unfolding matches
cover_literal s [] e = absurd (ground arith)
cover_literal s (n ∷ []) e =
    cover_first (literal s) [] n [] (unfold segment_matches in ground arith) done
cover_literal s (n ∷ m ∷ path) e = absurd (ground arith)

matches-Covers :
    (segments : List SelectorSegment) (path : List Bytes)
    → segments ≢ []
    → matches segments path ≡ true
    → Covers segments path
matches-Covers [] path h e = absurd (h refl)
matches-Covers (recursive_wildcard ∷ []) path h e = any_rest path
matches-Covers (single_wildcard ∷ []) path h e = cover_single path e
matches-Covers (literal s ∷ []) path h e = cover_literal s path e
matches-Covers (s ∷ t ∷ segments) [] h e = cc (matches_nil s t segments)
matches-Covers (s ∷ t ∷ segments) (n ∷ path) h e =
    let (here, rest) = and_parts _ _ (rw matches-cons at e) in
    cover_first s (t ∷ segments) n path here (matches-Covers (t ∷ segments) path (λ k. cc) rest)

-- A parsed selector matches a resource path exactly when its pattern covers the path segment by
-- segment, where only a final `**` may stand for any number of segments.
pub matches_iff :
    (segments : List SelectorSegment) (path : List Bytes)
    → segments ≢ []
    → (matches segments path ≡ true) ↔ Covers segments path
matches_iff segments path h = (matches-Covers segments path h, λ c. Covers-matches c h)
