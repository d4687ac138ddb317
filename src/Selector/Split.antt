-- ===== src/Selector/Split.antt =====
-- Splitting a path that was made of escaped segments gives the segments back.
use rtt_opcua.Base.{
  ℕ, ◌≡◌, refl, sym, ap, ◌∙◌, ◌≢◌, ◌↔◌, ◌⊎◌, inl, inr, false, List, [], ◌∷◌, ◌++◌, map, append-nil,
  append_assoc, arith, ◌==◌, if◌then◌else◌, All, Bytes, codes, has_byte, IsByte,
}
use rtt_opcua.NodeId.{
  escape_byte, escape_bytes, escape_node_id_segment, append_segments, make_node_path,
}
use rtt_opcua.NodeId.Escape.{escape_bytes_separators}
use rtt_opcua.Selector.Decode.{decode-escape, decode_empty_name}
use rtt_opcua.Selector.{push_head, split_path}

push_head-append :
    (c : ℕ) (pieces rest : List Bytes)
    → pieces ≢ []
    → push_head c (pieces ++ rest) ≡ push_head c pieces ++ rest
push_head-append c [] rest h = absurd (h refl)
push_head-append c (s ∷ pieces) rest h = refl

split_path-ne-nil : (s : Bytes) → split_path s ≢ []
unfolding split_path
split_path-ne-nil [] = ground arith
split_path-ne-nil (c ∷ s) =
    elim (split_path s) as (λ l. (if c == b'/' then [] ∷ l else push_head c l) ≢ []) [
      | [] ↦ ground arith
      | p ∷ ps ↦ ground arith
    ]

-- A slash between two paths separates their pieces.
pub split_path-append :
    (s rest : Bytes) → split_path (s ++ (b'/' ∷ rest)) ≡ split_path s ++ split_path rest
unfolding split_path
split_path-append [] rest = refl
split_path-append (c ∷ s) rest = ground (
  arith,
  split_path-append s rest,
  push_head-append c (split_path s) (split_path rest) (split_path-ne-nil s),
)

split_path_whole : (s : Bytes) → has_byte b'/' s ≡ false → split_path s ≡ s ∷ []
unfolding split_path has_byte
split_path_whole [] h = refl
split_path_whole (c ∷ s) h = ground (arith, split_path_whole s)

escape_no_slash : (s : Bytes) → All IsByte s → has_byte b'/' (escape_node_id_segment s) ≡ false
escape_no_slash [] h = unfold escape_node_id_segment has_byte in refl
escape_no_slash (c ∷ s) h = unfold escape_node_id_segment in (escape_bytes_separators (c ∷ s) h).0

abbrev pub IsName : Bytes → Type 0
IsName s = (s ≢ []) × All IsByte s

append_segments-split :
    (path : Bytes) (names : List Bytes)
    → All (All IsByte) names
    → split_path (append_segments path names) ≡ split_path path ++ map escape_node_id_segment names
unfolding append_segments
append_segments-split path [] h = sym (append-nil _)
append_segments-split path (s ∷ names) h =
    append_segments-split (path ++ (b'/' ∷ escape_node_id_segment s)) names h.1
    ∙ ap (λ (l : List Bytes). l ++ map escape_node_id_segment names)
        (split_path-append path (escape_node_id_segment s)
          ∙ ap (λ (l : List Bytes). split_path path ++ l)
              (split_path_whole (escape_node_id_segment s) (escape_no_slash s h.0)))
    ∙ append_assoc (split_path path) (escape_node_id_segment s ∷ [])
        (map escape_node_id_segment names)

rtt_no_slash : has_byte b'/' (codes "rtt") ≡ false
unfolding has_byte
rtt_no_slash = refl

-- Splitting the node path of some names at its slashes gives the root and the escaped names, one
-- segment for each name whatever bytes it holds.
pub split_path-make_node_path :
    (names : List Bytes)
    → All (All IsByte) names
    → split_path (make_node_path names) ≡ codes "rtt" ∷ map escape_node_id_segment names
unfolding make_node_path
split_path-make_node_path names h =
    append_segments-split (codes "rtt") names h
    ∙ ap (λ (l : List Bytes). l ++ map escape_node_id_segment names)
        (split_path_whole (codes "rtt") rtt_no_slash)

escape_injective :
    (s t : Bytes)
    → IsName s
    → IsName t
    → escape_node_id_segment s ≡ escape_node_id_segment t
    → s ≡ t
escape_injective s t hs ht e = cc (decode-escape s hs.0 hs.1, decode-escape t ht.0 ht.1)

escape_names_injective :
    (ss ts : List Bytes)
    → All IsName ss
    → All IsName ts
    → map escape_node_id_segment ss ≡ map escape_node_id_segment ts
    → ss ≡ ts
escape_names_injective [] [] hs ht e = refl
escape_names_injective [] (t ∷ ts) hs ht e = cc
escape_names_injective (s ∷ ss) [] hs ht e = cc
escape_names_injective (s ∷ ss) (t ∷ ts) hs ht e =
    cc (escape_injective s t hs.0 ht.0 (cc), escape_names_injective ss ts hs.1 ht.1 (cc))

All-bytes : (names : List Bytes) → All IsName names → All (All IsByte) names
All-bytes [] h = tt
All-bytes (s ∷ names) h = (h.0.1, All-bytes names h.1)

-- Two lists of nonempty names that have the same node path are the same list.
pub make_node_path_injective :
    (ss ts : List Bytes)
    → All IsName ss
    → All IsName ts
    → make_node_path ss ≡ make_node_path ts
    → ss ≡ ts
make_node_path_injective ss ts hs ht e = escape_names_injective ss ts hs ht (
    cc (
      split_path-make_node_path ss (All-bytes ss hs),
      split_path-make_node_path ts (All-bytes ts ht),
    ))

nul_of_escape :
    (t : Bytes)
    → t ≢ []
    → All IsByte t
    → escape_node_id_segment t ≡ escape_node_id_segment []
    → t ≡ 0 ∷ []
nul_of_escape t h bytes e = cc (decode-escape t h bytes, decode_empty_name)

nul_collides : escape_node_id_segment [] ≡ escape_node_id_segment (0 ∷ [])
unfolding escape_node_id_segment escape_bytes escape_byte
nul_collides = refl

collision_of_eq :
    (s t : Bytes)
    → All IsByte s
    → All IsByte t
    → escape_node_id_segment s ≡ escape_node_id_segment t
    → (s ≡ t) ⊎ ((s ≡ []) × (t ≡ 0 ∷ [])) ⊎ ((s ≡ 0 ∷ []) × (t ≡ []))
collision_of_eq [] [] hs ht e = inl refl
collision_of_eq [] (c ∷ t) hs ht e = inr (inl (refl, nul_of_escape (c ∷ t) (λ k. cc) ht (sym e)))
collision_of_eq (c ∷ s) [] hs ht e = inr (inr (nul_of_escape (c ∷ s) (λ k. cc) hs e, refl))
collision_of_eq (c ∷ s) (d ∷ t) hs ht e =
    inl (escape_injective (c ∷ s) (d ∷ t) ((λ k. cc), hs) ((λ k. cc), ht) e)

eq_of_collision :
    (s t : Bytes)
    → (s ≡ t) ⊎ ((s ≡ []) × (t ≡ 0 ∷ [])) ⊎ ((s ≡ 0 ∷ []) × (t ≡ []))
    → escape_node_id_segment s ≡ escape_node_id_segment t
eq_of_collision s t (inl e) = rw e
eq_of_collision s t (inr (inl (e, f))) = cc nul_collides
eq_of_collision s t (inr (inr (e, f))) = cc nul_collides

-- The empty name and the name that is one zero byte are told apart by no escaped segment, and
-- these two are the only such pair of names.
pub escape_collision :
    (s t : Bytes)
    → All IsByte s
    → All IsByte t
    → (escape_node_id_segment s ≡ escape_node_id_segment t)
      ↔ ((s ≡ t) ⊎ ((s ≡ []) × (t ≡ 0 ∷ [])) ⊎ ((s ≡ 0 ∷ []) × (t ≡ [])))
escape_collision s t hs ht = (collision_of_eq s t hs ht, eq_of_collision s t)
