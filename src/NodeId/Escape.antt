-- ===== src/NodeId/Escape.antt =====
-- What escaping leaves in a path, byte by byte.
use rtt_opcua.Base.{
  ℕ, ◌≡◌, refl, Bool, true, false, not, ◌&&◌, ◌||◌, [], ◌∷◌, ◌++◌, arith, All, Bytes, has_byte,
  passes_under, passes_under_lem, IsByte,
}
use rtt_opcua.NodeId.{escape_byte, escape_bytes}

-- No byte's escape holds a slash or a star.
abbrev separators_absent : ℕ → Bool
separators_absent c = not (has_byte b'/' (escape_byte c)) && not (has_byte b'*' (escape_byte c))

separators_table : passes_under separators_absent 256 ≡ true
unfolding passes_under escape_byte has_byte
separators_table = refl

has_byte-append : (c : ℕ) (s t : Bytes) → has_byte c (s ++ t) ≡ (has_byte c s || has_byte c t)
unfolding has_byte
has_byte-append c [] t = refl
has_byte-append c (x ∷ s) t = ground (arith, has_byte-append c s t)

pub escape_bytes_separators :
    (s : Bytes)
    → All IsByte s
    → (has_byte b'/' (escape_bytes s) ≡ false) × (has_byte b'*' (escape_bytes s) ≡ false)
unfolding escape_bytes
escape_bytes_separators [] h = unfold has_byte in (refl, refl)
escape_bytes_separators (c ∷ s) h = ground (
  arith,
  has_byte-append b'/' (escape_byte c) (escape_bytes s),
  has_byte-append b'*' (escape_byte c) (escape_bytes s),
  passes_under_lem separators_absent 256 c h.0 separators_table,
  escape_bytes_separators s h.1,
)
