-- ===== src/Selector/Decode.antt =====
-- Decoding undoes escaping.
use rtt_opcua.Base.{
  ℕ, ◌/◌, bit_and, ◌≡◌, refl, ap, ◌∙◌, ◌≢◌, ◌↔◌, inl, inr, Bool, true, ◌&&◌, some, [], ◌∷◌, ◌++◌,
  arith, ◌==◌, Bool-cases, All, Bytes, text_eq, text_eq_iff, passes_under, passes_under_lem, IsByte,
}
use rtt_opcua.NodeId.{is_unreserved, hex_digit, escape_byte, escape_bytes, escape_node_id_segment}
use rtt_opcua.Selector.{is_upper_hex_digit, hex_pair, push, decode_loop, decode_canonical_segment}

-- The two digits of a byte are upper-case hexadecimal and give the byte back.
abbrev digits_of_byte : ℕ → Bool
digits_of_byte c =
    is_upper_hex_digit (hex_digit (c / 16))
    && is_upper_hex_digit (hex_digit (bit_and c 0x0F))
    && hex_pair (hex_digit (c / 16)) (hex_digit (bit_and c 0x0F)) == c

digits_table : passes_under digits_of_byte 256 ≡ true
unfolding passes_under is_upper_hex_digit hex_pair hex_digit
digits_table = refl

decode_plain : (c : ℕ) (s : Bytes) → c ≢ b'%' → decode_loop (c ∷ s) ≡ push c (decode_loop s)
unfolding decode_loop
decode_plain c [] h = ground arith
decode_plain c (d ∷ []) h = ground arith
decode_plain c (d ∷ e ∷ s) h = ground arith

decode_escaped :
    (d e : ℕ) (s : Bytes)
    → is_upper_hex_digit d ≡ true
    → is_upper_hex_digit e ≡ true
    → decode_loop (b'%' ∷ d ∷ e ∷ s) ≡ push (hex_pair d e) (decode_loop s)
decode_escaped d e s hd he = unfold decode_loop in rw (hd, he)

unreserved_ne_percent : (c : ℕ) → is_unreserved c ≡ true → c ≢ b'%'
unfolding is_unreserved
unreserved_ne_percent c h = ground arith

digits_of_byte_parts :
    (c : ℕ)
    → IsByte c
    → (is_upper_hex_digit (hex_digit (c / 16)) ≡ true)
      × (is_upper_hex_digit (hex_digit (bit_and c 0x0F)) ≡ true)
      × (hex_pair (hex_digit (c / 16)) (hex_digit (bit_and c 0x0F)) ≡ c)
digits_of_byte_parts c h = ground (arith, passes_under_lem digits_of_byte 256 c h digits_table)

escaped_pair :
    (c : ℕ) (s : Bytes)
    → IsByte c
    → decode_loop (b'%' ∷ hex_digit (c / 16) ∷ hex_digit (bit_and c 0x0F) ∷ s)
      ≡ push c (decode_loop s)
escaped_pair c s h =
    let (high, low, value) = digits_of_byte_parts c h in
    decode_escaped _ _ s high low ∙ ap (λ (v : ℕ). push v (decode_loop s)) value

decode_loop-escape_byte :
    (c : ℕ) (s : Bytes) → IsByte c → decode_loop (escape_byte c ++ s) ≡ push c (decode_loop s)
decode_loop-escape_byte c s h = elim (Bool-cases (is_unreserved c)) [
  | inl e ↦ unfold escape_byte in rw e (decode_plain c s (unreserved_ne_percent c e))
  | inr e ↦ unfold escape_byte in rw e (escaped_pair c s h)
]

decode_loop-escape_bytes : (s : Bytes) → All IsByte s → decode_loop (escape_bytes s) ≡ some s
unfolding escape_bytes
decode_loop-escape_bytes [] h = unfold decode_loop in refl
decode_loop-escape_bytes (c ∷ s) h =
    decode_loop-escape_byte c (escape_bytes s) h.0 ∙ ap (push c) (decode_loop-escape_bytes s h.1)

text_eq_refl : (s : Bytes) → text_eq s s ≡ true
text_eq_refl s = (text_eq_iff s s).1 refl

escape_bytes-eq : (s : Bytes) → s ≢ [] → escape_node_id_segment s ≡ escape_bytes s
unfolding escape_node_id_segment
escape_bytes-eq [] nonempty = absurd (nonempty refl)
escape_bytes-eq (c ∷ s) nonempty = refl

-- A nonempty name is what its escaped segment decodes to.
pub decode-escape :
    (s : Bytes)
    → s ≢ []
    → All IsByte s
    → decode_canonical_segment (escape_node_id_segment s) ≡ some s
unfolding decode_canonical_segment
decode-escape s nonempty h = ground (
  arith,
  escape_bytes-eq s nonempty,
  decode_loop-escape_bytes s h,
  text_eq_refl (escape_node_id_segment s),
)

escape_node_id_segment-ne-nil : (s : Bytes) → escape_node_id_segment s ≢ []
unfolding escape_node_id_segment escape_bytes escape_byte
escape_node_id_segment-ne-nil [] = ground arith
escape_node_id_segment-ne-nil (c ∷ s) = ground arith

decode_sound :
    (segment s : Bytes)
    → decode_canonical_segment segment ≡ some s
    → segment ≡ escape_node_id_segment s
unfolding decode_canonical_segment
decode_sound segment s h = ground (arith, text_eq_iff (escape_node_id_segment s) segment)

pub decode_empty_name : decode_canonical_segment (escape_node_id_segment []) ≡ some (0 ∷ [])
unfolding decode_canonical_segment decode_loop escape_node_id_segment escape_byte text_eq
decode_empty_name = refl

-- A segment decodes to a name of bytes exactly when the name is not empty and the segment is the
-- name's escaped form: no other spelling is accepted.
pub decode_iff :
    (segment s : Bytes)
    → All IsByte s
    → (decode_canonical_segment segment ≡ some s)
      ↔ ((s ≢ []) × (segment ≡ escape_node_id_segment s))
decode_iff segment s h = (
  λ e. (λ n. cc (decode_sound segment s e, decode_empty_name), decode_sound segment s e),
  λ e. rw e.1 (decode-escape s e.0 h),
)
