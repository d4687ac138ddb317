-- ===== src/NodeId.antt =====
-- src/node_id.cpp: percent escaping of path segments and the node paths made of them.
pub mod Escape
use rtt_opcua.Base.{
  ℕ, ◌/◌, bit_and, Bytes, codes, List, [], ◌∷◌, ◌++◌, Bool, ◌||◌, ◌&&◌, leb, ◌==◌, if◌then◌else◌,
  get_elem?, Option, none, some,
}

unfoldable pub is_unreserved : ℕ → Bool
is_unreserved value =
    (leb b'a' value && leb value b'z')
    || (leb b'A' value && leb value b'Z')
    || (leb b'0' value && leb value b'9')
    || value == b'-'
    || value == b'.'
    || value == b'_'
    || value == b'~'

abbrev hex_digits : Bytes
hex_digits = codes "0123456789ABCDEF"

-- `kHexDigits[digit]`; the index is below 16 for a byte, and the array ends in a zero byte.
unfoldable pub hex_digit : ℕ → ℕ
hex_digit digit = elim (get_elem? hex_digits digit) [ some c ↦ c | none ↦ 0 ]

-- What the loop appends for one character.
unfoldable pub escape_byte : ℕ → Bytes
unfolding is_unreserved hex_digit
escape_byte value =
    if is_unreserved value
    then value ∷ []
    else b'%' ∷ hex_digit (value / 16) ∷ hex_digit (bit_and value 0x0F) ∷ []

unfoldable pub escape_bytes : Bytes → Bytes
escape_bytes [] = []
escape_bytes (c ∷ s) = escape_byte c ++ escape_bytes s

-- `escapeNodeIdSegment`
unfoldable pub escape_node_id_segment : Bytes → Bytes
unfolding escape_bytes
escape_node_id_segment [] = codes "%00"
escape_node_id_segment (c ∷ s) = escape_bytes (c ∷ s)

unfoldable pub append_segments : Bytes → List Bytes → Bytes
append_segments path [] = path
append_segments path (segment ∷ segments) =
    append_segments (path ++ (b'/' ∷ escape_node_id_segment segment)) segments

-- `makeNodePath`
unfoldable pub make_node_path : List Bytes → Bytes
unfolding append_segments
make_node_path segments = append_segments (codes "rtt") segments
