-- ===== src/Text/Percent.antt =====
-- The percent encoding of src/persistence.cpp and of src/replication.cpp, and their two decoders.
-- A decoder returns `none` where the source throws `std::runtime_error`.
pub mod RoundTrip
use velo_kv.Prelude.{
  ℕ, ◌+◌, ◌-◌, ◌*◌, Bool, true, false, ◌&&◌, ◌||◌, Option, none, some, List, [], ◌∷◌, ◌++◌, Bytes,
  codes, nat_beq, leb, if◌then◌else◌,
}
use velo_kv.Text.Upper.{upper}

unfoldable pub encode_byte : ℕ → Bytes
encode_byte c =
    if nat_beq c b'%'
    then codes "%25"
    else if nat_beq c 32
    then codes "%20"
    else if nat_beq c 13
    then codes "%0D"
    else if nat_beq c 10
    then codes "%0A"
    else c ∷ []

unfoldable pub percent_encode : Bytes → Bytes
unfolding encode_byte
percent_encode [] = []
percent_encode (c ∷ s) = encode_byte c ++ percent_encode s

abbrev pub cons_to : ℕ → Option Bytes → Option Bytes
cons_to c none = none
cons_to c (some s) = some (c ∷ s)

-- `std::isxdigit`
unfoldable pub is_xdigit : ℕ → Bool
is_xdigit c = leb b'0' c && leb c b'9' || (leb b'A' c && leb c b'F' || (leb b'a' c && leb c b'f'))

-- `hex_to_val` of src/persistence.cpp
unfoldable pub hex_to_val : ℕ → ℕ
hex_to_val c =
    if leb b'0' c && leb c b'9'
    then c - b'0'
    else if leb b'A' c && leb c b'F'
    then c - b'A' + 10
    else 0

-- The byte of the two digits, `(hi << 4) | lo`: `lo` is below 16.
unfoldable pub percent_byte : ℕ → ℕ → Option ℕ
unfolding upper is_xdigit hex_to_val
percent_byte a b =
    let hi = upper a in
    let lo = upper b in
    if is_xdigit hi && is_xdigit lo then some (hex_to_val hi * 16 + hex_to_val lo) else none

-- `hex_val` of src/replication.cpp; its -1 is `none`
unfoldable pub hex_val : ℕ → Option ℕ
hex_val c =
    if leb b'0' c && leb c b'9'
    then some (c - b'0')
    else if leb b'A' c && leb c b'F'
    then some (c - b'A' + 10)
    else if leb b'a' c && leb c b'f'
    then some (c - b'a' + 10)
    else none

unfoldable pub decode_byte : ℕ → ℕ → Option ℕ
unfolding hex_val
decode_byte a b = elim (hex_val a) [
  | none ↦ none
  | some hi ↦ elim (hex_val b) [ none ↦ none | some lo ↦ some (hi * 16 + lo) ]
]

abbrev pub cons_byte : Option ℕ → Option Bytes → Option Bytes
cons_byte none s = none
cons_byte (some c) s = cons_to c s

-- The loop of both decoders, on the routine for the two digits.
unfoldable pub decode_with : (ℕ → ℕ → Option ℕ) → Bytes → Option Bytes
decode_with byte [] = some []
decode_with byte (c ∷ []) = if nat_beq c b'%' then none else some (c ∷ [])
decode_with byte (c ∷ a ∷ []) =
    let rest = decode_with byte (a ∷ []) in if nat_beq c b'%' then none else cons_to c rest
decode_with byte (c ∷ a ∷ b ∷ s) = elim (nat_beq c b'%') [
  | true ↦ cons_byte (byte a b) (decode_with byte s)
  | false ↦ cons_to c (decode_with byte (a ∷ b ∷ s))
]

-- src/persistence.cpp
unfoldable pub percent_decode : Bytes → Option Bytes
unfolding decode_with percent_byte
percent_decode = decode_with percent_byte

-- src/replication.cpp
unfoldable pub decode : Bytes → Option Bytes
unfolding decode_with decode_byte
decode = decode_with decode_byte
