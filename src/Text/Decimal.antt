-- ===== src/Text/Decimal.antt =====
-- `std::to_string` and `std::stoi`, `std::stoll`, as the sources use them.
pub mod RoundTrip
use velo_kv.Prelude.{
  ℕ, zero, suc, ◌+◌, ◌-◌, ◌*◌, ◌/◌, ◌%◌, ◌<◌, ◌≤◌, ◌≡◌, ◌≢◌, ◌∙◌, refl, Bool, true, false, ◌&&◌,
  ◌||◌, Option, none, some, List, [], ◌∷◌, ◌++◌, Bytes, codes, ltb, leb, nat_beq, All, ℤ, pos,
  negsuc, in_range, int_bound, int64_bound, if◌then◌else◌, Bool-cases, inl, inr, arith,
}

-- The digits of `n` in front of `out`; more than `n` rounds are enough.
unfoldable pub emit : ℕ → ℕ → Bytes → Bytes
emit zero n out = out
emit (suc fuel) n out = elim (ltb n 10) [
  | true ↦ (b'0' + n) ∷ out
  | false ↦ emit fuel (n / 10) ((b'0' + n % 10) ∷ out)
]

unfoldable pub decimal : ℕ → Bytes
unfolding emit
decimal n = emit (suc n) n []

unfoldable pub to_string : ℤ → Bytes
unfolding decimal
to_string (pos n) = decimal n
to_string (negsuc n) = b'-' ∷ decimal (suc n)

abbrev pub is_digit : ℕ → Bool
is_digit c = leb b'0' c && leb c b'9'

-- `std::isspace` in the C locale.
abbrev pub is_space : ℕ → Bool
is_space c = nat_beq c 32 || (leb 9 c && leb c 13)

unfoldable pub skip_spaces : Bytes → Bytes
skip_spaces [] = []
skip_spaces (c ∷ s) = let rest = skip_spaces s in if is_space c then rest else c ∷ s

-- The value of the leading digits behind `n`; what follows them is left alone.
unfoldable pub scan : Bytes → ℕ → ℕ
scan [] n = n
scan (c ∷ s) n = let rest = scan s (n * 10 + (c - b'0')) in if is_digit c then rest else n

-- No digit is `std::invalid_argument`.
unfoldable pub magnitude : Bytes → Option ℕ
unfolding scan
magnitude [] = none
magnitude (c ∷ s) = if is_digit c then some (scan (c ∷ s) 0) else none

abbrev pub negate : ℕ → ℤ
negate zero = pos 0
negate (suc n) = negsuc n

unfoldable pub signed : Bytes → Option ℤ
unfolding magnitude
signed [] = none
signed (c ∷ s) =
    if nat_beq c b'-'
    then elim (magnitude s) [ none ↦ none | some n ↦ some (negate n) ]
    else elim (magnitude (if nat_beq c b'+' then s else c ∷ s)) [
      | none ↦ none
      | some n ↦ some (pos n)
    ]

-- The number, or `none` for an exception; a value outside the type is `std::out_of_range`.
unfoldable pub parse_int : ℕ → Bytes → Option ℤ
unfolding skip_spaces signed in_range
parse_int bound s = elim (signed (skip_spaces s)) [
  | none ↦ none
  | some a ↦ if in_range bound a then some a else none
]

unfoldable pub stoi : Bytes → Option ℤ
unfolding parse_int
stoi = parse_int int_bound

unfoldable pub stoll : Bytes → Option ℤ
unfolding parse_int
stoll = parse_int int64_bound
