-- ===== src/Text/Decimal/RoundTrip.antt =====
-- What `std::to_string` prints is digits, and `std::stoi` and `std::stoll` read it back.
use velo_kv.Prelude.{
  refl, is_empty, ℕ, zero, suc, ◌+◌, ◌/◌, ◌%◌, ◌<◌, ◌≤◌, ◌≡◌, ◌∙◌, ap, Bool, true, false, some, [],
  ◌∷◌, Bytes, ltb, All, ℤ, pos, negsuc, in_range, Bool-cases, inl, inr, arith,
}
use velo_kv.Text.Decimal.{
  emit, decimal, to_string, is_digit, skip_spaces, scan, magnitude, signed, parse_int,
}

abbrev pub IsDigit : ℕ → Type 0
IsDigit c = (b'0' ≤ c) × (c ≤ b'9')

emit_small : (fuel n : ℕ) (out : Bytes) → n < 10 → emit (suc fuel) n out ≡ (b'0' + n) ∷ out
unfolding emit
emit_small fuel n out h = ground arith

emit_big :
    (fuel n : ℕ) (out : Bytes)
    → 10 ≤ n
    → emit (suc fuel) n out ≡ emit fuel (n / 10) ((b'0' + n % 10) ∷ out)
unfolding emit
emit_big fuel n out h = ground arith

emit-All : (fuel n : ℕ) (out : Bytes) → All IsDigit out → All IsDigit (emit fuel n out)
unfolding emit
emit-All zero n out h = h
emit-All (suc fuel) n out h = elim (Bool-cases (ltb n 10)) [
  | inl small ↦ rw (emit_small fuel n out (ground arith)) ((ground arith, ground arith), h)
  | inr big ↦
      rw (emit_big fuel n out (ground arith))
        (emit-All fuel (n / 10) ((b'0' + n % 10) ∷ out) ((omega arith, omega arith), h))
]

-- The scan undoes the printing, from any accumulator that the digits left.
scan-emit : (fuel n : ℕ) (out : Bytes) → n < fuel → scan (emit fuel n out) 0 ≡ scan out n
scan-emit zero n out h = absurd (omega arith)
scan-emit (suc fuel) n out h = elim (Bool-cases (ltb n 10)) [
  | inl small ↦ rw (emit_small fuel n out (ground arith)) (unfold scan in ground arith)
  | inr big ↦
      rw (emit_big fuel n out (ground arith))
        (scan-emit fuel (n / 10) ((b'0' + n % 10) ∷ out) (ground arith) ∙ scan_last n out)
]
  where
    scan_last : (n : ℕ) (out : Bytes) → scan ((b'0' + n % 10) ∷ out) (n / 10) ≡ scan out n
    scan_last n out = unfold scan in ground arith

abbrev starts : Bytes → Bool
starts [] = false
starts (c ∷ s) = is_digit c

starts-emit : (fuel n : ℕ) (out : Bytes) → n < fuel → starts (emit fuel n out) ≡ true
starts-emit zero n out h = absurd (omega arith)
starts-emit (suc fuel) n out h = elim (Bool-cases (ltb n 10)) [
  | inl small ↦ rw (emit_small fuel n out (ground arith)) (ground arith)
  | inr big ↦
      rw (emit_big fuel n out (ground arith))
        (starts-emit fuel (n / 10) ((b'0' + n % 10) ∷ out) (ground arith))
]

starts-decimal : (n : ℕ) → starts (decimal n) ≡ true
unfolding decimal
starts-decimal n = starts-emit (suc n) n [] (omega arith)

magnitude-starts : (s : Bytes) → starts s ≡ true → magnitude s ≡ some (scan s 0)
unfolding magnitude
magnitude-starts [] h = cc
magnitude-starts (c ∷ s) h = ground arith

magnitude-decimal : (n : ℕ) → magnitude (decimal n) ≡ some n
magnitude-decimal n =
    magnitude-starts (decimal n) (starts-decimal n)
    ∙ ap some (unfold decimal scan in scan-emit (suc n) n [] (omega arith))

signed-starts :
    (s : Bytes) (n : ℕ)
    → starts s ≡ true
    → magnitude s ≡ some n
    → signed (skip_spaces s) ≡ some (pos n)
unfolding signed skip_spaces
signed-starts [] n h m = cc
signed-starts (c ∷ s) n h m = ground arith

signed-to_string : (a : ℤ) → signed (skip_spaces (to_string a)) ≡ some a
unfolding to_string
signed-to_string (pos n) = signed-starts (decimal n) n (starts-decimal n) (magnitude-decimal n)
signed-to_string (negsuc n) = unfold signed skip_spaces in ground (arith, magnitude-decimal (suc n))

-- A number of the range of the type, of `int` and of `int64_t` alike, is read back from its
-- decimal print.
pub parse_int-to_string :
    (bound : ℕ) (a : ℤ) → in_range bound a ≡ true → parse_int bound (to_string a) ≡ some a
unfolding parse_int
parse_int-to_string bound a h = ground (arith, signed-to_string a)

pub decimal-All : (n : ℕ) → All IsDigit (decimal n)
unfolding decimal
decimal-All n = emit-All (suc n) n [] tt

pub decimal_full : (n : ℕ) → is_empty (decimal n) ≡ false
decimal_full n = full (decimal n) (starts-decimal n)
  where
    full : (s : Bytes) → starts s ≡ true → is_empty s ≡ false
    full [] h = cc
    full (c ∷ s) h = refl
