-- ===== src/Resp/Lines.antt =====
-- src/resp.cpp: a line with a length, and a bulk string, read back at an offset of the buffer.
use velo_kv.Prelude.{
  ℕ, suc, ◌+◌, ◌-◌, ◌<◌, ◌≡◌, ◌≢◌, ◌∙◌, refl, ap, false, some, [], ◌∷◌, ◌++◌, Bytes, pos, in_range,
  int_bound, nat_beq, drop, drop-drop, length, All, arith,
}
use velo_kv.Text.Decimal.{decimal, to_string, stoi}
use velo_kv.Text.Decimal.RoundTrip.{IsDigit, decimal-All, parse_int-to_string}
use velo_kv.Text.Find.{find_crlf, substr, at}
use velo_kv.Text.Find.Laws.{drop_behind, substr_here, at_here, inside_here, find_crlf_here}
use velo_kv.Resp.{bulk, parse_body, parse_bulk}

digits_plain : (d : Bytes) → All IsDigit d → All (λ c. c ≢ 13) d
digits_plain [] h = tt
digits_plain (c ∷ d) h = (omega arith, digits_plain d h.1)

stoi-decimal : (n : ℕ) → n < int_bound → stoi (decimal n) ≡ some (pos n)
unfolding stoi to_string
stoi-decimal n h = parse_int-to_string int_bound (pos n) (unfold in_range in ground arith)

-- Where the line of a mark and a number ends.
abbrev pub line_end : ℕ → ℕ → ℕ
line_end offset n = offset + suc (length (decimal n))

-- The line `<mark><decimal n>\\r\\n` at an offset: where it ends, and the number that it holds.
module _ (buffer : Bytes) (offset mark n : ℕ) (rest : Bytes) (small : n < int_bound)
    (no_cr : nat_beq mark 13 ≡ false)
    (here : drop offset buffer ≡ (mark ∷ decimal n) ++ 13 ∷ 10 ∷ rest) where
  pub line_inside : offset < length buffer
  line_inside = inside_here buffer offset mark _ here

  pub line_mark : at buffer offset ≡ mark
  line_mark = at_here buffer offset mark _ here

  pub line_found : find_crlf buffer offset ≡ some (line_end offset n)
  line_found =
      find_crlf_here buffer offset (mark ∷ decimal n) rest
        ((λ p. ground arith), digits_plain (decimal n) (decimal-All n)) here

  pub line_number :
      stoi (substr buffer (offset + 1) (line_end offset n - (offset + 1))) ≡ some (pos n)
  line_number =
      rw (rest_of_line, substr_here buffer (offset + 1) (decimal n) (13 ∷ 10 ∷ rest) digits)
        (stoi-decimal n small)
    where
      digits : drop (offset + 1) buffer ≡ decimal n ++ 13 ∷ 10 ∷ rest
      digits = drop-drop offset 1 buffer ∙ ap (drop 1) here

      rest_of_line : offset + length (mark ∷ decimal n) - (offset + 1) ≡ length (decimal n)
      rest_of_line = omega arith

  pub line_rest : drop (line_end offset n + 2) buffer ≡ rest
  line_rest =
      drop-drop (offset + length (mark ∷ decimal n)) 2 buffer
      ∙ ap (drop 2) (drop_behind buffer offset (mark ∷ decimal n) (13 ∷ 10 ∷ rest) here)

parse_body_here :
    (buffer : Bytes) (next : ℕ) (s rest : Bytes)
    → drop (next + 2) buffer ≡ s ++ 13 ∷ 10 ∷ rest
    → parse_body buffer next (pos (length s)) ≡ bulk (next + 2 + length s + 2) s
unfolding parse_body
parse_body_here buffer next s rest here =
    let behind = drop_behind buffer (next + 2) s (13 ∷ 10 ∷ rest) here in
    let behind' = drop-drop (next + 2 + length s) 1 buffer ∙ ap (drop 1) behind in
    ground (
      arith,
      substr_here buffer (next + 2) s (13 ∷ 10 ∷ rest) here,
      at_here buffer (next + 2 + length s) 13 (10 ∷ rest) behind,
      at_here buffer (next + 2 + length s + 1) 10 rest behind',
      inside_here buffer (next + 2 + length s + 1) 10 rest behind',
    )

-- A bulk string at an offset.
pub parse_bulk_here :
    (buffer : Bytes) (offset : ℕ) (s rest : Bytes)
    → length s < int_bound
    → drop offset buffer ≡ (b'$' ∷ decimal (length s)) ++ 13 ∷ 10 ∷ (s ++ 13 ∷ 10 ∷ rest)
    → parse_bulk buffer offset
      ≡ bulk (offset + length (b'$' ∷ decimal (length s)) + 2 + length s + 2) s
unfolding parse_bulk
parse_bulk_here buffer offset s rest small here =
    let tail = s ++ 13 ∷ 10 ∷ rest in
    ground (
      arith,
      line_inside buffer offset b'$' (length s) tail small refl here,
      line_mark buffer offset b'$' (length s) tail small refl here,
      line_found buffer offset b'$' (length s) tail small refl here,
      line_number buffer offset b'$' (length s) tail small refl here,
      parse_body_here buffer (line_end offset (length s)) s rest
          (line_rest buffer offset b'$' (length s) tail small refl here),
    )
