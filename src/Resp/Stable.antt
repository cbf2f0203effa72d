-- ===== src/Resp/Stable.antt =====
-- src/resp.cpp: bytes that arrive later do not change what the parser has decided.
use velo_kv.Prelude.{
  ℕ, zero, suc, ◌+◌, ◌-◌, ◌<◌, ◌≤◌, ◌≡◌, ◌≢◌, ◌∙◌, refl, ap, none, some, [], ◌∷◌, ◌++◌, Bytes, ℤ,
  pos, negsuc, length, length-append, length-drop, Option, Bool-cases, ltb, leb, take, drop,
  Option-cases, inl, inr, arith,
}
use velo_kv.Text.Find.{index_of, crlf_in, find_byte, find_crlf, substr, at, shift}
use velo_kv.Text.Find.Laws.{find_byte_range, find_crlf_range}
use velo_kv.Resp.Bounds.{BulkResult-cases}
use velo_kv.Text.Decimal.{stoi}
use velo_kv.Resp.{
  Command, incomplete, bulk_incomplete, parse_body, parse_bulk, parse_bulks, parse_elements,
  parse_array, parse_inline, parse_single_command,
}

pub drop_inside : (n : ℕ) (s more : Bytes) → n ≤ length s → drop n (s ++ more) ≡ drop n s ++ more
drop_inside zero s more h = refl
drop_inside (suc n) [] more h = absurd (omega arith)
drop_inside (suc n) (c ∷ s) more h = drop_inside n s more (omega arith)

take_inside : (n : ℕ) (s more : Bytes) → n ≤ length s → take n (s ++ more) ≡ take n s
take_inside zero s more h = refl
take_inside (suc n) [] more h = absurd (omega arith)
take_inside (suc n) (c ∷ s) more h = ap (◌∷◌ c) (take_inside n s more (omega arith))

index_of-stable :
    (b : ℕ) (s more : Bytes) (i : ℕ) → index_of b s ≡ some i → index_of b (s ++ more) ≡ some i
unfolding index_of
index_of-stable b [] more i h = cc
index_of-stable b (c ∷ s) more i h = elim (Option-cases (index_of b s)) [
  | inl absent ↦ ground arith
  | inr (j, found) ↦ ground (arith, index_of-stable b s more j found)
]

crlf_in-stable : (s more : Bytes) (i : ℕ) → crlf_in s ≡ some i → crlf_in (s ++ more) ≡ some i
unfolding crlf_in
crlf_in-stable [] more i h = cc
crlf_in-stable (c ∷ []) more i h = cc
crlf_in-stable (c ∷ d ∷ s) more i h = elim (Option-cases (crlf_in (d ∷ s))) [
  | inl absent ↦ ground arith
  | inr (j, found) ↦ ground (arith, crlf_in-stable (d ∷ s) more j found)
]

at_inside : (i : ℕ) (s more : Bytes) → i < length s → at (s ++ more) i ≡ at s i
unfolding at
at_inside i [] more h = absurd (omega arith)
at_inside zero (c ∷ s) more h = refl
at_inside (suc i) (c ∷ s) more h = at_inside i s more (omega arith)

module _ (buffer more : Bytes) where
  substr-stable :
      (start n : ℕ)
      → start + n ≤ length buffer
      → substr (buffer ++ more) start n ≡ substr buffer start n
  unfolding substr
  substr-stable start n h =
      ap (take n) (drop_inside start buffer more (omega arith))
      ∙ take_inside n (drop start buffer) more (omega (arith, length-drop start buffer))

  shift_found :
      (o o' : Option ℕ) (offset i : ℕ)
      → ((j : ℕ) → o ≡ some j → o' ≡ some j)
      → shift offset o ≡ some i
      → shift offset o' ≡ some i
  shift_found none o' offset i k h = absurd (ground arith)
  shift_found (some j) o' offset i k h = rw (k j refl) h

  find_byte-stable :
      (b offset i : ℕ)
      → find_byte b buffer offset ≡ some i
      → find_byte b (buffer ++ more) offset ≡ some i
  unfolding find_byte
  find_byte-stable b offset i h =
      shift_found (index_of b (drop offset buffer)) (index_of b (drop offset (buffer ++ more)))
        offset i
        (λ j found.
          ap (index_of b) (
            drop_inside offset buffer more
              (let (after, fits) = find_byte_range b buffer offset i h in omega arith))
          ∙ index_of-stable b (drop offset buffer) more j found)
        h

  find_crlf-stable :
      (offset i : ℕ) → find_crlf buffer offset ≡ some i → find_crlf (buffer ++ more) offset ≡ some i
  unfolding find_crlf
  find_crlf-stable offset i h =
      let (after, fits) = find_crlf_range buffer offset i h in
      shift_found (crlf_in (drop offset buffer)) (crlf_in (drop offset (buffer ++ more))) offset i
        (λ j found.
          ap crlf_in (drop_inside offset buffer more (omega arith))
          ∙ crlf_in-stable (drop offset buffer) more j found)
        h

  parse_body-stable :
      (next : ℕ) (len : ℤ)
      → next + 2 ≤ length buffer
      → parse_body buffer next len ≢ bulk_incomplete
      → parse_body (buffer ++ more) next len ≡ parse_body buffer next len
  unfolding parse_body
  parse_body-stable next (negsuc n) inside h = refl
  parse_body-stable next (pos n) inside h =
      elim (Bool-cases (ltb (length buffer) (next + 2 + n + 2))) [
        | inl short ↦ absurd (h (rw short refl))
        | inr long ↦ ground (
          arith,
          length-append buffer more,
          at_inside (next + 2 + n) buffer more (ground arith),
          at_inside (next + 2 + n + 1) buffer more (ground arith),
          substr-stable (next + 2) n (ground arith),
        )
      ]

  parse_bulk-stable :
      (offset : ℕ)
      → parse_bulk buffer offset ≢ bulk_incomplete
      → parse_bulk (buffer ++ more) offset ≡ parse_bulk buffer offset
  unfolding parse_bulk
  parse_bulk-stable offset h = elim (Bool-cases (leb (length buffer) offset)) [
    | inl out ↦ absurd (h (rw out refl))
    | inr inside ↦ elim (Option-cases (find_crlf buffer offset)) [
      | inl absent ↦
          ground (arith, length-append buffer more, at_inside offset buffer more (ground arith))
      | inr (next, found) ↦
          let (after, fits) = find_crlf_range buffer offset next found in
          let line = substr-stable (offset + 1) (next - (offset + 1)) (omega arith) in
          elim (Option-cases (stoi (substr buffer (offset + 1) (next - (offset + 1))))) [
            | inl bad ↦ ground (
              arith,
              length-append buffer more,
              at_inside offset buffer more (ground arith),
              find_crlf-stable offset next found,
            )
            | inr (len, read) ↦ ground (
              arith,
              length-append buffer more,
              at_inside offset buffer more (ground arith),
              find_crlf-stable offset next found,
              parse_body-stable next len fits,
            )
          ]
    ]
  ]

  parse_bulks-stable :
      (count offset : ℕ) (cmd : Command)
      → parse_bulks count buffer offset cmd ≢ incomplete
      → parse_bulks count (buffer ++ more) offset cmd ≡ parse_bulks count buffer offset cmd
  unfolding parse_bulks
  parse_bulks-stable zero offset cmd h = refl
  parse_bulks-stable (suc count) offset cmd h = elim (BulkResult-cases (parse_bulk buffer offset)) [
    | inl (inl cut) ↦ absurd (ground arith)
    | inl (inr bad) ↦ ground (arith, parse_bulk-stable offset (λ p. ground arith))
    | inr (mid, s, e) ↦ ground (
      arith,
      parse_bulk-stable offset (λ p. ground arith),
      parse_bulks-stable count mid (cmd ++ s ∷ []),
    )
  ]

  parse_elements-stable :
      (next : ℕ) (n : ℤ)
      → parse_elements buffer next n ≢ incomplete
      → parse_elements (buffer ++ more) next n ≡ parse_elements buffer next n
  unfolding parse_elements
  parse_elements-stable next (negsuc n) h = refl
  parse_elements-stable next (pos n) h = parse_bulks-stable n (next + 2) [] h

  parse_array-stable :
      (offset : ℕ)
      → parse_array buffer offset ≢ incomplete
      → parse_array (buffer ++ more) offset ≡ parse_array buffer offset
  unfolding parse_array
  parse_array-stable offset h = elim (Option-cases (find_crlf buffer offset)) [
    | inl absent ↦ absurd (ground arith)
    | inr (next, found) ↦
        let (after, fits) = find_crlf_range buffer offset next found in
        let line = substr-stable (offset + 1) (next - (offset + 1)) (omega arith) in
        elim (Option-cases (stoi (substr buffer (offset + 1) (next - (offset + 1))))) [
          | inl bad ↦ ground (arith, find_crlf-stable offset next found)
          | inr (n, read) ↦
              ground (arith, find_crlf-stable offset next found, parse_elements-stable next n)
        ]
  ]

  parse_inline-stable :
      (offset : ℕ)
      → parse_inline buffer offset ≢ incomplete
      → parse_inline (buffer ++ more) offset ≡ parse_inline buffer offset
  unfolding parse_inline
  parse_inline-stable offset h = elim (Option-cases (find_byte 10 buffer offset)) [
    | inl absent ↦ absurd (ground arith)
    | inr (next, found) ↦
        let (after, fits) = find_byte_range 10 buffer offset next found in
        let line = substr-stable offset (next - offset) (omega arith) in
        ground (arith, find_byte-stable 10 offset next found)
  ]

  -- What the parser has decided at an offset of a buffer, a command or an error of the protocol, it
  -- decides in the same way when more bytes stand behind: only a command that is not whole yet may
  -- be read differently later.
  pub parse_single_command-stable :
      (offset : ℕ)
      → parse_single_command buffer offset ≢ incomplete
      → parse_single_command (buffer ++ more) offset ≡ parse_single_command buffer offset
  unfolding parse_single_command
  parse_single_command-stable offset h = elim (Bool-cases (leb (length buffer) offset)) [
    | inl out ↦ absurd (h (rw out refl))
    | inr inside ↦ ground (
      arith,
      length-append buffer more,
      at_inside offset buffer more (ground arith),
      parse_array-stable offset,
      parse_inline-stable offset,
    )
  ]
