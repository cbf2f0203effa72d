-- ===== src/Resp/RoundTrip.antt =====
-- src/resp.cpp: the parser reads back what `serialize_array` writes, and leaves the bytes behind it.
use native.Mathlib.Nat.{add-zero}
use velo_kv.Prelude.{
  ℕ, suc, ◌+◌, ◌<◌, ◌≡◌, ◌∙◌, refl, ap, ap₂, List, [], ◌∷◌, ◌++◌, append_assoc, append-nil, Bytes,
  int_bound, drop, length, length-append, All, arith,
}
use velo_kv.Text.Decimal.{decimal}
use velo_kv.Text.Find.Laws.{drop_behind}
use velo_kv.Resp.{
  Command, success, bulk, parse_bulk, parse_bulks, parse_elements, parse_array,
  parse_single_command, crlf, serialize_bulk_string, serialize_elements, serialize_array,
}
use velo_kv.Resp.Lines.{
  line_end, line_inside, line_mark, line_found, line_number, line_rest, parse_bulk_here,
}

-- Its length fits an `int`.
abbrev pub IsShort : Bytes → Type 0
IsShort s = length s < int_bound

serialize_bulk_string-append :
    (s rest : Bytes)
    → serialize_bulk_string s ++ rest
      ≡ (b'$' ∷ decimal (length s)) ++ 13 ∷ 10 ∷ (s ++ 13 ∷ 10 ∷ rest)
unfolding serialize_bulk_string
serialize_bulk_string-append s rest = simp append_assoc

length-serialize_bulk_string :
    (s : Bytes)
    → length (serialize_bulk_string s) ≡ suc (length (decimal (length s))) + 2 + length s + 2
unfolding serialize_bulk_string
length-serialize_bulk_string s =
    omega (arith, length-append (decimal (length s)) (crlf ++ (s ++ crlf)), length-append s crlf)

parse_bulk-serialize :
    (buffer : Bytes) (offset : ℕ) (s rest : Bytes)
    → IsShort s
    → drop offset buffer ≡ serialize_bulk_string s ++ rest
    → parse_bulk buffer offset ≡ bulk (offset + length (serialize_bulk_string s)) s
parse_bulk-serialize buffer offset s rest short here =
    parse_bulk_here buffer offset s rest short (here ∙ serialize_bulk_string-append s rest)
    ∙ ap (λ (n : ℕ). bulk n s) (omega (arith, length-serialize_bulk_string s))

parse_bulks_next :
    (count : ℕ) (buffer : Bytes) (offset offset' : ℕ) (s : Bytes) (cmd : Command)
    → parse_bulk buffer offset ≡ bulk offset' s
    → parse_bulks (suc count) buffer offset cmd ≡ parse_bulks count buffer offset' (cmd ++ s ∷ [])
unfolding parse_bulks
parse_bulks_next count buffer offset offset' s cmd e = ground arith

parse_bulks-serialize :
    (es : List Bytes) (buffer : Bytes) (offset : ℕ) (rest : Bytes) (cmd : Command)
    → All IsShort es
    → drop offset buffer ≡ serialize_elements es ++ rest
    → parse_bulks (length es) buffer offset cmd
      ≡ success (offset + length (serialize_elements es)) (cmd ++ es)
unfolding serialize_elements
parse_bulks-serialize [] buffer offset rest cmd short here =
    unfold parse_bulks in rw (append-nil, add-zero)
parse_bulks-serialize (e ∷ es) buffer offset rest cmd short here =
    let behind : drop offset buffer ≡ serialize_bulk_string e ++ (serialize_elements es ++ rest) =
      here ∙ append_assoc (serialize_bulk_string e) (serialize_elements es) rest in
    parse_bulks_next (length es) buffer offset (offset + length (serialize_bulk_string e)) e cmd
      (parse_bulk-serialize buffer offset e (serialize_elements es ++ rest) short.0 behind)
    ∙ parse_bulks-serialize es buffer (offset + length (serialize_bulk_string e)) rest
        (cmd ++ e ∷ []) short.1
        (drop_behind buffer offset (serialize_bulk_string e) (serialize_elements es ++ rest) behind)
    ∙ ap₂ success (omega (arith, length-append (serialize_bulk_string e) (serialize_elements es)))
        (append_assoc cmd (e ∷ []) es)

serialize_array-append :
    (es : List Bytes) (rest : Bytes)
    → serialize_array es ++ rest
      ≡ (b'*' ∷ decimal (length es)) ++ 13 ∷ 10 ∷ (serialize_elements es ++ rest)
unfolding serialize_array
serialize_array-append es rest = simp append_assoc

pub length-serialize_array :
    (es : List Bytes)
    → length (serialize_array es)
      ≡ suc (length (decimal (length es))) + 2 + length (serialize_elements es)
unfolding serialize_array
length-serialize_array es =
    omega (arith, length-append (decimal (length es)) (crlf ++ serialize_elements es))

-- A command with sizes that fit an `int`, serialised at an offset of a buffer, is read back, and
-- the parse ends behind it.
pub parse_single_command-serialize :
    (buffer : Bytes) (offset : ℕ) (es : List Bytes) (rest : Bytes)
    → length es < int_bound
    → All IsShort es
    → drop offset buffer ≡ serialize_array es ++ rest
    → parse_single_command buffer offset ≡ success (offset + length (serialize_array es)) es
unfolding parse_single_command parse_array parse_elements
parse_single_command-serialize buffer offset es rest few short here =
    let line : drop offset buffer
        ≡ (b'*' ∷ decimal (length es)) ++ 13 ∷ 10 ∷ (serialize_elements es ++ rest) =
      here ∙ serialize_array-append es rest in
    let tail = serialize_elements es ++ rest in
    let n = length es in
    ground (
      arith,
      line_inside buffer offset b'*' n tail few refl line,
      line_mark buffer offset b'*' n tail few refl line,
      line_found buffer offset b'*' n tail few refl line,
      line_number buffer offset b'*' n tail few refl line,
      parse_bulks-serialize es buffer (line_end offset n + 2) rest [] short
          (line_rest buffer offset b'*' n tail few refl line),
      length-serialize_array es,
    )
