-- ===== src/Resp/Bounds.antt =====
-- src/resp.cpp: every parse moves forward inside the buffer.
use velo_kv.Prelude.{
  ℕ, zero, suc, ◌+◌, ◌-◌, ◌<◌, ◌≤◌, ◌≡◌, ◌⊎◌, refl, [], ◌∷◌, ◌++◌, Bytes, ℤ, pos, negsuc, length,
  Option-cases, inl, inr, arith,
}
use velo_kv.Text.Find.{find_byte, find_crlf, substr}
use velo_kv.Text.Decimal.{stoi}
use velo_kv.Text.Find.Laws.{find_byte_range, find_crlf_range}
use velo_kv.Resp.{
  Command, ParseResult, success, incomplete, protocol_error, BulkResult, bulk, bulk_incomplete,
  bulk_error, parse_body, parse_bulk, parse_bulks, parse_elements, parse_array, parse_inline,
  parse_single_command,
}

-- A round that succeeds ends behind its start and inside the buffer.
parse_body_range :
    (buffer : Bytes) (next : ℕ) (len : ℤ) (offset' : ℕ) (s : Bytes)
    → next + 2 ≤ length buffer
    → parse_body buffer next len ≡ bulk offset' s
    → (next < offset') × (offset' ≤ length buffer)
unfolding parse_body
parse_body_range buffer next (negsuc n) offset' s fits h = ground arith
parse_body_range buffer next (pos n) offset' s fits h = ground arith

parse_bulk_range :
    (buffer : Bytes) (offset offset' : ℕ) (s : Bytes)
    → parse_bulk buffer offset ≡ bulk offset' s
    → (offset < offset') × (offset' ≤ length buffer)
unfolding parse_bulk
parse_bulk_range buffer offset offset' s h = elim (Option-cases (find_crlf buffer offset)) [
  | inl absent ↦ ground arith
  | inr (next, found) ↦
      let (after, fits) = find_crlf_range buffer offset next found in
      elim (Option-cases (stoi (substr buffer (offset + 1) (next - (offset + 1))))) [
        | inl bad ↦ ground arith
        | inr (len, read) ↦ ground (arith, parse_body_range buffer next len offset' s fits)
      ]
]

pub BulkResult-cases :
    (r : BulkResult)
    → ((r ≡ bulk_incomplete) ⊎ (r ≡ bulk_error))
      ⊎ ((offset : ℕ) × (s : Bytes) × (r ≡ bulk offset s))
BulkResult-cases (bulk offset s) = inr (offset, s, refl)
BulkResult-cases bulk_incomplete = inl (inl refl)
BulkResult-cases bulk_error = inl (inr refl)

pub ParseResult-cases :
    (r : ParseResult)
    → ((offset : ℕ) × (cmd : Command) × (r ≡ success offset cmd))
      ⊎ ((r ≡ incomplete) ⊎ (r ≡ protocol_error))
ParseResult-cases (success offset cmd) = inl (offset, cmd, refl)
ParseResult-cases incomplete = inr (inl refl)
ParseResult-cases protocol_error = inr (inr refl)

parse_bulks_range :
    (count : ℕ) (buffer : Bytes) (offset : ℕ) (cmd : Command) (offset' : ℕ) (cmd' : Command)
    → offset ≤ length buffer
    → parse_bulks count buffer offset cmd ≡ success offset' cmd'
    → (offset ≤ offset') × (offset' ≤ length buffer)
unfolding parse_bulks
parse_bulks_range zero buffer offset cmd offset' cmd' fits h = ground arith
parse_bulks_range (suc count) buffer offset cmd offset' cmd' fits h =
    elim (BulkResult-cases (parse_bulk buffer offset)) [
      | inl stopped ↦ ground arith
      | inr (mid, s, e) ↦
          let (after, inside) = parse_bulk_range buffer offset mid s e in
          ground (arith, parse_bulks_range count buffer mid (cmd ++ s ∷ []) offset' cmd' inside)
    ]

parse_elements_range :
    (buffer : Bytes) (next : ℕ) (n : ℤ) (offset' : ℕ) (cmd : Command)
    → next + 2 ≤ length buffer
    → parse_elements buffer next n ≡ success offset' cmd
    → (next < offset') × (offset' ≤ length buffer)
unfolding parse_elements
parse_elements_range buffer next (negsuc n) offset' cmd fits h = ground arith
parse_elements_range buffer next (pos n) offset' cmd fits h =
    omega (arith, parse_bulks_range n buffer (next + 2) [] offset' cmd fits h)

parse_array_range :
    (buffer : Bytes) (offset offset' : ℕ) (cmd : Command)
    → parse_array buffer offset ≡ success offset' cmd
    → (offset < offset') × (offset' ≤ length buffer)
unfolding parse_array
parse_array_range buffer offset offset' cmd h = elim (Option-cases (find_crlf buffer offset)) [
  | inl absent ↦ ground arith
  | inr (next, found) ↦
      let (after, fits) = find_crlf_range buffer offset next found in
      elim (Option-cases (stoi (substr buffer (offset + 1) (next - (offset + 1))))) [
        | inl bad ↦ ground arith
        | inr (n, read) ↦ ground (arith, parse_elements_range buffer next n offset' cmd fits)
      ]
]

parse_inline_range :
    (buffer : Bytes) (offset offset' : ℕ) (cmd : Command)
    → parse_inline buffer offset ≡ success offset' cmd
    → (offset < offset') × (offset' ≤ length buffer)
unfolding parse_inline
parse_inline_range buffer offset offset' cmd h = elim (Option-cases (find_byte 10 buffer offset)) [
  | inl absent ↦ ground arith
  | inr (next, found) ↦ ground (arith, find_byte_range 10 buffer offset next found)
]

-- A command that was parsed, from either format, took at least one byte, and none beyond the end
-- of the buffer.
pub parse_single_command_range :
    (buffer : Bytes) (offset offset' : ℕ) (cmd : Command)
    → parse_single_command buffer offset ≡ success offset' cmd
    → (offset < offset') × (offset' ≤ length buffer)
unfolding parse_single_command
parse_single_command_range buffer offset offset' cmd h = ground (
  arith,
  parse_array_range buffer offset offset' cmd,
  parse_inline_range buffer offset offset' cmd,
)
