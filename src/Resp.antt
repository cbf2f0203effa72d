-- ===== src/Resp.antt =====
-- src/resp.hpp and src/resp.cpp: the parser of the protocol and the serialisers.
pub mod Bounds
pub mod Stable
pub mod Loop
pub mod Lines
pub mod RoundTrip
pub mod Pipeline
pub mod Pieces
use velo_kv.Prelude.{
  ℕ, zero, suc, ◌+◌, ◌-◌, Bool, true, false, not, ◌&&◌, ◌||◌, Option, none, some, List, [], ◌∷◌,
  ◌++◌, Bytes, codes, ℤ, pos, negsuc, nat_beq, ltb, leb, length, is_empty, back, pop_back, drop,
  if◌then◌else◌,
}
use velo_kv.Text.Decimal.{decimal, to_string, stoi}
use velo_kv.Text.Find.{find_byte, find_crlf, substr, at}

abbrev pub Command : Type 0
Command = List Bytes

abbrev pub crlf : Bytes
crlf = 13 ∷ 10 ∷ []

unfoldable pub serialize_simple_string : Bytes → Bytes
serialize_simple_string s = b'+' ∷ (s ++ crlf)

unfoldable pub serialize_error : Bytes → Bytes
serialize_error err = b'-' ∷ (err ++ crlf)

unfoldable pub serialize_bulk_string : Bytes → Bytes
unfolding decimal
serialize_bulk_string s = b'$' ∷ (decimal (length s) ++ (crlf ++ (s ++ crlf)))

unfoldable pub serialize_null_bulk_string : Bytes
serialize_null_bulk_string = b'$' ∷ b'-' ∷ b'1' ∷ crlf

unfoldable pub serialize_integer : ℤ → Bytes
unfolding to_string
serialize_integer val = b':' ∷ (to_string val ++ crlf)

-- The loop of `serialize_array`.
unfoldable pub serialize_elements : List Bytes → Bytes
unfolding serialize_bulk_string
serialize_elements [] = []
serialize_elements (e ∷ es) = serialize_bulk_string e ++ serialize_elements es

unfoldable pub serialize_array : List Bytes → Bytes
unfolding serialize_elements decimal
serialize_array elements =
    b'*' ∷ (decimal (length elements) ++ (crlf ++ serialize_elements elements))

-- `ParseResult`, with the offset and the command that success leaves.
pub data ParseResult : Type 0 where
  success : ℕ → Command → ParseResult
  incomplete protocol_error : ParseResult

-- One round of the loop over the bulk strings: the new offset and the string, or the early return.
pub data BulkResult : Type 0 where
  bulk : ℕ → Bytes → BulkResult
  bulk_incomplete bulk_error : BulkResult

-- The round behind the length, whose line ends at `next`.
unfoldable pub parse_body : Bytes → ℕ → ℤ → BulkResult
unfolding at substr
parse_body buffer next (negsuc n) = bulk (next + 2) []
parse_body buffer next (pos n) =
    let start = next + 2 in
    if ltb (length buffer) (start + n + 2)
    then bulk_incomplete
    else if not (nat_beq (at buffer (start + n)) 13) || not (nat_beq (at buffer (start + n + 1)) 10)
    then bulk_error
    else bulk (start + n + 2) (substr buffer start n)

unfoldable pub parse_bulk : Bytes → ℕ → BulkResult
unfolding at substr stoi find_crlf parse_body
parse_bulk buffer offset =
    if leb (length buffer) offset
    then bulk_incomplete
    else if not (nat_beq (at buffer offset) b'$')
    then bulk_error
    else elim (find_crlf buffer offset) [
      | none ↦ bulk_incomplete
      | some next ↦ elim (stoi (substr buffer (offset + 1) (next - (offset + 1)))) [
        | none ↦ bulk_error
        | some len ↦ parse_body buffer next len
      ]
    ]

-- The loop over the `count` bulk strings that are left.
unfoldable pub parse_bulks : ℕ → Bytes → ℕ → Command → ParseResult
unfolding parse_bulk
parse_bulks zero buffer offset cmd = success offset cmd
parse_bulks (suc count) buffer offset cmd = elim (parse_bulk buffer offset) [
  | bulk offset' s ↦ parse_bulks count buffer offset' (cmd ++ s ∷ [])
  | bulk_incomplete ↦ incomplete
  | bulk_error ↦ protocol_error
]

unfoldable pub parse_elements : Bytes → ℕ → ℤ → ParseResult
unfolding parse_bulks
parse_elements buffer next (negsuc n) = success (next + 2) []
parse_elements buffer next (pos n) = parse_bulks n buffer (next + 2) []

unfoldable pub parse_array : Bytes → ℕ → ParseResult
unfolding substr stoi find_crlf parse_elements
parse_array buffer offset = elim (find_crlf buffer offset) [
  | none ↦ incomplete
  | some next ↦ elim (stoi (substr buffer (offset + 1) (next - (offset + 1)))) [
    | none ↦ protocol_error
    | some num_elements ↦ parse_elements buffer next num_elements
  ]
]

-- `if (!line.empty() && line.back() == '\r') line.pop_back();`
unfoldable pub strip_cr : Bytes → Bytes
unfolding back pop_back
strip_cr line = elim (back line) [
  | none ↦ line
  | some c ↦ if nat_beq c 13 then pop_back line else line
]

abbrev pub push_arg : Bytes → Command → Command
push_arg [] cmd = cmd
push_arg (c ∷ s) cmd = cmd ++ (c ∷ s) ∷ []

-- The loop over an inline command, with its three variables.
unfoldable pub split_inline : Bytes → Bool → Bytes → Command → Command
split_inline [] in_quotes current cmd = push_arg current cmd
split_inline (c ∷ line) in_quotes current cmd = elim (nat_beq c 34) [
  | true ↦ split_inline line (not in_quotes) current cmd
  | false ↦ elim (nat_beq c 32 && not in_quotes) [
    | true ↦ split_inline line in_quotes [] (push_arg current cmd)
    | false ↦ split_inline line in_quotes (current ++ c ∷ []) cmd
  ]
]

unfoldable pub parse_inline : Bytes → ℕ → ParseResult
unfolding find_byte substr strip_cr split_inline
parse_inline buffer offset = elim (find_byte 10 buffer offset) [
  | none ↦ incomplete
  | some next ↦
      success (next + 1)
        (split_inline (strip_cr (substr buffer offset (next - offset))) false [] [])
]

unfoldable pub parse_single_command : Bytes → ℕ → ParseResult
unfolding parse_array parse_inline at
parse_single_command buffer offset =
    if leb (length buffer) offset
    then incomplete
    else if nat_beq (at buffer offset) b'*'
    then parse_array buffer offset
    else parse_inline buffer offset

-- What `parse` leaves: the buffer, the commands, and whether there was one.
pub record Parsed : Type 0 where
  pub input_buffer : Bytes
  pub commands : List Command
  pub parsed_any : Bool

unfoldable pub add_command : Command → Parsed → Parsed
add_command [] p = p
add_command (a ∷ cmd) p = record p { commands = p.commands ++ (a ∷ cmd) ∷ []; parsed_any = true }

-- The loop of `parse` at an offset; `none` is out of fuel. `p.input_buffer` is the whole buffer.
unfoldable pub parse_loop : ℕ → ℕ → Parsed → Option Parsed
unfolding parse_single_command add_command
parse_loop zero offset p = none
parse_loop (suc fuel) offset p = elim (ltb offset (length p.input_buffer)) [
  | false ↦ some (record p { input_buffer = drop offset p.input_buffer })
  | true ↦ elim (parse_single_command p.input_buffer offset) [
    | success offset' cmd ↦ parse_loop fuel offset' (add_command cmd p)
    | incomplete ↦ some (record p { input_buffer = drop offset p.input_buffer })
    | protocol_error ↦ some (record p { input_buffer = [] })
  ]
]

unfoldable pub parse : Bytes → Option Parsed
unfolding parse_loop
parse input_buffer =
    parse_loop (suc (length input_buffer)) 0
      (record { input_buffer = input_buffer; commands = []; parsed_any = false })
