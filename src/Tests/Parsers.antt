-- ===== src/Tests/Parsers.antt =====
-- src/resp.cpp, src/persistence.cpp and src/replication.cpp at concrete inputs.
use velo_kv.Prelude.{
  List, take, drop, ok, inl, ◌<◌, ◌≤◌, ◌≡◌, refl, not, true, some, [], ◌∷◌, ◌++◌, Bytes, codes,
  arith, is_empty, in_range, back, pop_back, back,
}
use velo_kv.Text.Percent.{percent_encode, percent_decode, decode}
use velo_kv.Text.Percent.RoundTrip.{percent_decode-eq-decode, decode-percent_encode}
use velo_kv.Text.Decimal.{decimal, emit, parse_int, stoi, signed, scan, skip_spaces, magnitude}
use velo_kv.Text.Find.{find_byte, find_crlf, substr, at}
use velo_kv.Resp.{
  Command, Parsed, serialize_array, serialize_elements, serialize_bulk_string, parse_single_command,
  parse_array, parse_elements, parse_bulks, parse_bulk, parse_body, parse_inline, split_inline,
  strip_cr, parse, parse_loop, add_command,
}
use velo_kv.Resp.Bounds.{parse_single_command_range}
use velo_kv.Resp.Stable.{parse_single_command-stable}
use velo_kv.Client.{new_client}
use velo_kv.Client.Pieces.{read_pieces, read_pieces-serialize}
use velo_kv.Resp.Loop.{Parses, parse-Parses}
use velo_kv.Resp.Pipeline.{IsSendable, serialize_commands, parse-serialize}

program : Unit {0}
unfolding decimal emit stoi parse_int signed scan skip_spaces magnitude in_range find_byte find_crlf
    substr at serialize_array serialize_elements serialize_bulk_string serialize_commands
    parse_single_command parse_array parse_elements parse_bulks parse_bulk parse_body parse_inline
    split_inline strip_cr back pop_back parse parse_loop add_command
program = tt

abbrev get_k : Command
get_k = codes "GET" ∷ codes "k" ∷ []

abbrev cut : Bytes
cut = codes "*2"

percent_decode-eq-decode_example : percent_decode (codes "a%20b") ≡ decode (codes "a%20b")
percent_decode-eq-decode_example = percent_decode-eq-decode (codes "a%20b")

decode-percent_encode_example : decode (percent_encode (codes "a b%")) ≡ some (codes "a b%")
decode-percent_encode_example = decode-percent_encode (codes "a b%")

inline_command :
    parse (codes "PING" ++ 13 ∷ 10 ∷ [])
    ≡ some (record { input_buffer = []; commands = (codes "PING" ∷ []) ∷ []; parsed_any = true })
unfolding program
inline_command = refl

parse_single_command_range_example : (0 < 6) × (6 ≤ 6)
parse_single_command_range_example =
    parse_single_command_range (codes "PING" ++ 13 ∷ 10 ∷ []) 0 6 (codes "PING" ∷ [])
      (unfold program in refl)

parse-Parses_example :
    (p : Parsed) × (parse (codes "GET k" ++ 13 ∷ 10 ∷ cut) ≡ some p)
    × Parses (codes "GET k" ++ 13 ∷ 10 ∷ cut) p
parse-Parses_example = parse-Parses (codes "GET k" ++ 13 ∷ 10 ∷ cut)

get_k-IsSendable : IsSendable get_k
get_k-IsSendable = (refl, omega arith, (omega arith, (omega arith, tt)))

parse-serialize_example :
    parse (serialize_commands (get_k ∷ get_k ∷ []) ++ cut)
    ≡ some (record {
      input_buffer = cut;
      commands = get_k ∷ get_k ∷ [];
      parsed_any = not (is_empty (get_k ∷ get_k ∷ []));
    })
parse-serialize_example =
    parse-serialize (get_k ∷ get_k ∷ []) cut (get_k-IsSendable, (get_k-IsSendable, tt))
      (unfold program in refl)

parse_single_command-stable_example :
    parse_single_command ((codes "PING" ++ 13 ∷ 10 ∷ []) ++ cut) 0
    ≡ parse_single_command (codes "PING" ++ 13 ∷ 10 ∷ []) 0
parse_single_command-stable_example =
    parse_single_command-stable (codes "PING" ++ 13 ∷ 10 ∷ []) cut 0 (unfold program in λ p. cc)

-- The second piece ends in the middle of the second command.
abbrev some_pieces : List Bytes
some_pieces =
    take 5 (serialize_commands (get_k ∷ get_k ∷ []))
    ∷ take 20 (drop 5 (serialize_commands (get_k ∷ get_k ∷ [])))
    ∷ drop 25 (serialize_commands (get_k ∷ get_k ∷ []))
    ∷ []

read_pieces-serialize_example :
    read_pieces some_pieces (new_client 7)
    ≡ ok (get_k ∷ get_k ∷ [], record (new_client 7) { input_buffer = [] })
read_pieces-serialize_example =
    read_pieces-serialize some_pieces (get_k ∷ get_k ∷ []) (new_client 7)
      (get_k-IsSendable, (get_k-IsSendable, tt)) (inl refl) (unfold program in refl)
