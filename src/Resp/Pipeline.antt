-- ===== src/Resp/Pipeline.antt =====
-- src/resp.cpp: `parse` on a buffer that holds several commands and perhaps the start of another.
use native.Mathlib.Nat.{add-zero, zero-add, suc-add}
use velo_kv.Prelude.{
  ℕ, suc, ◌+◌, ◌-◌, ◌<◌, ◌≤◌, ◌≡◌, ◌∙◌, refl, ap, Bool, true, false, not, some, List, [], ◌∷◌, ◌++◌,
  append_assoc, append-nil, Bytes, int_bound, drop, drop-append, length, length-append, is_empty,
  All, arith,
}
use velo_kv.Text.Find.Laws.{drop_behind, inside_here}
use velo_kv.Resp.{
  Command, incomplete, parse_single_command, serialize_array, Parsed, add_command, parse_loop,
  parse,
}
use velo_kv.Resp.Loop.{parse_loop_next}
use velo_kv.Resp.RoundTrip.{IsShort, parse_single_command-serialize, length-serialize_array}

unfoldable pub serialize_commands : List Command → Bytes
serialize_commands [] = []
serialize_commands (c ∷ cs) = serialize_array c ++ serialize_commands cs

-- A command whose array the parser reports: it has an argument, and its sizes fit an `int`.
abbrev pub IsSendable : Command → Type 0
IsSendable c = (is_empty c ≡ false) × (length c < int_bound) × All IsShort c

abbrev reported : List Command → Bool → Bool
reported [] any = any
reported (c ∷ cs) any = true

reported-true : (cs : List Command) → reported cs true ≡ true
reported-true [] = refl
reported-true (c ∷ cs) = refl

reported-false : (cs : List Command) → reported cs false ≡ not (is_empty cs)
reported-false [] = refl
reported-false (c ∷ cs) = refl

array_inside :
    (c : Command) (buffer : Bytes) (offset : ℕ) (tail : Bytes)
    → drop offset buffer ≡ serialize_array c ++ tail
    → offset < length buffer
unfolding serialize_array
array_inside c buffer offset tail h = inside_here buffer offset b'*' _ h

-- The loop takes one round for each command.
parse_loop-serialize :
    (cs : List Command) (fuel offset : ℕ) (p : Parsed) (rest : Bytes)
    → All IsSendable cs
    → drop offset p.input_buffer ≡ serialize_commands cs ++ rest
    → parse_loop (length cs + fuel) offset p
      ≡ parse_loop fuel
          (offset + length (serialize_commands cs))
          (record p { commands = p.commands ++ cs; parsed_any = reported cs p.parsed_any })
unfolding serialize_commands
parse_loop-serialize [] fuel offset p rest sendable here = rw (zero-add, add-zero, append-nil)
parse_loop-serialize ([] ∷ cs) fuel offset p rest sendable here = absurd (ground arith)
parse_loop-serialize ((a ∷ c) ∷ cs) fuel offset p rest sendable here =
    let sent = serialize_array (a ∷ c) in
    let tail = serialize_commands cs ++ rest in
    let behind : drop offset p.input_buffer ≡ sent ++ tail =
      here ∙ append_assoc sent (serialize_commands cs) rest in
    rw suc-add (
      parse_loop_next (length cs + fuel) offset (offset + length sent) (a ∷ c) p
        (array_inside (a ∷ c) p.input_buffer offset tail behind)
        (parse_single_command-serialize p.input_buffer offset (a ∷ c) tail sendable.0.1 sendable.0.2
          behind)
      ∙ parse_loop-serialize cs fuel (offset + length sent) (add_command (a ∷ c) p) rest sendable.1
          (unfold add_command in drop_behind p.input_buffer offset sent tail behind)
      ∙ (unfold add_command in finish))
  where
    finish :
        parse_loop fuel
          (offset + length (serialize_array (a ∷ c)) + length (serialize_commands cs))
          (record p {
            commands = (p.commands ++ (a ∷ c) ∷ []) ++ cs;
            parsed_any = reported cs true;
          })
        ≡ parse_loop fuel
            (offset + length (serialize_array (a ∷ c) ++ serialize_commands cs))
            (record p { commands = p.commands ++ (a ∷ c) ∷ cs; parsed_any = true })
    finish = ground (
      arith,
      append_assoc p.commands ((a ∷ c) ∷ []) cs,
      reported-true cs,
      length-append (serialize_array (a ∷ c)) (serialize_commands cs),
    )

length-le : (cs : List Command) → length cs ≤ length (serialize_commands cs)
unfolding serialize_commands
length-le [] = omega arith
length-le (c ∷ cs) = omega (
  arith,
  length-append (serialize_array c) (serialize_commands cs),
  length-serialize_array c,
  length-le cs,
)

parse_loop_stop :
    (fuel offset : ℕ) (p : Parsed)
    → parse_single_command p.input_buffer offset ≡ incomplete
    → parse_loop (suc fuel) offset p ≡ some (record p { input_buffer = drop offset p.input_buffer })
unfolding parse_loop
parse_loop_stop fuel offset p e = ground arith

-- A buffer that holds whole commands, as `serialize_array` writes them, each with an argument and
-- with sizes that fit an `int`, and then bytes that are no whole command yet: `parse` reports the
-- commands, in order, and keeps exactly the bytes behind.
pub parse-serialize :
    (cs : List Command) (rest : Bytes)
    → All IsSendable cs
    → parse_single_command (serialize_commands cs ++ rest) (length (serialize_commands cs))
      ≡ incomplete
    → parse (serialize_commands cs ++ rest)
      ≡ some (record { input_buffer = rest; commands = cs; parsed_any = not (is_empty cs) })
unfolding parse
parse-serialize cs rest sendable unfinished =
    let sent = serialize_commands cs in
    let start : Parsed = record {
      input_buffer = sent ++ rest;
      commands = [];
      parsed_any = false;
    } in
    let fuel = length (sent ++ rest) - length cs in
    let rounds : suc (length (sent ++ rest)) ≡ length cs + suc fuel =
      omega (arith, length-append sent rest, length-le cs) in
    let q : Parsed = record start { commands = cs; parsed_any = reported cs false } in
    let reached : parse_loop (length cs + suc fuel) 0 start
        ≡ parse_loop (suc fuel) (length sent) q =
      parse_loop-serialize cs (suc fuel) 0 start rest sendable refl
      ∙ ap (λ (n : ℕ). parse_loop (suc fuel) n q) (zero-add (length sent)) in
    rw rounds (
      ground (
        arith,
        reached,
        parse_loop_stop fuel (length sent) q unfinished,
        drop-append sent rest,
        reported-false cs,
      ))
