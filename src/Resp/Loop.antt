-- ===== src/Resp/Loop.antt =====
-- src/resp.cpp: the loop of `parse` ends, and what it leaves.
use velo_kv.Prelude.{
  ℕ, zero, suc, ◌+◌, ◌<◌, ◌≤◌, ◌≡◌, not, is_empty, All, All-append, ◌∙◌, refl, false, some, List,
  [], ◌∷◌, ◌++◌, Bytes, ltb, drop, length, Bool-cases, inl, inr, arith, sym,
}
use velo_kv.Resp.{Command, success, parse_single_command, Parsed, add_command, parse_loop, parse}
use velo_kv.Resp.Bounds.{ParseResult-cases, parse_single_command_range}

-- The commands so far: none is empty, and `parsed_any` tells whether there is one.
pub record IsSound (p : Parsed) : Type 0 where
  pub nonempty : All (λ c. is_empty c ≡ false) p.commands
  pub any : p.parsed_any ≡ not (is_empty p.commands)

not_empty_append : (cs : List Command) (c : Command) → is_empty (cs ++ c ∷ []) ≡ false
not_empty_append [] c = refl
not_empty_append (d ∷ cs) c = refl

add_command-IsSound : (cmd : Command) (p : Parsed) → IsSound p → IsSound (add_command cmd p)
unfolding add_command
add_command-IsSound [] p s = s
add_command-IsSound (a ∷ cmd) p s = record {
  nonempty = All-append _ p.commands ((a ∷ cmd) ∷ []) s.nonempty (refl, tt);
  any = rw (not_empty_append p.commands (a ∷ cmd));
}

input_buffer-add_command :
    (cmd : Command) (p : Parsed) → (add_command cmd p).input_buffer ≡ p.input_buffer
unfolding add_command
input_buffer-add_command [] p = refl
input_buffer-add_command (a ∷ cmd) p = refl

-- What `parse` promises of the buffer that it was given.
pub record Parses (buffer : Bytes) (p : Parsed) : Type 0 where
  pub sound : IsSound p
  pub consumed : ℕ
  pub suffix : p.input_buffer ≡ drop consumed buffer

drop-length : (s : Bytes) → drop (length s) s ≡ []
drop-length [] = refl
drop-length (c ∷ s) = drop-length s

stopped :
    (p : Parsed) (offset : ℕ)
    → IsSound p
    → Parses p.input_buffer (record p { input_buffer = drop offset p.input_buffer })
stopped p offset s = record {
  sound = record { nonempty = s.nonempty; any = s.any };
  consumed = offset;
  suffix = refl;
}

cleared : (p : Parsed) → IsSound p → Parses p.input_buffer (record p { input_buffer = [] })
cleared p s = record {
  sound = record { nonempty = s.nonempty; any = s.any };
  consumed = length p.input_buffer;
  suffix = sym (drop-length p.input_buffer);
}

pub parse_loop_next :
    (fuel offset offset' : ℕ) (cmd : Command) (p : Parsed)
    → offset < length p.input_buffer
    → parse_single_command p.input_buffer offset ≡ success offset' cmd
    → parse_loop (suc fuel) offset p ≡ parse_loop fuel offset' (add_command cmd p)
unfolding parse_loop
parse_loop_next fuel offset offset' cmd p inside e = ground arith

parse_loop-Parses :
    (fuel offset : ℕ) (p : Parsed)
    → IsSound p
    → offset ≤ length p.input_buffer
    → length p.input_buffer < fuel + offset
    → (p' : Parsed) × (parse_loop fuel offset p ≡ some p') × Parses p.input_buffer p'
unfolding parse_loop
parse_loop-Parses zero offset p s inside enough = absurd (omega arith)
parse_loop-Parses (suc fuel) offset p s inside enough =
    elim (Bool-cases (ltb offset (length p.input_buffer))) [
      | inr done ↦
          (record p { input_buffer = drop offset p.input_buffer }, ground arith, stopped p offset s)
      | inl more ↦ elim (ParseResult-cases (parse_single_command p.input_buffer offset)) [
        | inr (inl e) ↦ (
          record p { input_buffer = drop offset p.input_buffer },
          ground arith,
          stopped p offset s,
        )
        | inr (inr e) ↦ (record p { input_buffer = [] }, ground arith, cleared p s)
        | inl (offset', cmd, e) ↦
            let (after, inside') = parse_single_command_range p.input_buffer offset offset' cmd e in
            let same = input_buffer-add_command cmd p in
            let (p', ends, parses) =
              parse_loop-Parses fuel offset' (add_command cmd p) (add_command-IsSound cmd p s)
                (rw same inside') (rw same (omega arith)) in
            (
              p',
              parse_loop_next fuel offset offset' cmd p (ground arith) e ∙ ends,
              rw same at parses,
            )
      ]
    ]

-- `parse` always ends. The bytes that it leaves are the end of the buffer, no command that it
-- reports is empty, and it returns true exactly when it reports one.
pub parse-Parses : (buffer : Bytes) → (p : Parsed) × (parse buffer ≡ some p) × Parses buffer p
unfolding parse
parse-Parses buffer =
    parse_loop-Parses (suc (length buffer)) 0
      (record { input_buffer = buffer; commands = []; parsed_any = false })
      (record { nonempty = tt; any = refl }) (omega arith) (omega arith)
