-- ===== src/Resp/Pieces.antt =====
-- src/resp.cpp and src/client.cpp: commands that arrive in pieces.
use velo_kv.Prelude.{
  ℕ, ◌+◌, ◌<◌, ◌≤◌, ◌≡◌, ◌⊎◌, ◌∙◌, refl, ap, sym, subst, false, List, [], ◌∷◌, ◌++◌, append_assoc,
  append-nil, Bytes, length, length-append, length-drop, ◌≢◌, drop, drop-append, is_empty, All,
  Bool-cases, ltb, inl, inr, arith,
}
use velo_kv.Resp.{Command, success, incomplete, parse_single_command, serialize_array}
use velo_kv.Resp.Bounds.{ParseResult-cases, parse_single_command_range}
use velo_kv.Resp.RoundTrip.{parse_single_command-serialize, length-serialize_array}
use velo_kv.Resp.Stable.{parse_single_command-stable, drop_inside}
use velo_kv.Resp.Pipeline.{serialize_commands, IsSendable}

-- Two ways to cut the same list.
split_at :
    {A : Type 0} (a b s t : List A)
    → a ++ b ≡ s ++ t
    → length a ≤ length s
    → (r : List A) × (s ≡ a ++ r) × (b ≡ r ++ t)
split_at [] b s t same le = (s, refl, same)
split_at (x ∷ a) b [] t same le = absurd (omega arith)
split_at (x ∷ a) b (y ∷ s) t same le =
    let (r, front, back) = split_at a b s t (ground arith) (omega arith) in (r, ground arith, back)

rest_full : (a r s : Bytes) → s ≡ a ++ r → length a < length s → is_empty r ≡ false
rest_full a [] s same short = absurd (omega (arith, length-append a [], ap (length {A = ℕ}) same))
rest_full a (x ∷ r) s same short = refl

length_full : (q : Bytes) → is_empty q ≡ false → 0 < length q
length_full [] h = absurd (ground arith)
length_full (c ∷ q) h = omega arith

-- A command of which the last bytes `q` have not come yet.
pub cut-incomplete :
    (buffer : Bytes) (offset : ℕ) (a q : Bytes) (es : Command)
    → IsSendable es
    → offset ≤ length buffer
    → drop offset buffer ≡ a
    → a ++ q ≡ serialize_array es
    → is_empty q ≡ false
    → parse_single_command buffer offset ≡ incomplete
cut-incomplete buffer offset a q es sendable inside here whole open_end =
    elim (ParseResult-cases (parse_single_command buffer offset)) [
      | inr (inl cut) ↦ cut
      | inr (inr bad) ↦ absurd (ground (arith, decided (λ p. ground arith), parsed))
      | inl (offset', cmd, done) ↦
          let within = parse_single_command_range buffer offset offset' cmd done in
          absurd (
            ground (
              arith,
              decided (λ p. ground arith),
              parsed,
              length_of_buffer,
              length_of_cut,
              length_full q open_end,
            ))
    ]
  where
    decided :
        parse_single_command buffer offset ≢ incomplete
        → parse_single_command (buffer ++ q) offset ≡ parse_single_command buffer offset
    decided = parse_single_command-stable buffer q offset

    parsed :
        parse_single_command (buffer ++ q) offset
        ≡ success (offset + length (serialize_array es)) es
    parsed = parse_single_command-serialize (buffer ++ q) offset es [] sendable.1 sendable.2 (
        drop_inside offset buffer q inside
        ∙ ap (λ b. b ++ q) here
        ∙ whole
        ∙ sym (append-nil (serialize_array es)))

    length_of_buffer : offset + length a ≡ length buffer
    length_of_buffer = omega (arith, length-drop offset buffer, ap (length {A = ℕ}) here)

    length_of_cut : length a + length q ≡ length (serialize_array es)
    length_of_cut = omega (arith, length-append a q, ap (length {A = ℕ}) whole)

-- What is left in a buffer that holds whole commands of `cs` no more: nothing, or a part of the first.
abbrev pub IsCut : Bytes → List Command → Type 0
IsCut p cs =
    (p ≡ [])
    ⊎ ((c : Command) × (rest : List Command) × (q : Bytes) × (cs ≡ c ∷ rest)
        × (p ++ q ≡ serialize_array c)
        × (is_empty q ≡ false))

-- The first `a` bytes of the commands: those that are whole, and a part of the next.
pub record Pieces (cs : List Command) (a b : Bytes) : Type 0 where
  pub first : List Command
  pub later : List Command
  pub part : Bytes
  pub commands : cs ≡ first ++ later
  pub front : a ≡ serialize_commands first ++ part
  pub behind : part ++ b ≡ serialize_commands later
  pub cut : IsCut part later

pub pieces : (cs : List Command) (a b : Bytes) → a ++ b ≡ serialize_commands cs → Pieces cs a b
unfolding serialize_commands
pieces [] [] b whole = record {
  first = [];
  later = [];
  part = [];
  commands = refl;
  front = refl;
  behind = whole;
  cut = inl refl;
}
pieces [] (x ∷ a) b whole = absurd (ground arith)
pieces (c ∷ cs) a b whole = elim (Bool-cases (ltb (length a) (length (serialize_array c)))) [
  | inl short ↦
      let (r, front, back) =
        split_at a b (serialize_array c) (serialize_commands cs) whole (ground arith) in
      record {
        first = [];
        later = c ∷ cs;
        part = a;
        commands = refl;
        front = refl;
        behind = whole;
        cut =
            inr (c, cs, r, refl, sym front, rest_full a r (serialize_array c) front (ground arith));
      }
  | inr long ↦
      let (r, front, back) =
        split_at (serialize_array c) (serialize_commands cs) a b (sym whole) (ground arith) in
      let h = pieces cs r b (sym back) in
      record {
        first = c ∷ h.first;
        later = h.later;
        part = h.part;
        commands = ap (◌∷◌ c) h.commands;
        front =
            front
            ∙ ap (λ x. serialize_array c ++ x) h.front
            ∙ sym (append_assoc (serialize_array c) (serialize_commands h.first) h.part);
        behind = h.behind;
        cut = h.cut;
      }
]

-- The parser stops at such a part.
pub IsCut-incomplete :
    (first later : List Command) (part : Bytes)
    → All IsSendable later
    → IsCut part later
    → parse_single_command (serialize_commands first ++ part) (length (serialize_commands first))
      ≡ incomplete
unfolding parse_single_command
IsCut-incomplete first later part sendable (inl none_left) =
    ground (arith, length-append (serialize_commands first) part)
IsCut-incomplete first later part sendable (inr (c, rest, q, is, whole, open_end)) =
    cut-incomplete (serialize_commands first ++ part) (length (serialize_commands first)) part q c
      (subst (All IsSendable) is sendable).0
      (omega (arith, length-append (serialize_commands first) part))
      (drop-append (serialize_commands first) part) whole open_end

pub All-front : (P : Command → Type 0) (xs ys : List Command) → All P (xs ++ ys) → All P xs
All-front P [] ys h = tt
All-front P (x ∷ xs) ys h = (h.0, All-front P xs ys h.1)

pub All-behind : (P : Command → Type 0) (xs ys : List Command) → All P (xs ++ ys) → All P ys
All-behind P [] ys h = h
All-behind P (x ∷ xs) ys h = All-behind P xs ys h.1

-- With nothing more to come there is nothing left.
pub IsCut-ended :
    (part : Bytes) (cs : List Command)
    → IsCut part cs
    → part ≡ serialize_commands cs
    → (part ≡ []) × (cs ≡ [])
unfolding serialize_commands
IsCut-ended part [] cut whole = (whole, refl)
IsCut-ended part (c ∷ cs) (inl none_left) whole = absurd (
    omega (
      arith,
      ap (length {A = ℕ}) (sym none_left ∙ whole),
      length-append (serialize_array c) (serialize_commands cs),
      length-serialize_array c,
    ))
IsCut-ended part (c ∷ cs) (inr (d, rest, q, is, start, open_end)) whole =
    let same : serialize_array d ≡ serialize_array c = ground arith in
    absurd (
      omega (
        arith,
        ap (length {A = ℕ}) (start ∙ same),
        ap (length {A = ℕ}) whole,
        length-append part q,
        length-append (serialize_array c) (serialize_commands cs),
        length_full q open_end,
      ))
