-- ===== src/Replication/Applied.antt =====
-- src/replication.cpp: `apply_leader_line` on the line of a write command.
use velo_kv.Prelude.{
  ℕ, ◌≡◌, ◌∙◌, refl, subst, Bool, true, false, List, [], ◌∷◌, ◌++◌, Bytes, ◌≤◌, codes, map, All,
  is_empty, Outcome, ok, ◌>>=◌, bytes_beq, bytes_eq, bytes_beq_iff, Bool-cases, inl, inr, arith, ℤ,
}
use velo_kv.Db.{Database}
use velo_kv.Text.Percent.{percent_encode, encode_byte}
use velo_kv.Text.Upper.{to_upper, upper}
use velo_kv.Replication.Stream.{encode_args}
use velo_kv.Replication.Apply.{
  ReplicaState, tokenise, apply_live, live_result, apply_tokens, apply_leader_line,
}
use velo_kv.Replication.RoundTrip.{IsArg, IsTabless, line_of, tokenise-line_of, map-decode_token}
use velo_kv.Command.{is_write_command, write_commands, contains_name}

abbrev IsCapital : ℕ → Type 0
IsCapital c = (65 ≤ c) × (c ≤ 90)

percent_encode_capitals : (s : Bytes) → All IsCapital s → percent_encode s ≡ s
unfolding percent_encode encode_byte
percent_encode_capitals [] h = refl
percent_encode_capitals (c ∷ s) (h, hs) = ground (arith, percent_encode_capitals s hs)

to_upper_capitals : (s : Bytes) → All IsCapital s → to_upper s ≡ s
unfolding to_upper upper
to_upper_capitals [] h = refl
to_upper_capitals (c ∷ s) (h, hs) = ground (arith, to_upper_capitals s hs)

IsTabless-capitals : (s : Bytes) → All IsCapital s → All IsTabless s
IsTabless-capitals [] h = tt
IsTabless-capitals (c ∷ s) (h, hs) = (ground arith, IsTabless-capitals s hs)

-- A name that is none of the words of the full sync.
record IsLive (name : Bytes) : Type 0 where
  full : is_empty name ≡ false
  capitals : All IsCapital name
  no_set : bytes_beq name (codes "REPLSET") ≡ false
  no_list : bytes_beq name (codes "REPLLIST") ≡ false

write_commands-IsLive : All IsLive write_commands
unfolding bytes_beq
write_commands-IsLive = (
  record { full = refl; capitals = omega arith; no_set = refl; no_list = refl },
  (
    record { full = refl; capitals = omega arith; no_set = refl; no_list = refl },
    (
      record { full = refl; capitals = omega arith; no_set = refl; no_list = refl },
      (
        record { full = refl; capitals = omega arith; no_set = refl; no_list = refl },
        (
          record { full = refl; capitals = omega arith; no_set = refl; no_list = refl },
          (
            record { full = refl; capitals = omega arith; no_set = refl; no_list = refl },
            (record { full = refl; capitals = omega arith; no_set = refl; no_list = refl }, tt),
          ),
        ),
      ),
    ),
  ),
)

contained-IsLive :
    (name : Bytes) (names : List Bytes)
    → All IsLive names
    → contains_name name names ≡ true
    → IsLive name
unfolding contains_name
contained-IsLive name [] hs h = absurd (ground arith)
contained-IsLive name (n ∷ names) (live, hs) h = elim (Bool-cases (bytes_beq n name)) [
  | inl same ↦ subst IsLive ((bytes_beq_iff n name).0 same) live
  | inr other ↦ contained-IsLive name names hs (ground arith)
]

no_control :
    (s : Bytes) (t word : Bytes)
    → is_empty s ≡ false
    → All IsCapital s
    → bytes_beq (s ++ t) (b'+' ∷ word) ≡ false
unfolding bytes_beq
no_control [] t word full h = absurd (ground arith)
no_control (c ∷ s) t word full (h, hs) = ground arith

full_line : (s t : Bytes) → is_empty s ≡ false → is_empty (s ++ t) ≡ false
full_line [] t full = absurd (ground arith)
full_line (c ∷ s) t full = refl

-- What a live command does to a replica.
abbrev pub applied : Outcome (Bool × Database) → ReplicaState → Outcome (Bool × ReplicaState)
applied r s = do (done, db) ← r; ok (done, record s { db = db })

-- The line that a leader writes for a write command, whose arguments are not empty and have no tab,
-- vertical tab or form feed, makes the replica run that command on exactly these arguments.
pub apply_leader_line-line_of :
    (clock : ℕ → ℤ) (name : Bytes) (args : List Bytes) (s : ReplicaState)
    → is_write_command name ≡ true
    → All IsArg args
    → apply_leader_line clock (line_of name args) s
      ≡ applied (live_result (apply_live (to_upper name) clock args s.db) s.db) s
unfolding apply_leader_line apply_tokens is_write_command
apply_leader_line-line_of clock name args s write hs =
    let live = contained-IsLive (to_upper name) write_commands write_commands-IsLive write in
    let N = to_upper name in
    let encoded : percent_encode N ≡ N = percent_encode_capitals N live.capitals in
    let line : line_of name args ≡ N ++ encode_args args = unfold line_of in rw encoded in
    let tokens : tokenise (line_of name args) ≡ N ∷ map percent_encode args =
      tokenise-line_of name args (live.full, IsTabless-capitals N live.capitals) hs ∙ rw encoded in
    rw
      (
        tokens,
        line,
        full_line N (encode_args args) live.full,
        no_control N (encode_args args) (codes "FULLSYNC") live.full live.capitals,
        no_control N (encode_args args) (codes "FULLSYNCDONE") live.full live.capitals,
        to_upper_capitals N live.capitals,
        live.no_set,
        live.no_list,
        map-decode_token args,
      )
      refl
