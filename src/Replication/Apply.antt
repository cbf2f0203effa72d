-- ===== src/Replication/Apply.antt =====
-- src/replication.cpp: `apply_leader_line`, what a replica does with a line of the stream.
use velo_kv.Prelude.{
  ℕ, zero, suc, Bool, true, false, Option, none, some, List, [], ◌∷◌, ◌++◌, Bytes, codes, map, ℤ,
  pos, negsuc, Outcome, ok, undef, ◌>>=◌, bytes_beq, is_empty, if◌then◌else◌,
}
use velo_kv.Db.{Database, set, del, expire, lpush, rpush, lpop, rpop}
use velo_kv.Text.Decimal.{stoi, stoll, is_space}
use velo_kv.Text.Percent.{decode}
use velo_kv.Text.Upper.{to_upper}
use velo_kv.Persistence.Load.{restore_expiry}
use velo_kv.Command.{to_ms}

-- The part of the manager's state that a line changes, and the database.
pub record ReplicaState : Type 0 where
  pub full_sync_in_progress : Bool
  pub db : Database

abbrev pub push_token : Bytes → List Bytes → List Bytes
push_token [] tokens = tokens
push_token (c ∷ tok) tokens = (c ∷ tok) ∷ tokens

-- The tokens that `iss >> tok` reads: the first of them begins with `tok`.
unfoldable pub tokens_from : Bytes → Bytes → List Bytes
tokens_from tok [] = push_token tok []
tokens_from tok (c ∷ s) = elim (is_space c) [
  | true ↦ push_token tok (tokens_from [] s)
  | false ↦ tokens_from (tok ++ c ∷ []) s
]

unfoldable pub tokenise : Bytes → List Bytes
unfolding tokens_from
tokenise line = tokens_from [] line

-- The three steps of REPLSET that may throw.
pub record StringRecord : Type 0 where
  pub key : Bytes
  pub value : Bytes
  pub expiry_ms : ℤ

unfoldable pub read_string : Bytes → Bytes → Bytes → Option StringRecord
unfolding decode stoll
read_string k v e = elim (decode k) [
  | none ↦ none
  | some key ↦ elim (decode v) [
    | none ↦ none
    | some value ↦ elim (stoll e) [
      | none ↦ none
      | some ms ↦ some (record { key = key; value = value; expiry_ms = ms })
    ]
  ]
]

unfoldable pub apply_replset : List Bytes → Database → Outcome (Bool × Database)
unfolding read_string set restore_expiry
apply_replset (type ∷ k ∷ v ∷ e ∷ _) db = elim (read_string k v e) [
  | none ↦ ok (true, db)
  | some r ↦ do db' ← set r.key r.value db; ok (true, restore_expiry r.key r.expiry_ms db')
]
apply_replset _ db = ok (false, db)

-- The loop of REPLLIST; `true` is an exception on the way.
unfoldable pub push_tokens : ℕ → List Bytes → Bytes → Database → Bool × Database
unfolding decode
push_tokens zero toks key db = (false, db)
push_tokens (suc count) [] key db = (false, db)
push_tokens (suc count) (tok ∷ toks) key db = elim (decode tok) [
  | none ↦ (true, db)
  | some e ↦ push_tokens count toks key (rpush key e db).1
]

abbrev loop_count : ℤ → ℕ
loop_count (pos n) = n
loop_count (negsuc n) = 0

unfoldable pub restore_list : Bytes → ℤ → ℤ → List Bytes → Database → Database
unfolding push_tokens restore_expiry del
restore_list key ms count toks db =
    let (thrown, db') = push_tokens (loop_count count) toks key (del key db).1 in
    if thrown then db' else restore_expiry key ms db'

unfoldable pub apply_repllist : List Bytes → Database → Bool × Database
unfolding decode stoll stoi restore_list
apply_repllist (type ∷ k ∷ e ∷ n ∷ toks) db = elim (decode k) [
  | none ↦ (true, db)
  | some key ↦ elim (stoll e) [
    | none ↦ (true, db)
    | some ms ↦ elim (stoi n) [
      | none ↦ (true, db)
      | some count ↦ (true, restore_list key ms count toks db)
    ]
  ]
]
apply_repllist _ db = (false, db)

-- A token that does not decode is passed on as it is.
unfoldable pub decode_token : Bytes → Bytes
unfolding decode
decode_token tok = elim (decode tok) [ none ↦ tok | some s ↦ s ]

-- The live commands: the arguments behind the decoded name, and the database. `none` is a command
-- that is unknown or has too few arguments.
abbrev pub Live : Type 0
Live = (ℕ → ℤ) → List Bytes → Database → Option (Outcome Database)

abbrev only_db : {A : Type 0} → Outcome (A × Database) → Outcome Database
only_db (ok (a, db)) = ok db
only_db undef = undef

unfoldable pub live_set : Live
live_set clock (key ∷ value ∷ _) db = some (set key value db)
live_set clock _ db = none

unfoldable pub live_del : Live
live_del clock (key ∷ _) db = some (ok (del key db).1)
live_del clock _ db = none

unfoldable pub live_expire : Live
unfolding stoll to_ms
live_expire clock (key ∷ seconds ∷ _) db = some (elim (stoll seconds) [
  | none ↦ ok db
  | some n ↦ do ms ← to_ms n; only_db (expire (clock 0) (clock 1) key ms db)
])
live_expire clock _ db = none

unfoldable pub live_lpush : Live
live_lpush clock (key ∷ value ∷ _) db = some (ok (lpush key value db).1)
live_lpush clock _ db = none

unfoldable pub live_rpush : Live
live_rpush clock (key ∷ value ∷ _) db = some (ok (rpush key value db).1)
live_rpush clock _ db = none

unfoldable pub live_lpop : Live
live_lpop clock (key ∷ _) db = some (only_db (lpop (clock 0) key db))
live_lpop clock _ db = none

unfoldable pub live_rpop : Live
live_rpop clock (key ∷ _) db = some (only_db (rpop (clock 0) key db))
live_rpop clock _ db = none

unfoldable pub apply_live : Bytes → Live
unfolding live_set live_del live_expire live_lpush live_rpush live_lpop live_rpop bytes_beq
apply_live type =
    if bytes_beq type (codes "SET")
    then live_set
    else if bytes_beq type (codes "DEL")
    then live_del
    else if bytes_beq type (codes "EXPIRE")
    then live_expire
    else if bytes_beq type (codes "LPUSH")
    then live_lpush
    else if bytes_beq type (codes "RPUSH")
    then live_rpush
    else if bytes_beq type (codes "LPOP")
    then live_lpop
    else if bytes_beq type (codes "RPOP")
    then live_rpop
    else (λ clock args db. none)

-- The result of a live command: `false` and no change where it is not applied.
unfoldable pub live_result : Option (Outcome Database) → Database → Outcome (Bool × Database)
live_result none db = ok (false, db)
live_result (some r) db = do db' ← r; ok (true, db')

unfoldable pub apply_tokens : (ℕ → ℤ) → List Bytes → Database → Outcome (Bool × Database)
unfolding apply_replset apply_repllist apply_live live_result to_upper bytes_beq decode_token
apply_tokens clock [] db = ok (true, db)
apply_tokens clock (name ∷ args) db =
    let type = to_upper name in
    if bytes_beq type (codes "REPLSET")
    then apply_replset (name ∷ args) db
    else if bytes_beq type (codes "REPLLIST")
    then ok (apply_repllist (name ∷ args) db)
    else live_result (apply_live type clock (map decode_token args) db) db

-- `clock i` is the reading of the clock that the line makes as number i.
unfoldable pub apply_leader_line : (ℕ → ℤ) → Bytes → ReplicaState → Outcome (Bool × ReplicaState)
unfolding apply_tokens tokenise bytes_beq
apply_leader_line clock line s =
    if is_empty line
    then ok (true, s)
    else if bytes_beq line (codes "+FULLSYNC")
    then ok (true, record s { full_sync_in_progress = true })
    else if bytes_beq line (codes "+FULLSYNCDONE")
    then ok (true, record s { full_sync_in_progress = false })
    else do (done, db) ← apply_tokens clock (tokenise line) s.db; ok (done, record s { db = db })
