-- ===== src/Command.antt =====
-- src/command.hpp and src/command.cpp: the command handlers and their dispatch. A handler runs on the
-- database and the disk; `clock i` is the reading of the clock that it makes as number i.
pub mod Keeps
pub mod Dispatch
pub mod Replies
pub mod Saves
use velo_kv.Prelude.{
  ℕ, zero, suc, ◌+◌, ◌/◌, ◌*◌, Bool, true, false, Option, none, some, List, [], ◌∷◌, ◌++◌, Bytes,
  codes, length, ℤ, pos, negsuc, eqb_ℤ, ltb_ℤ, Outcome, ok, undef, ◌>>=◌, bytes_beq, bytes_eq, ◌||◌,
  ◌≡◌, refl, if◌then◌else◌,
}
use velo_kv.Map.{Map, find, insert}
use velo_kv.Db.{
  Database, KeyType, none_type, string_type, list_type, type_of, set, get, del, exists, lpush,
  rpush, lpop, rpop, llen, int64, expire, ttl,
}
use velo_kv.Text.Decimal.{stoll, negate}
use velo_kv.Text.Upper.{to_upper}
use velo_kv.Resp.{
  Command, serialize_simple_string, serialize_error, serialize_bulk_string,
  serialize_null_bulk_string, serialize_integer,
}
use velo_kv.Persistence.{SaveFaults, Disk, save}

-- What a command sees of its surroundings.
pub record Env : Type 0 where
  pub clock : ℕ → ℤ
  pub faults : SaveFaults

pub record Store : Type 0 where
  pub db : Database
  pub disk : Disk

abbrev pub Handler : Type 0
Handler = Env → Command → Store → Outcome (Bytes × Store)

-- A handler's end: its reply, and the database that it leaves.
abbrev pub reply : Bytes → Database → Store → Outcome (Bytes × Store)
reply r db s = ok (r, record s { db = db })

abbrev pub wrong_arguments : Bytes → Bytes
wrong_arguments name =
    serialize_error (codes "ERR wrong number of arguments for '" ++ (name ++ codes "' command"))

abbrev pub wrong_type : Bytes
wrong_type =
    serialize_error (codes "WRONGTYPE Operation against a key holding the wrong kind of value")

abbrev pub ok_reply : Bytes
ok_reply = serialize_simple_string (codes "OK")

abbrev pub bool_reply : Bool → Bytes
bool_reply true = serialize_integer (pos 1)
bool_reply false = serialize_integer (pos 0)

abbrev pub bulk_reply : Option Bytes → Bytes
bulk_reply none = serialize_null_bulk_string
bulk_reply (some v) = serialize_bulk_string v

unfoldable pub ping : Handler
ping env (name ∷ []) s = ok (serialize_simple_string (codes "PONG"), s)
ping env (name ∷ message ∷ []) s = ok (serialize_bulk_string message, s)
ping env _ s = ok (wrong_arguments (codes "ping"), s)

unfoldable pub set_command : Handler
set_command env (name ∷ key ∷ value ∷ []) s = do db ← set key value s.db; reply ok_reply db s
set_command env _ s = ok (wrong_arguments (codes "set"), s)

unfoldable pub get_command : Handler
get_command env (name ∷ key ∷ []) s = do
  (type, db) ← type_of (env.clock 0) key s.db
  elim type [
    | list_type ↦ reply wrong_type db s
    | _ ↦ do (value, db') ← get (env.clock 1) key db; reply (bulk_reply value) db' s
  ]
get_command env _ s = ok (wrong_arguments (codes "get"), s)

unfoldable pub del_command : Handler
del_command env (name ∷ key ∷ []) s = reply ok_reply (del key s.db).1 s
del_command env _ s = ok (wrong_arguments (codes "del"), s)

unfoldable pub exists_command : Handler
exists_command env (name ∷ key ∷ []) s = do
  (found, db) ← exists (env.clock 0) key s.db
  reply (bool_reply found) db s
exists_command env _ s = ok (wrong_arguments (codes "exists"), s)

-- `seconds * 1000LL`, undefined on overflow.
unfoldable pub to_ms : ℤ → Outcome ℤ
unfolding int64
to_ms (pos n) = int64 (pos (n * 1000))
to_ms (negsuc n) = int64 (negsuc (n * 1000 + 999))

unfoldable pub expire_command : Handler
unfolding to_ms
expire_command env (name ∷ key ∷ seconds ∷ []) s = elim (stoll seconds) [
  | none ↦ ok (serialize_error (codes "ERR value is not an integer or out of range"), s)
  | some n ↦
      if ltb_ℤ n (pos 0)
      then ok (serialize_error (codes "ERR invalid expire time in 'expire' command"), s)
      else do
        ms ← to_ms n
        (found, db) ← expire (env.clock 0) (env.clock 1) key ms s.db
        reply (bool_reply found) db s
]
expire_command env _ s = ok (wrong_arguments (codes "expire"), s)

-- `ttl_ms / 1000LL`, which rounds towards zero.
abbrev pub whole_seconds : ℤ → ℤ
whole_seconds (pos n) = pos (n / 1000)
whole_seconds (negsuc n) = negate (suc n / 1000)

unfoldable pub ttl_reply : ℤ → Bytes
ttl_reply ttl_ms =
    if eqb_ℤ ttl_ms (negsuc 0)
    then serialize_integer (negsuc 0)
    else if eqb_ℤ ttl_ms (negsuc 1)
    then serialize_integer (negsuc 1)
    else serialize_integer (whole_seconds ttl_ms)

unfoldable pub ttl_command : Handler
unfolding ttl_reply
ttl_command env (name ∷ key ∷ []) s = do
  (ttl_ms, db) ← ttl (env.clock 0) (env.clock 1) key s.db
  reply (ttl_reply ttl_ms) db s
ttl_command env _ s = ok (wrong_arguments (codes "ttl"), s)

abbrev pub db_path : Bytes
db_path = codes "redis.rdb"

unfoldable pub save_command : Handler
save_command env (name ∷ []) s =
    let (saved, disk) = save env.faults (env.clock 0) s.db db_path s.disk in
    ok (
      if saved then ok_reply else serialize_error (codes "ERR failed to save database to disk"),
      record s { disk = disk },
    )
save_command env _ s = ok (wrong_arguments (codes "save"), s)

-- The WRONGTYPE guard of the list commands, in front of the rest of the handler.
unfoldable pub unless_string :
    ℤ → Bytes → Store → (Database → Outcome (Bytes × Store)) → Outcome (Bytes × Store)
unless_string now key s rest = do
  (type, db) ← type_of now key s.db
  elim type [ string_type ↦ reply wrong_type db s | _ ↦ rest db ]

unfoldable pub lpush_command : Handler
unfolding unless_string
lpush_command env (name ∷ key ∷ value ∷ []) s =
    unless_string (env.clock 0) key s
      λ db. let (n, db') = lpush key value db in reply (serialize_integer (pos n)) db' s
lpush_command env _ s = ok (wrong_arguments (codes "lpush"), s)

unfoldable pub rpush_command : Handler
unfolding unless_string
rpush_command env (name ∷ key ∷ value ∷ []) s =
    unless_string (env.clock 0) key s
      λ db. let (n, db') = rpush key value db in reply (serialize_integer (pos n)) db' s
rpush_command env _ s = ok (wrong_arguments (codes "rpush"), s)

unfoldable pub lpop_command : Handler
unfolding unless_string
lpop_command env (name ∷ key ∷ []) s =
    unless_string (env.clock 0) key s
      λ db. do (value, db') ← lpop (env.clock 1) key db; reply (bulk_reply value) db' s
lpop_command env _ s = ok (wrong_arguments (codes "lpop"), s)

unfoldable pub rpop_command : Handler
unfolding unless_string
rpop_command env (name ∷ key ∷ []) s =
    unless_string (env.clock 0) key s
      λ db. do (value, db') ← rpop (env.clock 1) key db; reply (bulk_reply value) db' s
rpop_command env _ s = ok (wrong_arguments (codes "rpop"), s)

unfoldable pub llen_command : Handler
unfolding unless_string
llen_command env (name ∷ key ∷ []) s =
    unless_string (env.clock 0) key s
      λ db. do (n, db') ← llen (env.clock 1) key db; reply (serialize_integer (pos n)) db' s
llen_command env _ s = ok (wrong_arguments (codes "llen"), s)

unfoldable pub register_handler : Bytes → Handler → Map Bytes Handler → Map Bytes Handler
unfolding to_upper insert
register_handler name handler handlers = insert (to_upper name) handler handlers

unfoldable pub register_all : List (Bytes × Handler) → Map Bytes Handler → Map Bytes Handler
unfolding register_handler
register_all [] handlers = handlers
register_all ((name, handler) ∷ rest) handlers =
    register_all rest (register_handler name handler handlers)

-- The handlers that `register_builtin_commands` registers, in its order.
abbrev pub builtin_handlers : Map Bytes Handler
builtin_handlers =
    (codes "PING", ping)
    ∷ (codes "SET", set_command)
    ∷ (codes "GET", get_command)
    ∷ (codes "DEL", del_command)
    ∷ (codes "EXISTS", exists_command)
    ∷ (codes "EXPIRE", expire_command)
    ∷ (codes "TTL", ttl_command)
    ∷ (codes "SAVE", save_command)
    ∷ (codes "LPUSH", lpush_command)
    ∷ (codes "RPUSH", rpush_command)
    ∷ (codes "LPOP", lpop_command)
    ∷ (codes "RPOP", rpop_command)
    ∷ (codes "LLEN", llen_command)
    ∷ []

unfoldable pub builtin_commands : Map Bytes Handler
unfolding register_all bytes_beq
builtin_commands = register_all builtin_handlers []

unfoldable pub run_handler : Option Handler → Bytes → Handler
run_handler none name env cmd s =
    ok (serialize_error (codes "ERR unknown command '" ++ (name ++ codes "'")), s)
run_handler (some handler) name env cmd s = handler env cmd s

unfoldable pub execute : Handler
unfolding to_upper find builtin_commands run_handler
execute env [] s = ok ([], s)
execute env (name ∷ args) s =
    run_handler (find (to_upper name) builtin_commands) name env (name ∷ args) s

abbrev pub write_commands : List Bytes
write_commands =
    codes "SET"
    ∷ codes "DEL"
    ∷ codes "EXPIRE"
    ∷ codes "LPUSH"
    ∷ codes "RPUSH"
    ∷ codes "LPOP"
    ∷ codes "RPOP"
    ∷ []

unfoldable pub contains_name : Bytes → List Bytes → Bool
contains_name name [] = false
contains_name name (n ∷ ns) = bytes_beq n name || contains_name name ns

unfoldable pub is_write_command : Bytes → Bool
unfolding to_upper contains_name bytes_beq
is_write_command name = contains_name (to_upper name) write_commands

dispatch_get : find (to_upper (codes "get")) builtin_commands ≡ some get_command
unfolding builtin_commands to_upper find
dispatch_get = refl
