-- ===== src/Replication/Divergence.antt =====
-- src/server.cpp, src/replication.cpp and src/command.cpp: a leader passes every write command on,
-- also one that its own handler refused. What the replica makes of it.
use velo_kv.Prelude.{
  ℕ, ◌≡◌, ◌∙◌, refl, Bool, true, some, List, [], ◌∷◌, Bytes, codes, ok, ◌>>=◌, bytes_beq, bytes_eq,
  bytes_beq_iff, Outcome-cases, inl, inr, arith, ℤ,
}
use velo_kv.Map.{find, find-insert}
use velo_kv.Db.{Database, set, lpush, list_at, string_type}
use velo_kv.Db.Wf.{IsWf}
use velo_kv.Db.View.{view, type_seen}
use velo_kv.Db.Expiry.{sweep}
use velo_kv.Db.Reads.{type_of-sweep}
use velo_kv.Text.Upper.{to_upper, upper}
use velo_kv.Replication.Apply.{
  ReplicaState, apply_live, live_result, apply_leader_line, live_set, live_lpush,
}
use velo_kv.Replication.RoundTrip.{IsArg, line_of}
use velo_kv.Replication.Applied.{apply_leader_line-line_of}
use velo_kv.Command.{
  Env, Store, execute, set_command, lpush_command, unless_string, wrong_type, wrong_arguments,
  builtin_commands, run_handler, is_write_command, write_commands, contains_name,
}

module _ (name : Bytes) where
  execute_as :
      (env : Env) (args : List Bytes) (s : Store) (word : Bytes)
      → to_upper name ≡ word
      → execute env (name ∷ args) s
        ≡ run_handler (find word builtin_commands) name env (name ∷ args) s
  unfolding execute
  execute_as env args s word e = rw e refl

  pub write_as :
      (word : Bytes)
      → to_upper name ≡ word
      → contains_name word write_commands ≡ true
      → is_write_command name ≡ true
  unfolding is_write_command
  write_as word e h = rw e h

-- A SET that the leader runs, with a key and a value that are not empty and have no tab, vertical
-- tab or form feed, leaves the same database on a replica that had the same one; where the run of
-- the leader is undefined, that of the replica is too.
pub apply_leader_line-execute :
    (env : Env) (clock : ℕ → ℤ) (name key value : Bytes) (s : Store) (syncing : Bool)
    → to_upper name ≡ codes "SET"
    → IsArg key
    → IsArg value
    → apply_leader_line clock
        (line_of name (key ∷ value ∷ []))
        (record { full_sync_in_progress = syncing; db = s.db })
      ≡ (execute env (name ∷ key ∷ value ∷ []) s >>= λ r.
          ok (true, record { full_sync_in_progress = syncing; db = r.1.db }))
unfolding builtin_commands find bytes_beq contains_name run_handler set_command apply_live live_set
    live_result to_upper upper
apply_leader_line-execute env clock name key value s syncing e k v =
    apply_leader_line-line_of clock name (key ∷ value ∷ [])
      (record { full_sync_in_progress = syncing; db = s.db }) (write_as name (codes "SET") e refl)
      (k, (v, tt))
    ∙ rw (e, execute_as name env (key ∷ value ∷ []) s (codes "SET") e)
        (elim (Outcome-cases (set key value s.db)) [
          | inl u ↦ rw u refl
          | inr (db, made) ↦ rw made refl
        ])

-- A SET with an argument too many: the leader answers with an error and changes nothing, and the
-- replica sets the key, if no argument is empty and none has a tab, vertical tab or form feed.
pub refused_set-applied :
    (env : Env) (clock : ℕ → ℤ) (name key value extra : Bytes) (s : Store) (r : ReplicaState)
    → to_upper name ≡ codes "SET"
    → IsArg key
    → IsArg value
    → IsArg extra
    → (execute env (name ∷ key ∷ value ∷ extra ∷ []) s ≡ ok (wrong_arguments (codes "set"), s))
      × (apply_leader_line clock (line_of name (key ∷ value ∷ extra ∷ [])) r
          ≡ (set key value r.db >>= λ db. ok (true, record r { db = db })))
unfolding builtin_commands find bytes_beq contains_name run_handler set_command apply_live live_set
    live_result to_upper upper
refused_set-applied env clock name key value extra s r e k v x = (
  execute_as name env (key ∷ value ∷ extra ∷ []) s (codes "SET") e,
  apply_leader_line-line_of clock name (key ∷ value ∷ extra ∷ []) r
        (write_as name (codes "SET") e refl) (k, (v, (x, tt)))
      ∙ rw e (elim (Outcome-cases (set key value r.db)) [
        | inl u ↦ rw u refl
        | inr (db, made) ↦ rw made refl
      ]),
)

-- An LPUSH on a key that holds a string: the leader, on a well-formed database, answers WRONGTYPE
-- and changes no more than a look at the key does; a replica that holds the string pushes all the
-- same, and its database is no longer well-formed. Neither key nor value is empty or has a tab,
-- vertical tab or form feed.
pub refused_lpush-applied :
    (env : Env) (clock : ℕ → ℤ) (name key value v : Bytes) (s : Store) (r : ReplicaState)
    → IsWf s.db
    → to_upper name ≡ codes "LPUSH"
    → IsArg key
    → IsArg value
    → type_seen (view (env.clock 0) key s.db) ≡ string_type
    → find key r.db.string_store ≡ some v
    → (execute env (name ∷ key ∷ value ∷ []) s
        ≡ ok (wrong_type, record s { db = sweep (env.clock 0) key s.db }))
      × (db' : Database) × (apply_leader_line clock (line_of name (key ∷ value ∷ [])) r
          ≡ ok (true, record r { db = db' }))
      × ¬ IsWf db'
unfolding builtin_commands find bytes_beq contains_name run_handler lpush_command unless_string
    apply_live live_lpush live_result to_upper upper lpush
refused_lpush-applied env clock name key value v s r w e k a string at = (
  execute_as name env (key ∷ value ∷ []) s (codes "LPUSH") e
      ∙ rw (type_of-sweep (env.clock 0) key s.db w, string) refl,
  (lpush key value r.db).1,
  apply_leader_line-line_of clock name (key ∷ value ∷ []) r (write_as name (codes "LPUSH") e refl)
        (k, (a, tt))
      ∙ rw e refl,
  λ w'. ground (
    arith,
    w'.disjoint key v at,
    find-insert key key (value ∷ list_at key r.db) r.db.list_store,
    bytes_beq_iff key key,
  ),
)
