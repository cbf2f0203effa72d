-- ===== src/Command/Keeps.antt =====
-- src/command.cpp: every command keeps the invariant of the database.
use velo_kv.Prelude.{
  ◌≡◌, ◌≢◌, refl, false, none, [], ◌∷◌, Bytes, ℤ, pos, ltb_ℤ, Outcome, Outcome-cases, Bool-cases,
  Option-cases, inl, inr, bytes_eq, arith, ok, undef, ◌>>=◌,
}
use velo_kv.Map.{find}
use velo_kv.Db.{
  Database, KeyType, none_type, string_type, list_type, type_of, set, get, exists, llen, lpop, rpop,
  expire, ttl,
}
use velo_kv.Db.Wf.{IsWf}
use velo_kv.Db.View.{due, view, type_seen}
use velo_kv.Db.Expiry.{sweep, sweep-IsWf}
use velo_kv.Db.Set.Effect.{set_ended}
use velo_kv.Db.Reads.{
  type_of-sweep, due-sweep, free-sweep, type_of-Reads, exists-Reads, get-Reads, llen-Reads,
}
use velo_kv.Db.Lists.{lpush-Holds, rpush-Holds}
use velo_kv.Db.Deadlines.{del-Deletes}
use velo_kv.Db.Keeps.{
  LeavesWf, Reads-LeavesWf, lpop-LeavesWf, rpop-LeavesWf, expire-LeavesWf, ttl-LeavesWf,
}
use velo_kv.Text.Decimal.{stoll}
use velo_kv.Resp.{Command}
use velo_kv.Command.{
  Env, Store, reply, bool_reply, bulk_reply, wrong_type, unless_string, ping, set_command,
  get_command, del_command, exists_command, to_ms, expire_command, ttl_command, save_command,
  lpush_command, rpush_command, lpop_command, rpop_command, llen_command,
}

-- The store that a command leaves, if it is defined, holds a well-formed database.
abbrev pub LeavesStore : Outcome (Bytes × Store) → Type 0
LeavesStore undef = Unit
LeavesStore (ok (r, s)) = IsWf s.db

after :
    {A : Type 0} (m : Outcome (A × Database)) (f : A × Database → Outcome (Bytes × Store))
    → LeavesWf m
    → ((a : A) (db : Database) → IsWf db → LeavesStore (f (a, db)))
    → LeavesStore (m >>= f)
after undef f h k = tt
after (ok (a, db)) f h k = k a db h

module _ (env : Env) (s : Store) (w : IsWf s.db) where
  unless_string-LeavesStore :
      (now : ℤ) (key : Bytes) (rest : Database → Outcome (Bytes × Store))
      → ((db : Database)
          → IsWf db
          → due now key db ≡ false
          → find key db.string_store ≡ none
          → LeavesStore (rest db))
      → LeavesStore (unless_string now key s rest)
  unfolding unless_string
  unless_string-LeavesStore now key rest h =
      rw (type_of-sweep now key s.db w) (by_type (type_seen (view now key s.db)) refl)
    where
      db : Database
      db = sweep now key s.db

      go : type_seen (view now key s.db) ≢ string_type → LeavesStore (rest db)
      go ne =
          h db (sweep-IsWf s.db w key now) (due-sweep now key s.db w) (free-sweep now key s.db w ne)

      by_type :
          (t : KeyType)
          → type_seen (view now key s.db) ≡ t
          → LeavesStore (elim t [ string_type ↦ reply wrong_type db s | _ ↦ rest db ])
      by_type string_type e = sweep-IsWf s.db w key now
      by_type none_type e = go (λ p. ground arith)
      by_type list_type e = go (λ p. ground arith)

  pub ping-LeavesStore : (cmd : Command) → LeavesStore (ping env cmd s)
  unfolding ping
  ping-LeavesStore (name ∷ []) = w
  ping-LeavesStore (name ∷ message ∷ []) = w
  ping-LeavesStore _ = w

  pub set_command-LeavesStore : (cmd : Command) → LeavesStore (set_command env cmd s)
  unfolding set_command
  set_command-LeavesStore (name ∷ key ∷ value ∷ []) = elim (Outcome-cases (set key value s.db)) [
    | inl u ↦ rw u tt
    | inr (db, e) ↦ rw e (set_ended s.db key value w db e).wf
  ]
  set_command-LeavesStore _ = w

  get_part :
      (now : ℤ) (key : Bytes) (db : Database)
      → IsWf db
      → LeavesStore (get now key db >>= λ r. reply (bulk_reply r.0) r.1 s)
  get_part now key db h =
      after (get now key db) (λ r. reply (bulk_reply r.0) r.1 s)
        (Reads-LeavesWf now db _ _ (get-Reads now key db h)) (λ a db' h'. h')

  get_branch :
      (now : ℤ) (key : Bytes) (t : KeyType) (db : Database)
      → IsWf db
      → LeavesStore (elim t [
        | list_type ↦ reply wrong_type db s
        | _ ↦ get now key db >>= λ r. reply (bulk_reply r.0) r.1 s
      ])
  get_branch now key none_type db h = get_part now key db h
  get_branch now key string_type db h = get_part now key db h
  get_branch now key list_type db h = h

  pub get_command-LeavesStore : (cmd : Command) → LeavesStore (get_command env cmd s)
  unfolding get_command
  get_command-LeavesStore (name ∷ key ∷ []) =
      after (type_of (env.clock 0) key s.db) _
        (Reads-LeavesWf (env.clock 0) s.db _ _ (type_of-Reads (env.clock 0) key s.db w))
        (get_branch (env.clock 1) key)
  get_command-LeavesStore _ = w

  pub del_command-LeavesStore : (cmd : Command) → LeavesStore (del_command env cmd s)
  unfolding del_command
  del_command-LeavesStore (name ∷ key ∷ []) = (del-Deletes s.db key w).wf
  del_command-LeavesStore _ = w

  pub exists_command-LeavesStore : (cmd : Command) → LeavesStore (exists_command env cmd s)
  unfolding exists_command
  exists_command-LeavesStore (name ∷ key ∷ []) =
      after (exists (env.clock 0) key s.db) _
        (Reads-LeavesWf (env.clock 0) s.db _ _ (exists-Reads (env.clock 0) key s.db w))
        (λ a db h. h)
  exists_command-LeavesStore _ = w

  expire_by :
      (key : Bytes) (ms : Outcome ℤ)
      → LeavesStore (
          ms >>= λ t.
          expire (env.clock 0) (env.clock 1) key t s.db >>= λ r. reply (bool_reply r.0) r.1 s)
  expire_by key undef = tt
  expire_by key (ok t) =
      after (expire (env.clock 0) (env.clock 1) key t s.db) (λ r. reply (bool_reply r.0) r.1 s)
        (expire-LeavesWf (env.clock 0) key s.db w (env.clock 1) t) (λ a db h. h)

  pub expire_command-LeavesStore : (cmd : Command) → LeavesStore (expire_command env cmd s)
  unfolding expire_command
  expire_command-LeavesStore (name ∷ key ∷ seconds ∷ []) = elim (Option-cases (stoll seconds)) [
    | inl bad ↦ rw (bad, expire_command) w
    | inr (n, read) ↦ elim (Bool-cases (ltb_ℤ n (pos 0))) [
      | inl negative ↦ rw (read, negative, expire_command) w
      | inr fine ↦ rw (read, fine, expire_command) (expire_by key (to_ms n))
    ]
  ]
  expire_command-LeavesStore _ = w

  pub ttl_command-LeavesStore : (cmd : Command) → LeavesStore (ttl_command env cmd s)
  unfolding ttl_command
  ttl_command-LeavesStore (name ∷ key ∷ []) =
      after (ttl (env.clock 0) (env.clock 1) key s.db) _
        (ttl-LeavesWf (env.clock 0) key s.db w (env.clock 1)) (λ a db h. h)
  ttl_command-LeavesStore _ = w

  pub save_command-LeavesStore : (cmd : Command) → LeavesStore (save_command env cmd s)
  unfolding save_command
  save_command-LeavesStore (name ∷ []) = w
  save_command-LeavesStore _ = w

  pub lpush_command-LeavesStore : (cmd : Command) → LeavesStore (lpush_command env cmd s)
  unfolding lpush_command
  lpush_command-LeavesStore (name ∷ key ∷ value ∷ []) =
      unless_string-LeavesStore (env.clock 0) key _
        λ db h live free. (lpush-Holds (env.clock 0) key db h live free value).1.wf
  lpush_command-LeavesStore _ = w

  pub rpush_command-LeavesStore : (cmd : Command) → LeavesStore (rpush_command env cmd s)
  unfolding rpush_command
  rpush_command-LeavesStore (name ∷ key ∷ value ∷ []) =
      unless_string-LeavesStore (env.clock 0) key _
        λ db h live free. (rpush-Holds (env.clock 0) key db h live free value).1.wf
  rpush_command-LeavesStore _ = w

  pub lpop_command-LeavesStore : (cmd : Command) → LeavesStore (lpop_command env cmd s)
  unfolding lpop_command
  lpop_command-LeavesStore (name ∷ key ∷ []) =
      unless_string-LeavesStore (env.clock 0) key _ λ db h live free.
        after (lpop (env.clock 1) key db) _ (lpop-LeavesWf (env.clock 1) key db h) (λ a d k. k)
  lpop_command-LeavesStore _ = w

  pub rpop_command-LeavesStore : (cmd : Command) → LeavesStore (rpop_command env cmd s)
  unfolding rpop_command
  rpop_command-LeavesStore (name ∷ key ∷ []) =
      unless_string-LeavesStore (env.clock 0) key _ λ db h live free.
        after (rpop (env.clock 1) key db) _ (rpop-LeavesWf (env.clock 1) key db h) (λ a d k. k)
  rpop_command-LeavesStore _ = w

  pub llen_command-LeavesStore : (cmd : Command) → LeavesStore (llen_command env cmd s)
  unfolding llen_command
  llen_command-LeavesStore (name ∷ key ∷ []) =
      unless_string-LeavesStore (env.clock 0) key _ λ db h live free.
        after (llen (env.clock 1) key db) _
          (Reads-LeavesWf (env.clock 1) db _ _ (llen-Reads (env.clock 1) key db h)) (λ a d k. k)
  llen_command-LeavesStore _ = w
