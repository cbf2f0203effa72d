-- ===== src/Command/Replies.antt =====
-- src/command.cpp: what the reading commands reply, from what a client sees of the key.
use velo_kv.Prelude.{
  ◌≡◌, ◌∙◌, refl, ap, Option, [], ◌∷◌, Bytes, codes, ℤ, pos, ◌≤ℤ◌, length, Outcome, ok, bytes_beq,
  bytes_eq, arith,
}
use velo_kv.Map.{find}
use velo_kv.Db.{Database, KeyType, string_type, list_type, none_type, get, llen}
use velo_kv.Db.Wf.{IsWf}
use velo_kv.Db.View.{Value, view, type_seen, string_seen, list_seen, is_seen}
use velo_kv.Db.Expiry.{sweep}
use velo_kv.Db.Reads.{
  SameViews, sweep-SameViews, type_of-sweep, get-Reads, exists-Reads, llen-Reads,
}
use velo_kv.Resp.{serialize_integer}
use velo_kv.Text.Upper.{to_upper}
use velo_kv.Command.{
  Env, Store, execute, builtin_commands, run_handler, get_command, exists_command, llen_command,
  wrong_type, bulk_reply, bool_reply, unless_string,
}

abbrev View : Type 0
View = Option (Value × Option ℤ)

pub data Reading : Type 0 where
  getting testing counting : Reading

abbrev pub word_of : Reading → Bytes
word_of getting = codes "GET"
word_of testing = codes "EXISTS"
word_of counting = codes "LLEN"

-- The reply, from the view at the first and at the second reading of the clock.
abbrev get_seen : KeyType → View → Bytes
get_seen list_type later = wrong_type
get_seen _ later = bulk_reply (string_seen later)

abbrev llen_seen : KeyType → View → Bytes
llen_seen string_type later = wrong_type
llen_seen _ later = serialize_integer (pos (length (list_seen later)))

abbrev pub reply_seen : Reading → View → View → Bytes
reply_seen getting now later = get_seen (type_seen now) later
reply_seen testing now later = bool_reply (is_seen now)
reply_seen counting now later = llen_seen (type_seen now) later

-- It is defined and has this reply, and nothing changes in what a client sees from `now` on.
abbrev pub Replies : ℤ → Bytes → Store → Outcome (Bytes × Store) → Type 0
Replies now r s o = (db' : Database) × (o ≡ ok (r, record s { db = db' })) × SameViews now s.db db'

SameViews-later :
    (now later : ℤ) (db db' : Database)
    → now ≤ℤ later
    → SameViews now db db'
    → SameViews later db db'
SameViews-later now later db db' le v = record {
  wf = v.wf;
  no_larger = v.no_larger;
  same = λ t le' j. v.same t (omega arith) j;
}

SameViews-trans :
    (now : ℤ) (db mid db' : Database)
    → SameViews now db mid
    → SameViews now mid db'
    → SameViews now db db'
SameViews-trans now db mid db' v v' = record {
  wf = v'.wf;
  no_larger = omega (arith, v.no_larger, v'.no_larger);
  same = λ t le j. v'.same t le j ∙ v.same t le j;
}

module _ (env : Env) (name key : Bytes) (s : Store) (w : IsWf s.db) where
  looked : Database
  looked = sweep (env.clock 0) key s.db

  module _ (forward : env.clock 0 ≤ℤ env.clock 1) where
    looked-SameViews : SameViews (env.clock 1) s.db looked
    unfolding looked
    looked-SameViews =
        SameViews-later (env.clock 0) (env.clock 1) s.db looked forward
          (sweep-SameViews (env.clock 0) key s.db w)

    view-looked : view (env.clock 1) key looked ≡ view (env.clock 1) key s.db
    view-looked = looked-SameViews.same (env.clock 1) (omega arith) key

    get-looked :
        (db' : Database) × (get (env.clock 1) key looked
          ≡ ok (string_seen (view (env.clock 1) key s.db), db'))
        × SameViews (env.clock 1) s.db db'
    get-looked =
        let (db', got, v) = get-Reads (env.clock 1) key looked looked-SameViews.wf in
        (
          db',
          got ∙ ap (λ x. ok (string_seen x, db')) view-looked,
          SameViews-trans (env.clock 1) s.db looked db' looked-SameViews v,
        )

    llen-looked :
        (db' : Database) × (llen (env.clock 1) key looked
          ≡ ok (length (list_seen (view (env.clock 1) key s.db)), db'))
        × SameViews (env.clock 1) s.db db'
    llen-looked =
        let (db', got, v) = llen-Reads (env.clock 1) key looked looked-SameViews.wf in
        (
          db',
          got ∙ ap (λ x. ok (length (list_seen x), db')) view-looked,
          SameViews-trans (env.clock 1) s.db looked db' looked-SameViews v,
        )

    get_command-Replies :
        (t : KeyType)
        → type_seen (view (env.clock 0) key s.db) ≡ t
        → Replies
            (env.clock 1)
            (get_seen t (view (env.clock 1) key s.db))
            s
            (get_command env (name ∷ key ∷ []) s)
    unfolding get_command looked
    get_command-Replies list_type is =
        (looked, rw (type_of-sweep (env.clock 0) key s.db w, is) refl, looked-SameViews)
    get_command-Replies string_type is =
        let (db', got, v) = get-looked in
        (db', rw (type_of-sweep (env.clock 0) key s.db w, is, got) refl, v)
    get_command-Replies none_type is =
        let (db', got, v) = get-looked in
        (db', rw (type_of-sweep (env.clock 0) key s.db w, is, got) refl, v)

    llen_command-Replies :
        (t : KeyType)
        → type_seen (view (env.clock 0) key s.db) ≡ t
        → Replies
            (env.clock 1)
            (llen_seen t (view (env.clock 1) key s.db))
            s
            (llen_command env (name ∷ key ∷ []) s)
    unfolding llen_command unless_string looked
    llen_command-Replies string_type is =
        (looked, rw (type_of-sweep (env.clock 0) key s.db w, is) refl, looked-SameViews)
    llen_command-Replies list_type is =
        let (db', got, v) = llen-looked in
        (db', rw (type_of-sweep (env.clock 0) key s.db w, is, got) refl, v)
    llen_command-Replies none_type is =
        let (db', got, v) = llen-looked in
        (db', rw (type_of-sweep (env.clock 0) key s.db w, is, got) refl, v)

    exists_command-Replies :
        Replies
          (env.clock 1)
          (bool_reply (is_seen (view (env.clock 0) key s.db)))
          s
          (exists_command env (name ∷ key ∷ []) s)
    unfolding exists_command
    exists_command-Replies =
        let (db', found, v) = exists-Reads (env.clock 0) key s.db w in
        (db', rw found refl, SameViews-later (env.clock 0) (env.clock 1) s.db db' forward v)

-- GET, EXISTS and LLEN of a key, in any case of the letters, on a well-formed database and a clock
-- that does not go back: the run is defined, the reply is that which the view of the key gives, at
-- the first reading of the clock for the type and the existence and at the second for the value, a
-- wrong type included, and from the second on no view changes.
pub execute-Replies :
    (r : Reading) (env : Env) (name key : Bytes) (s : Store)
    → to_upper name ≡ word_of r
    → IsWf s.db
    → env.clock 0 ≤ℤ env.clock 1
    → Replies
        (env.clock 1)
        (reply_seen r (view (env.clock 0) key s.db) (view (env.clock 1) key s.db))
        s
        (execute env (name ∷ key ∷ []) s)
unfolding execute builtin_commands find bytes_beq run_handler
execute-Replies getting env name key s is w forward =
    rw is
      (get_command-Replies env name key s w forward (type_seen (view (env.clock 0) key s.db)) refl)
execute-Replies testing env name key s is w forward =
    rw is (exists_command-Replies env name key s w forward)
execute-Replies counting env name key s is w forward =
    rw is
      (llen_command-Replies env name key s w forward (type_seen (view (env.clock 0) key s.db)) refl)
