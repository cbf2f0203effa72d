-- ===== src/Replication/Late.antt =====
-- src/replication.cpp: a push of the leader onto a list whose deadline has passed. The replica pushes with
-- no look at the deadline.
use velo_kv.Prelude.{
  ℕ, ◌≡◌, ◌∙◌, refl, ap, Bool, true, none, some, [], ◌∷◌, Bytes, codes, ok, bytes_beq, bytes_eq,
  bytes_beq_iff, arith, ℤ, ◌≤ℤ◌, Option-cases, inl, inr,
}
use velo_kv.Map.{find, find-insert}
use velo_kv.Db.{Database, lpush, list_at}
use velo_kv.Db.Wf.{IsWf}
use velo_kv.Db.View.{list, due, view, list_seen}
use velo_kv.Text.Upper.{to_upper, upper}
use velo_kv.Replication.Apply.{apply_live, live_result, apply_leader_line, live_lpush}
use velo_kv.Replication.RoundTrip.{IsArg, line_of}
use velo_kv.Replication.Applied.{apply_leader_line-line_of}
use velo_kv.Replication.Divergence.{write_as}
use velo_kv.Command.{Env, Store, execute, contains_name}
use velo_kv.Spec.{Keys, live}
use velo_kv.Spec.Coded.{counted, push_answer}
use velo_kv.Spec.Refines.{view-Shows}
use velo_kv.Spec.Lists.{lpush-Runs}

module _ (now : ℤ) (env : Env) (clock : ℕ → ℤ) (name key value : Bytes) (s : Store) (syncing : Bool)
    (still : (i : ℕ) → env.clock i ≡ now) (w : IsWf s.db) (is : to_upper name ≡ codes "LPUSH")
    (late : due now key s.db ≡ true) where
  seen : Keys
  seen j = view now j s.db

  gone : live now (seen key) ≡ none
  unfolding view seen
  gone = ground arith

  same_key : bytes_beq key key ≡ true
  same_key = ground (arith, bytes_beq_iff key key)

  still_late : (t : ℤ) → now ≤ℤ t → view t key (lpush key value s.db).1 ≡ none
  unfolding view due lpush
  still_late t later = elim (Option-cases (find key s.db.expiry)) [
    | inl untimed ↦ absurd (ground arith)
    | inr (d, timed) ↦ ground arith
  ]

  -- An LPUSH on a key whose deadline has passed, of a leader and a replica with the same well-formed
  -- database: the leader starts a new list with no deadline and answers 1; the replica, which applies
  -- the line in a defined run, puts the value in front of the list that is left, keeps the deadline
  -- that has passed, and shows no key from then on. Neither key nor value is empty or has a tab, vertical tab or form feed, and
  -- the leader's clock stands still.
  pub late_lpush-applied :
      IsArg key
      → IsArg value
      → (db db' : Database) × (execute env (name ∷ key ∷ value ∷ []) s
          ≡ ok (counted 1, record s { db = db }))
        × (apply_leader_line clock
              (line_of name (key ∷ value ∷ []))
              (record { full_sync_in_progress = syncing; db = s.db })
            ≡ ok (true, record { full_sync_in_progress = syncing; db = db' }))
        × (find key db'.list_store ≡ some (value ∷ list_at key s.db))
        × (find key db'.expiry ≡ find key s.db.expiry)
        × ((t : ℤ)
            → now ≤ℤ t
            → (view t key db ≡ some (list (value ∷ []), none)) × (view t key db' ≡ none))
  unfolding lpush list_seen contains_name apply_live live_lpush live_result to_upper upper seen
  late_lpush-applied k a =
      let (db, made, shows, larger) =
        lpush-Runs now seen env name key s still (view-Shows now s.db w) value is in
      (
        db,
        (lpush key value s.db).1,
        made ∙ ap (λ e. ok (push_answer e, record s { db = db })) gone,
        apply_leader_line-line_of clock name (key ∷ value ∷ [])
              (record { full_sync_in_progress = syncing; db = s.db })
              (write_as name (codes "LPUSH") is refl) (k, (a, tt))
            ∙ rw is refl,
        find-insert key key (value ∷ list_at key s.db) s.db.list_store ∙ rw same_key refl,
        refl,
        λ t later. (shows.shows t later key ∙ rw (same_key, gone) refl, still_late t later),
      )
