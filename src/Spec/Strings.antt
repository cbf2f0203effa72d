-- ===== src/Spec/Strings.antt =====
-- src/command.cpp: SET, DEL and EXPIRE do what the abstract store does.
use velo_kv.Prelude.{
  ℕ, suc, ◌≡◌, ◌≤◌, ◌<◌, ◌∙◌, refl, ap, sym, subst, none, some, [], ◌∷◌, Bytes, codes, ℤ, pos, ◌≤ℤ◌,
  ◌+ℤ◌, ◌*◌, in_range, int64_bound, ok, bytes_beq, bytes_eq, nat_eq, bytes_beq_iff, arith, true,
  false, Bool, ltb_ℤ, negsuc,
}
use velo_kv.Map.{find, find-insert, length-erase-le}
use velo_kv.Db.{Database, max_capacity, size, del, in_store, expire, int64}
use velo_kv.Db.View.{str, list, due, stored, view, is_seen}
use velo_kv.Db.Expiry.{sweep, is_expired-sweep}
use velo_kv.Db.Set.{clear}
use velo_kv.Db.Set.Adds.{set-Sets}
use velo_kv.Db.Deadlines.{del-Deletes, put_deadline, put_deadline-Times, expire-Reads}
use velo_kv.Text.Decimal.{decimal, stoll}
use velo_kv.Persistence.Record.{stoll-to_string}
use velo_kv.Text.Decimal.{to_string}
use velo_kv.Text.Upper.{to_upper}
use velo_kv.Command.{
  Env, Store, execute, builtin_commands, run_handler, set_command, del_command, expire_command,
  to_ms, bool_reply,
}
use velo_kv.Spec.{Entry, Keys, setting, deleting, expiring, effect, live, expire_entry, update}
use velo_kv.Spec.Refines.{
  Shows, Shows-update, Shows-same, SameViews-Shows, Runs, Stored, view-Stored,
}

size-del : (key : Bytes) (db : Database) → size (del key db).1 ≤ size db
unfolding del
size-del key db =
    omega (arith, length-erase-le key db.string_store, length-erase-le key db.list_store)

-- What a deadline does to a key that is stored.
put_deadline-view :
    (key : Bytes) (d : ℤ) (db : Database) (e : Entry)
    → Stored e key db
    → is_seen e ≡ true
    → (t : ℤ) → view t key (put_deadline key d db) ≡ live t (expire_entry d e)
unfolding view stored due is_seen
put_deadline-view key d db none h seen t = absurd (ground arith)
put_deadline-view key d db (some (str v, o)) h seen t =
    ground (arith, find-insert key key d db.expiry, bytes_beq_iff key key)
put_deadline-view key d db (some (list l, o)) h seen t =
    ground (arith, find-insert key key d db.expiry, bytes_beq_iff key key)

Stored-in_store :
    (key : Bytes) (db : Database) (e : Entry)
    → Stored e key db
    → is_seen e ≡ true
    → in_store key db ≡ true
unfolding is_seen
Stored-in_store key db none h seen = absurd (ground arith)
Stored-in_store key db (some (str v, o)) h seen = ground arith
Stored-in_store key db (some (list l, o)) h seen = ground arith

is_seen-due :
    (now : ℤ) (key : Bytes) (db : Database)
    → is_seen (view now key db) ≡ true
    → due now key db ≡ false
unfolding view is_seen
is_seen-due now key db h = ground arith

expire_entry_unseen : (d : ℤ) (e : Entry) → is_seen e ≡ false → expire_entry d e ≡ e
unfolding is_seen
expire_entry_unseen d none h = refl
expire_entry_unseen d (some (v, o)) h = absurd (ground arith)

stoll-decimal : (n : ℕ) → n < int64_bound → stoll (decimal n) ≡ some (pos n)
stoll-decimal n h = unfold to_string in stoll-to_string (pos n) (unfold in_range in ground arith)

summand_fits :
    (now : ℤ) (n : ℕ) → pos 0 ≤ℤ now → in_range int64_bound (now +ℤ pos n) ≡ true → n < int64_bound
unfolding in_range ◌+ℤ◌
summand_fits (pos m) n positive fits = ground arith
summand_fits (negsuc m) n positive fits = absurd (omega arith)

module _ (now : ℤ) (keys : Keys) (env : Env) (name key : Bytes) (s : Store)
    (still : (i : ℕ) → env.clock i ≡ now) (h : Shows now keys s.db) where
  pub set-Runs :
      (value : Bytes)
      → size s.db < max_capacity
      → to_upper name ≡ codes "SET"
      → Runs now (setting key value) keys s (execute env (name ∷ key ∷ value ∷ []) s)
  unfolding execute builtin_commands find bytes_beq run_handler set_command
  set-Runs value room is =
      let fits : size (clear key s.db) < max_capacity =
        omega (arith, length-erase-le key s.db.list_store, room) in
      let (db', made, sets) = set-Sets s.db h.wf key (λ _. fits) value in
      (
        db',
        rw (is, made) refl,
        Shows-update now keys key (some (str value, none)) s.db db' h sets.stores.wf
            (λ t _. sets.stores.holds t) (λ t j _. sets.same t j),
        sets.grows,
      )

  pub del-Runs :
      to_upper name ≡ codes "DEL" → Runs now (deleting key) keys s (execute env (name ∷ key ∷ []) s)
  unfolding execute builtin_commands find bytes_beq run_handler del_command
  del-Runs is =
      let gone = del-Deletes s.db key h.wf in
      (
        (del key s.db).1,
        rw is refl,
        Shows-update now keys key none s.db (del key s.db).1 h gone.wf (λ t _. gone.gone t)
            (λ t j _. gone.others t j),
        omega (arith, size-del key s.db),
      )

  seen_now : view now key s.db ≡ live now (keys key)
  seen_now = h.shows now (omega arith) key

  module _ (seconds : ℕ) (positive : pos 0 ≤ℤ now)
      (fits : in_range int64_bound (now +ℤ pos (seconds * 1000)) ≡ true) where
    abbrev deadline : ℤ
    deadline = now +ℤ pos (seconds * 1000)

    -- The database that EXPIRE leaves.
    expired :
        (b : Bool)
        → is_seen (live now (keys key)) ≡ b
        → (db' : Database) × (expire now now key (pos (seconds * 1000)) s.db ≡ ok (b, db'))
          × Shows now (effect now (expiring key seconds) keys) db'
          × (size db' ≤ suc (size s.db))
    unfolding expire int64 sweep
    expired true seen =
        let fresh = is_seen-due now key s.db (ap is_seen seen_now ∙ seen) in
        let there =
          view-Stored now key s.db (live now (keys key)) h.wf fresh
            (h.shows now (omega arith) key) in
        let held = Stored-in_store key s.db (live now (keys key)) there seen in
        let times = put_deadline-Times key s.db h.wf deadline held in
        (
          put_deadline key deadline s.db,
          ground (arith, is_expired-sweep s.db h.wf key now),
          Shows-update now keys key (expire_entry deadline (live now (keys key))) s.db
              (put_deadline key deadline s.db) h times.wf
              (λ t _. put_deadline-view key deadline s.db (live now (keys key)) there seen t)
              (λ t j _. times.others t j),
          omega arith,
        )
    expired false unseen =
        let (db', made, v) =
          expire-Reads key s.db h.wf now now (pos (seconds * 1000))
            (ap is_seen seen_now ∙ unseen) in
        (
          db',
          made,
          subst (λ e. Shows now (update key e keys) db')
              (sym (expire_entry_unseen deadline (live now (keys key)) unseen))
              (SameViews-Shows now (update key (live now (keys key)) keys) s.db db'
                (Shows-same now keys key s.db h) v),
          omega (arith, v.no_larger),
        )

    expire_run :
        (b : Bool) (db' : Database)
        → expire now now key (pos (seconds * 1000)) s.db ≡ ok (b, db')
        → expire_command env (name ∷ key ∷ decimal seconds ∷ []) s
          ≡ ok (bool_reply b, record s { db = db' })
    unfolding expire_command
    expire_run b db' made =
        let small = summand_fits now (seconds * 1000) positive fits in
        let whole : to_ms (pos seconds) ≡ ok (pos (seconds * 1000)) =
          unfold to_ms int64 in_range in ground arith in
        let ahead : ltb_ℤ (pos seconds) (pos 0) ≡ false = ground arith in
        simp
          (
            stoll-decimal seconds (omega arith),
            whole,
            still 0,
            still 1,
            made,
            expire_command,
            ahead,
          )
          refl

    pub expire-Runs :
        to_upper name ≡ codes "EXPIRE"
        → Runs now (expiring key seconds) keys s (execute env (name ∷ key ∷ decimal seconds ∷ []) s)
    unfolding execute builtin_commands find bytes_beq run_handler
    expire-Runs is =
        let (db', made, shows, larger) = expired (is_seen (live now (keys key))) refl in
        (db', rw is (expire_run (is_seen (live now (keys key))) db' made), shows, larger)
