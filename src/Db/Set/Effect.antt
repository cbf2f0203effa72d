-- ===== src/Db/Set/Effect.antt =====
-- src/db.cpp: what a client sees of `Database::set`.
use velo_kv.Prelude.{
  subst, >>=-eq-ok, ok-injective, ◌≤◌, ◌<◌, ◌≡◌, ◌≢◌, ◌⊎◌, inl, inr, none, some, Bytes, ℤ, length,
  Option-cases, bytes_eq, bytes_beq_iff, arith, ok,
}
use velo_kv.Map.{find, erase, find-erase, find-insert, length-erase-le}
use velo_kv.Db.{Database, max_capacity, size, track, set}
use velo_kv.Db.Wf.{IsWf}
use velo_kv.Db.View.{str, view}
use velo_kv.Db.Room.{SameAt, GoneAt}
use velo_kv.Db.Set.{
  clear, store_string, clear-IsWf, store_string-IsWf, IsTracked, track_new, track_old, track_ended,
}

-- What `set` promises: the key holds the value and has no deadline; another key is as it was, or
-- was evicted; and no more than 31 keys are stored, unless there were more before.
pub record Stores (key value : Bytes) (db db' : Database) : Type 0 where
  pub wf : IsWf db'
  pub holds : (now : ℤ) → view now key db' ≡ some (str value, none)
  pub others :
      (now : ℤ) (j : Bytes) → j ≢ key → (view now j db' ≡ view now j db) ⊎ (view now j db' ≡ none)
  pub bound : (size db' ≤ max_capacity) ⊎ (size db' ≤ size db)

module _ (db : Database) (key value : Bytes) where
  view_written :
      (now : ℤ) (db' : Database)
      → IsTracked key (clear key db) db'
      → view now key (store_string key value db') ≡ some (str value, none)
  unfolding view
  view_written now db' t =
      ground (arith, t.untimed, find-insert key key value db'.string_store, bytes_beq_iff key key)

  view_beside :
      (now : ℤ) (db' : Database) (j : Bytes)
      → j ≢ key
      → SameAt j (clear key db) db' ⊎ GoneAt j db'
      → (view now j (store_string key value db') ≡ view now j db)
        ⊎ (view now j (store_string key value db') ≡ none)
  unfolding view
  view_beside now db' j ne kept = ground (
    arith,
    find-insert key j value db'.string_store,
    find-erase key j db.list_store,
    find-erase key j db.expiry,
    bytes_beq_iff key j,
  )

  pub tracked-Stores :
      (db' : Database)
      → IsTracked key (clear key db) db'
      → Stores key value db (store_string key value db')
  tracked-Stores db' t = record {
    wf = store_string-IsWf db' key value t.wf t.node t.free (t.fits value);
    holds = λ now. view_written now db' t;
    others = λ now j ne. view_beside now db' j ne (t.kept j ne);
    bound = ground (arith, t.bound value, length-erase-le key db.list_store);
  }

  set_tracked :
      (db' : Database)
      → track key (clear key db) ≡ ok db'
      → set key value db ≡ ok (store_string key value db')
  unfolding set
  set_tracked db' e = ground arith

  find_cleared : find key (clear key db).list_store ≡ none
  find_cleared = ground (arith, find-erase key key db.list_store, bytes_beq_iff key key)

  untimed_cleared : find key (clear key db).expiry ≡ none
  untimed_cleared = ground (arith, find-erase key key db.expiry, bytes_beq_iff key key)

  total-IsTracked :
      IsWf db
      → length (erase key db.list_store) < max_capacity
      → (db' : Database) × (track key (clear key db) ≡ ok db') × IsTracked key (clear key db) db'
  total-IsTracked w few =
      let c = clear-IsWf db key w in
      elim (Option-cases (find key db.string_store)) [
        | inl new ↦ track_new (clear key db) c key find_cleared untimed_cleared new few
        | inr (v, old) ↦
            let (db', made, t, _) =
              track_old (clear key db) c key find_cleared untimed_cleared v old in
            (db', made, t)
      ]

  -- On a well-formed database with fewer than 31 lists beside the key, `set` is defined and keeps the
  -- invariant; the key then holds the value and has no deadline, each other key is as it was or is
  -- gone, and no more than 31 keys are stored, unless no fewer were stored before.
  pub set-Stores :
      IsWf db
      → length (erase key db.list_store) < max_capacity
      → (db' : Database) × (set key value db ≡ ok db') × Stores key value db db'
  set-Stores w few =
      let (db', made, t) = total-IsTracked w few in
      (store_string key value db', set_tracked db' made, tracked-Stores db' t)

  -- On a well-formed database, with however many lists, a `set` that ends has kept the invariant; the
  -- key holds the value and has no deadline, each other key is as it was or is gone, and no more than
  -- 31 keys are stored, unless no fewer were stored before.
  pub set_ended : IsWf db → (db' : Database) → set key value db ≡ ok db' → Stores key value db db'
  unfolding set
  set_ended w db' ended =
      let (d, e, made) =
        >>=-eq-ok (track key (clear key db)) (λ d. ok (store_string key value d)) ended in
      subst (Stores key value db) (ok-injective (store_string key value d) db' e) (
        tracked-Stores d (
          track_ended (clear key db) (clear-IsWf db key w) key find_cleared untimed_cleared d made))
