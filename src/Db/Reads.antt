-- ===== src/Db/Reads.antt =====
-- src/db.cpp: the methods that read. Their lazy eviction and their moves in the eviction list show
-- in no view.
use velo_kv.Prelude.{
  ◌≡◌, ◌≢◌, ◌≤◌, bytes_beq_iff, ◌⊎◌, refl, true, false, none, some, ℕ, Bytes, ℤ, ◌≤ℤ◌, length,
  Outcome, if◌then◌else◌, Bool-cases, Option-cases, inl, inr, bytes_eq, nat_eq, arith, ok,
}
use velo_kv.Map.{find, find-erase, length-erase-le}
use velo_kv.Db.{string_type, Database, type_of, get, exists, llen, push_front, size}
use velo_kv.Db.Wf.{IsWf, moved, moved-IsWf, move_to_front-moved}
use velo_kv.Db.View.{due, view, view-eq, type_seen, string_seen, list_seen, is_seen}
use velo_kv.Db.Expiry.{sweep, forget, is_expired-sweep, sweep-IsWf, view-sweep}

-- `db'` is well-formed and shows what `db` shows, from `now` on, and stores no more keys.
pub record SameViews (now : ℤ) (db db' : Database) : Type 0 where
  pub wf : IsWf db'
  pub no_larger : size db' ≤ size db
  pub same : (now' : ℤ) → now ≤ℤ now' → (j : Bytes) → view now' j db' ≡ view now' j db

-- The call is defined and returns `a`, and nothing that a client sees changes.
abbrev pub Reads {ℓ} : {A : Type ℓ} → ℤ → Database → Outcome (A × Database) → A → Type ℓ
Reads now db r a = (db' : Database) × (r ≡ ok (a, db')) × SameViews now db db'

module _ (now : ℤ) (key : Bytes) (db : Database) (w : IsWf db) where
  size-sweep : size (sweep now key db) ≤ size db
  unfolding sweep forget
  size-sweep =
      ground (arith, length-erase-le key db.string_store, length-erase-le key db.list_store)

  pub sweep-SameViews : SameViews now db (sweep now key db)
  sweep-SameViews = record {
    wf = sweep-IsWf db w key now;
    no_larger = size-sweep;
    same = λ now' le j. view-sweep db now now' key j le;
  }

  pub type_of-sweep : type_of now key db ≡ ok (type_seen (view now key db), sweep now key db)
  unfolding type_of view type_seen sweep
  type_of-sweep = ground (arith, is_expired-sweep db w key now)

  -- On a well-formed database `type_of` is defined and returns the type that the view shows; it only
  -- forgets a key that is due, so no view changes from `now` on.
  pub type_of-Reads : Reads now db (type_of now key db) (type_seen (view now key db))
  type_of-Reads = (sweep now key db, type_of-sweep, sweep-SameViews)

  -- After `type_of` the key is not due, and it is a string in the store only if it was reported.
  pub due-sweep : due now key (sweep now key db) ≡ false
  unfolding due sweep
  due-sweep = ground (arith, find-erase key key db.expiry, bytes_beq_iff key key)

  pub free-sweep :
      type_seen (view now key db) ≢ string_type → find key (sweep now key db).string_store ≡ none
  unfolding sweep view type_seen
  free-sweep h = ground (arith, find-erase key key db.string_store, bytes_beq_iff key key)

  -- On a well-formed database `exists` is defined and tells whether the view shows the key; no view
  -- changes from `now` on.
  pub exists-Reads : Reads now db (exists now key db) (is_seen (view now key db))
  unfolding exists view is_seen sweep
  exists-Reads = (sweep now key db, ground (arith, is_expired-sweep db w key now), sweep-SameViews)

  -- On a well-formed database `llen` is defined and returns the length of the list that the view
  -- shows, 0 if it shows none; no view changes from `now` on.
  pub llen-Reads : Reads now db (llen now key db) (length (list_seen (view now key db)))
  unfolding llen view list_seen sweep
  llen-Reads = (sweep now key db, value (Option-cases (find key db.string_store)), sweep-SameViews)
    where
      value :
          (find key db.string_store ≡ none) ⊎ ((v : Bytes) × (find key db.string_store ≡ some v))
          → llen now key db ≡ ok (length (list_seen (view now key db)), sweep now key db)
      value (inl absent) = ground (arith, is_expired-sweep db w key now)
      value (inr (v, at)) = ground (arith, is_expired-sweep db w key now, w.disjoint key v at)

  moved-SameViews :
      (node : ℕ) → find key db.lru_position ≡ some node → SameViews now db (moved db w key node)
  unfolding moved push_front
  moved-SameViews node at = record {
    wf = moved-IsWf db w key node at;
    no_larger = omega arith;
    same = λ now' le j. view-eq now' j db (moved db w key node) refl refl refl;
  }

  get_live :
      (v : Bytes)
      → due now key db ≡ false
      → find key db.string_store ≡ some v
      → Reads now db (get now key db) (some v)
  unfolding get sweep
  get_live v live at = elim (Option-cases (find key db.lru_position)) [
    | inl absent ↦ absurd (ground (arith, w.tracked key v at))
    | inr (node, position) ↦ (
      moved db w key node,
      ground (arith, is_expired-sweep db w key now, move_to_front-moved db w key node position),
      moved-SameViews node position,
    )
  ]

  get-due : due now key db ≡ true → Reads now db (get now key db) none
  unfolding get sweep
  get-due passed =
      (sweep now key db, ground (arith, is_expired-sweep db w key now), sweep-SameViews)

  get_absent :
      due now key db ≡ false → find key db.string_store ≡ none → Reads now db (get now key db) none
  unfolding get sweep
  get_absent live absent =
      (sweep now key db, ground (arith, is_expired-sweep db w key now), sweep-SameViews)

  seen : string_seen (view now key db) ≡ (if due now key db then none else find key db.string_store)
  unfolding view string_seen
  seen = ground arith

  -- On a well-formed database `get` is defined and returns the string that the view shows, none if
  -- it shows no string; moving the key to the front of the eviction list and forgetting a key that
  -- is due change no view from `now` on.
  pub get-Reads : Reads now db (get now key db) (string_seen (view now key db))
  get-Reads = elim (Bool-cases (due now key db)) [
    | inl passed ↦ rw (seen, passed) (get-due passed)
    | inr live ↦ elim (Option-cases (find key db.string_store)) [
      | inl absent ↦ rw (seen, live, absent) (get_absent live absent)
      | inr (v, at) ↦ rw (seen, live, at) (get_live v live at)
    ]
  ]
