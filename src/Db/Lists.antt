-- ===== src/Db/Lists.antt =====
-- src/db.cpp: `lpush`, `rpush`, `lpop` and `rpop`. The pushes rely on their caller for the type check
-- and for the lazy eviction.
pub mod RoundTrip
use velo_kv.Prelude.{
  ℕ, suc, ◌≡◌, ◌≢◌, ◌⊎◌, refl, Bool, true, false, Option, none, some, List, [], ◌∷◌, ◌++◌, Bytes, ℤ,
  ◌≤ℤ◌, length, length-append, is_empty, back, pop_back, back_cons, Outcome, if◌then◌else◌,
  Bool-cases, Option-cases, inl, inr, bytes_eq, nat_eq, bytes_beq_iff, arith, ok,
}
use velo_kv.Map.{Map, find, contains, erase, insert, find-erase, find-insert, insert-Unique}
use velo_kv.Db.{Database, list_at, lpush, rpush, put_rest, pop_head, pop_tail, lpop, rpop}
use velo_kv.Db.Wf.{IsWf}
use velo_kv.Db.View.{Value, list, due, view, view-eq, list_seen}
use velo_kv.Db.Expiry.{sweep, is_expired-sweep, sweep-IsWf}
use velo_kv.Db.Set.{clear, clear-IsWf}
use velo_kv.Db.Reads.{Reads, sweep-SameViews}

abbrev pub put_list : Bytes → List Bytes → Database → Database
put_list key l db = record db { list_store = insert key l db.list_store }

-- The view of a key that holds the list: an empty list is no key.
abbrev pub list_view : List Bytes → Option ℤ → Option (Value × Option ℤ)
list_view [] d = none
list_view (x ∷ l) d = some (list (x ∷ l), d)

-- `db'` is `db` with another list, and the old deadline, at the key.
pub record Holds (now : ℤ) (key : Bytes) (l : List Bytes) (db db' : Database) : Type 0 where
  pub wf : IsWf db'
  pub holds : view now key db' ≡ list_view l (find key db.expiry)
  pub others : (j : Bytes) → j ≢ key → view now j db' ≡ view now j db

module _ (now : ℤ) (key : Bytes) (db : Database) (w : IsWf db) (live : due now key db ≡ false)
    (free : find key db.string_store ≡ none) where
  pub put_list-IsWf : (l : List Bytes) → is_empty l ≡ false → IsWf (put_list key l db)
  put_list-IsWf l full = record {
    positioned = w.positioned;
    allocated = w.allocated;
    tracked = w.tracked;
    disjoint = λ k v h.
        ground (arith, find-insert key k l db.list_store, w.disjoint k v, bytes_beq_iff key k);
    nonempty = λ k m h. ground (arith, find-insert key k l db.list_store, w.nonempty k m);
    timed = λ k d h. ground (arith, find-insert key k l db.list_store, w.timed k d);
    bounded = w.bounded;
    unique = (w.unique.0, insert-Unique key l db.list_store w.unique.1, w.unique.2);
  }

  put_list-Holds : (x : Bytes) (l : List Bytes) → Holds now key (x ∷ l) db (put_list key (x ∷ l) db)
  unfolding view due
  put_list-Holds x l = record {
    wf = put_list-IsWf (x ∷ l) refl;
    holds =
        ground
          (arith, live, free, find-insert key key (x ∷ l) db.list_store, bytes_beq_iff key key);
    others = λ j ne. ground (arith, find-insert key j (x ∷ l) db.list_store, bytes_beq_iff key j);
  }

  pub put_rest-Holds : (l : List Bytes) → Holds now key l db (put_rest key l db)
  unfolding put_rest view due
  put_rest-Holds [] = record {
    wf = clear-IsWf db key w;
    holds = ground (
      arith,
      free,
      find-erase key key db.list_store,
      find-erase key key db.expiry,
      bytes_beq_iff key key,
    );
    others = λ j ne.
        ground
          (arith, find-erase key j db.list_store, find-erase key j db.expiry, bytes_beq_iff key j);
  }
  put_rest-Holds (x ∷ l) = put_list-Holds x l

  -- On a well-formed database and a key that is no string and not due, `lpush` puts the value at the
  -- head of the list, creates the list if need be, keeps the deadline and every other view, and
  -- returns the new length.
  pub lpush-Holds :
      (value : Bytes)
      → ((lpush key value db).0 ≡ suc (length (list_at key db)))
        × Holds now key (value ∷ list_at key db) db (lpush key value db).1
  unfolding lpush
  lpush-Holds value = (refl, put_list-Holds value (list_at key db))

  put_snoc-Holds :
      (l : List Bytes) (value : Bytes)
      → Holds now key (l ++ value ∷ []) db (put_list key (l ++ value ∷ []) db)
  put_snoc-Holds [] value = put_list-Holds value []
  put_snoc-Holds (x ∷ l) value = put_list-Holds x (l ++ value ∷ [])

  -- On a well-formed database and a key that is no string and not due, `rpush` puts the value at the
  -- tail of the list, creates the list if need be, keeps the deadline and every other view, and
  -- returns the new length.
  pub rpush-Holds :
      (value : Bytes)
      → ((rpush key value db).0 ≡ suc (length (list_at key db)))
        × Holds now key (list_at key db ++ value ∷ []) db (rpush key value db).1
  unfolding rpush
  rpush-Holds value = (
    omega (arith, length-append (list_at key db) (value ∷ [])),
    put_snoc-Holds (list_at key db) value,
  )

  -- On a well-formed database and a key that is no string, not due and holds a list, `lpop` is
  -- defined, returns the head and leaves the rest; with the last element the key goes from the view,
  -- and every other view stays.
  pub lpop-Holds :
      (x : Bytes) (l : List Bytes)
      → find key db.list_store ≡ some (x ∷ l)
      → (db' : Database) × (lpop now key db ≡ ok (some x, db')) × Holds now key l db db'
  unfolding lpop sweep
  lpop-Holds x l at =
      (put_rest key l db, ground (arith, is_expired-sweep db w key now), put_rest-Holds l)

  -- On a well-formed database and a key that is no string, not due and holds a list, `rpop` is
  -- defined, returns the last element and leaves the rest; with the last element the key goes from
  -- the view, and every other view stays.
  pub rpop-Holds :
      (x : Bytes) (l : List Bytes)
      → find key db.list_store ≡ some (x ∷ l)
      → (db' : Database) × (rpop now key db ≡ ok (back (x ∷ l), db'))
        × Holds now key (pop_back (x ∷ l)) db db'
  unfolding rpop sweep
  rpop-Holds x l at = (
    put_rest key (pop_back (x ∷ l)) db,
    ground (arith, is_expired-sweep db w key now),
    put_rest-Holds (pop_back (x ∷ l)),
  )

module _ (now : ℤ) (key : Bytes) (db : Database) (w : IsWf db) where
  no_list :
      (o : Option (List Bytes))
      → find key db.list_store ≡ o
      → due now key db ≡ false
      → list_seen (view now key db) ≡ []
      → (o ≡ none) ⊎ (o ≡ some [])
  unfolding view list_seen
  no_list none at live h = inl refl
  no_list (some []) at live h = inr refl
  no_list (some (x ∷ l)) at live h = elim (Option-cases (find key db.string_store)) [
    | inl absent ↦ absurd (ground arith)
    | inr (v, string) ↦ absurd (ground (arith, w.disjoint key v string))
  ]

  module _ (h : list_seen (view now key db) ≡ []) where
    lpop-none : lpop now key db ≡ ok (none, sweep now key db)
    unfolding lpop sweep
    lpop-none = elim (Bool-cases (due now key db)) [
      | inl passed ↦ ground (arith, is_expired-sweep db w key now)
      | inr live ↦
          ground
            (arith, is_expired-sweep db w key now, no_list (find key db.list_store) refl live h)
    ]

    rpop-none : rpop now key db ≡ ok (none, sweep now key db)
    unfolding rpop sweep
    rpop-none = elim (Bool-cases (due now key db)) [
      | inl passed ↦ ground (arith, is_expired-sweep db w key now)
      | inr live ↦
          ground
            (arith, is_expired-sweep db w key now, no_list (find key db.list_store) refl live h)
    ]

    -- On a well-formed database and a key where the view shows no list, `lpop` is defined, returns
    -- nothing, and changes no view from `now` on.
    pub lpop-Reads : Reads now db (lpop now key db) none
    lpop-Reads = (sweep now key db, lpop-none, sweep-SameViews now key db w)

    -- On a well-formed database and a key where the view shows no list, `rpop` is defined, returns
    -- nothing, and changes no view from `now` on.
    pub rpop-Reads : Reads now db (rpop now key db) none
    rpop-Reads = (sweep now key db, rpop-none, sweep-SameViews now key db w)

module _ (now : ℤ) (key : Bytes) (db : Database) (w : IsWf db) (live : due now key db ≡ false)
    (free : find key db.string_store ≡ none) where
  view_by_list :
      (o : Option (List Bytes))
      → find key db.list_store ≡ o
      → list_view (list_at key db) (find key db.expiry) ≡ view now key db
  unfolding view
  view_by_list none at = ground arith
  view_by_list (some []) at = absurd (ground (arith, w.nonempty key [] at))
  view_by_list (some (x ∷ l)) at = ground arith

  -- The list that the pushes extend is the one that the view shows.
  pub list_at-view : list_view (list_at key db) (find key db.expiry) ≡ view now key db
  list_at-view = view_by_list (find key db.list_store) refl
