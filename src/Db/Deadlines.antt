-- ===== src/Db/Deadlines.antt =====
-- src/db.cpp: `del`, `expire`, `expire_at` and `ttl`.
use velo_kv.Prelude.{
  ◌≡◌, ◌≢◌, refl, Bool, true, false, Option, none, some, Bytes, ℤ, pos, negsuc, ◌≤ℤ◌, ◌+ℤ◌, ◌-ℤ◌,
  leb_ℤ, ltb_ℤ, in_range, int64_bound, if◌then◌else◌, Bool-cases, Option-cases, inl, inr, bytes_eq,
  nat_eq, bytes_beq_iff, arith, ok, undef,
}
use velo_kv.Map.{find, insert, find-erase, find-insert, insert-Unique}
use velo_kv.Db.{Database, in_store, del, expire, expire_at, ttl, int64}
use velo_kv.Db.Wf.{IsWf, erase_key-tracked}
use velo_kv.Db.View.{Value, due, stored, view, is_seen}
use velo_kv.Db.Expiry.{sweep, is_expired-sweep}
use velo_kv.Db.Reads.{Reads, sweep-SameViews}

-- `del` removes the key from every view and leaves the others; it says whether the key was stored.
pub record Deletes (key : Bytes) (db : Database) (r : Bool × Database) : Type 0 where
  pub wf : IsWf r.1
  pub found : r.0 ≡ in_store key db
  pub gone : (now : ℤ) → view now key r.1 ≡ none
  pub others : (now : ℤ) (j : Bytes) → j ≢ key → view now j r.1 ≡ view now j db

-- On a well-formed database `del` keeps the invariant, removes the key from every view, leaves the
-- other views, and says whether the key was stored.
pub del-Deletes : (db : Database) (key : Bytes) → IsWf db → Deletes key db (del key db)
unfolding del view
del-Deletes db key w = record {
  wf = erase_key-tracked db w key;
  found = refl;
  gone = λ now. ground (
    arith,
    find-erase key key db.string_store,
    find-erase key key db.list_store,
    bytes_beq_iff key key,
  );
  others = λ now j ne. ground (
    arith,
    find-erase key j db.string_store,
    find-erase key j db.list_store,
    find-erase key j db.expiry,
    bytes_beq_iff key j,
  );
}

abbrev pub put_deadline : Bytes → ℤ → Database → Database
put_deadline key d db = record db { expiry = insert key d db.expiry }

-- `db'` is `db` with the deadline at the key.
pub record Times (key : Bytes) (d : ℤ) (db db' : Database) : Type 0 where
  pub wf : IsWf db'
  pub deadline : find key db'.expiry ≡ some d
  pub value : stored key db' ≡ stored key db
  pub others : (now : ℤ) (j : Bytes) → j ≢ key → view now j db' ≡ view now j db

module _ (key : Bytes) (db : Database) (w : IsWf db) where
  pub put_deadline-Times : (d : ℤ) → in_store key db ≡ true → Times key d db (put_deadline key d db)
  unfolding view stored due
  put_deadline-Times d held = record {
    wf = record {
      positioned = w.positioned;
      allocated = w.allocated;
      tracked = w.tracked;
      disjoint = w.disjoint;
      nonempty = w.nonempty;
      timed = λ k d' h.
          ground (arith, find-insert key k d db.expiry, w.timed k d', bytes_beq_iff key k);
      bounded = w.bounded;
      unique = (w.unique.0, w.unique.1, insert-Unique key d db.expiry w.unique.2);
    };
    deadline = ground (arith, find-insert key key d db.expiry, bytes_beq_iff key key);
    value = refl;
    others = λ now j ne. ground (arith, find-insert key j d db.expiry, bytes_beq_iff key j);
  }

  pub expire_at-Times : (d : ℤ) → in_store key db ≡ true → Times key d db (expire_at key d db)
  unfolding expire_at
  expire_at-Times d held = rw held (put_deadline-Times d held)

  module _ (now now' ttl_ms : ℤ) where
    -- On a well-formed database and a key that the view shows, `expire` returns true and sets the
    -- deadline to the clock plus the time, if that sum is an `int64_t`; the value and every other view
    -- stay.
    pub expire-Times :
        is_seen (view now key db) ≡ true
        → in_range int64_bound (now' +ℤ ttl_ms) ≡ true
        → (db' : Database) × (expire now now' key ttl_ms db ≡ ok (true, db'))
          × Times key (now' +ℤ ttl_ms) db db'
    unfolding expire view is_seen sweep int64
    expire-Times seen fits = (
      put_deadline key (now' +ℤ ttl_ms) db,
      ground (arith, is_expired-sweep db w key now),
      put_deadline-Times (now' +ℤ ttl_ms) (ground arith),
    )

    -- On a well-formed database and a key that the view shows, `expire` is undefined, a signed
    -- overflow, where the clock plus the time is no `int64_t`.
    pub expire-overflow :
        is_seen (view now key db) ≡ true
        → in_range int64_bound (now' +ℤ ttl_ms) ≡ false
        → expire now now' key ttl_ms db ≡ undef
    unfolding expire view is_seen sweep int64
    expire-overflow seen wide = ground (arith, is_expired-sweep db w key now)

    -- On a well-formed database and a key that the view does not show, `expire` is defined, returns
    -- false, and changes no view from `now` on.
    pub expire-Reads :
        is_seen (view now key db) ≡ false → Reads now db (expire now now' key ttl_ms db) false
    unfolding expire view is_seen sweep int64
    expire-Reads unseen = (
      sweep now key db,
      ground (arith, is_expired-sweep db w key now),
      sweep-SameViews now key db w,
    )

-- What `ttl` returns, from the view: -2, -1 or the time that is left, and never less than 0.
unfoldable pub ttl_seen : ℤ → Option (Value × Option ℤ) → ℤ
ttl_seen now' none = negsuc 1
ttl_seen now' (some (v, none)) = negsuc 0
ttl_seen now' (some (v, some d)) =
    let left = d -ℤ now' in if ltb_ℤ (pos 0) left then left else pos 0

module _ (now now' : ℤ) (key : Bytes) (db : Database) (w : IsWf db) where
  -- the subtraction cannot overflow before the deadline
  sub_fits :
      (d : ℤ)
      → pos 0 ≤ℤ now
      → now ≤ℤ now'
      → in_range int64_bound now' ≡ true
      → leb_ℤ d now ≡ false
      → in_range int64_bound d ≡ true
      → in_range int64_bound (d -ℤ now') ≡ true
  unfolding in_range ◌-ℤ◌
  sub_fits d positive later fits left fit_d = ground arith

  pub ttl-due :
      due now key db ≡ true → Reads now db (ttl now now' key db) (ttl_seen now' (view now key db))
  unfolding ttl view ttl_seen sweep
  ttl-due passed = (
    sweep now key db,
    ground (arith, is_expired-sweep db w key now),
    sweep-SameViews now key db w,
  )

  pub ttl_live :
      due now key db ≡ false
      → ((d : ℤ) → find key db.expiry ≡ some d → in_range int64_bound (d -ℤ now') ≡ true)
      → Reads now db (ttl now now' key db) (ttl_seen now' (view now key db))
  unfolding ttl view ttl_seen sweep int64
  ttl_live live fits = elim (Option-cases (find key db.expiry)) [
    | inl untimed ↦ (
      sweep now key db,
      ground (arith, is_expired-sweep db w key now),
      sweep-SameViews now key db w,
    )
    | inr (d, timed) ↦ (
      sweep now key db,
      ground (arith, is_expired-sweep db w key now, fits d timed),
      sweep-SameViews now key db w,
    )
  ]

  -- On a well-formed database and a clock that is not negative and has not gone back between its two
  -- readings, where the clock and the deadline of the key are of `int64_t`, `ttl` is defined and
  -- returns -2 for a key that the view does not show, -1 for one with no deadline, and otherwise the
  -- time that is left, or 0; no view changes from the first reading on.
  pub ttl-Reads :
      pos 0 ≤ℤ now
      → now ≤ℤ now'
      → in_range int64_bound now' ≡ true
      → ((d : ℤ) → find key db.expiry ≡ some d → in_range int64_bound d ≡ true)
      → Reads now db (ttl now now' key db) (ttl_seen now' (view now key db))
  ttl-Reads positive later fits fit_d = elim (Bool-cases (due now key db)) [
    | inl passed ↦ ttl-due passed
    | inr live ↦
        ttl_live live
          λ d timed. sub_fits d positive later fits (unfold due in ground arith) (fit_d d timed)
  ]
