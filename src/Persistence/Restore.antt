-- ===== src/Persistence/Restore.antt =====
-- src/persistence.cpp and src/replication.cpp: entries of a snapshot put back into a database, key by
-- key. What the load of a file and the full sync of a replica do for an entry, with no text between.
use velo_kv.Prelude.{
  append-nil, append_assoc, ◌⊎◌, ℕ, suc, ◌<◌, ◌≡◌, ◌≢◌, ◌∙◌, refl, true, false, Option, none, some,
  List, [], ◌∷◌, ◌++◌, Bytes, ℤ, negsuc, leb_ℤ, eqb_ℤ, Outcome, ok, ◌>>=◌, length, is_empty,
  bytes_eq, nat_eq, bytes_beq_iff, if◌then◌else◌, Bool-cases, Option-cases, inl, inr, arith,
}
use velo_kv.Map.{find, find-insert, insert-insert, erase_absent, length-insert_new}
use velo_kv.Db.{
  Database, max_capacity, size, push_front, set, rpush, list_at, in_store, SnapshotEntry,
  string_type, list_type, track, expire_at,
}
use velo_kv.Db.Wf.{IsWf}
use velo_kv.Db.View.{Value, str, list, view, due, stored}
use velo_kv.Db.Set.{store_string}
use velo_kv.Db.Set.Effect.{set_ended}
use velo_kv.Db.Set.Evict.{make_room_fits}
use velo_kv.Db.Lists.{put_list, put_list-IsWf}
use velo_kv.Db.Deadlines.{expire_at-Times}
use velo_kv.Db.Snapshot.{entry_value}
use velo_kv.Persistence.Load.{restore_expiry}

unfoldable pub rpush_all : Bytes → List Bytes → Database → Database
rpush_all key [] db = db
rpush_all key (e ∷ es) db = rpush_all key es (rpush key e db).1

unfoldable pub restore_entry : SnapshotEntry → Database → Outcome Database
unfolding rpush_all restore_expiry
restore_entry e db = elim e.type [
  | string_type ↦ do db' ← set e.key e.str_value db; ok (restore_expiry e.key e.expiry_ms db')
  | _ ↦ ok (restore_expiry e.key e.expiry_ms (rpush_all e.key e.list_value db))
]

unfoldable pub restore_entries : List SnapshotEntry → Database → Outcome Database
unfolding restore_entry
restore_entries [] db = ok db
restore_entries (e ∷ es) db = do db' ← restore_entry e db; restore_entries es db'

-- The view of a key at a time, from its value and its deadline or -1.
abbrev pub entry_view : ℤ → Value × ℤ → Option (Value × Option ℤ)
entry_view t (v, ms) =
    if eqb_ℤ ms (negsuc 0) then some (v, none) else if leb_ℤ ms t then none else some (v, some ms)

abbrev pub IsAbsent : Bytes → Database → Type 0
IsAbsent k db = (find k db.string_store ≡ none) × (find k db.list_store ≡ none)

pub absent_untimed : (k : Bytes) (db : Database) → IsWf db → IsAbsent k db → find k db.expiry ≡ none
absent_untimed k db w (s, l) = elim (Option-cases (find k db.expiry)) [
  | inl untimed ↦ untimed
  | inr (d, timed) ↦ absurd (ground (arith, w.timed k d timed))
]

-- `db'` is `db` with one key more.
pub record Adds (k : Bytes) (e : Value × ℤ) (db db' : Database) : Type 0 where
  pub wf : IsWf db'
  pub size_grows : size db' ≡ suc (size db)
  pub added : (t : ℤ) → view t k db' ≡ entry_view t e
  pub same : (t : ℤ) (j : Bytes) → j ≢ k → view t j db' ≡ view t j db
  pub absent : (j : Bytes) → j ≢ k → IsAbsent j db → IsAbsent j db'

-- A new string in a database with room goes to the front, and nothing is evicted.
set_room :
    (k v : Bytes) (db : Database)
    → IsWf db
    → IsAbsent k db
    → size db < max_capacity
    → set k v db ≡ ok (store_string k v (push_front k db))
unfolding set track
set_room k v db w (s, l) room = ground (
  arith,
  erase_absent k db.list_store l,
  erase_absent k db.expiry (absent_untimed k db w (s, l)),
  make_room_fits (length db.lru_order) db (ground arith),
)

module _ (k : Bytes) (v : Value) (db mid : Database) (a : Adds k (v, negsuc 0) db mid) where
  held : in_store k mid ≡ true
  held = unfold view stored in ground (arith, a.added (negsuc 0))

  timed_view :
      (d t : ℤ) → view t k (expire_at k d mid) ≡ (if leb_ℤ d t then none else some (v, some d))
  unfolding view due stored
  timed_view d t =
      let times = expire_at-Times k mid a.wf d held in
      ground (arith, times.deadline, times.value, a.added t)

  -- With its deadline put back.
  restore_expiry-Adds : (ms : ℤ) → Adds k (v, ms) db (restore_expiry k ms mid)
  unfolding restore_expiry
  restore_expiry-Adds ms = elim (Bool-cases (eqb_ℤ ms (negsuc 0))) [
    | inl untimed ↦ rw untimed (record {
      wf = a.wf;
      size_grows = a.size_grows;
      added = λ t. rw untimed (a.added t);
      same = a.same;
      absent = a.absent;
    })
    | inr timed ↦ rw timed (
        let times = expire_at-Times k mid a.wf ms held in
        record {
          wf = times.wf;
          size_grows = unfold expire_at in ground (arith, a.size_grows);
          added = λ t. rw timed (timed_view ms t);
          same = λ t j ne. times.others t j ne ∙ a.same t j ne;
          absent = λ j ne h.
              let (s, l) = a.absent j ne h in unfold expire_at in (ground arith, ground arith);
        })
  ]

module _ (k : Bytes) (db : Database) (w : IsWf db) (free : IsAbsent k db) where
  string-Adds :
      (v : Bytes)
      → size db < max_capacity
      → Adds k (str v, negsuc 0) db (store_string k v (push_front k db))
  unfolding view due stored push_front
  string-Adds v room = record {
    wf = (set_ended db k v w _ (set_room k v db w free room)).wf;
    size_grows = ground (arith, length-insert_new k v db.string_store free.0);
    added = λ t.
        ground
          (arith, absent_untimed k db w free, find-insert k k v db.string_store, bytes_beq_iff k k);
    same = λ t j ne. ground (arith, find-insert k j v db.string_store, bytes_beq_iff k j);
    absent =
        λ j ne h. (ground (arith, find-insert k j v db.string_store, bytes_beq_iff k j, h.0), h.1);
  }

  pub list-Adds :
      (x : Bytes) (l : List Bytes) → Adds k (list (x ∷ l), negsuc 0) db (put_list k (x ∷ l) db)
  unfolding view due stored
  list-Adds x l = record {
    wf =
        put_list-IsWf (negsuc 0) k db w (ground (arith, absent_untimed k db w free)) free.0 (x ∷ l)
          refl;
    size_grows = ground (arith, length-insert_new k (x ∷ l) db.list_store free.1);
    added = λ t. ground (
      arith,
      absent_untimed k db w free,
      find-insert k k (x ∷ l) db.list_store,
      bytes_beq_iff k k,
    );
    same = λ t j ne. ground (arith, find-insert k j (x ∷ l) db.list_store, bytes_beq_iff k j);
    absent = λ j ne h.
        (h.0, ground (arith, find-insert k j (x ∷ l) db.list_store, bytes_beq_iff k j, h.1));
  }

rpush_all-put_list :
    (k : Bytes) (l es : List Bytes) (db : Database)
    → rpush_all k es (put_list k l db) ≡ put_list k (l ++ es) db
unfolding rpush_all rpush
rpush_all-put_list k l [] db = rw append-nil
rpush_all-put_list k l (e ∷ es) db =
    let at : list_at k (put_list k l db) ≡ l =
      ground (arith, find-insert k k l db.list_store, bytes_beq_iff k k) in
    rw (at, insert-insert k (l ++ e ∷ []) l db.list_store, ← append_assoc l (e ∷ []) es)
      (rpush_all-put_list k (l ++ e ∷ []) es db)

pub rpush_all_absent :
    (k x : Bytes) (l : List Bytes) (db : Database)
    → IsAbsent k db
    → rpush_all k (x ∷ l) db ≡ put_list k (x ∷ l) db
unfolding rpush_all rpush
rpush_all_absent k x l db (s, free) =
    let at : list_at k db ≡ [] = ground (arith, free) in rw at (rpush_all-put_list k (x ∷ []) l db)

-- An entry that `snapshot` may write.
pub record IsEntry (e : SnapshotEntry) : Type 0 where
  pub typed : (e.type ≡ string_type) ⊎ ((e.type ≡ list_type) × (is_empty e.list_value ≡ false))

-- There is room for a string.
abbrev pub Room : SnapshotEntry → ℕ → Type 0
Room e n = e.type ≡ string_type → n < max_capacity

restore_list-Adds :
    (e : SnapshotEntry) (db : Database) (l : List Bytes)
    → IsWf db
    → IsAbsent e.key db
    → is_empty l ≡ false
    → Adds e.key (list l, e.expiry_ms) db (restore_expiry e.key e.expiry_ms (rpush_all e.key l db))
restore_list-Adds e db [] w free full = absurd (ground arith)
restore_list-Adds e db (x ∷ l) w free full = rw (rpush_all_absent e.key x l db free) (
    restore_expiry-Adds e.key (list (x ∷ l)) db (put_list e.key (x ∷ l) db)
      (list-Adds e.key db w free x l) e.expiry_ms)

pub restore_entry-Adds :
    (e : SnapshotEntry) (db : Database)
    → IsEntry e
    → IsWf db
    → IsAbsent e.key db
    → Room e (size db)
    → (db' : Database) × (restore_entry e db ≡ ok db')
      × Adds e.key (entry_value e, e.expiry_ms) db db'
unfolding restore_entry entry_value
restore_entry-Adds e db good w free room = elim good.typed [
  | inl string ↦
      let mid = store_string e.key e.str_value (push_front e.key db) in
      (
        restore_expiry e.key e.expiry_ms mid,
        rw (string, set_room e.key e.str_value db w free (room string)) refl,
        rw string (
            restore_expiry-Adds e.key (str e.str_value) db mid
              (string-Adds e.key db w free e.str_value (room string)) e.expiry_ms),
      )
  | inr (listed, full) ↦ (
    restore_expiry e.key e.expiry_ms (rpush_all e.key e.list_value db),
    rw listed refl,
    rw listed (restore_list-Adds e db e.list_value w free full),
  )
]
