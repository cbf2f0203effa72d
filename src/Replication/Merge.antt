-- ===== src/Replication/Merge.antt =====
-- src/replication.cpp: the entries of a full sync put over what a replica already has.
use velo_kv.Prelude.{
  ℕ, suc, ◌+◌, ◌≤◌, ◌<◌, ◌≡◌, ◌≢◌, ◌∙◌, refl, true, false, none, some, List, [], ◌∷◌, Bytes, ℤ,
  negsuc, leb_ℤ, eqb_ℤ, Outcome, ok, ◌>>=◌, is_empty, bytes_eq, bytes_beq_iff, if◌then◌else◌,
  Bool-cases, Option-cases, inl, inr, arith, All, length,
}
use velo_kv.Map.{find, erase, find-erase, find-insert, length-erase-le, length-erase_found}
use velo_kv.Db.{
  Database, max_capacity, size, SnapshotEntry, string_type, set, del, in_store, expire_at,
  erase_key,
}
use velo_kv.Db.Wf.{IsWf}
use velo_kv.Db.View.{Value, str, list, view, due, stored}
use velo_kv.Db.Set.{clear}
use velo_kv.Db.Set.Adds.{set-Sets}
use velo_kv.Db.Deadlines.{del-Deletes, expire_at-Times}
use velo_kv.Db.Snapshot.{entry_at, entry_value}
use velo_kv.Persistence.Load.{restore_expiry}
use velo_kv.Persistence.Restored.{IsDistinct, Restored}
use velo_kv.Persistence.Restore.{
  IsAbsent, IsEntry, entry_view, rpush_all, rpush_all_absent, list-Adds,
}

-- What the line of an entry does to the database of the replica: a list replaces what was there.
unfoldable pub merge_entry : SnapshotEntry → Database → Outcome Database
unfolding restore_expiry
merge_entry e db = elim e.type [
  | string_type ↦ do db' ← set e.key e.str_value db; ok (restore_expiry e.key e.expiry_ms db')
  | _ ↦ ok (restore_expiry e.key e.expiry_ms (rpush_all e.key e.list_value (del e.key db).1))
]

-- `db'` is `db` with the entry at the key, whatever was there.
pub record Puts (k : Bytes) (e : Value × ℤ) (db db' : Database) : Type 0 where
  pub wf : IsWf db'
  pub grows : size db' ≤ suc (size db)
  pub no_larger : in_store k db ≡ true → size db' ≤ size db
  pub put : (t : ℤ) → view t k db' ≡ entry_view t e
  pub same : (t : ℤ) (j : Bytes) → j ≢ k → view t j db' ≡ view t j db
  pub kept : (j : Bytes) → j ≢ k → in_store j db' ≡ in_store j db

module _ (k : Bytes) (v : Value) (db mid : Database) (a : Puts k (v, negsuc 0) db mid) where
  held : in_store k mid ≡ true
  held = unfold view stored in ground (arith, a.put (negsuc 0))

  timed_view :
      (d t : ℤ) → view t k (expire_at k d mid) ≡ (if leb_ℤ d t then none else some (v, some d))
  unfolding view due stored
  timed_view d t =
      let times = expire_at-Times k mid a.wf d held in
      ground (arith, times.deadline, times.value, a.put t)

  -- With its deadline.
  restore_expiry-Puts : (ms : ℤ) → Puts k (v, ms) db (restore_expiry k ms mid)
  unfolding restore_expiry
  restore_expiry-Puts ms = elim (Bool-cases (eqb_ℤ ms (negsuc 0))) [
    | inl untimed ↦ rw untimed (record {
      wf = a.wf;
      grows = a.grows;
      no_larger = a.no_larger;
      put = λ t. rw untimed (a.put t);
      same = a.same;
      kept = a.kept;
    })
    | inr timed ↦ rw timed (
        let times = expire_at-Times k mid a.wf ms held in
        record {
          wf = times.wf;
          grows = unfold expire_at in ground (arith, a.grows);
          no_larger = λ h. unfold expire_at in ground (arith, a.no_larger);
          put = λ t. rw timed (timed_view ms t);
          same = λ t j ne. times.others t j ne ∙ a.same t j ne;
          kept = λ j ne. unfold expire_at in ground (arith, a.kept j);
        })
  ]

module _ (k : Bytes) (db : Database) (w : IsWf db) where
  string-Puts :
      (v : Bytes)
      → (find k db.string_store ≡ none → size (clear k db) < max_capacity)
      → (mid : Database) × (set k v db ≡ ok mid) × Puts k (str v, negsuc 0) db mid
  string-Puts v room =
      let (mid, made, sets) = set-Sets db w k room v in
      (
        mid,
        made,
        record {
          wf = sets.stores.wf;
          grows = sets.grows;
          no_larger = sets.no_larger;
          put = sets.stores.holds;
          same = sets.same;
          kept = sets.kept;
        },
      )

  abbrev deleted : Database
  deleted = (del k db).1

  deleted-IsAbsent : IsAbsent k deleted
  unfolding del
  deleted-IsAbsent = (
    ground (arith, find-erase k k db.string_store, bytes_beq_iff k k),
    ground (arith, find-erase k k db.list_store, bytes_beq_iff k k),
  )

  fewer_strings : length (erase k db.string_store) ≤ length db.string_store
  fewer_strings = length-erase-le k db.string_store

  fewer_lists : length (erase k db.list_store) ≤ length db.list_store
  fewer_lists = length-erase-le k db.list_store

  size-deleted : (in_store k db ≡ true → suc (size deleted) ≤ size db) × (size deleted ≤ size db)
  unfolding del erase_key
  size-deleted = (less, omega (arith, fewer_strings, fewer_lists))
    where
      less : in_store k db ≡ true → suc (size deleted) ≤ size db
      less h = elim (Option-cases (find k db.string_store)) [
        | inr (v, old) ↦
            unfold del erase_key in
            omega (arith, length-erase_found k db.string_store v old, fewer_lists)
        | inl new ↦ elim (Option-cases (find k db.list_store)) [
          | inl absent ↦ absurd (ground arith)
          | inr (l, at) ↦
              unfold del erase_key in
              omega (arith, length-erase_found k db.list_store l at, fewer_strings)
        ]
      ]

  list-Puts :
      (x : Bytes) (l : List Bytes)
      → Puts k (list (x ∷ l), negsuc 0) db (rpush_all k (x ∷ l) deleted)
  list-Puts x l = rw (rpush_all_absent k x l deleted deleted-IsAbsent) (
      let gone = del-Deletes db k w in
      let a = list-Adds k deleted gone.wf deleted-IsAbsent x l in
      record {
        wf = a.wf;
        grows = omega (arith, a.size_grows, size-deleted.1);
        no_larger = λ h. omega (arith, a.size_grows, size-deleted.0 h);
        put = a.added;
        same = λ t j ne. a.same t j ne ∙ gone.others t j ne;
        kept = λ j ne.
            unfold del erase_key in
            ground (
              arith,
              find-insert k j (x ∷ l) (erase k db.list_store),
              find-erase k j db.string_store,
              find-erase k j db.list_store,
              bytes_beq_iff k j,
            );
      })

  entry-Puts :
      (ms : ℤ) (l : List Bytes)
      → is_empty l ≡ false
      → Puts k (list l, ms) db (restore_expiry k ms (rpush_all k l deleted))
  entry-Puts ms [] full = absurd (ground arith)
  entry-Puts ms (x ∷ l) full =
      restore_expiry-Puts k (list (x ∷ l)) db (rpush_all k (x ∷ l) deleted) (list-Puts x l) ms

  place :
      (in_store k db ≡ false → size db < max_capacity)
      → size db ≤ max_capacity
      → find k db.string_store ≡ none
      → size (clear k db) < max_capacity
  place room few new = elim (Option-cases (find k db.list_store)) [
    | inl absent ↦ omega (arith, fewer_lists, room (ground arith))
    | inr (l, at) ↦ omega (arith, length-erase_found k db.list_store l at)
  ]

pub merge_entry-Puts :
    (e : SnapshotEntry) (db : Database)
    → IsEntry e
    → IsWf db
    → (in_store e.key db ≡ false → size db < max_capacity)
    → size db ≤ max_capacity
    → (db' : Database) × (merge_entry e db ≡ ok db')
      × Puts e.key (entry_value e, e.expiry_ms) db db'
unfolding merge_entry entry_value
merge_entry-Puts e db good w room few = elim good.typed [
  | inl string ↦
      let (mid, made, a) = string-Puts e.key db w e.str_value (place e.key db w room few) in
      (
        restore_expiry e.key e.expiry_ms mid,
        rw (string, merge_entry, made) refl,
        rw string (restore_expiry-Puts e.key (str e.str_value) db mid a e.expiry_ms),
      )
  | inr (listed, full) ↦ (
    restore_expiry e.key e.expiry_ms (rpush_all e.key e.list_value (del e.key db).1),
    rw (listed, merge_entry) refl,
    rw listed (entry-Puts e.key db w e.expiry_ms e.list_value full),
  )
]

-- The keys of the entries that are not stored yet.
unfoldable pub missing : List SnapshotEntry → Database → ℕ
missing [] db = 0
missing (e ∷ es) db = let rest = missing es db in if in_store e.key db then rest else suc rest

missing-kept :
    (es : List SnapshotEntry) (k : Bytes) (db db' : Database)
    → entry_at k es ≡ none
    → ((j : Bytes) → j ≢ k → in_store j db' ≡ in_store j db)
    → missing es db' ≡ missing es db
unfolding missing entry_at
missing-kept [] k db db' apart kept = refl
missing-kept (e ∷ es) k db db' apart kept =
    ground (arith, bytes_beq_iff e.key k, kept e.key, missing-kept es k db db')

unfoldable pub merge_entries : List SnapshotEntry → Database → Outcome Database
unfolding merge_entry
merge_entries [] db = ok db
merge_entries (e ∷ es) db = do db' ← merge_entry e db; merge_entries es db'

-- With room for the keys that are missing, the entries are all put over what is there.
pub merge_entries-Restored :
    (es : List SnapshotEntry) (db : Database)
    → All IsEntry es
    → IsDistinct es
    → IsWf db
    → size db + missing es db ≤ max_capacity
    → (db' : Database) × (merge_entries es db ≡ ok db') × Restored es db db'
unfolding merge_entries missing entry_at
merge_entries-Restored [] db good distinct w room = (db, refl, (w, λ t j. refl))
merge_entries-Restored (e ∷ es) db (g, good) (apart, distinct) w room =
    let (mid, made, a) = merge_entry-Puts e db g w (λ new. ground arith) (ground arith) in
    let same : missing es mid ≡ missing es db = missing-kept es e.key db mid apart a.kept in
    let room' : size mid + missing es mid ≤ max_capacity =
      ground (arith, same, a.grows, a.no_larger) in
    let (db', rest, (w', views)) = merge_entries-Restored es mid good distinct a.wf room' in
    (
      db',
      rw made rest,
      (w', λ t j. ground (arith, views t j, a.put t, a.same t j, bytes_beq_iff e.key j, apart)),
    )
