-- ===== src/Persistence/Snapshot.antt =====
-- src/db.cpp: the whole of `snapshot`, restored into an empty database, shows what was there.
use velo_kv.Prelude.{
  ◌⊎◌, ℕ, suc, ◌≡◌, ◌∙◌, ap, refl, none, List, [], ◌∷◌, ◌++◌, Bytes, ℤ, pos, ◌≤ℤ◌, ok, bytes_eq,
  bytes_beq_iff, Option-cases, inl, inr, arith, All, All-append,
}
use velo_kv.Map.{find}
use velo_kv.Db.{Database, empty, SnapshotEntry, snapshot, snapshot_strings, snapshot_lists}
use velo_kv.Db.Wf.{IsWf, empty-IsWf}
use velo_kv.Db.View.{view, due, stored}
use velo_kv.Db.Snapshot.{
  entry_at, entry_at-append, entry_at-strings, entry_at-lists, entry_at-snapshot,
}
use velo_kv.Persistence.Restore.{IsEntry, restore_entries}
use velo_kv.Persistence.Restored.{HasRooms, IsDistinct, or_view, restore_entries-Restored}
use velo_kv.Persistence.Entries.{
  live_entries, All-live, live_entries-IsDistinct, live_entries-HasRooms, or_view-live_entries,
  strings-IsEntry, strings-IsDistinct, strings-HasRooms, lists-IsEntry, lists-IsDistinct,
  lists-HasRooms,
}

IsDistinct-append :
    (es fs : List SnapshotEntry)
    → IsDistinct es
    → IsDistinct fs
    → ((j : Bytes) → (entry_at j es ≡ none) ⊎ (entry_at j fs ≡ none))
    → IsDistinct (es ++ fs)
unfolding entry_at
IsDistinct-append [] fs d d' apart = d'
IsDistinct-append (e ∷ es) fs (new, d) d' apart = (
  ground (arith, entry_at-append e.key es fs, new, apart e.key, bytes_beq_iff e.key e.key),
  IsDistinct-append es fs d d' (λ j. ground (arith, apart j)),
)

HasRooms-append :
    (es fs : List SnapshotEntry) (n : ℕ)
    → HasRooms es n
    → ((m : ℕ) → HasRooms fs m)
    → HasRooms (es ++ fs) n
HasRooms-append [] fs n h h' = h' n
HasRooms-append (e ∷ es) fs n (room, h) h' = (room, HasRooms-append es fs (suc n) h h')

module _ (now : ℤ) (db : Database) (w : IsWf db) where
  apart :
      (j : Bytes)
      → (entry_at j (snapshot_strings now db.expiry db.string_store) ≡ none)
        ⊎ (entry_at j (snapshot_lists now db.expiry db.list_store) ≡ none)
  apart j = elim (Option-cases (find j db.string_store)) [
    | inl absent ↦ inl (ground (arith, entry_at-strings now db.expiry j db.string_store w.unique.0))
    | inr (v, string) ↦ inr (
        ground (
          arith,
          entry_at-lists now db.expiry j db.list_store w.unique.1 w.nonempty,
          w.disjoint j v string,
        ))
  ]

  pub snapshot-IsDistinct : IsDistinct (snapshot now db)
  unfolding snapshot
  snapshot-IsDistinct =
      IsDistinct-append (snapshot_strings now db.expiry db.string_store)
        (snapshot_lists now db.expiry db.list_store)
        (strings-IsDistinct now db.expiry db.string_store w.unique.0)
        (lists-IsDistinct now db.expiry db.list_store w.unique.1 w.nonempty) apart

  pub snapshot-IsEntry : All IsEntry (snapshot now db)
  unfolding snapshot
  snapshot-IsEntry =
      All-append IsEntry (snapshot_strings now db.expiry db.string_store)
        (snapshot_lists now db.expiry db.list_store) (strings-IsEntry now db.expiry db.string_store)
        (lists-IsEntry now db.expiry db.list_store w.unique.1)

  pub snapshot-HasRooms : HasRooms (snapshot now db) 0
  unfolding snapshot
  snapshot-HasRooms =
      HasRooms-append (snapshot_strings now db.expiry db.string_store)
        (snapshot_lists now db.expiry db.list_store) 0
        (strings-HasRooms now db.expiry db.string_store 0 (omega (arith, w.bounded)))
        (lists-HasRooms now db.expiry db.list_store)

  -- From the snapshot on, the view is that of its entries, on a clock that is not negative.
  or_view-snapshot :
      (t : ℤ) (j : Bytes)
      → pos 0 ≤ℤ now
      → now ≤ℤ t
      → or_view t (entry_at j (snapshot now db)) none ≡ view t j db
  unfolding view due stored
  or_view-snapshot t j positive later = ground (arith, entry_at-snapshot now db j w)

  view-empty : (t : ℤ) (j : Bytes) → view t j empty ≡ none
  unfolding view due stored find
  view-empty t j = refl

  -- What is restored at a later time: all views from then on.
  pub restore_entries-snapshot :
      (now' : ℤ)
      → pos 0 ≤ℤ now
      → now ≤ℤ now'
      → (db' : Database) × (restore_entries (live_entries now' (snapshot now db)) empty ≡ ok db')
        × IsWf db'
        × ((t : ℤ) → now' ≤ℤ t → (j : Bytes) → view t j db' ≡ view t j db)
  unfolding find
  restore_entries-snapshot now' positive later =
      let es = snapshot now db in
      let (db', made, (w', views)) =
        restore_entries-Restored (live_entries now' es) empty
          (All-live now' IsEntry es snapshot-IsEntry)
          (live_entries-IsDistinct now' es snapshot-IsDistinct)
          (live_entries-HasRooms now' es 0 0 (omega arith) snapshot-HasRooms)
          (λ j e h. (refl, refl)) empty-IsWf in
      (
        db',
        made,
        w',
        λ t after j.
            views t j
            ∙ ap (or_view t (entry_at j (live_entries now' es))) (view-empty t j)
            ∙ or_view-live_entries now' t j es snapshot-IsDistinct after
            ∙ or_view-snapshot t j positive (omega arith),
      )

  -- The same with no entry skipped.
  pub restore_entries_all :
      pos 0 ≤ℤ now
      → (db' : Database) × (restore_entries (snapshot now db) empty ≡ ok db')
        × IsWf db'
        × ((t : ℤ) → now ≤ℤ t → (j : Bytes) → view t j db' ≡ view t j db)
  unfolding find
  restore_entries_all positive =
      let es = snapshot now db in
      let (db', made, (w', views)) =
        restore_entries-Restored es empty snapshot-IsEntry snapshot-IsDistinct snapshot-HasRooms
          (λ j e h. (refl, refl)) empty-IsWf in
      (
        db',
        made,
        w',
        λ t after j.
            views t j
            ∙ ap (or_view t (entry_at j es)) (view-empty t j)
            ∙ or_view-snapshot t j positive after,
      )
