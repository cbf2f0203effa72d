-- ===== src/Db/Snapshot.antt =====
-- src/db.cpp: `snapshot`, against the view.
use velo_kv.Prelude.{
  ◌≡◌, refl, false, Option, none, some, List, [], ◌∷◌, ◌++◌, Bytes, ℤ, negsuc, is_empty,
  if◌then◌else◌, bytes_eq, bytes_beq, bytes_beq_iff, arith,
}
use velo_kv.Map.{Map, find, Unique}
use velo_kv.Db.{
  Database, string_type, SnapshotEntry, snapshot_expiry, snapshot_strings, snapshot_lists, snapshot,
}
use velo_kv.Db.Wf.{IsWf}
use velo_kv.Db.View.{Value, str, list, view}

unfoldable pub entry_value : SnapshotEntry → Value
entry_value e = elim e.type [ string_type ↦ str e.str_value | _ ↦ list e.list_value ]

-- The value and the deadline of the first entry for the key.
unfoldable pub entry_at : Bytes → List SnapshotEntry → Option (Value × ℤ)
entry_at k [] = none
entry_at k (e ∷ es) = if bytes_beq e.key k then some (entry_value e, e.expiry_ms) else entry_at k es

-- A key with no deadline is written with -1.
abbrev pub saved : Option (Value × Option ℤ) → Option (Value × ℤ)
saved none = none
saved (some (v, none)) = some (v, negsuc 0)
saved (some (v, some d)) = some (v, d)

pub entry_at-append :
    (k : Bytes) (es fs : List SnapshotEntry)
    → entry_at k (es ++ fs) ≡ elim (entry_at k es) [ none ↦ entry_at k fs | some e ↦ some e ]
unfolding entry_at
entry_at-append k [] fs = refl
entry_at-append k (e ∷ es) fs = ground (arith, entry_at-append k es fs)

abbrev with_expiry : Value → Option ℤ → Option (Value × ℤ)
with_expiry v none = none
with_expiry v (some ms) = some (v, ms)

-- No list is empty.
abbrev pub AllFull : Map Bytes (List Bytes) → Type 0
AllFull m = (j : Bytes) (l : List Bytes) → find j m ≡ some l → is_empty l ≡ false

pub full_tail :
    (j : Bytes) (w : List Bytes) (m : Map Bytes (List Bytes))
    → Unique ((j, w) ∷ m)
    → AllFull ((j, w) ∷ m)
    → AllFull m
unfolding find
full_tail j w m u full i l h = full i l (ground (arith, bytes_beq_iff j i))

module _ (now : ℤ) (expiry : Map Bytes ℤ) (k : Bytes) where
  pub entry_at-strings :
      (m : Map Bytes Bytes)
      → Unique m
      → entry_at k (snapshot_strings now expiry m) ≡ elim (find k m) [
        | none ↦ none
        | some v ↦ with_expiry (str v) (snapshot_expiry now k expiry)
      ]
  unfolding entry_at entry_value snapshot_strings find
  entry_at-strings [] u = refl
  entry_at-strings ((j, v) ∷ m) u = ground (arith, entry_at-strings m u.1, bytes_beq_iff j k)

  pub entry_at-lists :
      (m : Map Bytes (List Bytes))
      → Unique m
      → AllFull m
      → entry_at k (snapshot_lists now expiry m) ≡ elim (find k m) [
        | none ↦ none
        | some l ↦ with_expiry (list l) (snapshot_expiry now k expiry)
      ]
  unfolding entry_at entry_value snapshot_lists find
  entry_at-lists [] u full = refl
  entry_at-lists ((j, w) ∷ m) u full = ground (
    arith,
    entry_at-lists m u.1 (full_tail j w m u full),
    bytes_beq_iff j k,
    full j w,
    bytes_beq_iff j j,
  )

-- On a well-formed database the entry that `snapshot` has for a key is the value and the deadline
-- that the view shows, and there is none where the view shows no key.
pub entry_at-snapshot :
    (now : ℤ) (db : Database) (k : Bytes)
    → IsWf db
    → entry_at k (snapshot now db) ≡ saved (view now k db)
unfolding snapshot snapshot_expiry view
entry_at-snapshot now db k w = ground (
  arith,
  entry_at-append k (snapshot_strings now db.expiry db.string_store)
      (snapshot_lists now db.expiry db.list_store),
  entry_at-strings now db.expiry k db.string_store w.unique.0,
  entry_at-lists now db.expiry k db.list_store w.unique.1 w.nonempty,
)
