-- ===== src/Persistence/Restored.antt =====
-- src/persistence.cpp and src/replication.cpp: entries that are restored one behind the other.
use velo_kv.Prelude.{
  All, ℕ, suc, ◌≡◌, refl, Option, none, some, List, [], ◌∷◌, Bytes, ℤ, ok, bytes_eq, nat_eq,
  bytes_beq_iff, arith,
}
use velo_kv.Db.{Database, size, SnapshotEntry}
use velo_kv.Db.Wf.{IsWf}
use velo_kv.Db.View.{Value, view}
use velo_kv.Db.Snapshot.{entry_at, entry_value}
use velo_kv.Persistence.Restore.{
  IsAbsent, IsEntry, Room, entry_view, restore_entries, restore_entry-Adds,
}

-- No key has two entries.
abbrev pub IsDistinct : List SnapshotEntry → Type 0
IsDistinct [] = Unit
IsDistinct (e ∷ es) = (entry_at e.key es ≡ none) × IsDistinct es

-- There is room for each string when its turn comes, from a database with `n` keys.
abbrev pub HasRooms : List SnapshotEntry → ℕ → Type 0
HasRooms [] n = Unit
HasRooms (e ∷ es) n = Room e n × HasRooms es (suc n)

-- No key of an entry is stored.
abbrev pub AreAbsent : List SnapshotEntry → Database → Type 0
AreAbsent es db = (j : Bytes) (e : Value × ℤ) → entry_at j es ≡ some e → IsAbsent j db

abbrev pub or_view : ℤ → Option (Value × ℤ) → Option (Value × Option ℤ) → Option (Value × Option ℤ)
or_view t none old = old
or_view t (some e) old = entry_view t e

abbrev pub Restored : List SnapshotEntry → Database → Database → Type 0
Restored es db db' =
    IsWf db' × ((t : ℤ) (j : Bytes) → view t j db' ≡ or_view t (entry_at j es) (view t j db))

pub restore_entries-Restored :
    (es : List SnapshotEntry) (db : Database)
    → All IsEntry es
    → IsDistinct es
    → HasRooms es (size db)
    → AreAbsent es db
    → IsWf db
    → (db' : Database) × (restore_entries es db ≡ ok db') × Restored es db db'
unfolding restore_entries entry_at
restore_entries-Restored [] db good distinct rooms free w = (db, refl, (w, λ t j. refl))
restore_entries-Restored (e ∷ es) db (g, good) (apart, distinct) (room, rooms) free w =
    let (mid, made, a) =
      restore_entry-Adds e db g w
        (free e.key (entry_value e, e.expiry_ms) (ground (arith, bytes_beq_iff e.key e.key)))
        room in
    let free' : AreAbsent es mid =
      λ j f at. a.absent j (λ p. ground arith) (free j f (ground (arith, bytes_beq_iff e.key j))) in
    let (db', rest, (w', views)) =
      restore_entries-Restored es mid good distinct (rw a.size_grows rooms) free' a.wf in
    (
      db',
      rw made rest,
      (w', λ t j. ground (arith, views t j, a.added t, a.same t j, bytes_beq_iff e.key j, apart)),
    )
