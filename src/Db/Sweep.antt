-- ===== src/Db/Sweep.antt =====
-- src/db.cpp: `evict_expired`, the sweep over all deadlines, and `snapshot`.
use velo_kv.Prelude.{
  ◌≡◌, refl, Bool, false, ◌||◌, Option, none, some, List, [], ◌∷◌, Bytes, ℤ, ◌≤ℤ◌, leb_ℤ,
  if◌then◌else◌, bytes_eq, bytes_beq, bytes_beq_iff, arith,
}
use velo_kv.Map.{Map, find, Unique, find-erase}
use velo_kv.Db.{Database, erase_key, to_evict, erase_keys, evict_expired}
use velo_kv.Db.Wf.{IsWf, erase_key-tracked}
use velo_kv.Db.View.{due, view}

unfoldable pub elem : Bytes → List Bytes → Bool
elem k [] = false
elem k (j ∷ ks) = bytes_beq j k || elem k ks

erase_keys-IsWf : (ks : List Bytes) (db : Database) → IsWf db → IsWf (erase_keys ks db)
unfolding erase_keys
erase_keys-IsWf [] db w = w
erase_keys-IsWf (k ∷ ks) db w = erase_keys-IsWf ks (erase_key k db) (erase_key-tracked db w k)

-- What `erase_keys` leaves of a key.
erase_keys-strings :
    (ks : List Bytes) (db : Database) (j : Bytes)
    → find j (erase_keys ks db).string_store ≡ (if elem j ks then none else find j db.string_store)
unfolding erase_keys elem
erase_keys-strings [] db j = refl
erase_keys-strings (k ∷ ks) db j =
    ground (arith, erase_keys-strings ks (erase_key k db) j, find-erase k j db.string_store)

erase_keys-lists :
    (ks : List Bytes) (db : Database) (j : Bytes)
    → find j (erase_keys ks db).list_store ≡ (if elem j ks then none else find j db.list_store)
unfolding erase_keys elem
erase_keys-lists [] db j = refl
erase_keys-lists (k ∷ ks) db j =
    ground (arith, erase_keys-lists ks (erase_key k db) j, find-erase k j db.list_store)

erase_keys-expiry :
    (ks : List Bytes) (db : Database) (j : Bytes)
    → find j (erase_keys ks db).expiry ≡ (if elem j ks then none else find j db.expiry)
unfolding erase_keys elem
erase_keys-expiry [] db j = refl
erase_keys-expiry (k ∷ ks) db j =
    ground (arith, erase_keys-expiry ks (erase_key k db) j, find-erase k j db.expiry)

abbrev passed : ℤ → Option ℤ → Bool
passed now none = false
passed now (some d) = leb_ℤ d now

elem-to_evict :
    (now : ℤ) (m : Map Bytes ℤ) (j : Bytes)
    → Unique m
    → elem j (to_evict now m) ≡ passed now (find j m)
unfolding elem to_evict find
elem-to_evict now [] j u = refl
elem-to_evict now ((k, d) ∷ m) j u = ground (arith, elem-to_evict now m j u.1, bytes_beq_iff k j)

-- The sweep keeps the invariant and every view, at its time and later, and leaves no deadline that
-- has passed.
pub record Sweeps (now : ℤ) (db db' : Database) : Type 0 where
  pub wf : IsWf db'
  pub same : (now' : ℤ) → now ≤ℤ now' → (j : Bytes) → view now' j db' ≡ view now' j db
  pub none_due : (j : Bytes) → due now j db' ≡ false

-- On a well-formed database `evict_expired` keeps the invariant and every view, at its time and
-- later, and leaves no deadline that has passed.
pub evict_expired-Sweeps :
    (now : ℤ) (db : Database) → IsWf db → Sweeps now db (evict_expired now db)
unfolding evict_expired view
evict_expired-Sweeps now db w =
    let ks = to_evict now db.expiry in
    record {
      wf = erase_keys-IsWf ks db w;
      same = λ now' later j. ground (
        arith,
        erase_keys-strings ks db j,
        erase_keys-lists ks db j,
        erase_keys-expiry ks db j,
        elem-to_evict now db.expiry j w.unique.2,
      );
      none_due =
          λ j. ground (arith, erase_keys-expiry ks db j, elem-to_evict now db.expiry j w.unique.2);
    }
