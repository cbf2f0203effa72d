-- ===== src/Db/View.antt =====
-- src/db.hpp: what a client can see of a `Database` at a time, with no trace of the two stores, of
-- the lazy eviction or of the eviction list: for each key its value and its deadline.
use velo_kv.Prelude.{
  ◌≡◌, arith, Bool, true, false, Option, none, some, List, [], Bytes, ℤ, leb_ℤ, if◌then◌else◌,
  bytes_eq,
}
use velo_kv.Map.{find}
use velo_kv.Db.{Database, KeyType, none_type, string_type, list_type}

pub data Value : Type 0 where
  str : Bytes → Value
  list : List Bytes → Value

-- The key has a deadline, and it has passed.
unfoldable pub due : ℤ → Bytes → Database → Bool
due now key db = elim (find key db.expiry) [ none ↦ false | some d ↦ leb_ℤ d now ]

unfoldable pub stored : Bytes → Database → Option Value
stored key db = elim (find key db.string_store) [
  | some v ↦ some (str v)
  | none ↦ elim (find key db.list_store) [ some l ↦ some (list l) | none ↦ none ]
]

unfoldable pub view : ℤ → Bytes → Database → Option (Value × Option ℤ)
unfolding due stored
view now key db =
    if due now key db
    then none
    else elim (stored key db) [ none ↦ none | some v ↦ some (v, find key db.expiry) ]

-- What the reading methods return, from the view.
unfoldable pub type_seen : Option (Value × Option ℤ) → KeyType
type_seen none = none_type
type_seen (some (str v, d)) = string_type
type_seen (some (list l, d)) = list_type

unfoldable pub string_seen : Option (Value × Option ℤ) → Option Bytes
string_seen (some (str v, d)) = some v
string_seen _ = none

unfoldable pub list_seen : Option (Value × Option ℤ) → List Bytes
list_seen (some (list l, d)) = l
list_seen _ = []

unfoldable pub is_seen : Option (Value × Option ℤ) → Bool
is_seen none = false
is_seen (some e) = true

-- The view of a key is settled by the entries of that key.
pub view-eq :
    (now : ℤ) (j : Bytes) (db db' : Database)
    → find j db'.string_store ≡ find j db.string_store
    → find j db'.list_store ≡ find j db.list_store
    → find j db'.expiry ≡ find j db.expiry
    → view now j db' ≡ view now j db
unfolding view
view-eq now j db db' s l e = ground arith
