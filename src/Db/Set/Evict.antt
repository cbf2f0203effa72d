-- ===== src/Db/Set/Evict.antt =====
-- src/db.cpp: which key `set` evicts, and where its eviction loop is undefined.
use velo_kv.Prelude.{
  zero, suc, ℕ, ◌≤◌, ◌≡◌, ◌≢◌, none, some, false, refl, Bytes, ℤ, length, back, All, pop_back,
  length_of_back, ◌∙◌, leb, bytes_eq, bytes_beq_iff, arith, ok, undef,
}
use velo_kv.Map.{
  find, erase, find-erase, find-insert, erase_absent, length-erase-le, length-erase_found,
}
use velo_kv.Db.{Database, max_capacity, size, evict_back, make_room, push_front, set}
use velo_kv.Db.View.{str, view}
use velo_kv.Db.Room.{make_room_round, make_room-undef}
use velo_kv.Db.Set.{clear, store_string}

pub make_room_fits :
    (nodes : ℕ) (db : Database) → leb max_capacity (size db) ≡ false → make_room nodes db ≡ ok db
unfolding make_room
make_room_fits zero db fits = ground arith
make_room_fits (suc nodes) db fits = ground arith

-- One round is enough where the node at the back holds a string.
make_room_once :
    (nodes : ℕ) (db : Database) (node : ℕ × Bytes) (v : Bytes)
    → back db.lru_order ≡ some node
    → size db ≡ max_capacity
    → find node.1 db.string_store ≡ some v
    → make_room (suc nodes) db ≡ ok (evict_back node db)
make_room_once nodes db node v at_back full old =
    make_room_round nodes db node (ground arith) at_back
    ∙ make_room_fits nodes (evict_back node db) (
        unfold evict_back in
        ground (
          arith,
          length-erase_found node.1 db.string_store v old,
          length-erase-le node.1 db.list_store,
        ))

-- `set` of a new key into a full database.
abbrev pub replaced : ℕ × Bytes → Bytes → Bytes → Database → Database
replaced node key value db =
    store_string key value (push_front key (evict_back node (clear key db)))

module _ (db : Database) (key value : Bytes) (new : find key db.string_store ≡ none)
    (free : find key db.list_store ≡ none) where
  size_cleared : size (clear key db) ≡ size db
  size_cleared = rw (erase_absent key db.list_store free)

  set-replaced :
      (node : ℕ × Bytes) (v : Bytes)
      → size db ≡ max_capacity
      → back db.lru_order ≡ some node
      → find node.1 db.string_store ≡ some v
      → set key value db ≡ ok (replaced node key value db)
  unfolding set
  set-replaced node v full at_back old =
      let round : make_room (length db.lru_order) (clear key db)
          ≡ ok (evict_back node (clear key db)) =
        rw (length_of_back db.lru_order node at_back) (
          make_room_once (length (pop_back db.lru_order)) (clear key db) node v at_back
            (size_cleared ∙ full) old) in
      ground (arith, round)

  -- `set` of a key that is not stored, with exactly 31 keys stored and a string at the last node of
  -- the eviction list, evicts the key of that node, wherever else the eviction list holds that key,
  -- and leaves every other key as it was.
  pub set_evicts :
      (node : ℕ × Bytes) (v : Bytes)
      → size db ≡ max_capacity
      → back db.lru_order ≡ some node
      → find node.1 db.string_store ≡ some v
      → (db' : Database) × (set key value db ≡ ok db')
        × ((now : ℤ) → view now key db' ≡ some (str value, none))
        × ((now : ℤ) → view now node.1 db' ≡ none)
        × ((now : ℤ) (j : Bytes) → j ≢ key → j ≢ node.1 → view now j db' ≡ view now j db)
  unfolding view evict_back push_front
  set_evicts node v full at_back old = (
    replaced node key value db,
    set-replaced node v full at_back old,
    λ now. ground (
      arith,
      find-insert key key value (erase node.1 db.string_store),
      bytes_beq_iff key key,
      find-erase node.1 key (erase key db.expiry),
      find-erase key key db.expiry,
    ),
    λ now. ground (
      arith,
      find-insert key node.1 value (erase node.1 db.string_store),
      find-erase node.1 node.1 db.string_store,
      bytes_beq_iff node.1 node.1,
      bytes_beq_iff key node.1,
      find-erase node.1 node.1 (erase key db.list_store),
    ),
    λ now j ne ne'. ground (
      arith,
      find-insert key j value (erase node.1 db.string_store),
      find-erase node.1 j db.string_store,
      bytes_beq_iff node.1 j,
      bytes_beq_iff key j,
      find-erase node.1 j (erase key db.list_store),
      find-erase key j db.list_store,
      find-erase node.1 j (erase key db.expiry),
      find-erase key j db.expiry,
    ),
  )

  -- `set` of a key that is not stored is undefined, a `back()` of an empty list, where 31 lists or
  -- more are stored and none of their keys is in the eviction list.
  pub set-undef :
      max_capacity ≤ length db.list_store
      → All (λ n. find n.1 db.list_store ≡ none) db.lru_order
      → set key value db ≡ undef
  unfolding set
  set-undef many untracked = ground (
    arith,
    make_room-undef (length db.lru_order) (clear key db) refl (rw same many) (rw same untracked),
  )
    where
      same : (clear key db).list_store ≡ db.list_store
      same = erase_absent key db.list_store free
