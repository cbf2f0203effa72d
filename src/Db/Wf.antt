-- ===== src/Db/Wf.antt =====
-- src/db.cpp: the invariant of `Database` and the steps on the eviction list that keep it.
use velo_kv.Prelude.{
  ℕ, ◌≤◌, ◌<◌, ◌≡◌, ◌≢◌, refl, true, false, none, some, List, [], ◌∷◌, Bytes, ℤ, ok, length,
  is_empty, back, pop_back, bytes_eq, nat_eq, bytes_beq_iff, arith,
}
use velo_kv.Map.{
  Map, find, contains, find-erase, find-insert, erase, length-erase-le, Unique, erase-Unique,
}
use velo_kv.Db.{
  Database, empty, max_capacity, in_store, push_front, erase_key, evict_back, move_to_front,
}

pub record IsWf (db : Database) : Type 0 where
  -- an iterator in `lru_position_` names a node of the list that holds its key
  pub positioned :
      (k : Bytes) (i : ℕ) → find k db.lru_position ≡ some i → find i db.lru_order ≡ some k
  pub allocated : (k : Bytes) (i : ℕ) → find k db.lru_position ≡ some i → i < db.next_node
  -- every string is in the eviction list
  pub tracked : (k v : Bytes) → find k db.string_store ≡ some v → contains k db.lru_position ≡ true
  pub disjoint : (k v : Bytes) → find k db.string_store ≡ some v → find k db.list_store ≡ none
  pub nonempty : (k : Bytes) (l : List Bytes) → find k db.list_store ≡ some l → is_empty l ≡ false
  -- only keys that are stored have a deadline
  pub timed : (k : Bytes) (d : ℤ) → find k db.expiry ≡ some d → in_store k db ≡ true
  pub bounded : length db.string_store ≤ max_capacity
  pub unique : Unique db.string_store × Unique db.list_store × Unique db.expiry

pub empty-IsWf : IsWf empty
unfolding find
empty-IsWf = record {
  positioned = λ k i h. cc;
  allocated = λ k i h. cc;
  tracked = λ k v h. cc;
  disjoint = λ k v h. refl;
  nonempty = λ k l h. cc;
  timed = λ k d h. cc;
  bounded = omega arith;
  unique = (tt, tt, tt);
}

pub find-pop_back :
    (order : Map ℕ Bytes) (node : ℕ × Bytes) (i : ℕ) (k : Bytes)
    → back order ≡ some node
    → find i order ≡ some k
    → node.1 ≢ k
    → find i (pop_back order) ≡ some k
unfolding find back pop_back
find-pop_back [] node i k b f h = cc
find-pop_back ((j, x) ∷ []) node i k b f h = ground arith
find-pop_back ((j, x) ∷ n ∷ order) node i k b f h =
    ground (arith, find-pop_back (n ∷ order) node i k)

module _ (db : Database) (w : IsWf db) where
  pub erase_key-tracked : (key : Bytes) → IsWf (erase_key key db)
  unfolding erase_key
  erase_key-tracked key = record {
    positioned = w.positioned;
    allocated = w.allocated;
    tracked = λ k v h. w.tracked k v (ground (arith, find-erase key k db.string_store));
    disjoint = λ k v h.
        ground
          (arith, find-erase key k db.string_store, find-erase key k db.list_store, w.disjoint k v);
    nonempty = λ k l h. ground (arith, find-erase key k db.list_store, w.nonempty k l);
    timed = λ k d h. ground (
      arith,
      find-erase key k db.string_store,
      find-erase key k db.list_store,
      find-erase key k db.expiry,
      w.timed k d,
    );
    bounded = omega (arith, w.bounded, length-erase-le key db.string_store);
    unique = (
      erase-Unique key db.string_store w.unique.0,
      erase-Unique key db.list_store w.unique.1,
      erase-Unique key db.expiry w.unique.2,
    );
  }

  pub evict_back-IsWf :
      (node : ℕ × Bytes) → back db.lru_order ≡ some node → IsWf (evict_back node db)
  unfolding evict_back
  evict_back-IsWf node b =
      let e = erase_key-tracked node.1 in
      record {
        positioned = λ k i h.
            find-pop_back db.lru_order node i k b
              (w.positioned k i (ground (arith, find-erase node.1 k db.lru_position)))
              (λ p. ground (arith, find-erase node.1 k db.lru_position, bytes_beq_iff node.1 k));
        allocated = λ k i h. w.allocated k i (ground (arith, find-erase node.1 k db.lru_position));
        tracked = λ k v h. ground (
          arith,
          w.tracked k v,
          find-erase node.1 k db.string_store,
          find-erase node.1 k db.lru_position,
        );
        disjoint = e.disjoint;
        nonempty = e.nonempty;
        timed = e.timed;
        bounded = e.bounded;
        unique = e.unique;
      }

  pub push_front-IsWf : (key : Bytes) → IsWf (push_front key db)
  unfolding push_front find
  push_front-IsWf key = record {
    positioned = λ k i h. ground (
      arith,
      find-insert key k db.next_node db.lru_position,
      w.positioned k i,
      w.allocated k i,
      bytes_beq_iff key k,
    );
    allocated =
        λ k i h. ground (arith, find-insert key k db.next_node db.lru_position, w.allocated k i);
    tracked =
        λ k v h. ground (arith, find-insert key k db.next_node db.lru_position, w.tracked k v);
    disjoint = w.disjoint;
    nonempty = w.nonempty;
    timed = w.timed;
    bounded = w.bounded;
    unique = w.unique;
  }

  -- A node taken out and pushed to the front again, as a use of the key does.
  unfoldable pub moved : Bytes → ℕ → Database
  moved key node = push_front key (record db { lru_order = erase node db.lru_order })

  positioned_moved :
      (key : Bytes) (node : ℕ)
      → find key db.lru_position ≡ some node
      → (k : Bytes) (i : ℕ) → find k (moved key node).lru_position ≡ some i
      → find i (moved key node).lru_order ≡ some k
  unfolding moved push_front find
  positioned_moved key node at k i h = ground (
    arith,
    find-insert key k db.next_node db.lru_position,
    w.positioned k i,
    w.allocated k i,
    w.positioned key node at,
    find-erase node i db.lru_order,
    bytes_beq_iff key k,
  )

  pub moved-IsWf :
      (key : Bytes) (node : ℕ) → find key db.lru_position ≡ some node → IsWf (moved key node)
  unfolding moved push_front
  moved-IsWf key node at =
      let p = push_front-IsWf key in
      record {
        positioned = positioned_moved key node at;
        allocated = p.allocated;
        tracked = p.tracked;
        disjoint = w.disjoint;
        nonempty = w.nonempty;
        timed = w.timed;
        bounded = w.bounded;
        unique = w.unique;
      }

  -- `move_to_front` on a key that has its node.
  pub move_to_front-moved :
      (key : Bytes) (node : ℕ)
      → find key db.lru_position ≡ some node
      → move_to_front key db ≡ ok (moved key node)
  unfolding moved move_to_front
  move_to_front-moved key node at = ground (arith, w.positioned key node at)
