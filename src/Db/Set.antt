-- ===== src/Db/Set.antt =====
-- src/db.cpp: `Database::set`, on a new key and on a string.
pub mod Effect
pub mod Evict
pub mod Adds
use velo_kv.Prelude.{
  sym, subst, ◌∙◌, Outcome-cases, ok-injective, ℕ, zero, suc, ◌+◌, ◌≤◌, ◌<◌, ◌≡◌, ◌≢◌, ◌∙◌, ◌⊎◌,
  inl, inr, refl, true, false, none, some, List, [], ◌∷◌, Bytes, ℤ, length, not, Bool-cases,
  Option-cases, bytes_eq, nat_eq, bytes_beq_iff, arith, ok, undef, All,
}
use velo_kv.Map.{
  find, contains, erase, insert, find-erase, find-insert, length-erase-le, length-insert_new,
  length-insert_found, erase-Unique, insert-Unique,
}
use velo_kv.Db.{Database, max_capacity, size, push_front, make_room, move_to_front, track, set}
use velo_kv.Db.Wf.{IsWf, push_front-IsWf, moved, moved-IsWf, move_to_front-moved}
use velo_kv.Db.View.{Value, str, view, view-eq}
use velo_kv.Db.Room.{SameAt, GoneAt, HasRoom, make_room-HasRoom, make_room_ended}

-- The first two erasures of `set`.
abbrev pub clear : Bytes → Database → Database
clear key db = record db { list_store = erase key db.list_store; expiry = erase key db.expiry }

-- The write at the end of `set`.
abbrev pub store_string : Bytes → Bytes → Database → Database
store_string key value db = record db { string_store = insert key value db.string_store }

pub clear-IsWf : (db : Database) (key : Bytes) → IsWf db → IsWf (clear key db)
clear-IsWf db key w = record {
  positioned = w.positioned;
  allocated = w.allocated;
  tracked = w.tracked;
  disjoint = λ k v h. ground (arith, find-erase key k db.list_store, w.disjoint k v);
  nonempty = λ k l h. ground (arith, find-erase key k db.list_store, w.nonempty k l);
  timed = λ k d h.
      ground (arith, find-erase key k db.list_store, find-erase key k db.expiry, w.timed k d);
  bounded = w.bounded;
  unique = (
    w.unique.0,
    erase-Unique key db.list_store w.unique.1,
    erase-Unique key db.expiry w.unique.2,
  );
}

pub store_string-IsWf :
    (db : Database) (key value : Bytes)
    → IsWf db
    → contains key db.lru_position ≡ true
    → find key db.list_store ≡ none
    → length (insert key value db.string_store) ≤ max_capacity
    → IsWf (store_string key value db)
store_string-IsWf db key value w tracked free bounded = record {
  positioned = w.positioned;
  allocated = w.allocated;
  tracked = λ k v h.
      ground (arith, find-insert key k value db.string_store, w.tracked k v, bytes_beq_iff key k);
  disjoint = λ k v h.
      ground (arith, find-insert key k value db.string_store, w.disjoint k v, bytes_beq_iff key k);
  nonempty = w.nonempty;
  timed = λ k d h. ground (arith, find-insert key k value db.string_store, w.timed k d);
  bounded = bounded;
  unique = (insert-Unique key value db.string_store w.unique.0, w.unique.1, w.unique.2);
}

-- What `track` leaves for the write: a well-formed database in which the key has its node.
pub record IsTracked (key : Bytes) (db db' : Database) : Type 0 where
  pub wf : IsWf db'
  pub node : contains key db'.lru_position ≡ true
  pub free : find key db'.list_store ≡ none
  pub untimed : find key db'.expiry ≡ none
  pub fits : (value : Bytes) → length (insert key value db'.string_store) ≤ max_capacity
  pub kept : (j : Bytes) → j ≢ key → SameAt j db db' ⊎ GoneAt j db'
  pub bound :
      (value : Bytes)
      → (size (store_string key value db') ≤ max_capacity)
        ⊎ (size (store_string key value db') ≤ size db)

module _ (key : Bytes) where
  has_node : (db : Database) → contains key (push_front key db).lru_position ≡ true
  unfolding push_front
  has_node db =
      ground (arith, find-insert key key db.next_node db.lru_position, bytes_beq_iff key key)

module _ (db : Database) (w : IsWf db) (key : Bytes) (free : find key db.list_store ≡ none)
    (untimed : find key db.expiry ≡ none) where
  track_room :
      (db' : Database)
      → find key db.string_store ≡ none
      → HasRoom db db'
      → IsTracked key db (push_front key db')
  unfolding push_front
  track_room db' new r = record {
    wf = push_front-IsWf db' r.wf key;
    node = has_node key db';
    free = ground (arith, r.kept key);
    untimed = ground (arith, r.kept key);
    fits =
        λ value. ground (arith, r.room, r.kept key, length-insert_new key value db'.string_store);
    kept = λ j _. r.kept j;
    bound = λ value.
        inl (ground (arith, r.room, r.kept key, length-insert_new key value db'.string_store));
  }

  pub track_new :
      find key db.string_store ≡ none
      → length db.list_store < max_capacity
      → (db' : Database) × (track key db ≡ ok db') × IsTracked key db db'
  unfolding track
  track_new new few =
      let (db', made, r) = make_room-HasRoom (length db.lru_order) db w refl few in
      (push_front key db', ground arith, track_room db' new r)

  pub track_old :
      (v : Bytes)
      → find key db.string_store ≡ some v
      → (db' : Database) × (track key db ≡ ok db')
        × IsTracked key db db'
        × ((j : Bytes) → SameAt j db db')
  unfolding track
  track_old v old = elim (Option-cases (find key db.lru_position)) [
    | inl absent ↦ absurd (ground (arith, w.tracked key v old))
    | inr (node, at) ↦ (
      moved db w key node,
      ground (arith, move_to_front-moved db w key node at),
      record {
        wf = moved-IsWf db w key node at;
        node = unfold moved in has_node key (record db { lru_order = erase node db.lru_order });
        free = unfold moved push_front in free;
        untimed = unfold moved push_front in untimed;
        fits = λ value.
            unfold moved push_front in
            omega (arith, w.bounded, length-insert_found key value v db.string_store old);
        kept = λ j _. unfold moved push_front in inl (refl, refl, refl);
        bound = λ value. inr (
            unfold moved push_front in
            omega (arith, length-insert_found key value v db.string_store old));
      },
      λ j. unfold moved push_front in (refl, refl, refl),
    )
  ]

  -- However `track` came to an end, it has kept its promise.
  pub track_ended : (db' : Database) → track key db ≡ ok db' → IsTracked key db db'
  unfolding track
  track_ended db' ended = elim (Option-cases (find key db.string_store)) [
    | inr (v, old) ↦
        let (d, e, t, _) = track_old v old in
        subst (IsTracked key db) (ok-injective d db' (sym e ∙ ended)) t
    | inl new ↦ elim (Outcome-cases (make_room (length db.lru_order) db)) [
      | inl stuck ↦ absurd (ground arith)
      | inr (d, e) ↦
          subst (IsTracked key db) (ground arith)
            (track_room d new (make_room_ended (length db.lru_order) db d w refl e))
    ]
  ]
