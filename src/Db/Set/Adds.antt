-- ===== src/Db/Set/Adds.antt =====
-- src/db.cpp: `Database::set` where fewer than 31 keys are stored: nothing is evicted.
use velo_kv.Prelude.{
  none, true, ◌+◌, suc, ◌≡◌, ◌≢◌, ◌≤◌, ◌<◌, refl, Bytes, ℤ, length, ok, bytes_eq, nat_eq,
  bytes_beq_iff, arith, Option-cases, inl, inr,
}
use velo_kv.Map.{
  find, erase, find-erase, find-insert, length-erase-le, length-insert-le, length-insert_found,
  length-insert_new, length-erase_found, insert,
}
use velo_kv.Db.{Database, max_capacity, size, in_store, push_front, track, set}
use velo_kv.Db.Wf.{IsWf, moved, move_to_front-moved}
use velo_kv.Db.View.{view}
use velo_kv.Db.Set.{clear, store_string, clear-IsWf}
use velo_kv.Db.Set.Effect.{Stores, set_ended}
use velo_kv.Db.Set.Evict.{make_room_fits}

module _ (db : Database) (w : IsWf db) (key : Bytes)
    (room : find key db.string_store ≡ none → size (clear key db) < max_capacity) where
  cleared : Database
  cleared = clear key db

  -- With room for one key more, nothing is evicted: only the eviction list changes.
  track-relists :
      (d : Database) × (track key cleared ≡ ok d)
      × (d.string_store ≡ db.string_store)
      × (d.list_store ≡ erase key db.list_store)
      × (d.expiry ≡ erase key db.expiry)
  unfolding track cleared push_front
  track-relists = elim (Option-cases (find key db.string_store)) [
    | inl new ↦
        let fits = make_room_fits (length db.lru_order) cleared in
        (push_front key cleared, ground (arith, fits (ground (arith, room new))), refl, refl, refl)
    | inr (v, old) ↦ elim (Option-cases (find key db.lru_position)) [
      | inl absent ↦ absurd (ground (arith, w.tracked key v old))
      | inr (node, at) ↦ (
        moved cleared (clear-IsWf db key w) key node,
        ground (arith, move_to_front-moved cleared (clear-IsWf db key w) key node at),
        unfold moved in refl,
        unfold moved in refl,
        unfold moved in refl,
      )
    ]
  ]

  -- `set` with room: the other keys stay.
  pub record Sets (value : Bytes) (db' : Database) : Type 0 where
    pub stores : Stores key value db db'
    pub same : (now : ℤ) (j : Bytes) → j ≢ key → view now j db' ≡ view now j db
    pub kept : (j : Bytes) → j ≢ key → in_store j db' ≡ in_store j db
    pub grows : size db' ≤ suc (size db)
    pub no_larger : in_store key db ≡ true → size db' ≤ size db

  size_replaced :
      (value : Bytes)
      → in_store key db ≡ true
      → length (insert key value db.string_store) + length (erase key db.list_store) ≤ size db
  size_replaced value held = elim (Option-cases (find key db.string_store)) [
    | inr (v, old) ↦ omega (
      arith,
      length-insert_found key value v db.string_store old,
      length-erase-le key db.list_store,
    )
    | inl new ↦ elim (Option-cases (find key db.list_store)) [
      | inl absent ↦ absurd (ground arith)
      | inr (l, at) ↦ omega (
        arith,
        length-insert_new key value db.string_store new,
        length-erase_found key db.list_store l at,
      )
    ]
  ]

  pub set-Sets : (value : Bytes) → (db' : Database) × (set key value db ≡ ok db') × Sets value db'
  unfolding set view cleared
  set-Sets value =
      let (d, tracked, strings, lists, deadlines) = track-relists in
      let made : set key value db ≡ ok (store_string key value d) = ground arith in
      (
        store_string key value d,
        made,
        record {
          stores = set_ended db key value w (store_string key value d) made;
          same = λ now j ne. ground (
            arith,
            find-insert key j value db.string_store,
            find-erase key j db.list_store,
            find-erase key j db.expiry,
            bytes_beq_iff key j,
          );
          kept = λ j ne. ground (
            arith,
            find-insert key j value db.string_store,
            find-erase key j db.list_store,
            bytes_beq_iff key j,
          );
          grows = ground (
            arith,
            length-insert-le key value db.string_store,
            length-erase-le key db.list_store,
          );
          no_larger = λ held. rw (strings, lists) (size_replaced value held);
        },
      )
