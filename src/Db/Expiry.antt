-- ===== src/Db/Expiry.antt =====
-- src/db.cpp: `is_expired`, which drops a key whose deadline has passed.
use velo_kv.Prelude.{
  ◌≡◌, none, some, ℕ, Bytes, ℤ, ◌≤ℤ◌, if◌then◌else◌, Bool-cases, Option-cases, inl, inr, bytes_eq,
  nat_eq, bytes_beq_iff, arith, ok,
}
use velo_kv.Map.{find, erase, find-erase, erase_absent}
use velo_kv.Db.{Database, erase_key, untrack, is_expired}
use velo_kv.Db.Wf.{IsWf, erase_key-tracked}
use velo_kv.Db.View.{due, view}

-- The database without the key.
unfoldable pub forget : Bytes → Database → Database
unfolding erase_key
forget key db = record (erase_key key db) {
  lru_order = elim (find key db.lru_position) [
    | none ↦ db.lru_order
    | some node ↦ erase node db.lru_order
  ];
  lru_position = erase key db.lru_position;
}

unfoldable pub sweep : ℤ → Bytes → Database → Database
unfolding due forget
sweep now key db = if due now key db then forget key db else db

module _ (db : Database) (w : IsWf db) (key : Bytes) where
  untrack-forget : untrack key (erase_key key db) ≡ ok (forget key db)
  unfolding untrack forget
  untrack-forget = elim (Option-cases (find key db.lru_position)) [
    | inl absent ↦ ground (arith, erase_absent key db.lru_position absent)
    | inr (i, found) ↦ ground (arith, w.positioned key i found)
  ]

  pub is_expired-sweep : (now : ℤ) → is_expired now key db ≡ ok (due now key db, sweep now key db)
  unfolding is_expired sweep
  is_expired-sweep now = ground (arith, untrack-forget)

  positioned_forget :
      (k : Bytes) (i : ℕ)
      → find k (forget key db).lru_position ≡ some i
      → find i (forget key db).lru_order ≡ some k
  unfolding forget
  positioned_forget k i h = elim (Option-cases (find key db.lru_position)) [
    | inl absent ↦ ground (arith, find-erase key k db.lru_position, w.positioned k i)
    | inr (n, found) ↦ ground (
      arith,
      find-erase key k db.lru_position,
      w.positioned k i,
      w.positioned key n found,
      find-erase n i db.lru_order,
      bytes_beq_iff key k,
    )
  ]

  pub forget-IsWf : IsWf (forget key db)
  unfolding forget
  forget-IsWf =
      let e = erase_key-tracked db w key in
      record {
        positioned = positioned_forget;
        allocated = λ k i h. w.allocated k i (ground (arith, find-erase key k db.lru_position));
        tracked = λ k v h. ground (
          arith,
          w.tracked k v,
          find-erase key k db.string_store,
          find-erase key k db.lru_position,
        );
        disjoint = e.disjoint;
        nonempty = e.nonempty;
        timed = e.timed;
        bounded = e.bounded;
        unique = e.unique;
      }

  pub sweep-IsWf : (now : ℤ) → IsWf (sweep now key db)
  unfolding sweep
  sweep-IsWf now = elim (Bool-cases (due now key db)) [
    | inl e ↦ rw (e, sweep) forget-IsWf
    | inr e ↦ rw (e, sweep) w
  ]

-- The lazy eviction shows in no view, at that time or later.
pub view-sweep :
    (db : Database) (now now' : ℤ) (key j : Bytes)
    → now ≤ℤ now'
    → view now' j (sweep now key db) ≡ view now' j db
unfolding sweep view
view-sweep db now now' key j h = ground (
  arith,
  bytes_beq_iff key j,
  find-erase key j db.string_store,
  find-erase key j db.list_store,
  find-erase key j db.expiry,
)
