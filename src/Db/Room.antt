-- ===== src/Db/Room.antt =====
-- src/db.cpp: the eviction loop of `set`: when it ends, what it evicts, and when it is undefined.
use velo_kv.Prelude.{
  ℕ, zero, suc, ◌≤◌, ◌<◌, ◌≡◌, ◌∙◌, sym, subst, ◌⊎◌, inl, inr, refl, true, none, some, [], Bytes,
  length, leb, back, has_back, nil_of_length, Bool-cases, Option-cases, bytes_eq, nat_eq, arith, ok,
  undef, All, All-back, All-pop_back,
}
use velo_kv.Map.{find, find-erase, erase_absent, length-erase-le, nil_of_find}
use velo_kv.Db.{Database, max_capacity, size, evict_back, make_room}
use velo_kv.Db.Wf.{IsWf, evict_back-IsWf}

-- The key is stored and timed in `db'` as it is in `db`.
abbrev pub SameAt : Bytes → Database → Database → Type 0
SameAt j db db' =
    (find j db'.string_store ≡ find j db.string_store)
    × (find j db'.list_store ≡ find j db.list_store)
    × (find j db'.expiry ≡ find j db.expiry)

abbrev pub GoneAt : Bytes → Database → Type 0
GoneAt j db =
    (find j db.string_store ≡ none) × (find j db.list_store ≡ none) × (find j db.expiry ≡ none)

pub record HasRoom (db db' : Database) : Type 0 where
  pub wf : IsWf db'
  pub room : size db' < max_capacity
  pub kept : (j : Bytes) → SameAt j db db' ⊎ GoneAt j db'

pub evict_back-kept :
    (db : Database) (node : ℕ × Bytes) (j : Bytes)
    → SameAt j db (evict_back node db) ⊎ GoneAt j (evict_back node db)
unfolding evict_back
evict_back-kept db node j = ground (
  arith,
  find-erase node.1 j db.string_store,
  find-erase node.1 j db.list_store,
  find-erase node.1 j db.expiry,
)

no_string :
    (db : Database) → IsWf db → db.lru_order ≡ [] → (k : Bytes) → find k db.string_store ≡ none
unfolding find
no_string db w h k = elim (Option-cases (find k db.string_store)) [
  | inl absent ↦ absent
  | inr (v, found) ↦ elim (Option-cases (find k db.lru_position)) [
    | inl absent ↦ ground (arith, w.tracked k v found)
    | inr (i, position) ↦ ground (arith, w.positioned k i position)
  ]
]

-- With nothing in the eviction list there is no string.
untracked-strings : (db : Database) → IsWf db → db.lru_order ≡ [] → length db.string_store ≡ 0
untracked-strings db w h = rw (nil_of_find db.string_store (no_string db w h))

HasRoom-now : (db : Database) → IsWf db → size db < max_capacity → HasRoom db db
HasRoom-now db w r = record { wf = w; room = r; kept = λ j. inl (refl, refl, refl) }

-- Eviction in two stages.
kept_trans :
    (j : Bytes) (a b c : Database)
    → SameAt j a b ⊎ GoneAt j b
    → SameAt j b c ⊎ GoneAt j c
    → SameAt j a c ⊎ GoneAt j c
kept_trans j a b c h k = ground arith

pub make_room_round :
    (nodes : ℕ) (db : Database) (node : ℕ × Bytes)
    → leb max_capacity (size db) ≡ true
    → back db.lru_order ≡ some node
    → make_room (suc nodes) db ≡ make_room nodes (evict_back node db)
unfolding make_room
make_room_round nodes db node full at_back = ground arith

-- On a well-formed database with fewer than 31 lists the loop ends with room for one more key.
pub make_room-HasRoom :
    (nodes : ℕ) (db : Database)
    → IsWf db
    → length db.lru_order ≡ nodes
    → length db.list_store < max_capacity
    → (db' : Database) × (make_room nodes db ≡ ok db') × HasRoom db db'
unfolding make_room
make_room-HasRoom zero db w n few =
    let small : size db < max_capacity =
      omega (arith, untracked-strings db w (nil_of_length db.lru_order n)) in
    (db, ground arith, HasRoom-now db w small)
make_room-HasRoom (suc nodes) db w n few = elim (Bool-cases (leb max_capacity (size db))) [
  | inr fits ↦ (db, ground arith, HasRoom-now db w (ground arith))
  | inl full ↦
      let (node, at_back, rest) = has_back nodes db.lru_order n in
      let (db', made, r) =
        make_room-HasRoom nodes (evict_back node db) (evict_back-IsWf db w node at_back)
          (unfold evict_back in rest)
          (unfold evict_back in omega (arith, length-erase-le node.1 db.list_store)) in
      (
        db',
        make_room_round nodes db node full at_back ∙ made,
        record {
          wf = r.wf;
          room = r.room;
          kept =
              λ j. kept_trans j db (evict_back node db) db' (evict_back-kept db node j) (r.kept j);
        },
      )
]

-- However it came to an end, the loop has kept its promise.
pub make_room_ended :
    (nodes : ℕ) (db db' : Database)
    → IsWf db
    → length db.lru_order ≡ nodes
    → make_room nodes db ≡ ok db'
    → HasRoom db db'
unfolding make_room
make_room_ended zero db db' w n ended = elim (Bool-cases (leb max_capacity (size db))) [
  | inl full ↦ absurd (ground arith)
  | inr fits ↦ subst (HasRoom db) (ground arith) (HasRoom-now db w (ground arith))
]
make_room_ended (suc nodes) db db' w n ended = elim (Bool-cases (leb max_capacity (size db))) [
  | inr fits ↦ subst (HasRoom db) (ground arith) (HasRoom-now db w (ground arith))
  | inl full ↦
      let (node, at_back, rest) = has_back nodes db.lru_order n in
      let r =
        make_room_ended nodes (evict_back node db) db' (evict_back-IsWf db w node at_back)
          (unfold evict_back in rest) (sym (make_room_round nodes db node full at_back) ∙ ended) in
      record {
        wf = r.wf;
        room = r.room;
        kept = λ j. kept_trans j db (evict_back node db) db' (evict_back-kept db node j) (r.kept j);
      }
]

evict_back-lists :
    (db : Database) (node : ℕ × Bytes)
    → find node.1 db.list_store ≡ none
    → (evict_back node db).list_store ≡ db.list_store
unfolding evict_back
evict_back-lists db node h = erase_absent node.1 db.list_store h

-- With 31 lists that no node names, the loop goes on until the list of nodes is empty, and then
-- calls `back()` on it.
pub make_room-undef :
    (nodes : ℕ) (db : Database)
    → length db.lru_order ≡ nodes
    → max_capacity ≤ length db.list_store
    → All (λ n. find n.1 db.list_store ≡ none) db.lru_order
    → make_room nodes db ≡ undef
unfolding make_room
make_room-undef zero db n many untracked = ground arith
make_room-undef (suc nodes) db n many untracked =
    let (node, at_back, rest) = has_back nodes db.lru_order n in
    let same = evict_back-lists db node (All-back _ db.lru_order node untracked at_back) in
    make_room_round nodes db node (ground arith) at_back
    ∙ make_room-undef nodes (evict_back node db) (unfold evict_back in rest) (rw same many)
        (rw same (unfold evict_back in All-pop_back _ db.lru_order untracked))
