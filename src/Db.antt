-- ===== src/Db.antt =====
-- src/db.hpp and src/db.cpp: the class `Database`. A method takes the readings of `now_ms()` that it
-- makes, in order, and returns its result beside the new state; `undef` where C++ is undefined.
-- The eviction list is a `std::list` whose iterators are kept in `lru_position_`: here a list of
-- nodes, each a number beside its key, front first. An iterator is the number of its node, and
-- `next_node` is the number of the next node to be made. `int64_t` sums are checked for overflow.
pub mod Wf
pub mod View
pub mod Expiry
pub mod Room
pub mod Set
pub mod Reads
pub mod Lists
pub mod Deadlines
pub mod Sweep
pub mod Snapshot
pub mod Keeps
use velo_kv.Prelude.{
  ℕ, zero, suc, ◌+◌, Bool, true, false, not, ◌||◌, Option, none, some, List, [], ◌∷◌, ◌++◌, map,
  Bytes, ℤ, pos, negsuc, ◌+ℤ◌, ◌-ℤ◌, leb_ℤ, ltb_ℤ, in_range, int64_bound, Outcome, ok, undef, ◌>>=◌,
  length, is_empty, back, pop_back, leb, if◌then◌else◌, ◌==◌, bytes_eq, nat_eq,
}
use velo_kv.Map.{Map, find, contains, erase, insert}

pub data KeyType : Type 0 where
  none_type string_type list_type : KeyType

pub record SnapshotEntry : Type 0 where
  pub key : Bytes
  pub type : KeyType
  pub expiry_ms : ℤ
  pub str_value : Bytes
  pub list_value : List Bytes

pub record Database : Type 0 where
  pub string_store : Map Bytes Bytes
  pub list_store : Map Bytes (List Bytes)
  pub expiry : Map Bytes ℤ
  pub lru_order : Map ℕ Bytes
  pub lru_position : Map Bytes ℕ
  pub next_node : ℕ

abbrev pub max_capacity : ℕ
max_capacity = 31

abbrev pub empty : Database
empty = record {
  string_store = [];
  list_store = [];
  expiry = [];
  lru_order = [];
  lru_position = [];
  next_node = 0;
}

-- `lru_order_.erase(it)`, undefined where the node is gone.
unfoldable pub erase_node : ℕ → Map ℕ Bytes → Outcome (Map ℕ Bytes)
erase_node node order = if contains node order then ok (erase node order) else undef

-- `push_front(key)`, and the position of the new front.
unfoldable pub push_front : Bytes → Database → Database
push_front key db = record db {
  lru_order = (db.next_node, key) ∷ db.lru_order;
  lru_position = insert key db.next_node db.lru_position;
  next_node = suc db.next_node;
}

-- The erasures from the two stores and the expiry index.
unfoldable pub erase_key : Bytes → Database → Database
erase_key key db = record db {
  string_store = erase key db.string_store;
  list_store = erase key db.list_store;
  expiry = erase key db.expiry;
}

-- The part of `is_expired` that takes the key out of the eviction list.
unfoldable pub untrack : Bytes → Database → Outcome Database
unfolding erase_node
untrack key db = elim (find key db.lru_position) [
  | none ↦ ok db
  | some node ↦ do
    order ← erase_node node db.lru_order
    ok (record db { lru_order = order; lru_position = erase key db.lru_position })
]

unfoldable pub is_expired : ℤ → Bytes → Database → Outcome (Bool × Database)
unfolding erase_key untrack
is_expired now key db = elim (find key db.expiry) [
  | none ↦ ok (false, db)
  | some deadline ↦
      if leb_ℤ deadline now
      then (do db' ← untrack key (erase_key key db); ok (true, db'))
      else ok (false, db)
]

-- `string_store_.count(key) > 0 || list_store_.count(key) > 0`
abbrev pub in_store : Bytes → Database → Bool
in_store key db = contains key db.string_store || contains key db.list_store

abbrev pub type_in : Bytes → Database → KeyType
type_in key db =
    if contains key db.string_store
    then string_type
    else if contains key db.list_store
    then list_type
    else none_type

unfoldable pub type_of : ℤ → Bytes → Database → Outcome (KeyType × Database)
unfolding is_expired
type_of now key db = do
  (expired, db') ← is_expired now key db
  ok (if expired then none_type else type_in key db', db')

abbrev pub size : Database → ℕ
size db = length db.string_store + length db.list_store

-- One round of the eviction loop, with `node` at the back of the list.
unfoldable pub evict_back : ℕ × Bytes → Database → Database
unfolding erase_key
evict_back node db = record (erase_key node.1 db) {
  lru_position = erase node.1 db.lru_position;
  lru_order = pop_back db.lru_order;
}

-- The eviction loop, on the number of nodes in the list: `back()` of the empty list is undefined.
unfoldable pub make_room : ℕ → Database → Outcome Database
unfolding evict_back
make_room zero db = if leb max_capacity (size db) then undef else ok db
make_room (suc nodes) db = elim (leb max_capacity (size db)) [
  | true ↦ elim (back db.lru_order) [
    | none ↦ undef
    | some node ↦ make_room nodes (evict_back node db)
  ]
  | false ↦ ok db
]

-- `lru_order_.erase(lru_position_[key])` and a push to the front.
unfoldable pub move_to_front : Bytes → Database → Outcome Database
unfolding erase_node push_front
move_to_front key db = elim (find key db.lru_position) [
  | none ↦ undef
  | some node ↦ do
    order ← erase_node node db.lru_order
    ok (push_front key (record db { lru_order = order }))
]

-- The branch of `set` on whether the key holds a string.
unfoldable pub track : Bytes → Database → Outcome Database
unfolding make_room move_to_front push_front
track key db =
    if not (contains key db.string_store)
    then (do db' ← make_room (length db.lru_order) db; ok (push_front key db'))
    else move_to_front key db

unfoldable pub set : Bytes → Bytes → Database → Outcome Database
unfolding track
set key value db = do
  db' ← track key (record db { list_store = erase key db.list_store; expiry = erase key db.expiry })
  ok (record db' { string_store = insert key value db'.string_store })

unfoldable pub get : ℤ → Bytes → Database → Outcome (Option Bytes × Database)
unfolding is_expired move_to_front
get now key db = do
  (expired, db') ← is_expired now key db
  if expired then ok (none, db') else elim (find key db'.string_store) [
    | none ↦ ok (none, db')
    | some value ↦
        if contains key db'.lru_position
        then (do db'' ← move_to_front key db'; ok (some value, db''))
        else ok (some value, db')
  ]

unfoldable pub del : Bytes → Database → Bool × Database
unfolding erase_key
del key db = (in_store key db, erase_key key db)

unfoldable pub exists : ℤ → Bytes → Database → Outcome (Bool × Database)
unfolding is_expired
exists now key db = do
  (expired, db') ← is_expired now key db
  ok (if expired then false else in_store key db', db')

-- `list_store_[key]`, which makes an empty list for a key that is absent.
abbrev pub list_at : Bytes → Database → List Bytes
list_at key db = elim (find key db.list_store) [ none ↦ [] | some l ↦ l ]

unfoldable pub lpush : Bytes → Bytes → Database → ℕ × Database
lpush key value db =
    let l = value ∷ list_at key db in
    (length l, record db { list_store = insert key l db.list_store })

unfoldable pub rpush : Bytes → Bytes → Database → ℕ × Database
rpush key value db =
    let l = list_at key db ++ value ∷ [] in
    (length l, record db { list_store = insert key l db.list_store })

-- The list that is left after a pop: an empty one goes, and its deadline with it.
unfoldable pub put_rest : Bytes → List Bytes → Database → Database
put_rest key [] db = record db {
  list_store = erase key db.list_store;
  expiry = erase key db.expiry;
}
put_rest key (x ∷ l) db = record db { list_store = insert key (x ∷ l) db.list_store }

unfoldable pub pop_head : Bytes → Option (List Bytes) → Database → Option Bytes × Database
unfolding put_rest
pop_head key none db = (none, db)
pop_head key (some []) db = (none, db)
pop_head key (some (x ∷ l)) db = (some x, put_rest key l db)

unfoldable pub pop_tail : Bytes → Option (List Bytes) → Database → Option Bytes × Database
unfolding put_rest back pop_back
pop_tail key none db = (none, db)
pop_tail key (some []) db = (none, db)
pop_tail key (some (x ∷ l)) db = (back (x ∷ l), put_rest key (pop_back (x ∷ l)) db)

unfoldable pub lpop : ℤ → Bytes → Database → Outcome (Option Bytes × Database)
unfolding is_expired pop_head
lpop now key db = do
  (expired, db') ← is_expired now key db
  ok (if expired then (none, db') else pop_head key (find key db'.list_store) db')

unfoldable pub rpop : ℤ → Bytes → Database → Outcome (Option Bytes × Database)
unfolding is_expired pop_tail
rpop now key db = do
  (expired, db') ← is_expired now key db
  ok (if expired then (none, db') else pop_tail key (find key db'.list_store) db')

unfoldable pub llen : ℤ → Bytes → Database → Outcome (ℕ × Database)
unfolding is_expired
llen now key db = do
  (expired, db') ← is_expired now key db
  ok (if expired then 0 else length (list_at key db'), db')

-- An `int64_t` result, undefined on overflow.
unfoldable pub int64 : ℤ → Outcome ℤ
unfolding in_range
int64 a = if in_range int64_bound a then ok a else undef

unfoldable pub expire : ℤ → ℤ → Bytes → ℤ → Database → Outcome (Bool × Database)
unfolding is_expired int64
expire now now' key ttl_ms db = do
  (expired, db') ← is_expired now key db
  if expired then ok (false, db') else if not (in_store key db') then ok (false, db') else do
    deadline ← int64 (now' +ℤ ttl_ms)
    ok (true, record db' { expiry = insert key deadline db'.expiry })

unfoldable pub expire_at : Bytes → ℤ → Database → Database
expire_at key abs_ms db =
    if in_store key db then record db { expiry = insert key abs_ms db.expiry } else db

unfoldable pub ttl : ℤ → ℤ → Bytes → Database → Outcome (ℤ × Database)
unfolding is_expired int64
ttl now now' key db = do
  (expired, db') ← is_expired now key db
  if expired || not (in_store key db') then ok (negsuc 1, db') else elim (find key db'.expiry) [
    | none ↦ ok (negsuc 0, db')
    | some deadline ↦ do
      remaining ← int64 (deadline -ℤ now')
      ok (if ltb_ℤ (pos 0) remaining then remaining else pos 0, db')
  ]

-- The deadline that a snapshot at `now` writes for a key, or nothing where it has passed.
unfoldable pub snapshot_expiry : ℤ → Bytes → Map Bytes ℤ → Option ℤ
snapshot_expiry now key expiry = elim (find key expiry) [
  | none ↦ some (negsuc 0)
  | some deadline ↦ if leb_ℤ deadline now then none else some deadline
]

unfoldable pub snapshot_strings : ℤ → Map Bytes ℤ → Map Bytes Bytes → List SnapshotEntry
unfolding snapshot_expiry
snapshot_strings now expiry [] = []
snapshot_strings now expiry ((k, v) ∷ m) =
    let rest = snapshot_strings now expiry m in
    elim (snapshot_expiry now k expiry) [
      | none ↦ rest
      | some ms ↦
          record { key = k; type = string_type; expiry_ms = ms; str_value = v; list_value = [] }
          ∷ rest
    ]

unfoldable pub snapshot_lists : ℤ → Map Bytes ℤ → Map Bytes (List Bytes) → List SnapshotEntry
unfolding snapshot_expiry
snapshot_lists now expiry [] = []
snapshot_lists now expiry ((k, l) ∷ m) =
    let rest = snapshot_lists now expiry m in
    elim (snapshot_expiry now k expiry) [
      | none ↦ rest
      | some ms ↦
          if is_empty l
          then rest
          else (record { key = k; type = list_type; expiry_ms = ms; str_value = []; list_value = l }
              ∷ rest)
    ]

unfoldable pub snapshot : ℤ → Database → List SnapshotEntry
unfolding snapshot_strings snapshot_lists
snapshot now db =
    snapshot_strings now db.expiry db.string_store ++ snapshot_lists now db.expiry db.list_store

-- The first loop of `evict_expired`: the keys whose deadline has passed.
unfoldable pub to_evict : ℤ → Map Bytes ℤ → List Bytes
to_evict now [] = []
to_evict now ((k, deadline) ∷ m) =
    let rest = to_evict now m in if leb_ℤ deadline now then k ∷ rest else rest

unfoldable pub erase_keys : List Bytes → Database → Database
unfolding erase_key
erase_keys [] db = db
erase_keys (k ∷ ks) db = erase_keys ks (erase_key k db)

unfoldable pub evict_expired : ℤ → Database → Database
unfolding to_evict erase_keys
evict_expired now db = erase_keys (to_evict now db.expiry) db
