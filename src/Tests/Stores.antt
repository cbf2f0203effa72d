-- ===== src/Tests/Stores.antt =====
-- src/db.cpp and src/command.cpp at concrete databases.
use velo_kv.Prelude.{
  ℕ, zero, suc, ◌+◌, ◌≡◌, ◌≢◌, refl, true, false, none, some, List, [], ◌∷◌, Bytes, codes, ℤ, pos,
  bytes_beq, ok, undef, back, pop_back, arith, bytes_eq, nat_eq, in_range, ◌+ℤ◌,
}
use velo_kv.Map.{Map, find, insert, erase}
use velo_kv.Db.{
  Database, empty, set, expire_at, get, lpush, rpush, lpop, rpop, llen, type_of, exists, del,
  expire, ttl, snapshot, evict_expired, track, make_room, push_front, is_expired, erase_key,
  untrack, erase_node, move_to_front, put_rest,
}
use velo_kv.Db.Wf.{IsWf, empty-IsWf}
use velo_kv.Db.View.{view, due, is_seen, type_seen, string_seen, list_seen, str}
use velo_kv.Db.Set.Effect.{Stores, set-Stores, set_ended}
use velo_kv.Db.Set.Evict.{set_evicts, set-undef}
use velo_kv.Db.Reads.{Reads, get-Reads}
use velo_kv.Db.Lists.{lpush-Holds, rpush-Holds}
use velo_kv.Db.Lists.RoundTrip.{lpop-lpush, rpop-rpush}
use velo_kv.Db.Deadlines.{
  expire_at-Times, Deletes, Times, del-Deletes, expire-Times, ttl-Reads, ttl_seen,
}
use velo_kv.Db.Sweep.{Sweeps, evict_expired-Sweeps}
use velo_kv.Db.Snapshot.{entry_at, saved, entry_at-snapshot}
use velo_kv.Command.{Env, Store, execute}
use velo_kv.Command.Keeps.{LeavesStore}
use velo_kv.Command.Dispatch.{execute-LeavesStore}

program : Unit {0}
unfolding find insert erase set get lpush rpush lpop rpop llen type_of exists del expire ttl track
    make_room push_front is_expired erase_key untrack erase_node move_to_front put_rest back
    pop_back view due is_seen type_seen string_seen list_seen bytes_beq
program = tt

abbrev k : Bytes
k = codes "k"

abbrev v : Bytes
v = codes "v"

abbrev l : Bytes
l = codes "l"

-- one string
abbrev one : Database
one = record {
  string_store = (k, v) ∷ [];
  list_store = [];
  expiry = [];
  lru_order = (0, k) ∷ [];
  lru_position = (k, 0) ∷ [];
  next_node = 1;
}

one-set : set k v empty ≡ ok one
unfolding program
one-set = refl

one-IsWf : IsWf one
one-IsWf = (set_ended empty k v empty-IsWf one one-set).wf

-- and a list of two
abbrev two : Database
two = record one { list_store = (l, codes "b" ∷ codes "a" ∷ []) ∷ [] }

one-live : due (pos 5) l one ≡ false
unfolding program
one-live = refl

one-free : find l one.string_store ≡ none
unfolding program
one-free = refl

set-Stores_example :
    (db' : Database) × (set k (codes "w") one ≡ ok db') × Stores k (codes "w") one db'
set-Stores_example = set-Stores one k (codes "w") one-IsWf (unfold erase in omega arith)

get-Reads_example : Reads (pos 5) one (get (pos 5) k one) (string_seen (view (pos 5) k one))
get-Reads_example = get-Reads (pos 5) k one one-IsWf

-- a database with one list
abbrev listed : Database
listed = record empty { list_store = (l, codes "b" ∷ codes "a" ∷ []) ∷ [] }

listed-IsWf : IsWf listed
unfolding program
listed-IsWf =
    (rpush-Holds (pos 5) l (lpush l (codes "b") empty).1
      (lpush-Holds (pos 5) l empty empty-IsWf (unfold program in refl) (unfold program in refl)
        (codes "b")).1.wf
      (unfold program in refl) (unfold program in refl) (codes "a")).1.wf

lpop-lpush_example :
    (db' : Database) × (lpop (pos 5) l (lpush l v listed).1 ≡ ok (some v, db'))
    × ((j : Bytes) → view (pos 5) j db' ≡ view (pos 5) j listed)
lpop-lpush_example =
    lpop-lpush (pos 5) l listed listed-IsWf (unfold program in refl) (unfold program in refl) v

rpop-rpush_example :
    (db' : Database) × (rpop (pos 5) l (rpush l v listed).1 ≡ ok (some v, db'))
    × ((j : Bytes) → view (pos 5) j db' ≡ view (pos 5) j listed)
rpop-rpush_example =
    rpop-rpush (pos 5) l listed listed-IsWf (unfold program in refl) (unfold program in refl) v

del-Deletes_example : Deletes k one (del k one)
del-Deletes_example = del-Deletes one k one-IsWf

expire-Times_example :
    (db' : Database) × (expire (pos 5) (pos 6) k (pos 1000) one ≡ ok (true, db'))
    × Times k (pos 6 +ℤ pos 1000) one db'
expire-Times_example =
    expire-Times k one one-IsWf (pos 5) (pos 6) (pos 1000) (unfold program in refl)
      (unfold in_range ◌+ℤ◌ in refl)

-- `one` with a deadline
abbrev timed : Database
timed = record one { expiry = (k, pos 1006) ∷ [] }

timed-IsWf : IsWf timed
unfolding program expire_at
timed-IsWf = (expire_at-Times k one one-IsWf (pos 1006) refl).wf

ttl-Reads_example :
    Reads (pos 5) timed (ttl (pos 5) (pos 7) k timed) (ttl_seen (pos 7) (view (pos 5) k timed))
ttl-Reads_example =
    ttl-Reads (pos 5) (pos 7) k timed timed-IsWf (omega arith) (omega arith)
      (unfold in_range ◌+ℤ◌ in refl) λ d h. unfold program in_range in ground arith

evict_expired-Sweeps_example : Sweeps (pos 2000) timed (evict_expired (pos 2000) timed)
evict_expired-Sweeps_example = evict_expired-Sweeps (pos 2000) timed timed-IsWf

entry_at-snapshot_example : entry_at k (snapshot (pos 5) timed) ≡ saved (view (pos 5) k timed)
entry_at-snapshot_example = entry_at-snapshot (pos 5) timed k timed-IsWf

abbrev env : Env
env = record {
  clock = λ i. pos (5 + i);
  faults = record { opens = true; writes = true; cut = none; renames = true; removes = true };
}

abbrev store : Store
store = record { db = one; disk = [] }

execute-LeavesStore_example : LeavesStore (execute env (codes "lpush" ∷ l ∷ v ∷ []) store)
execute-LeavesStore_example = execute-LeavesStore env store one-IsWf (codes "lpush" ∷ l ∷ v ∷ [])

-- 31 strings, the key n of which stands at node n
abbrev strings : ℕ → Map Bytes Bytes
strings zero = []
strings (suc n) = (n ∷ [], v) ∷ strings n

abbrev nodes : ℕ → Map ℕ Bytes
nodes zero = []
nodes (suc n) = (n, n ∷ []) ∷ nodes n

abbrev positions : ℕ → Map Bytes ℕ
positions zero = []
positions (suc n) = (n ∷ [], n) ∷ positions n

abbrev full : Database
full = record empty {
  string_store = strings 31;
  lru_order = nodes 31;
  lru_position = positions 31;
  next_node = 31;
}

set_evicts_example :
    (db' : Database) × (set k v full ≡ ok db')
    × ((now : ℤ) → view now k db' ≡ some (str v, none))
    × ((now : ℤ) → view now (0 ∷ []) db' ≡ none)
    × ((now : ℤ) (j : Bytes) → j ≢ k → j ≢ 0 ∷ [] → view now j db' ≡ view now j full)
set_evicts_example =
    set_evicts full k v (unfold program in refl) (unfold program in refl) (0, 0 ∷ []) v refl
      (unfold program in refl) (unfold program in refl)

abbrev lists : ℕ → Map Bytes (List Bytes)
lists zero = []
lists (suc n) = (n ∷ [], v ∷ []) ∷ lists n

abbrev only_lists : Database
only_lists = record empty { list_store = lists 31 }

set-undef_example : set k v only_lists ≡ undef
set-undef_example =
    set-undef only_lists k v (unfold program in refl) (unfold program in refl) (omega arith) tt
