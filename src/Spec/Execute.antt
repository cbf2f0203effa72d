-- ===== src/Spec/Execute.antt =====
-- src/command.cpp: every request of a client, on a database that shows an abstract store.
use velo_kv.Prelude.{
  ℕ, List, [], ◌∷◌, pop_back, ◌≡◌, ◌<◌, true, Option, none, some, Bytes, bytes_beq, ℤ, pos, ◌≤ℤ◌,
  in_range, int64_bound, arith, inl, inr, Bool-cases, bytes_eq,
}
use velo_kv.Db.{max_capacity, size}
use velo_kv.Db.View.{Value, str, list}
use velo_kv.Text.Upper.{to_upper}
use velo_kv.Command.{Env, Store, execute}
use velo_kv.Spec.{
  Entry, Keys, IsTimed, Request, setting, getting, testing, deleting, timing, counting, expiring,
  pushing_front, pushing_back, popping_front, popping_back, word_of, effect, live, Fits, command_of,
  update, expire_entry, push_front_entry, push_back_entry, rest_of, pop_front_entry, pop_back_entry,
}
use velo_kv.Spec.Refines.{Shows, Runs, Refined, Runs-Refined, live-some}
use velo_kv.Spec.Reads.{get-Runs, exists-Runs, llen-Runs, ttl-Runs}
use velo_kv.Spec.Strings.{set-Runs, del-Runs, expire-Runs}
use velo_kv.Spec.Lists.{lpush-Runs, rpush-Runs, lpop-Runs, rpop-Runs}

execute-Runs :
    (r : Request) (now : ℤ) (keys : Keys) (env : Env) (name : Bytes) (s : Store)
    → ((i : ℕ) → env.clock i ≡ now)
    → pos 0 ≤ℤ now
    → in_range int64_bound now ≡ true
    → Shows now keys s.db
    → IsTimed keys
    → size s.db < max_capacity
    → Fits now r
    → to_upper name ≡ word_of r
    → Runs now r keys s (execute env (command_of (name, r)) s)
execute-Runs (setting key value) now keys env name s still positive fits h timed room _ is =
    set-Runs now keys env name key s still h value room is
execute-Runs (getting key) now keys env name s still positive fits h timed room _ is =
    get-Runs now keys env name key s still h is
execute-Runs (testing key) now keys env name s still positive fits h timed room _ is =
    exists-Runs now keys env name key s still h is
execute-Runs (deleting key) now keys env name s still positive fits h timed room _ is =
    del-Runs now keys env name key s still h is
execute-Runs (timing key) now keys env name s still positive fits h timed room _ is =
    ttl-Runs now keys env name key s still h positive fits timed is
execute-Runs (counting key) now keys env name s still positive fits h timed room _ is =
    llen-Runs now keys env name key s still h is
execute-Runs (expiring key n) now keys env name s still positive fits h timed room deadline is =
    expire-Runs now keys env name key s still h n positive deadline is
execute-Runs (pushing_front key value) now keys env name s still positive fits h timed room _ is =
    lpush-Runs now keys env name key s still h value is
execute-Runs (pushing_back key value) now keys env name s still positive fits h timed room _ is =
    rpush-Runs now keys env name key s still h value is
execute-Runs (popping_front key) now keys env name s still positive fits h timed room _ is =
    lpop-Runs now keys env name key s still h is
execute-Runs (popping_back key) now keys env name s still positive fits h timed room _ is =
    rpop-Runs now keys env name key s still h is

-- A request of SET, GET, EXISTS, DEL, TTL, EXPIRE, LPUSH, RPUSH, LPOP, RPOP or LLEN, its name in any
-- case of the letters, on a database that shows an abstract store whose deadlines are of `int64_t`,
-- with fewer than 31 keys stored; the clock stands still within the command, at a time that is not
-- negative and of `int64_t`, and the deadline that an EXPIRE sets is of `int64_t`: the run is
-- defined, the reply is the answer of the abstract store, a wrong type included, and the database
-- that it leaves shows the new abstract store and has at most one key more.
pub execute-Refined :
    (r : Request) (now : ℤ) (keys : Keys) (env : Env) (name : Bytes) (s : Store)
    → ((i : ℕ) → env.clock i ≡ now)
    → pos 0 ≤ℤ now
    → in_range int64_bound now ≡ true
    → Shows now keys s.db
    → IsTimed keys
    → size s.db < max_capacity
    → Fits now r
    → to_upper name ≡ word_of r
    → Refined now r keys s (execute env (command_of (name, r)) s)
execute-Refined r now keys env name s still positive fits h timed room deadline is =
    Runs-Refined now r keys s (execute env (command_of (name, r)) s)
      (execute-Runs r now keys env name s still positive fits h timed room deadline is)

-- The deadline of an entry, if it has one, is an `int64_t`.
abbrev pub IsTimedEntry : Entry → Type 0
IsTimedEntry e = (v : Value) (d : ℤ) → e ≡ some (v, some d) → in_range int64_bound d ≡ true

update-IsTimed :
    (keys : Keys) (key : Bytes) (e : Entry)
    → IsTimed keys
    → IsTimedEntry e
    → IsTimed (update key e keys)
update-IsTimed keys key e timed here j v d at = elim (Bool-cases (bytes_beq key j)) [
  | inl same ↦ here v d (ground arith)
  | inr other ↦ timed j v d (ground arith)
]

live-IsTimed : (now : ℤ) (e : Entry) → IsTimedEntry e → IsTimedEntry (live now e)
live-IsTimed now e h v d at = h v d (live-some now e (v, some d) at)

expire-IsTimed :
    (deadline : ℤ) (e : Entry)
    → in_range int64_bound deadline ≡ true
    → IsTimedEntry e
    → IsTimedEntry (expire_entry deadline e)
expire-IsTimed deadline none fits h v d at = absurd (ground arith)
expire-IsTimed deadline (some (x, old)) fits h v d at = ground arith

push_front-IsTimed :
    (value : Bytes) (e : Entry) → IsTimedEntry e → IsTimedEntry (push_front_entry value e)
push_front-IsTimed value none h v d at = absurd (ground arith)
push_front-IsTimed value (some (str x, old)) h v d at = h v d at
push_front-IsTimed value (some (list l, old)) h v d at = h (list l) d (ground arith)

push_back-IsTimed :
    (value : Bytes) (e : Entry) → IsTimedEntry e → IsTimedEntry (push_back_entry value e)
push_back-IsTimed value none h v d at = absurd (ground arith)
push_back-IsTimed value (some (str x, old)) h v d at = h v d at
push_back-IsTimed value (some (list l, old)) h v d at = h (list l) d (ground arith)

rest_of-IsTimed :
    (l m : List Bytes) (old : Option ℤ)
    → IsTimedEntry (some (list m, old))
    → IsTimedEntry (rest_of l old)
rest_of-IsTimed [] m old h v d at = absurd (ground arith)
rest_of-IsTimed (x ∷ l) m old h v d at = h (list m) d (ground arith)

pop_front-IsTimed : (e : Entry) → IsTimedEntry e → IsTimedEntry (pop_front_entry e)
pop_front-IsTimed none h = h
pop_front-IsTimed (some (str x, old)) h = h
pop_front-IsTimed (some (list [], old)) h = h
pop_front-IsTimed (some (list (x ∷ l), old)) h = rest_of-IsTimed l (x ∷ l) old h

pop_back-IsTimed : (e : Entry) → IsTimedEntry e → IsTimedEntry (pop_back_entry e)
pop_back-IsTimed none h = h
pop_back-IsTimed (some (str x, old)) h = h
pop_back-IsTimed (some (list l, old)) h = rest_of-IsTimed (pop_back l) l old h

-- The deadlines stay `int64_t`s.
pub effect-IsTimed :
    (r : Request) (now : ℤ) (keys : Keys) → Fits now r → IsTimed keys → IsTimed (effect now r keys)
effect-IsTimed (setting key value) now keys fits timed =
    update-IsTimed keys key (some (str value, none)) timed (λ v d at. absurd (ground arith))
effect-IsTimed (getting key) now keys fits timed = timed
effect-IsTimed (testing key) now keys fits timed = timed
effect-IsTimed (deleting key) now keys fits timed =
    update-IsTimed keys key none timed (λ v d at. absurd (ground arith))
effect-IsTimed (timing key) now keys fits timed = timed
effect-IsTimed (counting key) now keys fits timed = timed
effect-IsTimed (expiring key n) now keys fits timed =
    update-IsTimed keys key _ timed
      (expire-IsTimed _ (live now (keys key)) fits (live-IsTimed now (keys key) (timed key)))
effect-IsTimed (pushing_front key value) now keys fits timed =
    update-IsTimed keys key _ timed
      (push_front-IsTimed value (live now (keys key)) (live-IsTimed now (keys key) (timed key)))
effect-IsTimed (pushing_back key value) now keys fits timed =
    update-IsTimed keys key _ timed
      (push_back-IsTimed value (live now (keys key)) (live-IsTimed now (keys key) (timed key)))
effect-IsTimed (popping_front key) now keys fits timed =
    update-IsTimed keys key _ timed
      (pop_front-IsTimed (live now (keys key)) (live-IsTimed now (keys key) (timed key)))
effect-IsTimed (popping_back key) now keys fits timed =
    update-IsTimed keys key _ timed
      (pop_back-IsTimed (live now (keys key)) (live-IsTimed now (keys key) (timed key)))
