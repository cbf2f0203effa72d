-- ===== src/Tests/Sessions.antt =====
-- src/server.cpp, src/command.cpp and src/replication.cpp at concrete inputs: requests of a client, and
-- a full sync to a replica that has keys.
use velo_kv.Prelude.{
  none, some, false, ok, inl, if◌then◌else◌, ℕ, zero, suc, ◌≤ℤ◌, ◌+ℤ◌, ◌-ℤ◌, int64_bound, ◌≡◌, refl,
  true, List, [], ◌∷◌, ◌++◌, Bytes, codes, ℤ, pos, arith, All, bytes_beq, bytes_eq, nat_eq, map,
  in_range,
}
use velo_kv.Map.{find, insert, erase}
use velo_kv.Db.{
  list_at, expire_at, lpush, Database, empty, set, track, make_room, push_front, snapshot,
}
use velo_kv.Db.Wf.{IsWf, empty-IsWf}
use velo_kv.Db.Set.Effect.{set_ended}
use velo_kv.Replication.Manager.{new_manager, replica, read_received}
use velo_kv.Replication.Stream.{build_full_sync}
use velo_kv.Replication.Sync.{IsSyncable}
use velo_kv.Replication.Merge.{missing}
use velo_kv.Replication.Late.{late_lpush-applied}
use velo_kv.Replication.Apply.{apply_leader_line}
use velo_kv.Replication.RoundTrip.{line_of}
use velo_kv.Db.Lists.{lpush-Holds}
use velo_kv.Replication.MergeSync.{full_sync_merges}
use velo_kv.Db.View.{list, view, due, is_seen, list_seen}
use velo_kv.Db.Deadlines.{expire_at-Times, ttl_seen}
use velo_kv.Text.Upper.{to_upper, upper}
use velo_kv.Text.Decimal.{decimal, emit}
use velo_kv.Text.Find.{find_byte, find_crlf, substr, at}
use velo_kv.Resp.{
  serialize_array, serialize_elements, serialize_bulk_string, parse_single_command, parse_array,
}
use velo_kv.Resp.Pipeline.{IsSendable, serialize_commands}
use velo_kv.Command.{Env, execute, ttl_reply}
use velo_kv.Replication.Manager.{received, sent}
use velo_kv.Client.{new_client}
use velo_kv.Server.{handle_client_read}
use velo_kv.Spec.{
  IsTimed, Keys, Call, expiring, timing, pushing_front, command_of, replies, number_answer,
  wrong_answer,
}
use velo_kv.Command.Saves.{SavesElsewhere, execute-SavesElsewhere}
use velo_kv.Spec.Coded.{counted}
use velo_kv.Spec.Refines.{view-Shows, Refined}
use velo_kv.Spec.Execute.{execute-Refined}
use velo_kv.Spec.Session.{IsClock, IsSession}
use velo_kv.Spec.Served.{Served, handle_client_read-Served}
use velo_kv.Tests.Replicas.{k, v, holder, holder-IsWf, store, faults, server, k-IsArg, v-IsArg}

program : Unit {0}
unfolding decimal emit find_byte find_crlf substr at serialize_array serialize_elements
    serialize_bulk_string serialize_commands parse_single_command parse_array
program = tt

-- A clock that stands still at 5.
abbrev still_env : Env
still_env = record { clock = λ i. pos 5; faults = faults }

-- What the database of the server shows.
abbrev keys : Keys
keys j = view (pos 5) j holder

keys-IsTimed : IsTimed keys
unfolding view due find
keys-IsTimed j x d at = absurd (ground arith)

execute-Refined_example :
    Refined
      (pos 5)
      (expiring k 10)
      keys
      store
      (execute still_env (codes "expire" ∷ k ∷ decimal 10 ∷ []) store)
unfolding ◌+ℤ◌
execute-Refined_example =
    execute-Refined (expiring k 10) (pos 5) keys still_env (codes "expire") store (λ i. refl)
      (omega arith) (unfold in_range in refl) (view-Shows (pos 5) holder holder-IsWf) keys-IsTimed
      (omega arith) (unfold in_range in refl) (unfold to_upper upper in refl)

-- It goes on after the first request.
abbrev now : ℕ → ℤ
now zero = pos 5
now (suc i) = pos 6

abbrev envs : ℕ → Env
envs i = record { clock = λ j. now i; faults = faults }

now_positive : (i : ℕ) → pos 0 ≤ℤ now i
now_positive zero = omega arith
now_positive (suc i) = omega arith

now_fits : (i : ℕ) → in_range int64_bound (now i) ≡ true
unfolding in_range
now_fits zero = refl
now_fits (suc i) = refl

now_forward : (i : ℕ) → now i ≤ℤ now (suc i)
now_forward zero = omega arith
now_forward (suc i) = omega arith

envs-IsClock : IsClock now envs
envs-IsClock = record {
  still = λ i j. refl;
  positive = now_positive;
  fits = now_fits;
  forward = now_forward;
}

-- A deadline for the string, a push onto it, and a list.
abbrev calls : List Call
calls =
    (codes "EXPIRE", expiring k 10)
    ∷ (codes "lpush", pushing_front k v)
    ∷ (codes "LPUSH", pushing_front (codes "l") v)
    ∷ (codes "ttl", timing k)
    ∷ []

abbrev input : Bytes
input = serialize_commands (map command_of calls)

calls-IsSession : IsSession now 0 calls
unfolding to_upper upper in_range ◌+ℤ◌
calls-IsSession = (refl, refl, (refl, tt, (refl, tt, (refl, tt, tt))))

calls-IsSendable : All IsSendable (map command_of calls)
unfolding decimal emit
calls-IsSendable = (
  (refl, omega arith, (omega arith, (omega arith, (omega arith, tt)))),
  (
    (refl, omega arith, (omega arith, (omega arith, (omega arith, tt)))),
    (
      (refl, omega arith, (omega arith, (omega arith, (omega arith, tt)))),
      ((refl, omega arith, (omega arith, (omega arith, tt))), tt),
    ),
  ),
)

handle_client_read-Served_example :
    Served now 7 calls
      (codes "*2")
      keys
      (new_client 7)
      server
      (sent 4)
      (handle_client_read 7 (received (input ++ codes "*2")) envs (sent 4) server)
handle_client_read-Served_example =
    handle_client_read-Served now envs 7 calls (input ++ codes "*2") (codes "*2") keys
      (new_client 7) server (sent 4) envs-IsClock (unfold find in refl) refl calls-IsSendable
      (unfold program in refl) refl calls-IsSession (view-Shows (pos 5) holder holder-IsWf)
      keys-IsTimed (omega arith) refl

-- The answers are 1, a wrong type, 1 and the time that is left.
calls_answered :
    replies now 0 calls keys
    ≡ number_answer 1 ++ (wrong_answer ++ (number_answer 1 ++ (number_answer 9 ++ [])))
unfolding replies view due find bytes_beq is_seen list_seen ttl_seen ttl_reply ◌+ℤ◌ ◌-ℤ◌
calls_answered = refl

execute-SavesElsewhere_example :
    SavesElsewhere still_env (codes "r.rdb") store (execute still_env (codes "save" ∷ []) store)
execute-SavesElsewhere_example =
    execute-SavesElsewhere still_env (codes "save") (codes "r.rdb") store
      (unfold to_upper upper in refl) (λ p. cc) (λ p. cc)

-- A replica that has the leader's key with another value, and a key that the leader does not have.
abbrev stale : Database
stale = record empty {
  string_store = (k, codes "w") ∷ (codes "s", v) ∷ [];
  lru_order = (1, codes "s") ∷ (0, k) ∷ [];
  lru_position = (k, 0) ∷ (codes "s", 1) ∷ [];
  next_node = 2;
}

abbrev half_stale : Database
half_stale = record empty {
  string_store = (k, codes "w") ∷ [];
  lru_order = (0, k) ∷ [];
  lru_position = (k, 0) ∷ [];
  next_node = 1;
}

stale-IsWf : IsWf stale
unfolding set track make_room push_front insert erase find bytes_beq
stale-IsWf =
    (set_ended half_stale (codes "s") v
      (set_ended empty k (codes "w") empty-IsWf half_stale refl).wf stale refl).wf

holder-IsSyncable : All IsSyncable (snapshot (pos 5) holder)
unfolding snapshot find bytes_beq in_range
holder-IsSyncable = (
  record {
    entry = record { typed = inl refl };
    fits = (refl, omega arith);
    key = k-IsArg;
    value = λ s. v-IsArg;
    elements = tt;
  },
  tt,
)

full_sync_merges_example :
    (db' : Database) × (read_received
        (λ i j. pos 5)
        (build_full_sync (pos 5) holder)
        (new_manager replica)
        stale
      ≡ ok (
        record (new_manager replica) { leader_input_buffer = []; full_sync_in_progress = false },
        db',
      ))
    × IsWf db'
    × ((t : ℤ)
        → pos 5 ≤ℤ t
        → (j : Bytes)
        → view t j db'
          ≡ (if is_seen (view (pos 5) j holder) then view t j holder else view t j stale))
full_sync_merges_example =
    full_sync_merges (λ i j. pos 5) (pos 5) holder stale (new_manager replica) refl holder-IsWf
      stale-IsWf holder-IsSyncable (omega arith)
      (unfold snapshot missing find bytes_beq in omega arith)

-- A list without a deadline, and with one that has passed.
abbrev lone : Database
lone = record empty { list_store = (k, v ∷ []) ∷ [] }

abbrev late : Database
late = record lone { expiry = (k, pos 3) ∷ [] }

late-IsWf : IsWf late
unfolding lpush insert find bytes_beq expire_at due
late-IsWf =
    (expire_at-Times k lone (lpush-Holds (pos 5) k empty empty-IsWf refl refl v).1.wf (pos 3)
      refl).wf

late_lpush-applied_example :
    (db db' : Database) × (execute still_env
        (codes "LPUSH" ∷ k ∷ v ∷ [])
        (record store { db = late })
      ≡ ok (counted 1, record store { db = db }))
    × (apply_leader_line
          (λ i. pos 6)
          (line_of (codes "LPUSH") (k ∷ v ∷ []))
          (record { full_sync_in_progress = false; db = late })
        ≡ ok (true, record { full_sync_in_progress = false; db = db' }))
    × (find k db'.list_store ≡ some (v ∷ list_at k late))
    × (find k db'.expiry ≡ find k late.expiry)
    × ((t : ℤ) → pos 5 ≤ℤ t → (view t k db ≡ some (list (v ∷ []), none)) × (view t k db' ≡ none))
late_lpush-applied_example =
    late_lpush-applied (pos 5) still_env (λ i. pos 6) (codes "LPUSH") k v
      (record store { db = late }) false (λ i. refl) late-IsWf (unfold to_upper upper in refl)
      (unfold due find bytes_beq in refl) k-IsArg v-IsArg
