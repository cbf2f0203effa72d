-- ===== src/Tests/Replicas.antt =====
-- src/replication.cpp, src/server.cpp and src/persistence.cpp at concrete inputs.
use velo_kv.Prelude.{
  some, List, ℕ, ◌+◌, ◌≡◌, refl, true, false, none, [], ◌∷◌, ◌++◌, Bytes, codes, ℤ, pos, ok, ◌>>=◌,
  arith, bytes_beq, nat_eq, bytes_eq,
}
use velo_kv.Map.{find, insert, erase}
use velo_kv.Db.{Database, empty, set, push_front, track, make_room}
use velo_kv.Db.Wf.{IsWf, empty-IsWf}
use velo_kv.Db.View.{view, due, type_seen}
use velo_kv.Db.Expiry.{sweep}
use velo_kv.Db.Set.Effect.{set_ended}
use velo_kv.Text.Upper.{to_upper, upper}
use velo_kv.Persistence.{SaveFaults, file_text, save}
use velo_kv.Persistence.Saves.{Saves, save-Saves}
use velo_kv.Command.{
  Env, Store, execute, is_write_command, contains_name, wrong_arguments, wrong_type,
}
use velo_kv.Replication.Apply.{ReplicaState, apply_leader_line, apply_live, live_result}
use velo_kv.Replication.RoundTrip.{IsArg, line_of}
use velo_kv.Replication.Applied.{applied, apply_leader_line-line_of}
use velo_kv.Replication.Divergence.{
  apply_leader_line-execute, refused_set-applied, refused_lpush-applied,
}
use velo_kv.Replication.Manager.{ReplicationManager, new_manager, send_blocks, leader, sent}
use velo_kv.Replication.Queue.{Event, run_events, queued, all_on_wire, written, all_on_wire-queued}
use velo_kv.Client.{new_client}
use velo_kv.Server.{Server}

program : Unit {0}
unfolding to_upper upper is_write_command contains_name bytes_beq find view due type_seen
program = tt

abbrev pub k : Bytes
k = codes "k"

abbrev pub v : Bytes
v = codes "v"

pub k-IsArg : IsArg k
k-IsArg = (refl, omega arith)

pub v-IsArg : IsArg v
v-IsArg = (refl, omega arith)

abbrev pub clock : ℕ → ℤ
clock i = pos (5 + i)

abbrev pub faults : SaveFaults
faults = record { opens = true; writes = true; cut = none; renames = false; removes = true }

abbrev pub env : Env
env = record { clock = clock; faults = faults }

-- one string, and nothing else
abbrev pub holder : Database
holder = record empty {
  string_store = (k, v) ∷ [];
  lru_order = (0, k) ∷ [];
  lru_position = (k, 0) ∷ [];
  next_node = 1;
}

pub holder-IsWf : IsWf holder
unfolding set track make_room push_front insert erase find bytes_beq
holder-IsWf = (set_ended empty k v empty-IsWf holder refl).wf

abbrev pub store : Store
store = record { db = holder; disk = [] }

abbrev pub copy : ReplicaState
copy = record { full_sync_in_progress = false; db = holder }

apply_leader_line-line_of_example :
    apply_leader_line clock (line_of (codes "rpush") (codes "l" ∷ v ∷ [])) copy
    ≡ applied
        (live_result
          (apply_live (to_upper (codes "rpush")) clock (codes "l" ∷ v ∷ []) copy.db)
          copy.db)
        copy
apply_leader_line-line_of_example =
    apply_leader_line-line_of clock (codes "rpush") (codes "l" ∷ v ∷ []) copy
      (unfold program in refl) ((refl, omega arith), (v-IsArg, tt))

apply_leader_line-execute_example :
    apply_leader_line clock
      (line_of (codes "set") (k ∷ codes "w" ∷ []))
      (record { full_sync_in_progress = false; db = store.db })
    ≡ (execute env (codes "set" ∷ k ∷ codes "w" ∷ []) store >>= λ r.
        ok (true, record { full_sync_in_progress = false; db = r.1.db }))
apply_leader_line-execute_example =
    apply_leader_line-execute env clock (codes "set") k (codes "w") store false
      (unfold program in refl) k-IsArg (refl, omega arith)

refused_set-applied_example :
    (execute env (codes "SET" ∷ k ∷ codes "w" ∷ codes "EX" ∷ []) store
      ≡ ok (wrong_arguments (codes "set"), store))
    × (apply_leader_line clock (line_of (codes "SET") (k ∷ codes "w" ∷ codes "EX" ∷ [])) copy
        ≡ (set k (codes "w") copy.db >>= λ db. ok (true, record copy { db = db })))
refused_set-applied_example =
    refused_set-applied env clock (codes "SET") k (codes "w") (codes "EX") store copy
      (unfold program in refl) k-IsArg (refl, omega arith) (refl, omega arith)

refused_lpush-applied_example :
    (execute env (codes "LPUSH" ∷ k ∷ v ∷ []) store
      ≡ ok (wrong_type, record store { db = sweep (pos 5) k holder }))
    × (db' : Database) × (apply_leader_line clock (line_of (codes "LPUSH") (k ∷ v ∷ [])) copy
        ≡ ok (true, record copy { db = db' }))
    × ¬ IsWf db'
refused_lpush-applied_example =
    refused_lpush-applied env clock (codes "LPUSH") k v v store copy holder-IsWf
      (unfold program in refl) k-IsArg v-IsArg (unfold program in refl) (unfold program in refl)

abbrev pub server : Server
server = record {
  host = codes "127.0.0.1";
  port = pos 6379;
  listen_fd = some 3;
  store = store;
  clients = (7, new_client 7) ∷ [];
  role = leader;
  repl_mgr = none;
  rdb_path = codes "redis.rdb";
  running = true;
  loop_tick = 0;
}

save-Saves_example :
    Saves faults
      (codes "redis.rdb")
      (file_text (pos 5) holder)
      ((codes "redis.rdb", v) ∷ [])
      (save faults (pos 5) holder (codes "redis.rdb") ((codes "redis.rdb", v) ∷ []))
save-Saves_example =
    save-Saves faults (pos 5) holder (codes "redis.rdb") ((codes "redis.rdb", v) ∷ [])

-- a leader with one replica that waits for its bytes
abbrev waiting : ReplicationManager
waiting = record (new_manager leader) {
  replicas = record { fd = some 9; output_buffer = codes "+FULLSYNC"; synced = false } ∷ [];
}

abbrev events : List Event
events =
    Event.send 9 (sent 4)
    ∷ Event.write (codes "SET" ∷ k ∷ v ∷ [])
    ∷ Event.send 9 send_blocks
    ∷ Event.write (codes "DEL" ∷ k ∷ [])
    ∷ Event.send 9 (sent 12)
    ∷ []

all_on_wire-queued_example :
    all_on_wire 9 events waiting ++ queued 9 (run_events events waiting).replicas
    ≡ queued 9 waiting.replicas ++ written events
all_on_wire-queued_example = all_on_wire-queued 9 events waiting refl
