-- ===== src/Tests/Servers.antt =====
-- src/server.cpp, src/main.cpp and src/persistence.cpp at concrete inputs: saves, loads, rounds of the
-- event loop and runs of the process.
use velo_kv.Prelude.{
  inl, some, List, ℕ, zero, suc, ◌≡◌, refl, true, false, none, [], ◌∷◌, ◌++◌, Bytes, codes, ℤ, pos,
  ◌≤ℤ◌, ok, undef, arith, bytes_beq, nat_eq, bytes_eq, All, map, length, ◌≤◌, in_range,
}
use velo_kv.Map.{find, insert, erase}
use velo_kv.Db.{Database, empty, snapshot}
use velo_kv.Db.Wf.{IsWf}
use velo_kv.Db.View.{view, due}
use velo_kv.Persistence.{SaveFaults, save, Disk}
use velo_kv.Persistence.Load.{load}
use velo_kv.Persistence.Record.{FitsInts}
use velo_kv.Persistence.Full.{load-save_cut}
use velo_kv.Persistence.RoundTrip.{Reloads, load-save}
use velo_kv.Replication.Manager.{
  new_manager, leader, replica, received, closed, sent, send_blocks, no_socket, read_received,
}
use velo_kv.Replication.Stream.{build_full_sync}
use velo_kv.Replication.Sync.{IsSyncable}
use velo_kv.Replication.FullSync.{read_received-build_full_sync}
use velo_kv.Replication.Sockets.{FdSets, watch, fd_set}
use velo_kv.Client.{has_pending_write}
use velo_kv.Server.{Server, stop, accept_client, tick}
use velo_kv.Server.Keeps.{LeavesServer}
use velo_kv.Server.Loop.{Event, run, round, build_fd_sets, register_clients, register_manager}
use velo_kv.Server.Serve.{Round, timed_out, ready, accepted, reconnect_idle}
use velo_kv.Server.Life.{init, listening, new_server, bind_fails}
use velo_kv.Server.Invariant.{run-LeavesServer}
use velo_kv.Server.Stops.{init-run}
use velo_kv.Server.Idle.{run_idle-Idled}
use velo_kv.Server.Crowded.{round-accept_client}
use velo_kv.Server.Owners.{Owned, replicas_of}
use velo_kv.Server.Reach.{Reaches, Reaches-Owned}
use velo_kv.Main.{
  Config, configured, World, main, read_arguments, parse_arguments, has_flag, get_arg, atoi,
  role_of, check_config, make_config, value_of, is_arg,
}
use velo_kv.Main.Flags.{IsUsable, read_arguments-IsUsable}
use velo_kv.Main.Exit.{main_failed}
use velo_kv.Tests.Replicas.{v, holder, holder-IsWf, server, env, k-IsArg, v-IsArg}

program : Unit {0}
unfolding snapshot save find insert erase bytes_beq in_range
program = tt

abbrev good : SaveFaults
good = record { opens = true; writes = true; cut = none; renames = true; removes = true }

abbrev path : Bytes
path = codes "redis.rdb"

holder-FitsInts : All FitsInts (snapshot (pos 5) holder)
holder-FitsInts = unfold program in ((refl, omega arith), tt)

load-save_example :
    Reloads
      (pos 5)
      (pos 9)
      holder
      (load (pos 9) (find path (save good (pos 5) holder path []).1) empty)
load-save_example =
    load-save good (pos 5) (pos 9) holder path [] (unfold program in refl) refl holder-IsWf
      holder-FitsInts (omega arith) (omega arith)

holder-IsSyncable : All IsSyncable (snapshot (pos 5) holder)
holder-IsSyncable =
    unfold program in
    (
      record {
        entry = record { typed = inl refl };
        fits = (refl, omega arith);
        key = k-IsArg;
        value = λ s. v-IsArg;
        elements = tt;
      },
      tt,
    )

read_received-build_full_sync_example :
    (db' : Database) × (read_received
        (λ i j. pos 5)
        (build_full_sync (pos 5) holder)
        (new_manager replica)
        empty
      ≡ ok (
        record (new_manager replica) { leader_input_buffer = []; full_sync_in_progress = false },
        db',
      ))
    × IsWf db'
    × ((t : ℤ) → pos 5 ≤ℤ t → (j : Bytes) → view t j db' ≡ view t j holder)
read_received-build_full_sync_example =
    read_received-build_full_sync (λ i j. pos 5) (pos 5) holder (new_manager replica) refl
      holder-IsWf holder-IsSyncable (omega arith)

-- Nothing is ready.
abbrev quiet : Round
quiet = record {
  activity = timed_out;
  sweep_time = pos 7;
  accepts = [];
  order = λ fds. fds;
  client_input = λ fd. closed;
  envs = λ fd i. env;
  reply_result = λ fd. send_blocks;
  client_result = λ fd. send_blocks;
  replica_input = λ fd. closed;
  replica_result = λ fd. send_blocks;
  leader_input = closed;
  leader_time = pos 7;
  leader_clock = λ i j. pos 7;
  reconnect_time = pos 7;
  connect_result = no_socket;
}

-- A new connection, and a command of the client 7.
abbrev busy : Round
busy = record quiet {
  activity = ready (λ fd. true) (λ fd. true);
  accepts = accepted 8 true ∷ [];
  client_input = λ fd. received (codes "SET a b" ++ 13 ∷ 10 ∷ []);
  reply_result = λ fd. sent 5;
}

run-LeavesServer_example :
    LeavesServer
      (run 1024 (Event.poll busy ∷ Event.poll quiet ∷ Event.signal good (pos 9) ∷ []) server)
run-LeavesServer_example =
    run-LeavesServer 1024 (Event.poll busy ∷ Event.poll quiet ∷ Event.signal good (pos 9) ∷ [])
      server (λ h. cc) holder-IsWf

init-run_example :
    (stopped started : Server) × (run 1024 (Event.signal good (pos 5) ∷ Event.poll busy ∷ []) server
      ≡ ok stopped)
    × (init
          (listening 3)
          (pos 9)
          (new_server server.host server.port server.role none server.rdb_path stopped.store.disk)
        ≡ ok (true, started))
    × IsWf started.store.db
    × ((t : ℤ) → pos 9 ≤ℤ t → (j : Bytes) → view t j started.store.db ≡ view t j holder)
init-run_example =
    init-run 1024 3 good (pos 5) (pos 9) (Event.poll busy ∷ []) server none refl
      (unfold program in refl) refl holder-IsWf holder-FitsInts (omega arith) (omega arith)

rounds : ℕ → List Round
rounds zero = []
rounds (suc n) = quiet ∷ rounds n

rounds_quiet : (n : ℕ) → All (λ r. r.activity ≡ timed_out) (rounds n)
unfolding rounds
rounds_quiet zero = tt
rounds_quiet (suc n) = (refl, rounds_quiet n)

rounds_from : (n : ℕ) → All (λ r. pos 6 ≤ℤ r.sweep_time) (rounds n)
unfolding rounds
rounds_from zero = tt
rounds_from (suc n) = (omega arith, rounds_from n)

length-rounds : (n : ℕ) → n ≤ length (rounds n)
unfolding rounds
length-rounds zero = omega arith
length-rounds (suc n) = omega (arith, length-rounds n)

abbrev sets : ℕ × FdSets
sets = (3, record { read_fds = 7 ∷ 3 ∷ []; write_fds = []; max_fd = 7 })

server_fits : build_fd_sets 1024 server ≡ ok sets
unfolding build_fd_sets register_clients register_manager watch fd_set has_pending_write
server_fits = refl

run_idle-Idled_example :
    (s' : Server) × (run 1024 (map Event.poll (rounds 100)) server ≡ ok s')
    × ((j : Bytes) → due (pos 6) j s'.store.db ≡ false)
    × ((t' : ℤ)
        → All (λ r. r.sweep_time ≤ℤ t') (rounds 100)
        → (j : Bytes) → view t' j s'.store.db ≡ view t' j holder)
run_idle-Idled_example =
    run_idle-Idled 1024 (pos 6) (rounds 100) server sets refl (λ h. cc) holder-IsWf server_fits
      (rounds_quiet 100) (rounds_from 100) (length-rounds 100)

round-accept_client_example : round 1024 busy (accept_client 1024 server) ≡ undef
round-accept_client_example = round-accept_client 1024 1024 (omega arith) busy server

abbrev fresh : Server
fresh = record server { clients = []; repl_mgr = some (new_manager leader) }

polled : round 1024 quiet fresh ≡ ok (true, tick (pos 7) fresh)
unfolding round build_fd_sets register_clients register_manager watch fd_set reconnect_idle
polled = refl

Reaches-Owned_example :
    Owned
      (stop good (pos 9) (tick (pos 7) fresh)).clients
      (replicas_of (stop good (pos 9) (tick (pos 7) fresh)).repl_mgr)
Reaches-Owned_example =
    Reaches-Owned 1024 fresh (stop good (pos 9) (tick (pos 7) fresh)) refl refl
      (Reaches.signals good (pos 9) (Reaches.polls quiet true Reaches.here refl tt polled))

abbrev config : Config
config = record {
  role = replica;
  host = codes "127.0.0.1";
  port = pos 6380;
  rdb_path = codes "r.rdb";
  leader_host = codes "10.0.0.1";
  leader_port = pos 6379;
}

abbrev argv : List Bytes
argv =
    codes "velokv"
    ∷ codes "--role"
    ∷ codes "replica"
    ∷ codes "--port"
    ∷ codes "6380"
    ∷ codes "--rdb"
    ∷ codes "r.rdb"
    ∷ codes "--leader-host"
    ∷ codes "10.0.0.1"
    ∷ []

argv_read : read_arguments argv ≡ ok (configured config)
unfolding read_arguments parse_arguments has_flag is_arg get_arg value_of atoi role_of check_config
    make_config in_range bytes_beq
argv_read = refl

read_arguments-IsUsable_example : IsUsable config
read_arguments-IsUsable_example = read_arguments-IsUsable argv config argv_read

abbrev world : World 1024
world = record {
  network = true;
  init_result = bind_fails;
  load_time = pos 5;
  connect_result = no_socket;
  events = [];
  faults = good;
  end_time = pos 9;
}

abbrev old_disk : Disk
old_disk = (path, v) ∷ []

bound_elsewhere : main 1024 world argv old_disk ≡ ok (1, old_disk)
unfolding main
bound_elsewhere =
    unfold read_arguments parse_arguments has_flag is_arg get_arg value_of atoi role_of check_config
      make_config in_range bytes_beq in
    refl

main_failed_example : old_disk ≡ old_disk
main_failed_example = main_failed 1024 world argv old_disk old_disk bound_elsewhere

-- The disk is full.
abbrev full : SaveFaults
full = record good { cut = some 7 }

load-save_cut_example :
    ((save full (pos 5) holder path ((path, v) ∷ [])).0 ≡ true)
    × (error : Bytes) × (load
          (pos 9)
          (find path (save full (pos 5) holder path ((path, v) ∷ [])).1)
          empty
        ≡ ok (record { success = false; keys_loaded = 0; error = error }, empty))
load-save_cut_example =
    load-save_cut full (pos 5) (pos 9) holder empty path ((path, v) ∷ []) 7 refl refl refl refl
      (omega arith)
