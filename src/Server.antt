-- ===== src/Server.antt =====
-- src/server.hpp and src/server.cpp: the state of `Server` and its handlers of socket events.
pub mod Life
pub mod Serve
pub mod Loop
pub mod Keeps
pub mod Invariant
pub mod Stops
pub mod Idle
pub mod Crowded
pub mod Owners
pub mod Sockets
pub mod Links
pub mod Reach
use velo_kv.Prelude.{
  ℕ, suc, Bool, true, false, not, ◌&&◌, Option, none, some, List, [], ◌∷◌, Bytes, codes, ℤ, Outcome,
  ok, undef, ◌>>=◌, bytes_beq, nat_eq, leb, is_empty, if◌then◌else◌,
}
use velo_kv.Map.{Map, find, erase, insert}
use velo_kv.Db.{evict_expired}
use velo_kv.Text.Upper.{to_upper}
use velo_kv.Resp.{Command, serialize_error, parse}
use velo_kv.Persistence.{SaveFaults, save}
use velo_kv.Command.{Env, Store, execute, is_write_command}
use velo_kv.Replication.Manager.{
  NodeRole, leader, replica, ReplicationManager, add_replica, propagate, RecvResult, SendResult,
}
use velo_kv.Client.{Client, new_client, release, read_from_socket, write_to_socket, queue_response}

-- `repl_mgr` is the object behind the pointer `repl_mgr_`.
pub record Server : Type 0 where
  pub host : Bytes
  pub port : ℤ
  pub listen_fd : Option ℕ
  pub store : Store
  pub clients : Map ℕ Client
  pub role : NodeRole
  pub repl_mgr : Option ReplicationManager
  pub rdb_path : Bytes
  pub running : Bool
  pub loop_tick : ℕ

abbrev pub eviction_interval : ℕ
eviction_interval = 100

abbrev pub is_leader : NodeRole → Bool
is_leader leader = true
is_leader _ = false

abbrev pub is_replica : NodeRole → Bool
is_replica replica = true
is_replica _ = false

unfoldable pub disconnect_client : ℕ → Server → Server
disconnect_client fd s = record s { clients = erase fd s.clients }

-- One connection that `accept` returned and that could be made non-blocking. A number that is open
-- already is not returned by `accept`; for one, `emplace` would keep the client of that number.
unfoldable pub accept_client : ℕ → Server → Server
accept_client fd s = elim (find fd s.clients) [
  | none ↦ record s { clients = insert fd (new_client fd) s.clients }
  | some _ ↦ s
]

unfoldable pub handle_client_write : ℕ → SendResult → Server → Server
unfolding write_to_socket disconnect_client
handle_client_write fd result s = elim (find fd s.clients) [
  | none ↦ s
  | some client ↦
      let (alive, client') = write_to_socket result client in
      if alive then record s { clients = insert fd client' s.clients } else disconnect_client fd s
]

abbrev pub readonly_error : Bytes
readonly_error = serialize_error (codes "READONLY You can't write against a read only replica.")

-- The REPLICAOF test of the loop, with the replication manager that it finds.
unfoldable pub promotes : Bytes → Server → Option ReplicationManager
unfolding bytes_beq
promotes cmd_name s =
    if bytes_beq cmd_name (codes "REPLICAOF") && is_leader s.role then s.repl_mgr else none

-- The connection becomes a replica: its client goes, and the manager has the socket.
unfoldable pub promote : ℕ → Env → Client → ReplicationManager → Server → Server
unfolding release add_replica
promote fd env client m s =
    let (rfd, _) = release client in
    record s {
      clients = erase fd s.clients;
      repl_mgr = some (add_replica rfd (env.clock 0) s.store.db m);
    }

unfoldable pub queue_reply : Bytes → Client → Client
unfolding queue_response
queue_reply response c = if is_empty response then c else queue_response response c

unfoldable pub propagate_write : Bytes → Command → Server → Server
unfolding is_write_command propagate
propagate_write cmd_name cmd s =
    if is_leader s.role && is_write_command cmd_name
    then elim s.repl_mgr [ none ↦ s | some m ↦ record s { repl_mgr = some (propagate cmd m) } ]
    else s

-- A command that is neither a handshake nor refused: its reply is queued and a write is passed on.
unfoldable pub run_command : Env → Command → Bytes → Client × Server → Outcome (Client × Server)
unfolding execute queue_reply propagate_write
run_command env cmd cmd_name (client, s) = do
  (response, store) ← execute env cmd s.store
  ok (queue_reply response client, propagate_write cmd_name cmd (record s { store = store }))

-- The loop over the parsed commands. `none` for the client: it was promoted, and the loop returned.
-- `envs i` is the environment of the command number `i`.
unfoldable pub run_commands :
    ℕ → (ℕ → Env) → ℕ → List Command → Client × Server → Outcome (Option Client × Server)
unfolding promotes promote run_command
run_commands fd envs i [] (client, s) = ok (some client, s)
run_commands fd envs i ([] ∷ cmds) (client, s) = run_commands fd envs (suc i) cmds (client, s)
run_commands fd envs i ((name ∷ args) ∷ cmds) (client, s) = elim (promotes (to_upper name) s) [
  | some m ↦ ok (none, promote fd (envs i) client m s)
  | none ↦ elim (is_replica s.role && is_write_command (to_upper name)) [
    | true ↦ run_commands fd envs (suc i) cmds (queue_response readonly_error client, s)
    | false ↦ do
      c ← run_command (envs i) (name ∷ args) (to_upper name) (client, s)
      run_commands fd envs (suc i) cmds c
  ]
]

-- The end of `handle_client_read`: what is queued is sent.
unfoldable pub flush_client : ℕ → SendResult → Option Client × Server → Server
unfolding handle_client_write
flush_client fd result (none, s) = s
flush_client fd result (some client, s) =
    handle_client_write fd result (record s { clients = insert fd client s.clients })

-- The part of `handle_client_read` behind the read; `none` of the parser is out of fuel.
unfoldable pub handle_input : ℕ → (ℕ → Env) → SendResult → Client → Server → Outcome Server
unfolding parse run_commands flush_client
handle_input fd envs result client s = elim (parse client.input_buffer) [
  | none ↦ undef
  | some p ↦
      let client' = record client { input_buffer = p.input_buffer } in
      if not p.parsed_any
      then ok (record s { clients = insert fd client' s.clients })
      else do r ← run_commands fd envs 0 p.commands (client', s); ok (flush_client fd result r)
]

unfoldable pub handle_client_read :
    ℕ → RecvResult → (ℕ → Env) → SendResult → Server → Outcome Server
unfolding handle_input read_from_socket disconnect_client
handle_client_read fd input envs result s = elim (find fd s.clients) [
  | none ↦ ok s
  | some client ↦
      let (alive, client') = read_from_socket input client in
      if alive then handle_input fd envs result client' s else ok (disconnect_client fd s)
]

-- The active expiry of a round of the event loop.
unfoldable pub tick : ℤ → Server → Server
unfolding evict_expired
tick now s =
    if leb eviction_interval (suc s.loop_tick)
    then record s { loop_tick = 0; store = record (s.store) { db = evict_expired now s.store.db } }
    else record s { loop_tick = suc s.loop_tick }

unfoldable pub stop : SaveFaults → ℤ → Server → Server
unfolding save
stop faults now s =
    if not s.running
    then s
    else (let (saved, disk) = save faults now s.store.db s.rdb_path s.store.disk in
        record s { running = false; store = record (s.store) { disk = disk } })
