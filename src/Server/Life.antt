-- ===== src/Server/Life.antt =====
-- src/server.cpp: the constructor of `Server`, `init`, the start of the loop and the destructor.
use velo_kv.Prelude.{
  ℕ, Bool, true, false, Option, none, some, List, [], ◌∷◌, ◌++◌, Bytes, ℤ, Outcome, ok, ◌>>=◌,
  bytes_eq, nat_eq,
}
use velo_kv.Map.{Map, find}
use velo_kv.Db.{empty}
use velo_kv.Persistence.{SaveFaults, Disk}
use velo_kv.Persistence.Load.{load}
use velo_kv.Replication.Manager.{NodeRole, ReplicationManager}
use velo_kv.Client.{Client, destroy_client}
use velo_kv.Server.{Server, stop}

abbrev pub new_server : Bytes → ℤ → NodeRole → Option ReplicationManager → Bytes → Disk → Server
new_server host port role repl_mgr rdb_path disk = record {
  host = host;
  port = port;
  listen_fd = none;
  store = record { db = empty; disk = disk };
  clients = [];
  role = role;
  repl_mgr = repl_mgr;
  rdb_path = rdb_path;
  running = false;
  loop_tick = 0;
}

-- How far `init` gets with the listening socket.
pub data InitResult : Type 0 where
  no_listener stays_blocking bad_host bind_fails listen_fails : InitResult
  listening : ℕ → InitResult

-- The Boolean is that of `init`. A load that fails only prints a warning.
unfoldable pub init : InitResult → ℤ → Server → Outcome (Bool × Server)
unfolding load
init (listening fd) now s = do
  (result, db) ← load now (find s.rdb_path s.store.disk) s.store.db
  ok (true, record s { listen_fd = some fd; store = record (s.store) { db = db } })
init _ now s = ok (false, record s { listen_fd = none })

-- `running_` and the tick at the start of the loop.
unfoldable pub start : Server → Server
start s = record s { running = true; loop_tick = 0 }

unfoldable pub close_clients : Map ℕ Client → List ℕ
unfolding destroy_client
close_clients [] = []
close_clients ((fd, client) ∷ clients) = destroy_client client ++ close_clients clients

-- The destructor, with the sockets that it closes: its own, and then those of the clients.
unfoldable pub destroy_server : SaveFaults → ℤ → Server → Server × List ℕ
unfolding stop close_clients
destroy_server faults now s =
    let s' = stop faults now s in
    elim s'.listen_fd [
      | none ↦ (s', close_clients s'.clients)
      | some fd ↦ (s', fd ∷ close_clients s'.clients)
    ]
