-- ===== src/Server/Serve.antt =====
-- src/server.cpp: what a round of the event loop does for the sockets that are ready. What the system
-- calls return is handed in.
use velo_kv.Prelude.{
  undef, not, ℕ, Bool, true, false, ◌&&◌, ◌||◌, none, some, List, [], ◌∷◌, ℤ, Outcome, ok, ◌>>=◌,
  bytes_eq, nat_eq, nat_beq, if◌then◌else◌,
}
use velo_kv.Map.{Map, contains}
use velo_kv.Db.{Database}
use velo_kv.Command.{Env}
use velo_kv.Replication.Manager.{
  standalone, leader, replica, ReplicationManager, RecvResult, SendResult, ConnectResult,
  flush_replica, remove_replica, handle_replica_read, replica_fds, read_from_leader, try_reconnect,
}
use velo_kv.Replication.Sockets.{is_connected}
use velo_kv.Client.{Client}
use velo_kv.Server.{Server, accept_client, handle_client_read, handle_client_write, is_replica}

-- What `select` says: an error, that would block or not; no socket; or which sockets are ready.
pub data Activity : Type 0 where
  interrupted select_fails timed_out : Activity
  ready : (ℕ → Bool) → (ℕ → Bool) → Activity

-- A call of `accept` that does not block: a socket, and whether it could be made non-blocking.
pub data AcceptResult : Type 0 where
  accepted : ℕ → Bool → AcceptResult
  accept_fails : AcceptResult

-- What a round of the loop gets from outside. `order` is that in which the hash map of the clients
-- gives its keys, which C++ leaves open.
pub record Round : Type 0 where
  pub activity : Activity
  pub sweep_time : ℤ
  pub accepts : List AcceptResult
  pub order : List ℕ → List ℕ
  pub client_input : ℕ → RecvResult
  pub envs : ℕ → ℕ → Env
  pub reply_result : ℕ → SendResult
  pub client_result : ℕ → SendResult
  pub replica_input : ℕ → RecvResult
  pub replica_result : ℕ → SendResult
  pub leader_input : RecvResult
  pub leader_time : ℤ
  pub leader_clock : ℕ → ℕ → ℤ
  pub reconnect_time : ℤ
  pub connect_result : ConnectResult

unfoldable pub has_fd : ℕ → List ℕ → Bool
has_fd fd [] = false
has_fd fd (n ∷ fds) = nat_beq n fd || has_fd fd fds

-- FD_ISSET behind `select`, which leaves in a set those that are ready, on a number that is below
-- FD_SETSIZE.
unfoldable pub is_set : (ℕ → Bool) → List ℕ → ℕ → Bool
unfolding has_fd
is_set is_ready fds fd = has_fd fd fds && is_ready fd

-- The loop ends where `accept` would block, which is the end of the list.
unfoldable pub handle_new_connection : List AcceptResult → Server → Server
unfolding accept_client
handle_new_connection [] s = s
handle_new_connection (accept_fails ∷ rs) s = s
handle_new_connection (accepted fd false ∷ rs) s = handle_new_connection rs s
handle_new_connection (accepted fd true ∷ rs) s = handle_new_connection rs (accept_client fd s)

unfoldable pub client_fds : Map ℕ Client → List ℕ
client_fds [] = []
client_fds ((fd, client) ∷ clients) = fd ∷ client_fds clients

-- A round of the loop over `active_fds`.
unfoldable pub serve_client : Round → Bool → Bool → ℕ → Server → Outcome Server
unfolding handle_client_read handle_client_write
serve_client r readable writable fd s = do
  s' ←
      (if contains fd s.clients && readable
        then handle_client_read fd (r.client_input fd) (r.envs fd) (r.reply_result fd) s
        else ok s)
  ok (
      if contains fd s'.clients && writable
      then handle_client_write fd (r.client_result fd) s'
      else s')

-- The same where the number may have been accepted in this round: FD_ISSET on one that is not below
-- FD_SETSIZE is undefined. `fits` says that it is below.
unfoldable pub serve_active : Bool → Round → Bool → Bool → ℕ → Server → Outcome Server
unfolding serve_client
serve_active fits r readable writable fd s =
    if contains fd s.clients && not fits then undef else serve_client r readable writable fd s

unfoldable pub serve_clients :
    (ℕ → Bool) → Round → (ℕ → Bool) → (ℕ → Bool) → List ℕ → Server → Outcome Server
unfolding serve_active
serve_clients fits r readable writable [] s = ok s
serve_clients fits r readable writable (fd ∷ fds) s = do
  s' ← serve_active (fits fd) r (readable fd) (writable fd) fd s
  serve_clients fits r readable writable fds s'

unfoldable pub flush_or_remove : ℕ → SendResult → ReplicationManager → ReplicationManager
unfolding flush_replica remove_replica
flush_or_remove fd result m =
    let (done, m') = flush_replica fd result m in if done then m' else remove_replica fd m'

-- A round of the loop over `rfds`.
unfoldable pub serve_replica : Round → Bool → Bool → ℕ → ReplicationManager → ReplicationManager
unfolding handle_replica_read flush_or_remove
serve_replica r readable writable fd m =
    let (still_alive, m') =
      (if readable then handle_replica_read fd (r.replica_input fd) m else (true, m)) in
    if still_alive && writable then flush_or_remove fd (r.replica_result fd) m' else m'

unfoldable pub serve_replicas :
    Round → (ℕ → Bool) → (ℕ → Bool) → List ℕ → ReplicationManager → ReplicationManager
unfolding serve_replica
serve_replicas r readable writable [] m = m
serve_replicas r readable writable (fd ∷ fds) m =
    serve_replicas r readable writable fds (serve_replica r (readable fd) (writable fd) fd m)

unfoldable pub follow_leader :
    Round → (ℕ → Bool) → ReplicationManager → Database → Outcome (ReplicationManager × Database)
unfolding read_from_leader
follow_leader r readable m db = elim m.leader_fd [
  | none ↦ ok (m, db)
  | some fd ↦
      if readable fd
      then read_from_leader r.leader_input r.leader_time r.leader_clock m db
      else ok (m, db)
]

unfoldable pub serve_leader : Round → (ℕ → Bool) → ReplicationManager → Server → Outcome Server
unfolding follow_leader try_reconnect
serve_leader r readable m s = do
  (m', db) ← follow_leader r readable m s.store.db
  ok (record s {
    store = record (s.store) { db = db };
    repl_mgr =
        some (if is_connected m' then m' else try_reconnect r.reconnect_time r.connect_result m');
  })

-- The end of a round.
unfoldable pub replication_io : Round → (ℕ → Bool) → (ℕ → Bool) → Server → Outcome Server
unfolding serve_replicas serve_leader replica_fds
replication_io r readable writable s = elim s.repl_mgr [
  | none ↦ ok s
  | some m ↦ elim s.role [
    | standalone ↦ ok s
    | leader ↦
        ok (record s { repl_mgr = some (serve_replicas r readable writable (replica_fds m) m) })
    | replica ↦ serve_leader r readable m s
  ]
]

-- What a timeout of `select` still does.
unfoldable pub reconnect_idle : Round → Server → Server
unfolding try_reconnect
reconnect_idle r s = elim s.repl_mgr [
  | none ↦ s
  | some m ↦
      if is_replica s.role
      then record s { repl_mgr = some (try_reconnect r.reconnect_time r.connect_result m) }
      else s
]

-- The part of a round in which some socket is ready.
unfoldable pub serve : (ℕ → Bool) → Round → (ℕ → Bool) → (ℕ → Bool) → Bool → Server → Outcome Server
unfolding handle_new_connection serve_clients client_fds replication_io
serve fits r readable writable incoming s = do
  let s₁ = if incoming then handle_new_connection r.accepts s else s
  s₂ ← serve_clients fits r readable writable (r.order (client_fds s₁.clients)) s₁
  replication_io r readable writable s₂
