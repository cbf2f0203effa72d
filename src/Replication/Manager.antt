-- ===== src/Replication/Manager.antt =====
-- src/replication.cpp: the state of `ReplicationManager` and its operations. A socket is a number;
-- INVALID_SOCKET_VAL is `none`. What the system calls return is handed in.
use velo_kv.Prelude.{
  ℕ, zero, suc, ◌+◌, ◌-◌, Bool, true, false, ◌||◌, Option, none, some, List, [], ◌∷◌, ◌++◌, Bytes,
  ℤ, pos, ◌-ℤ◌, ltb_ℤ, Outcome, ok, ◌>>=◌, nat_beq, is_empty, length, drop, if◌then◌else◌,
}
use velo_kv.Db.{Database}
use velo_kv.Text.Find.{find_crlf, substr}
use velo_kv.Resp.{Command}
use velo_kv.Replication.Stream.{encode_command, build_full_sync}
use velo_kv.Replication.Apply.{ReplicaState, apply_leader_line}

pub data NodeRole : Type 0 where
  standalone leader replica : NodeRole

pub record ReplicaConnection : Type 0 where
  pub fd : Option ℕ
  pub output_buffer : Bytes
  pub synced : Bool

pub record ReplicationManager : Type 0 where
  pub role : NodeRole
  pub replicas : List ReplicaConnection
  pub leader_fd : Option ℕ
  pub leader_host : Bytes
  pub leader_port : ℤ
  pub leader_input_buffer : Bytes
  pub leader_connected : Bool
  pub full_sync_in_progress : Bool
  pub last_reconnect_ms : ℤ

abbrev pub new_manager : NodeRole → ReplicationManager
new_manager role = record {
  role = role;
  replicas = [];
  leader_fd = none;
  leader_host = [];
  leader_port = pos 0;
  leader_input_buffer = [];
  leader_connected = false;
  full_sync_in_progress = false;
  last_reconnect_ms = pos 0;
}

unfoldable pub add_replica : Option ℕ → ℤ → Database → ReplicationManager → ReplicationManager
unfolding build_full_sync
add_replica fd now db m = record m {
  replicas =
      m.replicas ++ record { fd = fd; output_buffer = build_full_sync now db; synced = false } ∷ [];
}

unfoldable pub queue_all : Bytes → List ReplicaConnection → List ReplicaConnection
queue_all wire [] = []
queue_all wire (rc ∷ rcs) =
    record rc { output_buffer = rc.output_buffer ++ wire } ∷ queue_all wire rcs

unfoldable pub propagate : Command → ReplicationManager → ReplicationManager
unfolding queue_all encode_command
propagate cmd m =
    if is_empty m.replicas
    then m
    else record m { replicas = queue_all (encode_command cmd) m.replicas }

abbrev pub is_fd : ℕ → Option ℕ → Bool
is_fd fd none = false
is_fd fd (some n) = nat_beq n fd

-- What `send` returns: a count, or an error that would block or not.
pub data SendResult : Type 0 where
  sent : ℕ → SendResult
  send_blocks send_fails : SendResult

-- The branches of `flush_replica` for the connection that has the socket.
unfoldable pub flush_connection : SendResult → ReplicaConnection → Bool × ReplicaConnection
flush_connection result rc =
    if is_empty rc.output_buffer then (true, record rc { synced = true }) else elim result [
      | sent zero ↦ (false, rc)
      | sent (suc n) ↦
          let rest = drop (suc n) rc.output_buffer in
          (true, record rc { output_buffer = rest; synced = rc.synced || is_empty rest })
      | send_blocks ↦ (true, rc)
      | send_fails ↦ (false, rc)
    ]

unfoldable pub flush_in : ℕ → SendResult → List ReplicaConnection → Bool × List ReplicaConnection
unfolding flush_connection
flush_in fd result [] = (false, [])
flush_in fd result (rc ∷ rcs) =
    let (done, rcs') = flush_in fd result rcs in
    if is_fd fd rc.fd
    then (let (done', rc') = flush_connection result rc in (done', rc' ∷ rcs))
    else (done, rc ∷ rcs')

unfoldable pub flush_replica : ℕ → SendResult → ReplicationManager → Bool × ReplicationManager
unfolding flush_in
flush_replica fd result m =
    let (done, rcs) = flush_in fd result m.replicas in (done, record m { replicas = rcs })

unfoldable pub remove_in : ℕ → List ReplicaConnection → List ReplicaConnection
remove_in fd [] = []
remove_in fd (rc ∷ rcs) = let rest = remove_in fd rcs in if is_fd fd rc.fd then rcs else rc ∷ rest

unfoldable pub remove_replica : ℕ → ReplicationManager → ReplicationManager
unfolding remove_in
remove_replica fd m = record m { replicas = remove_in fd m.replicas }

-- What `recv` returns: the bytes read, the end of the stream, or an error.
-- A `received` may have any length; the buffers of the source take at most 4096 bytes of a client, 64 of
-- a replica and 8192 of the leader at a time, so that what holds of every `received` holds of theirs.
pub data RecvResult : Type 0 where
  received : Bytes → RecvResult
  closed recv_blocks recv_fails : RecvResult

-- The Boolean says that the replica is still connected.
unfoldable pub handle_replica_read : ℕ → RecvResult → ReplicationManager → Bool × ReplicationManager
unfolding remove_replica
handle_replica_read fd closed m = (false, remove_replica fd m)
handle_replica_read fd recv_fails m = (false, remove_replica fd m)
handle_replica_read fd recv_blocks m = (true, m)
handle_replica_read fd (received s) m = (true, m)

unfoldable pub fds_of : List ReplicaConnection → List ℕ
fds_of [] = []
fds_of (rc ∷ rcs) = elim rc.fd [ none ↦ fds_of rcs | some fd ↦ fd ∷ fds_of rcs ]

unfoldable pub replica_fds : ReplicationManager → List ℕ
unfolding fds_of
replica_fds m = fds_of m.replicas

-- How far `connect_to_leader` gets: no socket, a failure after it, or the connected socket.
pub data ConnectResult : Type 0 where
  no_socket bad_address refused not_nonblocking : ConnectResult
  connected : ℕ → ConnectResult

unfoldable pub connect_to_leader :
    Bytes → ℤ → ConnectResult → ReplicationManager → Bool × ReplicationManager
connect_to_leader host port (connected fd) m = (
  true,
  record m {
    leader_host = host;
    leader_port = port;
    leader_fd = some fd;
    leader_connected = true;
    full_sync_in_progress = false;
    leader_input_buffer = [];
  },
)
connect_to_leader host port _ m = (false, record m { leader_host = host; leader_port = port })

-- The loop of `read_from_leader` over the complete lines of the buffer, from `at`: the place behind
-- the last of them. Each round moves forward, so as many rounds as bytes are enough.
unfoldable pub apply_lines : ℕ → (ℕ → ℕ → ℤ) → Bytes → ℕ → ReplicaState → Outcome (ℕ × ReplicaState)
unfolding find_crlf substr apply_leader_line
apply_lines zero clock buffer at s = ok (at, s)
apply_lines (suc fuel) clock buffer at s = elim (find_crlf buffer at) [
  | none ↦ ok (at, s)
  | some crlf ↦ do
    (_, s') ← apply_leader_line (clock fuel) (substr buffer at (crlf - at)) s
    apply_lines fuel clock buffer (crlf + 2) s'
]

-- A connection that ended: the backoff starts.
abbrev pub lost : ℤ → Bool → ReplicationManager → ReplicationManager
lost now syncing m = record m {
  leader_fd = none;
  leader_connected = false;
  full_sync_in_progress = syncing;
  last_reconnect_ms = now;
}

unfoldable pub read_received :
    (ℕ → ℕ → ℤ) → Bytes → ReplicationManager → Database → Outcome (ReplicationManager × Database)
unfolding apply_lines
read_received clock bytes m db = do
  let buffer = m.leader_input_buffer ++ bytes
  (at, s) ←
      apply_lines (length buffer) clock buffer 0
        (record { full_sync_in_progress = m.full_sync_in_progress; db = db })
  ok (
    record m {
      leader_input_buffer = drop at buffer;
      full_sync_in_progress = s.full_sync_in_progress;
    },
    s.db,
  )

unfoldable pub read_from_leader :
    RecvResult
    → ℤ
    → (ℕ → ℕ → ℤ)
    → ReplicationManager
    → Database
    → Outcome (ReplicationManager × Database)
unfolding read_received
read_from_leader result now clock m db = elim m.leader_fd [
  | none ↦ ok (m, db)
  | some fd ↦ elim result [
    | closed ↦ ok (lost now false m, db)
    | recv_blocks ↦ ok (m, db)
    | recv_fails ↦ ok (lost now m.full_sync_in_progress m, db)
    | received bytes ↦ read_received clock bytes m db
  ]
]

abbrev pub reconnect_interval_ms : ℤ
reconnect_interval_ms = pos 5000

unfoldable pub try_reconnect : ℤ → ConnectResult → ReplicationManager → ReplicationManager
unfolding connect_to_leader
try_reconnect now result m =
    if m.leader_connected || is_empty m.leader_host
    then m
    else if ltb_ℤ (now -ℤ m.last_reconnect_ms) reconnect_interval_ms
    then m
    else (connect_to_leader m.leader_host m.leader_port result
        (record m { last_reconnect_ms = now })).1
