-- ===== src/Main.antt =====
-- src/main.cpp: the arguments of the program, and the life of the process. What the operating system
-- returns is handed in.
pub mod Flags
pub mod Exit
use velo_kv.Prelude.{
  ℕ, Bool, true, false, not, ◌&&◌, ◌||◌, Option, none, some, List, [], ◌∷◌, Bytes, codes, ℤ, pos,
  leb_ℤ, ltb_ℤ, in_range, int_bound, Outcome, ok, undef, ◌>>=◌, bytes_beq, is_empty, if◌then◌else◌,
}
use velo_kv.Text.Decimal.{skip_spaces, signed}
use velo_kv.Persistence.{SaveFaults, Disk}
use velo_kv.Replication.Manager.{
  NodeRole, standalone, leader, replica, ReplicationManager, new_manager, ConnectResult,
  connect_to_leader,
}
use velo_kv.Server.{Server, stop, is_replica}
use velo_kv.Server.Loop.{Event, run}
use velo_kv.Server.Life.{InitResult, init, new_server, start, destroy_server}

unfoldable pub handle_signal : SaveFaults → ℤ → Option Server → Option Server
unfolding stop
handle_signal faults now none = none
handle_signal faults now (some server) = some (stop faults now server)

-- The loop of `get_arg` over the arguments behind the program's name.
unfoldable pub value_of : Bytes → List Bytes → Option Bytes
unfolding bytes_beq
value_of flag [] = none
value_of flag (arg ∷ []) = none
value_of flag (arg ∷ value ∷ args) =
    let rest = value_of flag (value ∷ args) in if bytes_beq arg flag then some value else rest

-- The Boolean, and the value that `out` has afterwards.
unfoldable pub get_arg : List Bytes → Bytes → Bytes → Bool × Bytes
unfolding value_of
get_arg [] flag out = (false, out)
get_arg (program ∷ args) flag out = elim (value_of flag args) [
  | none ↦ (false, out)
  | some value ↦ (true, value)
]

unfoldable pub is_arg : Bytes → List Bytes → Bool
unfolding bytes_beq
is_arg flag [] = false
is_arg flag (arg ∷ args) = bytes_beq arg flag || is_arg flag args

unfoldable pub has_flag : List Bytes → Bytes → Bool
unfolding is_arg
has_flag [] flag = false
has_flag (program ∷ args) flag = is_arg flag args

-- `std::atoi`: no number is 0, and one that is no `int` is undefined.
unfoldable pub atoi : Bytes → Outcome ℤ
unfolding skip_spaces signed in_range
atoi s = elim (signed (skip_spaces s)) [
  | none ↦ ok (pos 0)
  | some a ↦ if in_range int_bound a then ok a else undef
]

unfoldable pub role_of : Bytes → NodeRole
unfolding bytes_beq
role_of role_str =
    if bytes_beq role_str (codes "replica")
    then replica
    else if bytes_beq role_str (codes "leader")
    then leader
    else standalone

pub record Config : Type 0 where
  pub role : NodeRole
  pub host : Bytes
  pub port : ℤ
  pub rdb_path : Bytes
  pub leader_host : Bytes
  pub leader_port : ℤ

-- What `main` makes of its arguments: the help, an exit with an error, or a server to start.
pub data Arguments : Type 0 where
  help rejected : Arguments
  configured : Config → Arguments

abbrev pub is_port : ℤ → Bool
is_port port = not (leb_ℤ port (pos 0) || ltb_ℤ (pos 65535) port)

unfoldable pub check_config : Config → Arguments
check_config c =
    if not (is_port c.port)
    then rejected
    else if is_replica c.role && is_empty c.leader_host
    then rejected
    else configured c

unfoldable pub make_config : List Bytes → ℤ → ℤ → Config
unfolding get_arg role_of
make_config argv port leader_port = record {
  role = role_of (get_arg argv (codes "--role") (codes "standalone")).1;
  host = (get_arg argv (codes "--host") (codes "127.0.0.1")).1;
  port = port;
  rdb_path = (get_arg argv (codes "--rdb") (codes "redis.rdb")).1;
  leader_host = (get_arg argv (codes "--leader-host") []).1;
  leader_port = leader_port;
}

unfoldable pub parse_arguments : List Bytes → Outcome Arguments
unfolding get_arg atoi make_config check_config
parse_arguments argv = do
  port ← atoi (get_arg argv (codes "--port") (codes "6379")).1
  leader_port ← atoi (get_arg argv (codes "--leader-port") (codes "6379")).1
  ok (check_config (make_config argv port leader_port))

unfoldable pub read_arguments : List Bytes → Outcome Arguments
unfolding has_flag parse_arguments
read_arguments argv = if has_flag argv (codes "--help") then ok help else parse_arguments argv

abbrev pub is_standalone : NodeRole → Bool
is_standalone standalone = true
is_standalone _ = false

-- The server that `main` constructs, with the replication manager behind its pointer.
unfoldable pub make_server : Config → Disk → Server
make_server c disk =
    new_server c.host c.port c.role
      (if is_standalone c.role then none else some (new_manager c.role)) c.rdb_path disk

-- A replica connects before the loop; that it fails only prints a warning.
unfoldable pub connect_replica : Config → ConnectResult → Server → Server
unfolding connect_to_leader
connect_replica c result s = elim s.repl_mgr [
  | none ↦ s
  | some m ↦
      if is_replica c.role
      then record s { repl_mgr = some (connect_to_leader c.leader_host c.leader_port result m).1 }
      else s
]

-- What happens outside while the process runs; the last two are for the save of the destructor.
pub record World (fd_setsize : ℕ) : Type 0 where
  pub network : Bool
  pub init_result : InitResult
  pub load_time : ℤ
  pub connect_result : ConnectResult
  pub events : List (Event fd_setsize)
  pub faults : SaveFaults
  pub end_time : ℤ

module _ (fd_setsize : ℕ) where
  -- The exit code and the disk, from what `init` returned on.
  unfoldable pub run_from : World fd_setsize → Config → Bool × Server → Outcome (ℕ × Disk)
  unfolding start connect_replica run destroy_server
  run_from w c (false, s) = ok (1, (destroy_server w.faults w.end_time s).0.store.disk)
  run_from w c (true, s) = do
    s' ← run fd_setsize w.events (start (connect_replica c w.connect_result s))
    ok (0, (destroy_server w.faults w.end_time s').0.store.disk)

  unfoldable pub run_server : World fd_setsize → Config → Disk → Outcome (ℕ × Disk)
  unfolding init make_server run_from
  run_server w c disk = do s ← init w.init_result w.load_time (make_server c disk); run_from w c s

  unfoldable pub run_arguments : World fd_setsize → Disk → Arguments → Outcome (ℕ × Disk)
  unfolding run_server
  run_arguments w disk help = ok (0, disk)
  run_arguments w disk rejected = ok (1, disk)
  run_arguments w disk (configured c) = if not w.network then ok (1, disk) else run_server w c disk

  unfoldable pub main : World fd_setsize → List Bytes → Disk → Outcome (ℕ × Disk)
  unfolding read_arguments run_arguments
  main w argv disk = do arguments ← read_arguments argv; run_arguments w disk arguments
