-- ===== src/Replication/Sockets.antt =====
-- src/replication.cpp and src/replication.hpp: the sockets of `ReplicationManager` in the fd sets of
-- `select`, and what becomes of them when the object goes.
use velo_kv.Prelude.{
  ℕ, Bool, false, not, none, some, List, [], ◌∷◌, ◌++◌, Outcome, ok, undef, ◌>>=◌, is_empty, ltb,
  length, if◌then◌else◌,
}
use velo_kv.Replication.Manager.{standalone, leader, replica, ReplicaConnection, ReplicationManager}

pub record FdSets : Type 0 where
  pub read_fds : List ℕ
  pub write_fds : List ℕ
  pub max_fd : ℕ

abbrev pub replica_count : ReplicationManager → ℕ
replica_count m = length m.replicas

abbrev pub is_connected : ReplicationManager → Bool
is_connected m = m.leader_connected

-- The destructor: the sockets that it closes, in its order.
unfoldable pub close_replicas : List ReplicaConnection → List ℕ
close_replicas [] = []
close_replicas (rc ∷ rcs) = elim rc.fd [
  | none ↦ close_replicas rcs
  | some fd ↦ fd ∷ close_replicas rcs
]

unfoldable pub destroy_manager : ReplicationManager → List ℕ
unfolding close_replicas
destroy_manager m = close_replicas m.replicas ++ elim m.leader_fd [ none ↦ [] | some fd ↦ fd ∷ [] ]

-- `fd_setsize` is the platform's FD_SETSIZE: FD_SET on a larger number is undefined.
module _ (fd_setsize : ℕ) where
  unfoldable pub fd_set : ℕ → List ℕ → Outcome (List ℕ)
  fd_set fd fds = if ltb fd fd_setsize then ok (fd ∷ fds) else undef

  -- A socket is read; where something is pending, it is written too.
  unfoldable pub watch : ℕ → Bool → FdSets → Outcome FdSets
  unfolding fd_set
  watch fd pending s = do
    read_fds ← fd_set fd s.read_fds
    write_fds ← if pending then fd_set fd s.write_fds else ok s.write_fds
    ok (record {
      read_fds = read_fds;
      write_fds = write_fds;
      max_fd = if ltb s.max_fd fd then fd else s.max_fd;
    })

  unfoldable pub register_replicas : List ReplicaConnection → FdSets → Outcome FdSets
  unfolding watch
  register_replicas [] s = ok s
  register_replicas (rc ∷ rcs) s = elim rc.fd [
    | none ↦ register_replicas rcs s
    | some fd ↦ do s' ← watch fd (not (is_empty rc.output_buffer)) s; register_replicas rcs s'
  ]

  unfoldable pub register_fds : ReplicationManager → FdSets → Outcome FdSets
  unfolding watch register_replicas
  register_fds m s = elim m.role [
    | standalone ↦ ok s
    | leader ↦ register_replicas m.replicas s
    | replica ↦ elim m.leader_fd [
      | none ↦ ok s
      | some fd ↦ if m.leader_connected then watch fd false s else ok s
    ]
  ]
