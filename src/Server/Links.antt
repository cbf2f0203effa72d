-- ===== src/Server/Links.antt =====
-- src/server.cpp: the replication part of a round gives no socket a second holder.
use velo_kv.Prelude.{
  ℕ, ◌≤◌, Bool, true, false, ◌≡◌, ◌∙◌, refl, sym, ap, subst, Option, none, some, List, [], ◌∷◌,
  ◌++◌, Bytes, ℤ, Outcome, ok, undef, ◌>>=◌, Bool-cases, Option-cases, Outcome-cases, inl, inr,
  arith, nat_eq, if◌then◌else◌, length,
}
use velo_kv.Db.{Database}
use velo_kv.Replication.Manager.{
  NodeRole, standalone, leader, replica, ReplicaConnection, ReplicationManager, RecvResult,
  received, closed, recv_blocks, recv_fails, SendResult, ConnectResult, no_socket, bad_address,
  refused, not_nonblocking, connected, flush_replica, remove_replica, handle_replica_read,
  replica_fds, read_from_leader, read_received, try_reconnect, connect_to_leader, apply_lines,
}
use velo_kv.Replication.Apply.{ReplicaState}
use velo_kv.Replication.Sockets.{is_connected}
use velo_kv.Server.{Server, is_replica}
use velo_kv.Server.Owners.{held, replicas_of, Owned, Owned-fewer, held-flush_in, held-remove_in}
use velo_kv.Server.Sockets.{IsOwned, LeavesOwned}
use velo_kv.Server.Serve.{
  Round, serve_replica, serve_replicas, flush_or_remove, follow_leader, serve_leader,
  replication_io, reconnect_idle,
}

held-flush_replica :
    (k fd : ℕ) (result : SendResult) (m : ReplicationManager)
    → held k (flush_replica fd result m).1.replicas ≡ held k m.replicas
unfolding flush_replica
held-flush_replica k fd result m = held-flush_in k fd result m.replicas

held-flush_or_remove :
    (k fd : ℕ) (result : SendResult) (m : ReplicationManager)
    → held k (flush_or_remove fd result m).replicas ≤ held k m.replicas
unfolding flush_or_remove remove_replica
held-flush_or_remove k fd result m = ground (
  arith,
  held-flush_replica k fd result m,
  held-remove_in k fd (flush_replica fd result m).1.replicas,
)

held-handle_replica_read :
    (k fd : ℕ) (input : RecvResult) (m : ReplicationManager)
    → held k (handle_replica_read fd input m).1.replicas ≤ held k m.replicas
unfolding handle_replica_read remove_replica
held-handle_replica_read k fd (received s) m = omega arith
held-handle_replica_read k fd closed m = held-remove_in k fd m.replicas
held-handle_replica_read k fd recv_blocks m = omega arith
held-handle_replica_read k fd recv_fails m = held-remove_in k fd m.replicas

held-serve_replica :
    (k : ℕ) (r : Round) (readable writable : Bool) (fd : ℕ) (m : ReplicationManager)
    → held k (serve_replica r readable writable fd m).replicas ≤ held k m.replicas
unfolding serve_replica
held-serve_replica k r true writable fd m =
    let m' = (handle_replica_read fd (r.replica_input fd) m).1 in
    ground (
      arith,
      held-handle_replica_read k fd (r.replica_input fd) m,
      held-flush_or_remove k fd (r.replica_result fd) m',
    )
held-serve_replica k r false writable fd m =
    ground (arith, held-flush_or_remove k fd (r.replica_result fd) m)

held-serve_replicas :
    (k : ℕ) (r : Round) (readable writable : ℕ → Bool) (fds : List ℕ) (m : ReplicationManager)
    → held k (serve_replicas r readable writable fds m).replicas ≤ held k m.replicas
unfolding serve_replicas
held-serve_replicas k r readable writable [] m = omega arith
held-serve_replicas k r readable writable (fd ∷ fds) m = omega (
  arith,
  held-serve_replica k r (readable fd) (writable fd) fd m,
  held-serve_replicas k r readable writable fds (serve_replica r (readable fd) (writable fd) fd m),
)

-- The replica's side leaves the connections as they are.
replicas-connect_to_leader :
    (host : Bytes) (port : ℤ) (result : ConnectResult) (m : ReplicationManager)
    → (connect_to_leader host port result m).1.replicas ≡ m.replicas
unfolding connect_to_leader
replicas-connect_to_leader host port no_socket m = refl
replicas-connect_to_leader host port bad_address m = refl
replicas-connect_to_leader host port refused m = refl
replicas-connect_to_leader host port not_nonblocking m = refl
replicas-connect_to_leader host port (connected fd) m = refl

replicas-try_reconnect :
    (now : ℤ) (result : ConnectResult) (m : ReplicationManager)
    → (try_reconnect now result m).replicas ≡ m.replicas
unfolding try_reconnect
replicas-try_reconnect now result m = ground (
  arith,
  replicas-connect_to_leader m.leader_host m.leader_port result
      (record m { last_reconnect_ms = now }),
)

abbrev LeavesReplicas : List ReplicaConnection → Outcome (ReplicationManager × Database) → Type 0
LeavesReplicas rcs undef = Unit
LeavesReplicas rcs (ok (m, db)) = m.replicas ≡ rcs

read_received-LeavesReplicas :
    (clock : ℕ → ℕ → ℤ) (bytes : Bytes) (m : ReplicationManager) (db : Database)
    → LeavesReplicas m.replicas (read_received clock bytes m db)
unfolding read_received
read_received-LeavesReplicas clock bytes m db =
    let buffer = m.leader_input_buffer ++ bytes in
    let first : ReplicaState = record {
      full_sync_in_progress = m.full_sync_in_progress;
      db = db;
    } in
    elim (Outcome-cases (apply_lines (length buffer) clock buffer 0 first)) [
      | inl stuck ↦ simp stuck tt
      | inr (s, made) ↦ simp made refl
    ]

read_from_leader-LeavesReplicas :
    (input : RecvResult) (now : ℤ) (clock : ℕ → ℕ → ℤ) (m : ReplicationManager) (db : Database)
    → LeavesReplicas m.replicas (read_from_leader input now clock m db)
unfolding read_from_leader
read_from_leader-LeavesReplicas input now clock m db = elim (Option-cases m.leader_fd) [
  | inl alone ↦ simp (alone, read_from_leader) refl
  | inr (fd, at) ↦ by_input fd at input
]
  where
    by_input :
        (fd : ℕ)
        → m.leader_fd ≡ some fd
        → (input : RecvResult) → LeavesReplicas m.replicas (read_from_leader input now clock m db)
    by_input fd at (received s) =
        subst (LeavesReplicas m.replicas)
          (sym (
            ap {A = Option ℕ}
              (λ o. elim o [ none ↦ ok (m, db) | some _ ↦ read_received clock s m db ]) at))
          (read_received-LeavesReplicas clock s m db)
    by_input fd at closed = simp (at, read_from_leader) refl
    by_input fd at recv_blocks = simp (at, read_from_leader) refl
    by_input fd at recv_fails = simp (at, read_from_leader) refl

follow_leader-LeavesReplicas :
    (r : Round) (readable : ℕ → Bool) (m : ReplicationManager) (db : Database)
    → LeavesReplicas m.replicas (follow_leader r readable m db)
unfolding follow_leader
follow_leader-LeavesReplicas r readable m db = elim (Option-cases m.leader_fd) [
  | inl alone ↦ simp (alone, follow_leader) refl
  | inr (fd, at) ↦ elim (Bool-cases (readable fd)) [
    | inl there ↦
        simp (at, there, follow_leader)
          (read_from_leader-LeavesReplicas r.leader_input r.leader_time r.leader_clock m db)
    | inr quiet ↦ simp (at, quiet, follow_leader) refl
  ]
]

serve_leader-LeavesOwned :
    (r : Round) (readable : ℕ → Bool) (m : ReplicationManager) (s : Server)
    → Owned s.clients m.replicas
    → LeavesOwned (serve_leader r readable m s)
unfolding serve_leader
serve_leader-LeavesOwned r readable m s o =
    by_result (follow_leader r readable m s.store.db)
      (follow_leader-LeavesReplicas r readable m s.store.db)
  where
    reconnected :
        (on : Bool) (m' : ReplicationManager)
        → m'.replicas ≡ m.replicas
        → Owned s.clients
            (if on then m' else try_reconnect r.reconnect_time r.connect_result m').replicas
    reconnected true m' same = subst (Owned s.clients) (sym same) o
    reconnected false m' same =
        subst (Owned s.clients)
          (sym (replicas-try_reconnect r.reconnect_time r.connect_result m' ∙ same)) o

    by_result :
        (p : Outcome (ReplicationManager × Database))
        → LeavesReplicas m.replicas p
        → LeavesOwned (
            p >>= λ p. ok (record s {
              store = record (s.store) { db = p.1 };
              repl_mgr = some (
                  if is_connected p.0
                  then p.0
                  else try_reconnect r.reconnect_time r.connect_result p.0);
            }))
    by_result undef same = tt
    by_result (ok (m', db)) same = reconnected (is_connected m') m' same

-- What `replication_io` does with a manager, by the role.
abbrev by_role :
    Round → (ℕ → Bool) → (ℕ → Bool) → ReplicationManager → Server → NodeRole → Outcome Server
by_role r readable writable m s standalone = ok s
by_role r readable writable m s leader =
    ok (record s { repl_mgr = some (serve_replicas r readable writable (replica_fds m) m) })
by_role r readable writable m s replica = serve_leader r readable m s

by_role-LeavesOwned :
    (r : Round) (readable writable : ℕ → Bool) (m : ReplicationManager) (s : Server)
    (role : NodeRole)
    → IsOwned s
    → s.repl_mgr ≡ some m
    → LeavesOwned (by_role r readable writable m s role)
by_role-LeavesOwned r readable writable m s standalone o at = o
by_role-LeavesOwned r readable writable m s leader o at =
    Owned-fewer s.clients m.replicas (serve_replicas r readable writable (replica_fds m) m).replicas
      (subst (λ g. Owned s.clients (replicas_of g)) at o)
      (λ k. held-serve_replicas k r readable writable (replica_fds m) m)
by_role-LeavesOwned r readable writable m s replica o at =
    serve_leader-LeavesOwned r readable m s (subst (λ g. Owned s.clients (replicas_of g)) at o)

pub replication_io-LeavesOwned :
    (r : Round) (readable writable : ℕ → Bool) (s : Server)
    → IsOwned s
    → LeavesOwned (replication_io r readable writable s)
unfolding replication_io
replication_io-LeavesOwned r readable writable s o = by_manager s.repl_mgr refl
  where
    with_manager : Option ReplicationManager → Outcome Server
    with_manager none = ok s
    with_manager (some m) = by_role r readable writable m s s.role

    same : replication_io r readable writable s ≡ with_manager s.repl_mgr
    same = refl

    by_manager :
        (mgr : Option ReplicationManager)
        → s.repl_mgr ≡ mgr
        → LeavesOwned (replication_io r readable writable s)
    by_manager none at = subst LeavesOwned (sym (same ∙ ap with_manager at)) o
    by_manager (some m) at =
        subst LeavesOwned (sym (same ∙ ap with_manager at))
          (by_role-LeavesOwned r readable writable m s s.role o at)

pub reconnect_idle-IsOwned : (r : Round) (s : Server) → IsOwned s → IsOwned (reconnect_idle r s)
unfolding reconnect_idle
reconnect_idle-IsOwned r s o = by_manager s.repl_mgr refl
  where
    by_manager : (mgr : Option ReplicationManager) → s.repl_mgr ≡ mgr → IsOwned (reconnect_idle r s)
    by_manager none at =
        simp (at, reconnect_idle) (subst (λ g. Owned s.clients (replicas_of g)) at o)
    by_manager (some m) at = elim (Bool-cases (is_replica s.role)) [
      | inr leads ↦
          simp (at, leads, reconnect_idle) (subst (λ g. Owned s.clients (replicas_of g)) at o)
      | inl follows ↦
          simp (at, follows, reconnect_idle)
            (subst (Owned s.clients)
              (sym (replicas-try_reconnect r.reconnect_time r.connect_result m))
              (subst (λ g. Owned s.clients (replicas_of g)) at o))
    ]
