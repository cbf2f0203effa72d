-- ===== src/Server/Invariant.antt =====
-- src/server.cpp: the event loop keeps the database of a server well-formed, whatever happens to it.
use velo_kv.Prelude.{
  not, ltb, ℕ, Bool, true, false, ◌&&◌, ◌≡◌, ◌≢◌, refl, sym, subst, some, List, [], ◌∷◌, ℤ, leb,
  suc, Outcome, ok, undef, ◌>>=◌, if◌then◌else◌, Bool-cases, Option-cases, inl, inr, nat_eq,
}
use velo_kv.Map.{contains, find}
use velo_kv.Db.Wf.{IsWf}
use velo_kv.Db.Sweep.{evict_expired-Sweeps}
use velo_kv.Persistence.{SaveFaults}
use velo_kv.Replication.Manager.{NodeRole, standalone, leader, replica, ReplicationManager}
use velo_kv.Replication.Sockets.{FdSets}
use velo_kv.Server.{
  Server, tick, stop, accept_client, handle_client_read, handle_client_write, eviction_interval,
  is_replica,
}
use velo_kv.Server.Keeps.{
  Sound, LeavesSound, LeavesServer, handle_client_read-LeavesSound, handle_client_write-Sound,
  LeavesSound-LeavesServer,
}
use velo_kv.Server.Loop.{build_fd_sets, round, Event, run, run_stopped, run_running}
use velo_kv.Server.Serve.{
  Activity, interrupted, select_fails, timed_out, ready, AcceptResult, accepted, accept_fails,
  Round, handle_new_connection, serve_client, serve_active, serve_clients, replication_io,
  reconnect_idle, serve, is_set, client_fds,
}

after :
    (role : NodeRole) (o : Outcome Server) (f : Server → Outcome Server)
    → LeavesSound role o
    → ((s : Server) → Sound role s → LeavesSound role (f s))
    → LeavesSound role (o >>= f)
after role undef f h k = tt
after role (ok s) f h k = k s h

module _ (role : NodeRole) (r : Round) where
  tick-Sound : (now : ℤ) (s : Server) → Sound role s → Sound role (tick now s)
  unfolding tick
  tick-Sound now s (w, same) = elim (Bool-cases (leb eviction_interval (suc s.loop_tick))) [
    | inl due ↦ rw (due, tick) ((evict_expired-Sweeps now s.store.db w).wf, same)
    | inr early ↦ rw (early, tick) (w, same)
  ]

  accept_client-Sound : (fd : ℕ) (s : Server) → Sound role s → Sound role (accept_client fd s)
  unfolding accept_client
  accept_client-Sound fd s w = elim (Option-cases (find fd s.clients)) [
    | inl new ↦ rw (new, accept_client) w
    | inr (c, old) ↦ rw (old, accept_client) w
  ]

  handle_new_connection-Sound :
      (rs : List AcceptResult) (s : Server) → Sound role s → Sound role (handle_new_connection rs s)
  unfolding handle_new_connection
  handle_new_connection-Sound [] s w = w
  handle_new_connection-Sound (accept_fails ∷ rs) s w = w
  handle_new_connection-Sound (accepted fd false ∷ rs) s w = handle_new_connection-Sound rs s w
  handle_new_connection-Sound (accepted fd true ∷ rs) s w =
      handle_new_connection-Sound rs (accept_client fd s) (accept_client-Sound fd s w)

  served_write :
      (go : Bool) (fd : ℕ) (s : Server)
      → Sound role s
      → Sound role (if go then handle_client_write fd (r.client_result fd) s else s)
  served_write true fd s w = handle_client_write-Sound role fd (r.client_result fd) s w
  served_write false fd s w = w

  serve_client-LeavesSound :
      (readable writable : Bool) (fd : ℕ) (s : Server)
      → Sound role s
      → LeavesSound role (serve_client r readable writable fd s)
  unfolding serve_client
  serve_client-LeavesSound readable writable fd s w =
      after role
        (if contains fd s.clients && readable
          then handle_client_read fd (r.client_input fd) (r.envs fd) (r.reply_result fd) s
          else ok s)
        (λ s'. ok (
          if contains fd s'.clients && writable
          then handle_client_write fd (r.client_result fd) s'
          else s'))
        (elim (Bool-cases (contains fd s.clients && readable)) [
          | inl go ↦ rw go (
              handle_client_read-LeavesSound role fd (r.client_input fd) (r.envs fd)
                (r.reply_result fd) s w)
          | inr stay ↦ rw stay w
        ])
        (λ s' w'. served_write (contains fd s'.clients && writable) fd s' w')

  serve_active-LeavesSound :
      (fits readable writable : Bool) (fd : ℕ) (s : Server)
      → Sound role s
      → LeavesSound role (serve_active fits r readable writable fd s)
  unfolding serve_active
  serve_active-LeavesSound fits readable writable fd s w =
      elim (Bool-cases (contains fd s.clients && not fits)) [
        | inl beyond ↦ rw beyond tt
        | inr within ↦ rw within (serve_client-LeavesSound readable writable fd s w)
      ]

  serve_clients-LeavesSound :
      (fits readable writable : ℕ → Bool) (fds : List ℕ) (s : Server)
      → Sound role s
      → LeavesSound role (serve_clients fits r readable writable fds s)
  unfolding serve_clients
  serve_clients-LeavesSound fits readable writable [] s w = w
  serve_clients-LeavesSound fits readable writable (fd ∷ fds) s w =
      after role (serve_active (fits fd) r (readable fd) (writable fd) fd s)
        (serve_clients fits r readable writable fds)
        (serve_active-LeavesSound (fits fd) (readable fd) (writable fd) fd s w)
        (serve_clients-LeavesSound fits readable writable fds)

  reconnect_idle-Sound : (s : Server) → Sound role s → Sound role (reconnect_idle r s)
  unfolding reconnect_idle
  reconnect_idle-Sound s w = elim (Option-cases s.repl_mgr) [
    | inl alone ↦ rw (alone, reconnect_idle) w
    | inr (m, at) ↦ elim (Bool-cases (is_replica s.role)) [
      | inl follows ↦ rw (at, follows, reconnect_idle) w
      | inr leads ↦ rw (at, leads, reconnect_idle) w
    ]
  ]

  -- Only a replica takes what another server sends.
  replication_io-LeavesSound :
      (readable writable : ℕ → Bool) (s : Server)
      → role ≢ replica
      → Sound role s
      → LeavesSound role (replication_io r readable writable s)
  unfolding replication_io
  replication_io-LeavesSound readable writable s leads w = elim (Option-cases s.repl_mgr) [
    | inl alone ↦ rw (alone, replication_io) w
    | inr (m, at) ↦ by_role s.role refl m at
  ]
    where
      by_role :
          (role' : NodeRole)
          → s.role ≡ role'
          → (m : ReplicationManager) → s.repl_mgr ≡ some m
          → LeavesSound role (replication_io r readable writable s)
      by_role standalone is m at = rw (at, is, replication_io) w
      by_role leader is m at = rw (at, is, replication_io) w
      by_role replica is m at = absurd (leads (cc))

  taken :
      (incoming : Bool) (s : Server)
      → Sound role s
      → Sound role (if incoming then handle_new_connection r.accepts s else s)
  taken true s w = handle_new_connection-Sound r.accepts s w
  taken false s w = w

  serve-LeavesSound :
      (fits readable writable : ℕ → Bool) (incoming : Bool) (s : Server)
      → role ≢ replica
      → Sound role s
      → LeavesSound role (serve fits r readable writable incoming s)
  unfolding serve
  serve-LeavesSound fits readable writable incoming s leads w =
      let s₁ = if incoming then handle_new_connection r.accepts s else s in
      after role (serve_clients fits r readable writable (r.order (client_fds s₁.clients)) s₁)
        (replication_io r readable writable)
        (serve_clients-LeavesSound fits readable writable (r.order (client_fds s₁.clients)) s₁
          (taken incoming s w))
        (λ s' w'. replication_io-LeavesSound readable writable s' leads w')

module _ (fd_setsize : ℕ) where
  stop-Sound :
      (role : NodeRole) (faults : SaveFaults) (now : ℤ) (s : Server)
      → Sound role s
      → Sound role (stop faults now s)
  unfolding stop
  stop-Sound role faults now s w = elim (Bool-cases s.running) [
    | inl on ↦ rw (on, stop) w
    | inr off ↦ rw (off, stop) w
  ]

  abbrev LeavesRound : NodeRole → Outcome (Bool × Server) → Type 0
  LeavesRound role undef = Unit
  LeavesRound role (ok (on, s)) = Sound role s

  went_on :
      (role : NodeRole) (o : Outcome Server)
      → LeavesSound role o
      → LeavesRound role (o >>= λ s. ok (true, s))
  went_on role undef h = tt
  went_on role (ok s) h = h

  -- A round, with the sets that `select` got.
  polled :
      (role : NodeRole) (r : Round) (s : Server) (sets : Outcome (ℕ × FdSets))
      → role ≢ replica
      → Sound role s
      → build_fd_sets fd_setsize s ≡ sets
      → LeavesRound role (round fd_setsize r s)
  unfolding round
  polled role r s undef leads w at = rw (at, round) tt
  polled role r s (ok (fd, sets)) leads w at = by_activity r.activity refl
    where
      by_activity : (a : Activity) → r.activity ≡ a → LeavesRound role (round fd_setsize r s)
      by_activity interrupted is = rw (at, is, round) w
      by_activity select_fails is = rw (at, is, round) w
      by_activity timed_out is =
          rw (at, is, round)
            (reconnect_idle-Sound role r (tick r.sweep_time s) (tick-Sound role r r.sweep_time s w))
      by_activity (ready a b) is =
          let fits = λ (n : ℕ). ltb n fd_setsize in
          let readable = is_set a sets.read_fds in
          let writable = is_set b sets.write_fds in
          rw (at, is, round)
            (went_on role (serve fits r readable writable (readable fd) (tick r.sweep_time s)) (
              serve-LeavesSound role r fits readable writable (readable fd) (tick r.sweep_time s)
                leads (tick-Sound role r r.sweep_time s w)))

  went_round :
      (role : NodeRole) (o : Outcome (Bool × Server)) (f : Server → Outcome Server)
      → LeavesRound role o
      → ((s : Server) → Sound role s → LeavesSound role (f s))
      → LeavesSound role (o >>= λ p. if p.0 then f p.1 else ok p.1)
  went_round role undef f h k = tt
  went_round role (ok (true, s)) f h k = k s h
  went_round role (ok (false, s)) f h k = h

  run-LeavesSound :
      (role : NodeRole) (es : List (Event fd_setsize)) (s : Server)
      → role ≢ replica
      → Sound role s
      → LeavesSound role (run fd_setsize es s)
  unfolding run
  run-LeavesSound role [] s leads w = w
  run-LeavesSound role (Event.signal faults now ∷ es) s leads w =
      run-LeavesSound role es (stop faults now s) leads (stop-Sound role faults now s w)
  run-LeavesSound role (Event.poll r ∷ es) s leads w = elim (Bool-cases s.running) [
    | inr off ↦
        subst (LeavesSound role) (sym (run_stopped fd_setsize r es s off))
          (run-LeavesSound role es s leads w)
    | inl on ↦ subst (LeavesSound role) (sym (run_running fd_setsize r es s on)) (
        went_round role (round fd_setsize r s) (run fd_setsize es)
          (polled role r s (build_fd_sets fd_setsize s) leads w refl)
          (λ s' w'. run-LeavesSound role es s' leads w'))
  ]

  -- Whatever clients send, the system calls return and signals do to a server that is not a replica,
  -- its database stays well-formed through every round of the loop, from a well-formed one, where C++
  -- defines the run. A replica is left out: its leader can send it what breaks the invariant.
  pub run-LeavesServer :
      (es : List (Event fd_setsize)) (s : Server)
      → s.role ≢ replica
      → IsWf s.store.db
      → LeavesServer (run fd_setsize es s)
  run-LeavesServer es s leads w =
      LeavesSound-LeavesServer s.role (run fd_setsize es s)
        (run-LeavesSound s.role es s leads (w, refl))
