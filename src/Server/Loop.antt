-- ===== src/Server/Loop.antt =====
-- src/server.cpp: the event loop of `start`, with the sets of sockets that `select` gets.
use velo_kv.Prelude.{
  ltb, ℕ, Bool, true, false, not, Option, none, some, List, [], ◌∷◌, ℤ, Outcome, ok, undef, ◌>>=◌,
  bytes_eq, nat_eq, ◌≡◌, ap, if◌then◌else◌,
}
use velo_kv.Map.{Map}
use velo_kv.Persistence.{SaveFaults}
use velo_kv.Replication.Manager.{ReplicationManager}
use velo_kv.Replication.Sockets.{FdSets, watch, register_fds}
use velo_kv.Client.{Client, has_pending_write}
use velo_kv.Server.{Server, tick, stop}
use velo_kv.Server.Serve.{
  interrupted, select_fails, timed_out, ready, Round, is_set, reconnect_idle, serve,
}

module _ (fd_setsize : ℕ) where
  unfoldable pub register_clients : Map ℕ Client → FdSets → Outcome FdSets
  unfolding watch has_pending_write
  register_clients [] sets = ok sets
  register_clients ((fd, client) ∷ clients) sets = do
    sets' ← watch fd_setsize fd (has_pending_write client) sets
    register_clients clients sets'

  unfoldable pub register_manager : Option ReplicationManager → FdSets → Outcome FdSets
  unfolding register_fds
  register_manager none sets = ok sets
  register_manager (some m) sets = register_fds fd_setsize m sets

  -- The sets that `select` gets, and the listening socket.
  unfoldable pub build_fd_sets : Server → Outcome (ℕ × FdSets)
  unfolding watch register_clients register_manager
  build_fd_sets s = elim s.listen_fd [
    | none ↦ undef
    | some fd ↦ do
      sets ← watch fd_setsize fd false (record { read_fds = []; write_fds = []; max_fd = fd })
      sets' ← register_clients s.clients sets
      sets'' ← register_manager s.repl_mgr sets'
      ok (fd, sets'')
  ]

  -- A round of the loop. The Boolean is false where it is left by `break`.
  unfoldable pub round : Round → Server → Outcome (Bool × Server)
  unfolding build_fd_sets tick reconnect_idle serve is_set
  round r s = do
    (listen_fd, sets) ← build_fd_sets s
    elim r.activity [
      | interrupted ↦ ok (true, s)
      | select_fails ↦ ok (false, s)
      | timed_out ↦ ok (true, reconnect_idle r (tick r.sweep_time s))
      | ready to_read to_write ↦ do
        let readable = is_set to_read sets.read_fds
        let writable = is_set to_write sets.write_fds
        let fits = λ (n : ℕ). ltb n fd_setsize
        s' ← serve fits r readable writable (readable listen_fd) (tick r.sweep_time s)
        ok (true, s')
    ]

  -- A signal, whose handler calls `stop`, comes between two rounds.
  pub data Event : Type 0 where
    poll : Round → Event
    signal : SaveFaults → ℤ → Event

  -- The loop over what happens.
  unfoldable pub run : List Event → Server → Outcome Server
  unfolding round stop
  run [] s = ok s
  run (signal faults now ∷ es) s = run es (stop faults now s)
  run (poll r ∷ es) s =
      if not s.running
      then run es s
      else (do (goes_on, s') ← round r s; if goes_on then run es s' else ok s')

  pub run_stopped :
      (r : Round) (es : List Event) (s : Server)
      → s.running ≡ false
      → run (poll r ∷ es) s ≡ run es s
  unfolding run
  run_stopped r es s off =
      ap
        (λ on. if not on then run es s else (round r s >>= λ p. if p.0 then run es p.1 else ok p.1))
        off

  pub run_running :
      (r : Round) (es : List Event) (s : Server)
      → s.running ≡ true
      → run (poll r ∷ es) s ≡ (round r s >>= λ p. if p.0 then run es p.1 else ok p.1)
  unfolding run
  run_running r es s on =
      ap
        (λ on. if not on then run es s else (round r s >>= λ p. if p.0 then run es p.1 else ok p.1))
        on
