-- ===== src/Server/Stops.antt =====
-- src/server.cpp: `stop` and what comes after it, and a server that starts from the file.
use velo_kv.Prelude.{
  ℕ, true, false, ◌≡◌, ◌∙◌, refl, ap, Option, none, some, List, [], ◌∷◌, Bytes, ℤ, pos, ◌≤ℤ◌, ok,
  Bool-cases, inl, inr, bytes_eq, All,
}
use velo_kv.Db.{snapshot}
use velo_kv.Db.Wf.{IsWf}
use velo_kv.Db.View.{view}
use velo_kv.Persistence.{SaveFaults, save}
use velo_kv.Persistence.Record.{FitsInts}
use velo_kv.Persistence.RoundTrip.{load-save}
use velo_kv.Replication.Manager.{ReplicationManager}
use velo_kv.Server.{Server, stop}
use velo_kv.Server.Loop.{Event, run, run_stopped}
use velo_kv.Server.Life.{new_server, init, listening}

pub stop_stopped :
    (faults : SaveFaults) (now : ℤ) (s : Server) → s.running ≡ false → stop faults now s ≡ s
unfolding stop
stop_stopped faults now s off = simp (off, stop) refl

running-stop : (faults : SaveFaults) (now : ℤ) (s : Server) → (stop faults now s).running ≡ false
unfolding stop
running-stop faults now s = elim (Bool-cases s.running) [
  | inl on ↦ simp (on, stop) refl
  | inr off ↦ simp (off, stop) refl
]

module _ (fd_setsize : ℕ) where
  run-stopped :
      (es : List (Event fd_setsize)) (s : Server) → s.running ≡ false → run fd_setsize es s ≡ ok s
  unfolding run
  run-stopped [] s off = refl
  run-stopped (Event.signal faults now ∷ es) s off =
      ap (run fd_setsize es) (stop_stopped faults now s off) ∙ run-stopped es s off
  run-stopped (Event.poll r ∷ es) s off = run_stopped fd_setsize r es s off ∙ run-stopped es s off

  run_signal :
      (faults : SaveFaults) (now : ℤ) (es : List (Event fd_setsize)) (s : Server)
      → run fd_setsize (Event.signal faults now ∷ es) s ≡ ok (stop faults now s)
  unfolding run
  run_signal faults now es s = run-stopped es (stop faults now s) (running-stop faults now s)

stop_running :
    (faults : SaveFaults) (now : ℤ) (s : Server)
    → s.running ≡ true
    → (stop faults now s).store
      ≡ record (s.store) { disk = (save faults now s.store.db s.rdb_path s.store.disk).1 }
unfolding stop
stop_running faults now s on = simp (on, stop) refl

-- A signal at a running server, whose save returns true and whose file is whole when it is closed,
-- and whatever comes after it: the run is defined, and a server that then starts from the file it
-- left, at that time or later, with a socket to listen to, loads in a defined run a well-formed database, in which from then on every
-- key shows what it showed in the first server at the signal. The first database is well-formed, its
-- deadlines are of `int64_t` and the lengths of its lists of `int`, and the clock is not negative.
pub init-run :
    (fd_setsize fd : ℕ) (faults : SaveFaults) (now now' : ℤ) (es : List (Event fd_setsize))
    (s : Server) (mgr : Option ReplicationManager)
    → s.running ≡ true
    → (save faults now s.store.db s.rdb_path s.store.disk).0 ≡ true
    → faults.cut ≡ none
    → IsWf s.store.db
    → All FitsInts (snapshot now s.store.db)
    → pos 0 ≤ℤ now
    → now ≤ℤ now'
    → (stopped started : Server) × (run fd_setsize (Event.signal faults now ∷ es) s ≡ ok stopped)
      × (init
            (listening fd)
            now'
            (new_server s.host s.port s.role mgr s.rdb_path stopped.store.disk)
          ≡ ok (true, started))
      × IsWf started.store.db
      × ((t : ℤ) → now' ≤ℤ t → (j : Bytes) → view t j started.store.db ≡ view t j s.store.db)
unfolding init
init-run fd_setsize fd faults now now' es s mgr on saved closed w fits positive later =
    let (db, loaded, w', same) =
      load-save faults now now' s.store.db s.rdb_path s.store.disk saved closed w fits positive
        later in
    let fresh : Server =
      new_server s.host s.port s.role mgr s.rdb_path (stop faults now s).store.disk in
    (
      stop faults now s,
      record fresh { listen_fd = some fd; store = record (fresh.store) { db = db } },
      run_signal fd_setsize faults now es s,
      simp (stop_running faults now s on, loaded) refl,
      w',
      same,
    )
