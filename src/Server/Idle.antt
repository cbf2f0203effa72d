-- ===== src/Server/Idle.antt =====
-- src/server.cpp: the active expiry of a server to which nothing happens.
use velo_kv.Prelude.{
  ℕ, suc, ◌+◌, ◌≤◌, true, false, ◌≡◌, ◌≢◌, ◌∙◌, refl, ap, Option-cases, List, [], ◌∷◌, Bytes, ℤ,
  ◌≤ℤ◌, ok, Bool-cases, inl, inr, arith, All, length, leb, map,
}
use velo_kv.Db.{Database, evict_expired}
use velo_kv.Db.Wf.{IsWf}
use velo_kv.Db.View.{view, due}
use velo_kv.Db.Sweep.{evict_expired-Sweeps}
use velo_kv.Replication.Manager.{NodeRole, replica}
use velo_kv.Replication.Sockets.{FdSets}
use velo_kv.Server.{Server, tick, eviction_interval, is_replica}
use velo_kv.Server.Loop.{Event, round, run, run_running, build_fd_sets}
use velo_kv.Server.Serve.{Round, timed_out, reconnect_idle}

not_replica : (role : NodeRole) → role ≢ replica → is_replica role ≡ false
not_replica role leads = ground arith

module _ (fd_setsize : ℕ) where
  -- A server that is not a replica, runs, and whose sockets fit into the sets.
  record IsIdle (s : Server) : Type 0 where
    on : s.running ≡ true
    leads : s.role ≢ replica
    wf : IsWf s.store.db
    sets : ℕ × FdSets
    fits : build_fd_sets fd_setsize s ≡ ok sets

  tick-IsIdle : (now : ℤ) (s : Server) → IsIdle s → IsIdle (tick now s)
  unfolding tick build_fd_sets
  tick-IsIdle now s i = elim (Bool-cases (leb eviction_interval (suc s.loop_tick))) [
    | inl swept ↦
        rw (swept, tick)
          (record {
            on = i.on;
            leads = i.leads;
            wf = (evict_expired-Sweeps now s.store.db i.wf).wf;
            sets = i.sets;
            fits = i.fits;
          })
    | inr early ↦
        rw (early, tick)
          (record { on = i.on; leads = i.leads; wf = i.wf; sets = i.sets; fits = i.fits })
  ]

  reconnect_idle_leads : (r : Round) (s : Server) → s.role ≢ replica → reconnect_idle r s ≡ s
  unfolding reconnect_idle
  reconnect_idle_leads r s leads = elim (Option-cases s.repl_mgr) [
    | inl alone ↦ simp (alone, reconnect_idle) refl
    | inr (m, at) ↦ simp (at, not_replica s.role leads, reconnect_idle) refl
  ]

  round_idle :
      (r : Round) (s : Server)
      → IsIdle s
      → r.activity ≡ timed_out
      → round fd_setsize r s ≡ ok (true, tick r.sweep_time s)
  unfolding round
  round_idle r s i quiet =
      simp (i.fits, quiet, round)
        (ap (λ s'. ok (true, s'))
          (reconnect_idle_leads r (tick r.sweep_time s) (tick-IsIdle r.sweep_time s i).leads))

  run_idle :
      (r : Round) (rs : List Round) (s : Server)
      → IsIdle s
      → r.activity ≡ timed_out
      → run fd_setsize (map Event.poll (r ∷ rs)) s
        ≡ run fd_setsize (map Event.poll rs) (tick r.sweep_time s)
  run_idle r rs s i quiet =
      run_running fd_setsize r (map Event.poll rs) s i.on ∙ simp (round_idle r s i quiet) refl

  -- What the rounds leave: from `t'` on every key shows what it showed.
  record Idled (rs : List Round) (s : Server) : Type 0 where
    after : Server
    ran : run fd_setsize (map Event.poll rs) s ≡ ok after
    same :
        (t' : ℤ)
        → All (λ r. r.sweep_time ≤ℤ t') rs
        → (j : Bytes) → view t' j after.store.db ≡ view t' j s.store.db

  view-tick :
      (now t' : ℤ) (j : Bytes) (s : Server)
      → IsIdle s
      → now ≤ℤ t'
      → view t' j (tick now s).store.db ≡ view t' j s.store.db
  unfolding tick
  view-tick now t' j s i later = elim (Bool-cases (leb eviction_interval (suc s.loop_tick))) [
    | inl swept ↦ simp (swept, tick) ((evict_expired-Sweeps now s.store.db i.wf).same t' later j)
    | inr early ↦ simp (early, tick) refl
  ]

  abbrev IsClean : ℤ → Server → Type 0
  IsClean t s = (j : Bytes) → due t j s.store.db ≡ false

  due_later :
      (t now : ℤ) (j : Bytes) (db : Database) → t ≤ℤ now → due now j db ≡ false → due t j db ≡ false
  unfolding due
  due_later t now j db later h = ground arith

  tick-IsClean :
      (t now : ℤ) (s : Server) → IsIdle s → t ≤ℤ now → IsClean t s → IsClean t (tick now s)
  unfolding tick
  tick-IsClean t now s i later clean = elim (Bool-cases (leb eviction_interval (suc s.loop_tick))) [
    | inl swept ↦
        simp (swept, tick)
          (λ j.
            due_later t now j (evict_expired now s.store.db) later
              ((evict_expired-Sweeps now s.store.db i.wf).none_due j))
    | inr early ↦ simp (early, tick) clean
  ]

  abbrev AreQuiet : List Round → Type 0
  AreQuiet rs = All (λ r. r.activity ≡ timed_out) rs

  abbrev AreFrom : ℤ → List Round → Type 0
  AreFrom t rs = All (λ r. t ≤ℤ r.sweep_time) rs

  step-Idled :
      (r : Round) (rs : List Round) (s : Server)
      → IsIdle s
      → r.activity ≡ timed_out
      → Idled rs (tick r.sweep_time s)
      → Idled (r ∷ rs) s
  step-Idled r rs s i quiet rest = record {
    after = rest.after;
    ran = run_idle r rs s i quiet ∙ rest.ran;
    same = λ t' (late, later) j. rest.same t' later j ∙ view-tick r.sweep_time t' j s i late;
  }

  quiet_on :
      (t : ℤ) (rs : List Round) (s : Server)
      → IsIdle s
      → AreQuiet rs
      → AreFrom t rs
      → IsClean t s
      → (d : Idled rs s) × IsClean t d.after
  unfolding run step-Idled
  quiet_on t [] s i quiet late clean =
      (record { after = s; ran = refl; same = λ t' later j. refl }, clean)
  quiet_on t (r ∷ rs) s i (q, quiet) (l, late) clean =
      let (rest, clean') =
        quiet_on t rs (tick r.sweep_time s) (tick-IsIdle r.sweep_time s i) quiet late
          (tick-IsClean t r.sweep_time s i l clean) in
      (step-Idled r rs s i q rest, clean')

  loop_tick-tick :
      (now : ℤ) (s : Server)
      → leb eviction_interval (suc s.loop_tick) ≡ false
      → (tick now s).loop_tick ≡ suc s.loop_tick
  unfolding tick
  loop_tick-tick now s early = simp (early, tick) refl

  swept-IsClean :
      (t now : ℤ) (s : Server)
      → IsIdle s
      → t ≤ℤ now
      → leb eviction_interval (suc s.loop_tick) ≡ true
      → IsClean t (tick now s)
  unfolding tick
  swept-IsClean t now s i later swept =
      simp (swept, tick)
        (λ j.
          due_later t now j (evict_expired now s.store.db) later
            ((evict_expired-Sweeps now s.store.db i.wf).none_due j))

  cleaned :
      (t : ℤ) (rs : List Round) (s : Server)
      → IsIdle s
      → AreQuiet rs
      → AreFrom t rs
      → 1 ≤ length rs
      → eviction_interval ≤ s.loop_tick + length rs
      → (d : Idled rs s) × IsClean t d.after
  unfolding step-Idled
  cleaned t [] s i quiet late some_round enough = absurd (omega arith)
  cleaned t (r ∷ rs) s i (q, quiet) (l, late) some_round enough =
      let i' = tick-IsIdle r.sweep_time s i in
      elim (Bool-cases (leb eviction_interval (suc s.loop_tick))) [
        | inl swept ↦
            let (rest, clean) =
              quiet_on t rs (tick r.sweep_time s) i' quiet late
                (swept-IsClean t r.sweep_time s i l swept) in
            (step-Idled r rs s i q rest, clean)
        | inr early ↦
            let (rest, clean) =
              cleaned t rs (tick r.sweep_time s) i' quiet late (ground arith)
                (ground (arith, loop_tick-tick r.sweep_time s early)) in
            (step-Idled r rs s i q rest, clean)
      ]

  -- A server that is not a replica, runs, has a well-formed database and sockets that fit into the
  -- sets of `select`, and to which nothing happens for 100 rounds or more, from the time `t` on: the
  -- rounds end, in a defined run; no key with a deadline at `t` or before is left in memory; and
  -- from the last of the times on every key shows what it showed.
  pub run_idle-Idled :
      (t : ℤ) (rs : List Round) (s : Server) (sets : ℕ × FdSets)
      → s.running ≡ true
      → s.role ≢ replica
      → IsWf s.store.db
      → build_fd_sets fd_setsize s ≡ ok sets
      → All (λ r. r.activity ≡ timed_out) rs
      → All (λ r. t ≤ℤ r.sweep_time) rs
      → eviction_interval ≤ length rs
      → (s' : Server) × (run fd_setsize (map Event.poll rs) s ≡ ok s')
        × ((j : Bytes) → due t j s'.store.db ≡ false)
        × ((t' : ℤ)
            → All (λ r. r.sweep_time ≤ℤ t') rs
            → (j : Bytes) → view t' j s'.store.db ≡ view t' j s.store.db)
  run_idle-Idled t rs s sets on leads wf fits quiet late enough =
      let i : IsIdle s = record { on = on; leads = leads; wf = wf; sets = sets; fits = fits } in
      let (d, clean) = cleaned t rs s i quiet late (omega arith) (omega arith) in
      (d.after, d.ran, clean, d.same)
