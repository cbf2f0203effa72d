-- ===== src/Main/Exit.antt =====
-- src/main.cpp: a process that ends with an error.
use velo_kv.Prelude.{
  ℕ, Bool, true, false, not, ◌≡◌, refl, subst, ℤ, if◌then◌else◌, List, Bytes, ok, >>=-eq-ok, arith,
  Bool-cases, inl, inr,
}
use velo_kv.Persistence.{Disk, SaveFaults}
use velo_kv.Server.{Server}
use velo_kv.Server.Stops.{stop_stopped}
use velo_kv.Server.Loop.{run}
use velo_kv.Server.Life.{
  init, InitResult, no_listener, stays_blocking, bad_host, bind_fails, listen_fails, listening,
  destroy_server, start,
}
use velo_kv.Main.{
  Arguments, Config, configured, help, rejected, World, run_server, run_from, run_arguments, main,
  read_arguments, make_server, connect_replica,
}

-- Where `init` fails, nothing was loaded, and the destructor saves nothing.
disk-init :
    (r : InitResult) (now : ℤ) (s s' : Server)
    → init r now s ≡ ok (false, s')
    → s.running ≡ false
    → (s'.store.disk ≡ s.store.disk) × (s'.running ≡ false)
unfolding init
disk-init no_listener now s s' h off = ground arith
disk-init stays_blocking now s s' h off = ground arith
disk-init bad_host now s s' h off = ground arith
disk-init bind_fails now s s' h off = ground arith
disk-init listen_fails now s s' h off = ground arith
disk-init (listening fd) now s s' h off = ground arith

disk-destroy_server :
    (faults : SaveFaults) (now : ℤ) (s : Server)
    → s.running ≡ false
    → (destroy_server faults now s).0.store.disk ≡ s.store.disk
unfolding destroy_server
disk-destroy_server faults now s off = ground (arith, stop_stopped faults now s off)

module _ (fd_setsize : ℕ) (w : World fd_setsize) where
  run_from_failed :
      (c : Config) (disk disk' : Disk) (up : Bool) (s : Server)
      → init w.init_result w.load_time (make_server c disk) ≡ ok (up, s)
      → run_from fd_setsize w c (up, s) ≡ ok (1, disk')
      → disk' ≡ disk
  unfolding run_from make_server
  run_from_failed c disk disk' true s made h =
      let (s', ended, ran) =
        >>=-eq-ok (run fd_setsize w.events (start (connect_replica c w.connect_result s)))
          (λ s'. ok (0, (destroy_server w.faults w.end_time s').0.store.disk)) h in
      absurd (ground arith)
  run_from_failed c disk disk' false s made h =
      let (kept, off) = disk-init w.init_result w.load_time (make_server c disk) s made refl in
      ground (arith, disk-destroy_server w.faults w.end_time s off)

  run_arguments_failed :
      (disk disk' : Disk) (a : Arguments)
      → run_arguments fd_setsize w disk a ≡ ok (1, disk')
      → disk' ≡ disk
  unfolding run_arguments run_server
  run_arguments_failed disk disk' help h = ground arith
  run_arguments_failed disk disk' rejected h = ground arith
  run_arguments_failed disk disk' (configured c) h = elim (Bool-cases w.network) [
    | inr down ↦ ground arith
    | inl net ↦
        let ((up, s), rest, made) =
          >>=-eq-ok (init w.init_result w.load_time (make_server c disk)) (run_from fd_setsize w c)
            (subst
              (λ b.
                (if not b then ok (1, disk) else run_server fd_setsize w c disk) ≡ ok (1, disk'))
              net h) in
        run_from_failed c disk disk' up s made rest
  ]

-- A process that ends with the code 1, whichever of its steps failed, leaves the disk as it was.
pub main_failed :
    (fd_setsize : ℕ) (w : World fd_setsize) (argv : List Bytes) (disk disk' : Disk)
    → main fd_setsize w argv disk ≡ ok (1, disk')
    → disk' ≡ disk
unfolding main
main_failed fd_setsize w argv disk disk' h =
    let (a, rest, read) = >>=-eq-ok (read_arguments argv) (run_arguments fd_setsize w disk) h in
    run_arguments_failed fd_setsize w disk disk' a rest
