-- ===== src/Server/Reach.antt =====
-- src/server.cpp: the states that the event loop reaches, and the holders of the sockets in them.
use velo_kv.Prelude.{
  not, ltb, ℕ, suc, Bool, true, false, ◌&&◌, ◌≡◌, ◌∙◌, refl, sym, ap, subst, List, [], ◌∷◌, ℤ,
  Outcome, ok, undef, ◌>>=◌, Bool-cases, Option-cases, inl, inr, arith, nat_eq, if◌then◌else◌, leb,
  All,
}
use velo_kv.Map.{find, contains}
use velo_kv.Persistence.{SaveFaults}
use velo_kv.Replication.Sockets.{FdSets}
use velo_kv.Client.{new_client}
use velo_kv.Server.{
  Server, tick, stop, accept_client, handle_client_read, handle_client_write, eviction_interval,
}
use velo_kv.Server.Owners.{held, replicas_of, Owned, Owned-insert}
use velo_kv.Server.Sockets.{
  IsOwned, LeavesOwned, handle_client_read-LeavesOwned, handle_client_write-IsOwned,
}
use velo_kv.Server.Links.{replication_io-LeavesOwned, reconnect_idle-IsOwned}
use velo_kv.Server.Loop.{build_fd_sets, round}
use velo_kv.Server.Serve.{
  interrupted, select_fails, timed_out, ready, Activity, AcceptResult, accepted, accept_fails,
  Round, handle_new_connection, serve_client, serve_active, serve_clients, replication_io, serve,
  is_set, client_fds,
}

-- `accept` gives no socket that a replica's connection still holds.
abbrev pub IsFresh : Server → AcceptResult → Type 0
IsFresh s (accepted fd nonblocking) = held fd (replicas_of s.repl_mgr) ≡ 0
IsFresh s accept_fails = Unit

after :
    (o : Outcome Server) (f : Server → Outcome Server)
    → LeavesOwned o
    → ((s : Server) → IsOwned s → LeavesOwned (f s))
    → LeavesOwned (o >>= f)
after undef f h k = tt
after (ok s) f h k = k s h

tick-IsOwned : (now : ℤ) (s : Server) → IsOwned s → IsOwned (tick now s)
unfolding tick
tick-IsOwned now s o = elim (Bool-cases (leb eviction_interval (suc s.loop_tick))) [
  | inl swept ↦ simp (swept, tick) o
  | inr early ↦ simp (early, tick) o
]

stop-IsOwned :
    (faults : SaveFaults) (now : ℤ) (s : Server) → IsOwned s → IsOwned (stop faults now s)
unfolding stop
stop-IsOwned faults now s o = elim (Bool-cases s.running) [
  | inl on ↦ simp (on, stop) o
  | inr off ↦ simp (off, stop) o
]

repl_mgr-accept_client : (fd : ℕ) (s : Server) → (accept_client fd s).repl_mgr ≡ s.repl_mgr
unfolding accept_client
repl_mgr-accept_client fd s = ground arith

repl_mgr-tick : (now : ℤ) (s : Server) → (tick now s).repl_mgr ≡ s.repl_mgr
unfolding tick
repl_mgr-tick now s = ground arith

accept_client-IsOwned :
    (fd : ℕ) (s : Server)
    → IsOwned s
    → held fd (replicas_of s.repl_mgr) ≡ 0
    → IsOwned (accept_client fd s)
unfolding accept_client
accept_client-IsOwned fd s o free = elim (Option-cases (find fd s.clients)) [
  | inl new ↦
      simp (new, accept_client)
        (Owned-insert fd (new_client fd) s.clients (replicas_of s.repl_mgr) o refl free)
  | inr (c, old) ↦ simp (old, accept_client) o
]

All-IsFresh :
    (s s' : Server) (rs : List AcceptResult)
    → s'.repl_mgr ≡ s.repl_mgr
    → All (IsFresh s) rs
    → All (IsFresh s') rs
All-IsFresh s s' [] same fresh = tt
All-IsFresh s s' (accepted fd b ∷ rs) same (f, fresh) =
    (ap (λ m. held fd (replicas_of m)) same ∙ f, All-IsFresh s s' rs same fresh)
All-IsFresh s s' (accept_fails ∷ rs) same (f, fresh) = (tt, All-IsFresh s s' rs same fresh)

handle_new_connection-IsOwned :
    (rs : List AcceptResult) (s : Server)
    → IsOwned s
    → All (IsFresh s) rs
    → IsOwned (handle_new_connection rs s)
unfolding handle_new_connection
handle_new_connection-IsOwned [] s o fresh = o
handle_new_connection-IsOwned (accept_fails ∷ rs) s o fresh = o
handle_new_connection-IsOwned (accepted fd false ∷ rs) s o (f, fresh) =
    handle_new_connection-IsOwned rs s o fresh
handle_new_connection-IsOwned (accepted fd true ∷ rs) s o (f, fresh) =
    handle_new_connection-IsOwned rs (accept_client fd s) (accept_client-IsOwned fd s o f)
      (All-IsFresh s (accept_client fd s) rs (repl_mgr-accept_client fd s) fresh)

module _ (r : Round) where
  served_write :
      (go : Bool) (fd : ℕ) (s : Server)
      → IsOwned s
      → IsOwned (if go then handle_client_write fd (r.client_result fd) s else s)
  served_write true fd s o = handle_client_write-IsOwned fd (r.client_result fd) s o
  served_write false fd s o = o

  served_read :
      (go : Bool) (fd : ℕ) (s : Server)
      → IsOwned s
      → LeavesOwned (
          if go
          then handle_client_read fd (r.client_input fd) (r.envs fd) (r.reply_result fd) s
          else ok s)
  served_read true fd s o =
      handle_client_read-LeavesOwned fd (r.client_input fd) (r.envs fd) (r.reply_result fd) s o
  served_read false fd s o = o

  serve_client-LeavesOwned :
      (readable writable : Bool) (fd : ℕ) (s : Server)
      → IsOwned s
      → LeavesOwned (serve_client r readable writable fd s)
  unfolding serve_client
  serve_client-LeavesOwned readable writable fd s o =
      after
        (if contains fd s.clients && readable
          then handle_client_read fd (r.client_input fd) (r.envs fd) (r.reply_result fd) s
          else ok s)
        (λ s'. ok (
          if contains fd s'.clients && writable
          then handle_client_write fd (r.client_result fd) s'
          else s'))
        (served_read (contains fd s.clients && readable) fd s o)
        (λ s' o'. served_write (contains fd s'.clients && writable) fd s' o')

  serve_active-LeavesOwned :
      (fits readable writable : Bool) (fd : ℕ) (s : Server)
      → IsOwned s
      → LeavesOwned (serve_active fits r readable writable fd s)
  unfolding serve_active
  serve_active-LeavesOwned fits readable writable fd s o =
      elim (Bool-cases (contains fd s.clients && not fits)) [
        | inl beyond ↦ rw beyond tt
        | inr within ↦ rw within (serve_client-LeavesOwned readable writable fd s o)
      ]

  serve_clients-LeavesOwned :
      (fits readable writable : ℕ → Bool) (fds : List ℕ) (s : Server)
      → IsOwned s
      → LeavesOwned (serve_clients fits r readable writable fds s)
  unfolding serve_clients
  serve_clients-LeavesOwned fits readable writable [] s o = o
  serve_clients-LeavesOwned fits readable writable (fd ∷ fds) s o =
      after (serve_active (fits fd) r (readable fd) (writable fd) fd s)
        (serve_clients fits r readable writable fds)
        (serve_active-LeavesOwned (fits fd) (readable fd) (writable fd) fd s o)
        (serve_clients-LeavesOwned fits readable writable fds)

  taken :
      (incoming : Bool) (s : Server)
      → IsOwned s
      → All (IsFresh s) r.accepts
      → IsOwned (if incoming then handle_new_connection r.accepts s else s)
  taken true s o fresh = handle_new_connection-IsOwned r.accepts s o fresh
  taken false s o fresh = o

  serve-LeavesOwned :
      (fits readable writable : ℕ → Bool) (incoming : Bool) (s : Server)
      → IsOwned s
      → All (IsFresh s) r.accepts
      → LeavesOwned (serve fits r readable writable incoming s)
  unfolding serve
  serve-LeavesOwned fits readable writable incoming s o fresh =
      let s₁ = if incoming then handle_new_connection r.accepts s else s in
      after (serve_clients fits r readable writable (r.order (client_fds s₁.clients)) s₁)
        (replication_io r readable writable)
        (serve_clients-LeavesOwned fits readable writable (r.order (client_fds s₁.clients)) s₁
          (taken incoming s o fresh))
        (replication_io-LeavesOwned r readable writable)

module _ (fd_setsize : ℕ) where
  abbrev LeavesRound : Outcome (Bool × Server) → Type 0
  LeavesRound undef = Unit
  LeavesRound (ok (on, s)) = IsOwned s

  went_on : (o : Outcome Server) → LeavesOwned o → LeavesRound (o >>= λ s. ok (true, s))
  went_on undef h = tt
  went_on (ok s) h = h

  polled :
      (r : Round) (s : Server) (sets : Outcome (ℕ × FdSets))
      → IsOwned s
      → All (IsFresh s) r.accepts
      → build_fd_sets fd_setsize s ≡ sets
      → LeavesRound (round fd_setsize r s)
  unfolding round
  polled r s undef o fresh at = simp (at, round) tt
  polled r s (ok (fd, sets)) o fresh at = by_activity r.activity refl
    where
      by_activity : (a : Activity) → r.activity ≡ a → LeavesRound (round fd_setsize r s)
      by_activity interrupted is = simp (at, is, round) o
      by_activity select_fails is = simp (at, is, round) o
      by_activity timed_out is =
          simp (at, is, round)
            (reconnect_idle-IsOwned r (tick r.sweep_time s) (tick-IsOwned r.sweep_time s o))
      by_activity (ready a b) is =
          let fits = λ (n : ℕ). ltb n fd_setsize in
          let readable = is_set a sets.read_fds in
          let writable = is_set b sets.write_fds in
          simp (at, is, round)
            (went_on (serve fits r readable writable (readable fd) (tick r.sweep_time s)) (
              serve-LeavesOwned r fits readable writable (readable fd) (tick r.sweep_time s)
                (tick-IsOwned r.sweep_time s o)
                (All-IsFresh s (tick r.sweep_time s) r.accepts (repl_mgr-tick r.sweep_time s)
                  fresh)))

  -- The states of a server from `first` on: rounds of a loop that runs, in which `accept` gives no
  -- socket that a replica still holds, and signals, in any order.
  pub data Reaches (first : Server) : Server → Type 0 where
    here : Reaches first first
    polls :
        {s s' : Server} (r : Round) (goes_on : Bool)
        → Reaches first s
        → s.running ≡ true
        → All (IsFresh s) r.accepts
        → round fd_setsize r s ≡ ok (goes_on, s')
        → Reaches first s'
    signals :
        {s : Server} (faults : SaveFaults) (now : ℤ)
        → Reaches first s
        → Reaches first (stop faults now s)

  Reaches-IsOwned : {first s : Server} → IsOwned first → Reaches first s → IsOwned s
  Reaches-IsOwned o here = o
  Reaches-IsOwned o (polls {s = s} r goes_on reached on fresh made) =
      subst LeavesRound made
        (polled r s (build_fd_sets fd_setsize s) (Reaches-IsOwned o reached) fresh refl)
  Reaches-IsOwned o (signals {s = s} faults now reached) =
      stop-IsOwned faults now s (Reaches-IsOwned o reached)

  -- In every state that the loop reaches from a server without clients and replicas, whatever the
  -- clients send, the calls of the system return and signals do: a client has the socket that it is
  -- stored under, no two replicas have the same socket, and no replica has a client's. `accept` gives
  -- no socket that a replica still holds.
  pub Reaches-Owned :
      (first s : Server)
      → first.clients ≡ []
      → replicas_of first.repl_mgr ≡ []
      → Reaches first s
      → Owned s.clients (replicas_of s.repl_mgr)
  unfolding held find
  Reaches-Owned first s alone bare reached =
      Reaches-IsOwned
        (subst (λ m. Owned m (replicas_of first.repl_mgr)) (sym alone)
          (subst (Owned []) (sym bare)
            (record { keyed = λ k c h. cc; single = λ k. omega arith; apart = λ k c h. refl })))
        reached
