-- ===== src/Server/Sockets.antt =====
-- src/server.cpp: the handlers of what a client sends give no socket a second holder.
use velo_kv.Prelude.{
  ℕ, zero, suc, true, false, ◌&&◌, ◌≡◌, ◌∙◌, refl, subst, Option, none, some, List, [], ◌∷◌, Bytes,
  Outcome, ok, undef, ◌>>=◌, Bool-cases, Option-cases, inl, inr, arith, nat_eq,
}
use velo_kv.Map.{find, insert}
use velo_kv.Text.Upper.{to_upper}
use velo_kv.Resp.{Command, parse}
use velo_kv.Command.{Env, Store, execute, is_write_command}
use velo_kv.Replication.Manager.{
  ReplicationManager, propagate, add_replica, RecvResult, received, closed, recv_blocks, recv_fails,
  SendResult, sent, send_blocks, send_fails,
}
use velo_kv.Replication.Stream.{encode_command, build_full_sync}
use velo_kv.Client.{Client, queue_response, release, write_to_socket, read_from_socket}
use velo_kv.Server.{
  Server, is_leader, is_replica, readonly_error, promotes, promote, queue_reply, propagate_write,
  run_command, run_commands, flush_client, handle_input, handle_client_read, handle_client_write,
  disconnect_client,
}
use velo_kv.Server.Owners.{
  held, replicas_of, Owned, Owned-erase, Owned-insert, Owned-fewer, Owned-add, held-queue_all,
}

abbrev pub IsOwned : Server → Type 0
IsOwned s = Owned s.clients (replicas_of s.repl_mgr)

abbrev pub LeavesOwned : Outcome Server → Type 0
LeavesOwned undef = Unit
LeavesOwned (ok s) = IsOwned s

-- A client that the loop works on, which still has its socket.
abbrev Works : ℕ → Client × Server → Type 0
Works fd (c, s) = IsOwned s × (c.fd ≡ some fd) × (held fd (replicas_of s.repl_mgr) ≡ 0)

abbrev LeavesWork : ℕ → Outcome (Client × Server) → Type 0
LeavesWork fd undef = Unit
LeavesWork fd (ok c) = Works fd c

abbrev Worked : ℕ → Option Client × Server → Type 0
Worked fd (none, s) = IsOwned s
Worked fd (some c, s) = Works fd (c, s)

abbrev LeavesWorked : ℕ → Outcome (Option Client × Server) → Type 0
LeavesWorked fd undef = Unit
LeavesWorked fd (ok c) = Worked fd c

fd-queue_reply : (response : Bytes) (c : Client) → (queue_reply response c).fd ≡ c.fd
unfolding queue_reply queue_response
fd-queue_reply response c = ground arith

fd-write_to_socket : (result : SendResult) (c : Client) → (write_to_socket result c).1.fd ≡ c.fd
unfolding write_to_socket
fd-write_to_socket (sent zero) c = ground arith
fd-write_to_socket (sent (suc n)) c = ground arith
fd-write_to_socket send_blocks c = ground arith
fd-write_to_socket send_fails c = ground arith

fd-read_from_socket : (input : RecvResult) (c : Client) → (read_from_socket input c).1.fd ≡ c.fd
unfolding read_from_socket
fd-read_from_socket (received s) c = refl
fd-read_from_socket closed c = refl
fd-read_from_socket recv_blocks c = refl
fd-read_from_socket recv_fails c = refl

held-propagate :
    (k : ℕ) (cmd : Command) (m : ReplicationManager)
    → held k (propagate cmd m).replicas ≡ held k m.replicas
unfolding propagate
held-propagate k cmd m = ground (arith, held-queue_all k (encode_command cmd) m.replicas)

module _ (fd : ℕ) where
  propagate_write-Works :
      (cmd_name : Bytes) (cmd : Command) (c : Client) (s : Server)
      → Works fd (c, s)
      → Works fd (c, propagate_write cmd_name cmd s)
  unfolding propagate_write
  propagate_write-Works cmd_name cmd c s (o, mine, free) =
      elim (Bool-cases (is_leader s.role && is_write_command cmd_name)) [
        | inr kept ↦ simp (kept, propagate_write) (o, mine, free)
        | inl passed ↦ by_manager s.repl_mgr refl passed
      ]
    where
      by_manager :
          (mgr : Option ReplicationManager)
          → s.repl_mgr ≡ mgr
          → is_leader s.role && is_write_command cmd_name ≡ true
          → Works fd (c, propagate_write cmd_name cmd s)
      by_manager none at passed =
          simp (passed, at, propagate_write)
            (
              subst (λ r. Owned s.clients (replicas_of r)) at o,
              mine,
              subst (λ r. held fd (replicas_of r) ≡ 0) at free,
            )
      by_manager (some m) at passed =
          let o' : Owned s.clients m.replicas = subst (λ r. Owned s.clients (replicas_of r)) at o in
          let free' : held fd m.replicas ≡ 0 = subst (λ r. held fd (replicas_of r) ≡ 0) at free in
          simp (passed, at, propagate_write)
            (
              Owned-fewer s.clients m.replicas (propagate cmd m).replicas o'
                  (λ k. omega (arith, held-propagate k cmd m)),
              mine,
              held-propagate fd cmd m ∙ free',
            )

  run_command-LeavesWork :
      (env : Env) (cmd : Command) (cmd_name : Bytes) (c : Client) (s : Server)
      → Works fd (c, s)
      → LeavesWork fd (run_command env cmd cmd_name (c, s))
  unfolding run_command
  run_command-LeavesWork env cmd cmd_name c s (o, mine, free) = by_result (execute env cmd s.store)
    where
      by_result :
          (r : Outcome (Bytes × Store))
          → LeavesWork fd (
              r >>= λ r.
              ok (queue_reply r.0 c, propagate_write cmd_name cmd (record s { store = r.1 })))
      by_result undef = tt
      by_result (ok (r, store)) =
          propagate_write-Works cmd_name cmd (queue_reply r c) (record s { store = store })
            (o, fd-queue_reply r c ∙ mine, free)

  manager_found :
      (cmd_name : Bytes) (s : Server) (m : ReplicationManager)
      → promotes cmd_name s ≡ some m
      → s.repl_mgr ≡ some m
  unfolding promotes
  manager_found cmd_name s m h = ground arith

  promote-IsOwned :
      (env : Env) (c : Client) (m : ReplicationManager) (s : Server)
      → s.repl_mgr ≡ some m
      → Works fd (c, s)
      → IsOwned (promote fd env c m s)
  unfolding promote release add_replica
  promote-IsOwned env c m s at (o, mine, free) =
      simp (mine, promote)
        (Owned-add fd s.clients m.replicas
          (record {
            fd = some fd;
            output_buffer = build_full_sync (env.clock 0) s.store.db;
            synced = false;
          })
          (subst (λ r. Owned s.clients (replicas_of r)) at o)
          (subst (λ r. held fd (replicas_of r) ≡ 0) at free) refl)

  after_work :
      (o : Outcome (Client × Server)) (f : Client × Server → Outcome (Option Client × Server))
      → LeavesWork fd o
      → ((c : Client) (s : Server) → Works fd (c, s) → LeavesWorked fd (f (c, s)))
      → LeavesWorked fd (o >>= f)
  after_work undef f h k = tt
  after_work (ok (c, s)) f h k = k c s h

  queue_response-Works :
      (c : Client) (s : Server) → Works fd (c, s) → Works fd (queue_response readonly_error c, s)
  unfolding queue_response
  queue_response-Works c s w = w

  run_commands-LeavesWorked :
      (envs : ℕ → Env) (cmds : List Command) (i : ℕ) (c : Client) (s : Server)
      → Works fd (c, s)
      → LeavesWorked fd (run_commands fd envs i cmds (c, s))
  unfolding run_commands
  run_commands-LeavesWorked envs [] i c s w = w
  run_commands-LeavesWorked envs ([] ∷ cmds) i c s w =
      run_commands-LeavesWorked envs cmds (suc i) c s w
  run_commands-LeavesWorked envs ((name ∷ args) ∷ cmds) i c s w =
      elim (Option-cases (promotes (to_upper name) s)) [
        | inr (m, taken) ↦
            rw (taken, run_commands)
              (promote-IsOwned (envs i) c m s (manager_found (to_upper name) s m taken) w)
        | inl client ↦ elim (Bool-cases (is_replica s.role && is_write_command (to_upper name))) [
          | inl refused ↦
              rw (client, refused, run_commands)
                (run_commands-LeavesWorked envs cmds (suc i) (queue_response readonly_error c) s
                  (queue_response-Works c s w))
          | inr run ↦
              rw (client, run, run_commands)
                (after_work (run_command (envs i) (name ∷ args) (to_upper name) (c, s))
                  (run_commands fd envs (suc i) cmds)
                  (run_command-LeavesWork (envs i) (name ∷ args) (to_upper name) c s w)
                  (run_commands-LeavesWorked envs cmds (suc i)))
        ]
      ]

  kept_client :
      (c : Client) (s : Server)
      → Works fd (c, s)
      → IsOwned (record s { clients = insert fd c s.clients })
  kept_client c s (o, mine, free) = Owned-insert fd c s.clients (replicas_of s.repl_mgr) o mine free

  disconnect_client-IsOwned : (s : Server) → IsOwned s → IsOwned (disconnect_client fd s)
  unfolding disconnect_client
  disconnect_client-IsOwned s o = Owned-erase fd s.clients (replicas_of s.repl_mgr) o

  pub handle_client_write-IsOwned :
      (result : SendResult) (s : Server) → IsOwned s → IsOwned (handle_client_write fd result s)
  unfolding handle_client_write
  handle_client_write-IsOwned result s o = elim (Option-cases (find fd s.clients)) [
    | inl gone ↦ simp (gone, handle_client_write) o
    | inr (c, at) ↦ elim (Bool-cases (write_to_socket result c).0) [
      | inl alive ↦
          simp (at, alive, handle_client_write)
            (kept_client (write_to_socket result c).1 s
              (o, fd-write_to_socket result c ∙ o.keyed fd c at, o.apart fd c at))
      | inr dead ↦ simp (at, dead, handle_client_write) (disconnect_client-IsOwned s o)
    ]
  ]

  flush_client-IsOwned :
      (result : SendResult) (r : Option Client × Server)
      → Worked fd r
      → IsOwned (flush_client fd result r)
  unfolding flush_client
  flush_client-IsOwned result (none, s) w = w
  flush_client-IsOwned result (some c, s) w =
      handle_client_write-IsOwned result (record s { clients = insert fd c s.clients })
        (kept_client c s w)

  flushed :
      (result : SendResult) (o : Outcome (Option Client × Server))
      → LeavesWorked fd o
      → LeavesOwned (o >>= λ r. ok (flush_client fd result r))
  flushed result undef h = tt
  flushed result (ok r) h = flush_client-IsOwned result r h

  handle_input-LeavesOwned :
      (envs : ℕ → Env) (result : SendResult) (c : Client) (s : Server)
      → Works fd (c, s)
      → LeavesOwned (handle_input fd envs result c s)
  unfolding handle_input
  handle_input-LeavesOwned envs result c s w = elim (Option-cases (parse c.input_buffer)) [
    | inl out ↦ rw (out, handle_input) tt
    | inr (p, parsed) ↦
        let c' : Client = record c { input_buffer = p.input_buffer } in
        elim (Bool-cases p.parsed_any) [
          | inr idle ↦ rw (parsed, idle, handle_input) (kept_client c' s w)
          | inl busy ↦
              rw (parsed, busy, handle_input)
                (flushed result (run_commands fd envs 0 p.commands (c', s))
                  (run_commands-LeavesWorked envs p.commands 0 c' s w))
        ]
  ]

  pub handle_client_read-LeavesOwned :
      (input : RecvResult) (envs : ℕ → Env) (result : SendResult) (s : Server)
      → IsOwned s
      → LeavesOwned (handle_client_read fd input envs result s)
  unfolding handle_client_read
  handle_client_read-LeavesOwned input envs result s o = elim (Option-cases (find fd s.clients)) [
    | inl gone ↦ simp (gone, handle_client_read) o
    | inr (c, at) ↦ elim (Bool-cases (read_from_socket input c).0) [
      | inl alive ↦
          simp (at, alive, handle_client_read)
            (handle_input-LeavesOwned envs result (read_from_socket input c).1 s
              (o, fd-read_from_socket input c ∙ o.keyed fd c at, o.apart fd c at))
      | inr dead ↦ simp (at, dead, handle_client_read) (disconnect_client-IsOwned s o)
    ]
  ]
