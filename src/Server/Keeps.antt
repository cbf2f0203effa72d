-- ===== src/Server/Keeps.antt =====
-- src/server.cpp: what clients send, and the sweep, keep the database well-formed.
use velo_kv.Prelude.{
  ℕ, suc, Option, none, some, List, [], ◌∷◌, Bytes, ◌≡◌, refl, Outcome, ok, undef, ◌>>=◌,
  Bool-cases, Option-cases, inl, inr, nat_eq, ◌&&◌,
}
use velo_kv.Map.{find, insert}
use velo_kv.Db.Wf.{IsWf}
use velo_kv.Text.Upper.{to_upper}
use velo_kv.Resp.{Command, parse}
use velo_kv.Command.{Env, Store, execute, is_write_command}
use velo_kv.Command.Keeps.{LeavesStore}
use velo_kv.Command.Dispatch.{execute-LeavesStore}
use velo_kv.Replication.Manager.{NodeRole, ReplicationManager, RecvResult, SendResult}
use velo_kv.Client.{Client, queue_response, release, write_to_socket, read_from_socket}
use velo_kv.Server.{
  Server, is_leader, is_replica, readonly_error, promotes, promote, queue_reply, propagate_write,
  run_command, run_commands, flush_client, handle_input, handle_client_read, handle_client_write,
  disconnect_client,
}

-- If it is defined, the server that it leaves has a well-formed database.
abbrev pub LeavesServer : Outcome Server → Type 0
LeavesServer undef = Unit
LeavesServer (ok s) = IsWf s.store.db

-- The invariant, with the role that the server keeps.
abbrev pub Sound : NodeRole → Server → Type 0
Sound role s = IsWf s.store.db × (s.role ≡ role)

abbrev pub LeavesSound : NodeRole → Outcome Server → Type 0
LeavesSound role undef = Unit
LeavesSound role (ok s) = Sound role s

pub LeavesSound-LeavesServer :
    (role : NodeRole) (o : Outcome Server) → LeavesSound role o → LeavesServer o
LeavesSound-LeavesServer role undef h = tt
LeavesSound-LeavesServer role (ok s) h = h.0

abbrev LeavesPair {ℓ} : {A : Type ℓ} → NodeRole → Outcome (A × Server) → Type 0
LeavesPair role undef = Unit
LeavesPair role (ok (a, s)) = Sound role s

module _ (role : NodeRole) where
  store-propagate_write :
      (cmd_name : Bytes) (cmd : Command) (s : Server)
      → Sound role s
      → Sound role (propagate_write cmd_name cmd s)
  unfolding propagate_write
  store-propagate_write cmd_name cmd s w =
      elim (Bool-cases (is_leader s.role && is_write_command cmd_name)) [
        | inl passed ↦ elim (Option-cases s.repl_mgr) [
          | inl alone ↦ rw (passed, alone) w
          | inr (m, at) ↦ rw (passed, at) w
        ]
        | inr kept ↦ rw kept w
      ]

  run_command-LeavesPair :
      (env : Env) (cmd : Command) (cmd_name : Bytes) (c : Client) (s : Server)
      → Sound role s
      → LeavesPair role (run_command env cmd cmd_name (c, s))
  unfolding run_command
  run_command-LeavesPair env cmd cmd_name c s w =
      by_result (execute env cmd s.store) (execute-LeavesStore env s.store w.0 cmd)
    where
      by_result :
          (o : Outcome (Bytes × Store))
          → LeavesStore o
          → LeavesPair role (
              o >>= λ r.
              ok (queue_reply r.0 c, propagate_write cmd_name cmd (record s { store = r.1 })))
      by_result undef h = tt
      by_result (ok (r, store)) h =
          store-propagate_write cmd_name cmd (record s { store = store }) (h, w.1)

  store-promote :
      (fd : ℕ) (env : Env) (c : Client) (m : ReplicationManager) (s : Server)
      → Sound role s
      → Sound role (promote fd env c m s)
  unfolding promote release
  store-promote fd env c m s w = w

  after :
      {A B : Type 0} (o : Outcome (A × Server)) (f : A × Server → Outcome (B × Server))
      → LeavesPair role o
      → ((a : A) (s : Server) → Sound role s → LeavesPair role (f (a, s)))
      → LeavesPair role (o >>= f)
  after undef f h k = tt
  after (ok (a, s)) f h k = k a s h

  run_commands-LeavesPair :
      (fd : ℕ) (envs : ℕ → Env) (cmds : List Command) (i : ℕ) (c : Client) (s : Server)
      → Sound role s
      → LeavesPair role (run_commands fd envs i cmds (c, s))
  unfolding run_commands
  run_commands-LeavesPair fd envs [] i c s w = w
  run_commands-LeavesPair fd envs ([] ∷ cmds) i c s w =
      run_commands-LeavesPair fd envs cmds (suc i) c s w
  run_commands-LeavesPair fd envs ((name ∷ args) ∷ cmds) i c s w =
      elim (Option-cases (promotes (to_upper name) s)) [
        | inr (m, taken) ↦ rw (taken, run_commands) (store-promote fd (envs i) c m s w)
        | inl client ↦ elim (Bool-cases (is_replica s.role && is_write_command (to_upper name))) [
          | inl refused ↦
              rw (client, refused, run_commands)
                (run_commands-LeavesPair fd envs cmds (suc i) (queue_response readonly_error c) s w)
          | inr run ↦
              rw (client, run, run_commands)
                (after (run_command (envs i) (name ∷ args) (to_upper name) (c, s))
                  (run_commands fd envs (suc i) cmds)
                  (run_command-LeavesPair (envs i) (name ∷ args) (to_upper name) c s w)
                  (run_commands-LeavesPair fd envs cmds (suc i)))
        ]
      ]

  pub handle_client_write-Sound :
      (fd : ℕ) (result : SendResult) (s : Server)
      → Sound role s
      → Sound role (handle_client_write fd result s)
  unfolding handle_client_write disconnect_client
  handle_client_write-Sound fd result s w = elim (Option-cases (find fd s.clients)) [
    | inl gone ↦ rw (gone, handle_client_write) w
    | inr (c, at) ↦ elim (Bool-cases (write_to_socket result c).0) [
      | inl alive ↦ rw (at, alive, handle_client_write) w
      | inr dead ↦ rw (at, dead, handle_client_write) w
    ]
  ]

  flush_client-Sound :
      (fd : ℕ) (result : SendResult) (c : Option Client) (s : Server)
      → Sound role s
      → Sound role (flush_client fd result (c, s))
  unfolding flush_client
  flush_client-Sound fd result none s w = w
  flush_client-Sound fd result (some c) s w =
      handle_client_write-Sound fd result (record s { clients = insert fd c s.clients }) w

  flushed :
      (fd : ℕ) (result : SendResult) (o : Outcome (Option Client × Server))
      → LeavesPair role o
      → LeavesSound role (o >>= λ r. ok (flush_client fd result r))
  flushed fd result undef h = tt
  flushed fd result (ok (c, s)) h = flush_client-Sound fd result c s h

  handle_input-LeavesSound :
      (fd : ℕ) (envs : ℕ → Env) (result : SendResult) (c : Client) (s : Server)
      → Sound role s
      → LeavesSound role (handle_input fd envs result c s)
  unfolding handle_input
  handle_input-LeavesSound fd envs result c s w = elim (Option-cases (parse c.input_buffer)) [
    | inl out ↦ rw (out, handle_input) tt
    | inr (p, parsed) ↦ elim (Bool-cases p.parsed_any) [
      | inr idle ↦ rw (parsed, idle, handle_input) w
      | inl busy ↦
          let c' : Client = record c { input_buffer = p.input_buffer } in
          rw (parsed, busy, handle_input)
            (flushed fd result (run_commands fd envs 0 p.commands (c', s))
              (run_commands-LeavesPair fd envs p.commands 0 c' s w))
    ]
  ]

  pub handle_client_read-LeavesSound :
      (fd : ℕ) (input : RecvResult) (envs : ℕ → Env) (result : SendResult) (s : Server)
      → Sound role s
      → LeavesSound role (handle_client_read fd input envs result s)
  unfolding handle_client_read disconnect_client
  handle_client_read-LeavesSound fd input envs result s w =
      elim (Option-cases (find fd s.clients)) [
        | inl gone ↦ rw (gone, handle_client_read) w
        | inr (c, at) ↦ elim (Bool-cases (read_from_socket input c).0) [
          | inl alive ↦
              rw (at, alive, handle_client_read)
                (handle_input-LeavesSound fd envs result (read_from_socket input c).1 s w)
          | inr dead ↦ rw (at, dead, handle_client_read) w
        ]
      ]

-- Whatever a client sends, in whatever pieces, a server with a well-formed database has one
-- afterwards, where C++ defines the run.
pub handle_client_read-LeavesServer :
    (fd : ℕ) (input : RecvResult) (envs : ℕ → Env) (result : SendResult) (s : Server)
    → IsWf s.store.db
    → LeavesServer (handle_client_read fd input envs result s)
handle_client_read-LeavesServer fd input envs result s w =
    LeavesSound-LeavesServer s.role (handle_client_read fd input envs result s)
      (handle_client_read-LeavesSound s.role fd input envs result s (w, refl))
