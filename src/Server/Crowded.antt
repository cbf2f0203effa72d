-- ===== src/Server/Crowded.antt =====
-- src/server.cpp: a connection with a number that the sets of `select` have no place for.
use velo_kv.Prelude.{
  ℕ, Bool, true, false, ◌≡◌, ◌≤◌, refl, sym, [], ◌∷◌, undef, nat_eq, nat_beq, subst, nat_beq_iff,
  arith, Bool-cases, Option-cases, Outcome-cases, inl, inr,
}
use velo_kv.Map.{Map, contains, find, find-insert}
use velo_kv.Replication.Sockets.{FdSets, fd_set, watch}
use velo_kv.Client.{Client, has_pending_write, new_client}
use velo_kv.Server.{Server, accept_client}
use velo_kv.Server.Loop.{round, register_clients, build_fd_sets}
use velo_kv.Server.Serve.{Round}

module _ (fd_setsize fd : ℕ) (crowded : fd_setsize ≤ fd) where
  watch_crowded : (pending : Bool) (sets : FdSets) → watch fd_setsize fd pending sets ≡ undef
  unfolding watch fd_set
  watch_crowded pending sets = ground arith

  register_clients_crowded :
      (clients : Map ℕ Client) (sets : FdSets)
      → contains fd clients ≡ true
      → register_clients fd_setsize clients sets ≡ undef
  unfolding register_clients find
  register_clients_crowded [] sets held = ground (arith, held)
  register_clients_crowded ((n, c) ∷ clients) sets held = elim (Bool-cases (nat_beq n fd)) [
    | inl here ↦
        rw
          (subst (λ k. watch fd_setsize k (has_pending_write c) sets ≡ undef)
            (sym ((nat_beq_iff n fd).0 here)) (watch_crowded (has_pending_write c) sets))
          refl
    | inr away ↦ elim (Outcome-cases (watch fd_setsize n (has_pending_write c) sets)) [
      | inl stuck ↦ rw stuck refl
      | inr (sets', made) ↦ rw made (register_clients_crowded clients sets' (ground (arith, held)))
    ]
  ]

  build_fd_sets_crowded :
      (s : Server) → contains fd s.clients ≡ true → build_fd_sets fd_setsize s ≡ undef
  unfolding build_fd_sets
  build_fd_sets_crowded s held = elim (Option-cases s.listen_fd) [
    | inl closed ↦ simp (closed, build_fd_sets) refl
    | inr (n, listens) ↦
        let first =
          watch fd_setsize n false (record { read_fds = []; write_fds = []; max_fd = n }) in
        elim (Outcome-cases first) [
          | inl stuck ↦ simp (listens, stuck, build_fd_sets) refl
          | inr (sets, made) ↦
              simp (listens, made, register_clients_crowded s.clients sets held, build_fd_sets) refl
        ]
  ]

  contains-accept_client : (s : Server) → contains fd (accept_client fd s).clients ≡ true
  unfolding accept_client
  contains-accept_client s =
      ground (arith, find-insert fd fd (new_client fd) s.clients, nat_beq_iff fd fd)

  -- A server that accepts a connection whose number is not below FD_SETSIZE: in its next round,
  -- whatever happens in it, the call of FD_SET is undefined.
  pub round-accept_client :
      (r : Round) (s : Server) → round fd_setsize r (accept_client fd s) ≡ undef
  unfolding round
  round-accept_client r s =
      simp (build_fd_sets_crowded (accept_client fd s) (contains-accept_client s), round) refl
