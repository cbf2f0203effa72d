-- ===== src/Spec/Session.antt =====
-- src/server.cpp: what a client of a server that is no replica gets for a run of requests.
use velo_kv.Prelude.{
  ℕ, suc, ◌+◌, ◌≡◌, ◌≤◌, ◌<◌, ◌∙◌, refl, ap, sym, subst, Bool, true, false, ◌&&◌, Option, none,
  some, List, [], ◌∷◌, ◌++◌, map, length, append_assoc, append-nil, Bytes, ℤ, pos, ◌≤ℤ◌, in_range,
  int64_bound, Outcome, ok, bytes_beq, bytes_eq, nat_eq, arith, if◌then◌else◌,
}
use velo_kv.Db.{max_capacity, size}
use velo_kv.Text.Upper.{to_upper}
use velo_kv.Command.{Env, Store, is_write_command}
use velo_kv.Resp.{Command}
use velo_kv.Replication.Manager.{ReplicationManager, propagate}
use velo_kv.Client.{Client, queue_response}
use velo_kv.Server.{
  Server, promotes, propagate_write, queue_reply, run_command, run_commands, is_leader, is_replica,
}
use velo_kv.Spec.{
  Keys, IsTimed, Call, word_of, command_of, Request, answer, effect, Fits, replies, entries,
  setting, getting, testing, deleting, timing, counting, expiring, pushing_front, pushing_back,
  popping_front, popping_back,
}
use velo_kv.Spec.Refines.{Shows, Shows-later}
use velo_kv.Spec.Execute.{execute-Refined, effect-IsTimed}

-- The clock stands still within a command, and goes on from one command to the next.
pub record IsClock (now : ℕ → ℤ) (envs : ℕ → Env) : Type 0 where
  pub still : (i j : ℕ) → (envs i).clock j ≡ now i
  pub positive : (i : ℕ) → pos 0 ≤ℤ now i
  pub fits : (i : ℕ) → in_range int64_bound (now i) ≡ true
  pub forward : (i : ℕ) → now i ≤ℤ now (suc i)

-- Each name is that of its request, and the deadlines that are set are `int64_t`s.
abbrev pub IsSession : (ℕ → ℤ) → ℕ → List Call → Type 0
IsSession now i [] = Unit
IsSession now i ((name, r) ∷ calls) =
    (to_upper name ≡ word_of r) × Fits (now i) r × IsSession now (suc i) calls

abbrev pub time_behind : (ℕ → ℤ) → ℕ → List Call → ℤ
time_behind now i [] = now i
time_behind now i (call ∷ calls) = time_behind now (suc i) calls

-- A request never asks for a promotion.
promotes-none : (r : Request) (s : Server) → promotes (word_of r) s ≡ none
unfolding promotes bytes_beq
promotes-none (setting key value) s = refl
promotes-none (getting key) s = refl
promotes-none (testing key) s = refl
promotes-none (deleting key) s = refl
promotes-none (timing key) s = refl
promotes-none (counting key) s = refl
promotes-none (expiring key n) s = refl
promotes-none (pushing_front key value) s = refl
promotes-none (pushing_back key value) s = refl
promotes-none (popping_front key) s = refl
promotes-none (popping_back key) s = refl

-- What passing a write on leaves alone.
record Propagated (s s' : Server) : Type 0 where
  store : s'.store ≡ s.store
  role : s'.role ≡ s.role
  clients : s'.clients ≡ s.clients

propagate_write-Propagated :
    (name : Bytes) (cmd : List Bytes) (s : Server) → Propagated s (propagate_write name cmd s)
unfolding propagate_write
propagate_write-Propagated name cmd s = go (is_leader s.role && is_write_command name) s.repl_mgr
  where
    go :
        (b : Bool) (o : Option ReplicationManager)
        → Propagated s (
            if b
            then elim o [ none ↦ s | some m ↦ record s { repl_mgr = some (propagate cmd m) } ]
            else s)
    go false o = record { store = refl; role = refl; clients = refl }
    go true none = record { store = refl; role = refl; clients = refl }
    go true (some m) = record { store = refl; role = refl; clients = refl }

queue_reply-append :
    (b : Bytes) (c : Client) → queue_reply b c ≡ record c { output_buffer = c.output_buffer ++ b }
unfolding queue_reply queue_response
queue_reply-append [] c =
    ap (λ o. record c { output_buffer = o }) (sym (append-nil c.output_buffer))
queue_reply-append (x ∷ b) c = refl

-- After the calls, the client has the answers behind what was queued, and the database shows what
-- the abstract store has become.
pub record Answered (now : ℕ → ℤ) (i : ℕ) (calls : List Call) (keys : Keys) (c : Client)
    (s : Server) (r : Outcome (Option Client × Server)) : Type 0 where
  pub after : Server
  pub ended :
      r
      ≡ ok (some (record c { output_buffer = c.output_buffer ++ replies now i calls keys }), after)
  pub database : Shows (time_behind now i calls) (entries now i calls keys) after.store.db
  pub role : after.role ≡ s.role
  pub clients : after.clients ≡ s.clients

module _ (now : ℕ → ℤ) (envs : ℕ → Env) (clock : IsClock now envs) (fd : ℕ) where
  -- One call.
  ran :
      (i : ℕ) (name : Bytes) (r : Request) (keys : Keys) (c : Client) (s : Server)
      → Shows (now i) keys s.store.db
      → IsTimed keys
      → size s.store.db < max_capacity
      → Fits (now i) r
      → to_upper name ≡ word_of r
      → is_replica s.role ≡ false
      → (s' : Server) × (run_command (envs i) (command_of (name, r)) (to_upper name) (c, s)
          ≡ ok (record c { output_buffer = c.output_buffer ++ answer (now i) r keys }, s'))
        × Shows (now i) (effect (now i) r keys) s'.store.db
        × (size s'.store.db ≤ suc (size s.store.db))
        × (s'.role ≡ s.role)
        × (s'.clients ≡ s.clients)
  unfolding run_command
  ran i name r keys c s h timed room fits is active =
      let (db', made, shows, larger) =
        execute-Refined r (now i) keys (envs i) name s.store (clock.still i) (clock.positive i)
          (clock.fits i) h timed room fits is in
      let s₁ : Server = record s { store = record (s.store) { db = db' } } in
      let p = propagate_write-Propagated (to_upper name) (command_of (name, r)) s₁ in
      (
        propagate_write (to_upper name) (command_of (name, r)) s₁,
        rw (made, queue_reply-append (answer (now i) r keys) c) refl,
        subst (λ (st : Store). Shows (now i) (effect (now i) r keys) st.db) (sym p.store) shows,
        subst (λ (st : Store). size st.db ≤ suc (size s.store.db)) (sym p.store) larger,
        p.role,
        p.clients,
      )

  -- The loop takes the call for what it is.
  loop_next :
      (i : ℕ) (name : Bytes) (r : Request) (cmds : List Command) (c c' : Client) (s s' : Server)
      → to_upper name ≡ word_of r
      → is_replica s.role ≡ false
      → run_command (envs i) (command_of (name, r)) (to_upper name) (c, s) ≡ ok (c', s')
      → run_commands fd envs i (command_of (name, r) ∷ cmds) (c, s)
        ≡ run_commands fd envs (suc i) cmds (c', s')
  unfolding run_commands
  loop_next i name r cmds c c' s s' is active made =
      let client : promotes (to_upper name) s ≡ none =
        ap (λ w. promotes w s) is ∙ promotes-none r s in
      rw (client, active, made, run_commands) refl

  pub run_commands-Answered :
      (calls : List Call) (i : ℕ) (keys : Keys) (c : Client) (s : Server)
      → IsSession now i calls
      → Shows (now i) keys s.store.db
      → IsTimed keys
      → size s.store.db + length calls ≤ max_capacity
      → is_replica s.role ≡ false
      → Answered now i calls keys c s (run_commands fd envs i (map command_of calls) (c, s))
  unfolding replies entries run_commands
  run_commands-Answered [] i keys c s _ h timed room active = record {
    after = s;
    ended =
        ap (λ o. ok (some (record c { output_buffer = o }), s)) (sym (append-nil c.output_buffer));
    database = h;
    role = refl;
    clients = refl;
  }
  run_commands-Answered ((name, r) ∷ calls) i keys c s (is, fits, session) h timed room active =
      let (s', made, shows, larger, role, clients) =
        ran i name r keys c s h timed (omega arith) fits is active in
      let c' : Client = record c { output_buffer = c.output_buffer ++ answer (now i) r keys } in
      let rest =
        run_commands-Answered calls (suc i) (effect (now i) r keys) c' s' session
          (Shows-later (now i) (now (suc i)) (effect (now i) r keys) s'.store.db (clock.forward i)
            shows)
          (effect-IsTimed r (now i) keys fits timed) (omega (arith, larger)) (rw role active) in
      record {
        after = rest.after;
        ended =
            loop_next i name r (map command_of calls) c c' s s' is active made
            ∙ rest.ended
            ∙ ap (λ o. ok (some (record c { output_buffer = o }), rest.after))
                (append_assoc c.output_buffer (answer (now i) r keys)
                  (replies now (suc i) calls (effect (now i) r keys)));
        database = rest.database;
        role = rest.role ∙ role;
        clients = rest.clients ∙ clients;
      }
