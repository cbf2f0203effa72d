-- ===== src/Spec/Served.antt =====
-- src/server.cpp: a read that brings whole requests to a server that is no replica.
use velo_kv.Prelude.{
  All, ◌≢◌, nat_beq_iff, ℕ, ◌+◌, ◌≡◌, ◌≤◌, ◌∙◌, refl, ap, true, false, not, Option, some, List, [],
  ◌∷◌, ◌++◌, map, length, Bytes, ℤ, Outcome, ok, is_empty, bytes_eq, nat_eq, arith,
}
use velo_kv.Db.{max_capacity, size}
use velo_kv.Command.{Env}
use velo_kv.Map.{find, insert, find-insert}
use velo_kv.Resp.{Parsed, parse, parse_single_command, incomplete}
use velo_kv.Resp.Pipeline.{serialize_commands, IsSendable, parse-serialize}
use velo_kv.Replication.Manager.{SendResult, received}
use velo_kv.Client.{Client, read_from_socket}
use velo_kv.Server.{
  Server, run_commands, is_replica, handle_client_write, handle_client_read, handle_input,
  flush_client,
}
use velo_kv.Spec.{Keys, IsTimed, Call, command_of, replies, entries}
use velo_kv.Spec.Refines.{Shows}
use velo_kv.Spec.Session.{IsClock, IsSession, time_behind, run_commands-Answered}

-- After a read of a whole run of calls: the client's socket is written to on a server where the answers
-- stand behind what was queued, the bytes behind the calls are kept, and no other client is touched.
pub record Served (now : ℕ → ℤ) (fd : ℕ) (calls : List Call) (rest : Bytes) (keys : Keys)
    (c : Client) (s : Server) (result : SendResult) (o : Outcome Server) : Type 0 where
  pub after : Server
  pub ended : o ≡ ok (handle_client_write fd result after)
  pub queued :
      find fd after.clients
      ≡ some (record c {
        input_buffer = rest;
        output_buffer = c.output_buffer ++ replies now 0 calls keys;
      })
  pub database : Shows (time_behind now 0 calls) (entries now 0 calls keys) after.store.db
  pub role : after.role ≡ s.role
  pub others : (n : ℕ) → n ≢ fd → find n after.clients ≡ find n s.clients

handle_input-flush :
    (envs : ℕ → Env) (fd : ℕ) (result : SendResult) (c : Client) (p : Parsed)
    (r : Option Client × Server) (s : Server)
    → parse c.input_buffer ≡ some p
    → p.parsed_any ≡ true
    → run_commands fd envs 0 p.commands (record c { input_buffer = p.input_buffer }, s) ≡ ok r
    → handle_input fd envs result c s ≡ ok (flush_client fd result r)
unfolding handle_input
handle_input-flush envs fd result c p r s parsed busy ran =
    rw (parsed, busy, ran, handle_input) refl

is_empty-map :
    (calls : List Call) → is_empty calls ≡ false → is_empty (map command_of calls) ≡ false
is_empty-map [] h = h
is_empty-map (call ∷ calls) h = refl

-- A server that is no replica reads bytes of a client that, behind those kept from before, are whole
-- requests as `serialize_array` writes them and then bytes `rest` that are no whole command yet; its
-- database shows an abstract store whose deadlines are of `int64_t`, and the keys stored and the
-- requests together are no more than 31; the clock stands still within a command and does not go
-- back between two, at times that are not negative and of `int64_t`, as the deadlines are that an
-- EXPIRE sets. The run is defined; it ends with the write to the socket of the client, on a server in
-- which the answers of the abstract store to all the requests, in order, stand behind what was queued
-- for the client, `rest` is kept, the other clients are as they were, and the database shows the
-- abstract store behind the requests.
pub handle_client_read-Served :
    (now : ℕ → ℤ) (envs : ℕ → Env) (fd : ℕ) (calls : List Call) (input rest : Bytes) (keys : Keys)
    (c : Client) (s : Server) (result : SendResult)
    → IsClock now envs
    → find fd s.clients ≡ some c
    → c.input_buffer ++ input ≡ serialize_commands (map command_of calls) ++ rest
    → All IsSendable (map command_of calls)
    → parse_single_command
        (serialize_commands (map command_of calls) ++ rest)
        (length (serialize_commands (map command_of calls)))
      ≡ incomplete
    → is_empty calls ≡ false
    → IsSession now 0 calls
    → Shows (now 0) keys s.store.db
    → IsTimed keys
    → size s.store.db + length calls ≤ max_capacity
    → is_replica s.role ≡ false
    → Served now fd calls rest keys c s result
        (handle_client_read fd (received input) envs result s)
unfolding handle_client_read read_from_socket flush_client
handle_client_read-Served now envs fd calls input rest keys c s result clock here buffer sendable
      unfinished some_calls session h timed room active =
    let c₁ : Client = record c { input_buffer = rest } in
    let a = run_commands-Answered now envs clock fd calls 0 keys c₁ s session h timed room active in
    let c₂ : Client = record c₁ { output_buffer = c.output_buffer ++ replies now 0 calls keys } in
    let c' : Client = record c { input_buffer = c.input_buffer ++ input } in
    let p : Parsed = record {
      input_buffer = rest;
      commands = map command_of calls;
      parsed_any = true;
    } in
    let parsed : parse (c.input_buffer ++ input) ≡ some p =
      ap parse buffer
      ∙ parse-serialize (map command_of calls) rest sendable unfinished
      ∙ ap (λ b. some (record p { parsed_any = not b })) (is_empty-map calls some_calls) in
    record {
      after = record a.after { clients = insert fd c₂ a.after.clients };
      ended =
          rw (here, handle_client_read)
            (handle_input-flush envs fd result c' p (some c₂, a.after) s parsed refl a.ended);
      queued = ground (arith, find-insert fd fd c₂ a.after.clients);
      database = a.database;
      role = a.role;
      others =
          λ n ne. ground (arith, find-insert fd n c₂ a.after.clients, a.clients, nat_beq_iff fd n);
    }
