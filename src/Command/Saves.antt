-- ===== src/Command/Saves.antt =====
-- src/command.cpp: what SAVE leaves on the disk, whatever the file is that the server loads.
use velo_kv.Prelude.{
  ◌≡◌, ◌≢◌, refl, true, false, some, [], ◌∷◌, Bool, Bytes, codes, Outcome, ok, bytes_beq, bytes_eq,
  if◌then◌else◌,
}
use velo_kv.Map.{find}
use velo_kv.Persistence.{tmp_path, closed_text, file_text, save}
use velo_kv.Persistence.Saves.{save-Saves}
use velo_kv.Text.Upper.{to_upper}
use velo_kv.Resp.{serialize_error, serialize_simple_string}
use velo_kv.Command.{
  Env, Store, execute, builtin_commands, run_handler, save_command, db_path, ok_reply,
}

-- SAVE ended; it answered and wrote for `redis.rdb`, and the file at `path` is as it was.
pub record SavesElsewhere (env : Env) (path : Bytes) (s : Store) (o : Outcome (Bytes × Store))
    : Type 0 where
  pub reply : Bytes
  pub after : Store
  pub ended : o ≡ ok (reply, after)
  pub database : after.db ≡ s.db
  pub written :
      reply ≡ ok_reply
      → find db_path after.disk ≡ some (closed_text env.faults.cut (file_text (env.clock 0) s.db))
  pub kept : find path after.disk ≡ find path s.disk

ok_reply-saved :
    (b : Bool)
    → (if b then ok_reply else serialize_error (codes "ERR failed to save database to disk"))
      ≡ ok_reply
    → b ≡ true
unfolding serialize_error serialize_simple_string
ok_reply-saved true h = refl
ok_reply-saved false h = absurd cc

-- SAVE, in any case of the letters, writes to `redis.rdb` in the working directory, whatever file the
-- server was given: the file at any other path, but for the temporary file of `redis.rdb`, is left as
-- it was; the run is defined, the database stays, and where the reply is OK, `redis.rdb` holds as
-- much of the snapshot as was written when the stream was closed.
pub execute-SavesElsewhere :
    (env : Env) (name path : Bytes) (s : Store)
    → to_upper name ≡ codes "SAVE"
    → path ≢ db_path
    → path ≢ tmp_path db_path
    → SavesElsewhere env path s (execute env (name ∷ []) s)
unfolding execute builtin_commands find bytes_beq run_handler save_command
execute-SavesElsewhere env name path s is other not_tmp =
    let saved = save-Saves env.faults (env.clock 0) s.db db_path s.disk in
    let r = save env.faults (env.clock 0) s.db db_path s.disk in
    record {
      reply =
          if r.0 then ok_reply else serialize_error (codes "ERR failed to save database to disk");
      after = record s { disk = r.1 };
      ended = rw is refl;
      database = refl;
      written = λ h. saved.stored (ok_reply-saved r.0 h);
      kept = saved.others path other not_tmp;
    }
