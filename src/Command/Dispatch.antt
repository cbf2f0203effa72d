-- ===== src/Command/Dispatch.antt =====
-- src/command.cpp: `CommandProcessor::execute` over the registered commands.
use velo_kv.Prelude.{[], ◌∷◌, Bytes, Bool-cases, inl, inr, bytes_beq, bytes_eq}
use velo_kv.Map.{Map, find, insert}
use velo_kv.Db.Wf.{IsWf}
use velo_kv.Text.Upper.{to_upper}
use velo_kv.Resp.{Command}
use velo_kv.Command.{
  Env, Store, Handler, register_handler, register_all, builtin_handlers, builtin_commands,
  run_handler, execute,
}
use velo_kv.Command.Keeps.{
  LeavesStore, ping-LeavesStore, set_command-LeavesStore, get_command-LeavesStore,
  del_command-LeavesStore, exists_command-LeavesStore, expire_command-LeavesStore,
  ttl_command-LeavesStore, save_command-LeavesStore, lpush_command-LeavesStore,
  rpush_command-LeavesStore, lpop_command-LeavesStore, rpop_command-LeavesStore,
  llen_command-LeavesStore,
}

abbrev KeepsStore : Handler → Type 0
KeepsStore h = (env : Env) (s : Store) → IsWf s.db → (cmd : Command) → LeavesStore (h env cmd s)

abbrev Keep : Map Bytes Handler → Type 0
Keep [] = Unit
Keep ((name, h) ∷ hs) = KeepsStore h × Keep hs

insert-Keep :
    (name : Bytes) (h : Handler) (hs : Map Bytes Handler)
    → KeepsStore h
    → Keep hs
    → Keep (insert name h hs)
unfolding insert
insert-Keep name h [] k ks = (k, tt)
insert-Keep name h ((n, h') ∷ hs) k (k', ks) = elim (Bool-cases (bytes_beq n name)) [
  | inl same ↦ rw same (k, ks)
  | inr other ↦ rw other (k', insert-Keep name h hs k ks)
]

register_all-Keep : (new hs : Map Bytes Handler) → Keep new → Keep hs → Keep (register_all new hs)
unfolding register_all register_handler
register_all-Keep [] hs _ ks = ks
register_all-Keep ((name, h) ∷ new) hs (k, rest) ks =
    register_all-Keep new (register_handler name h hs) rest (insert-Keep (to_upper name) h hs k ks)

run_handler-LeavesStore :
    (hs : Map Bytes Handler) (key name : Bytes)
    → Keep hs
    → KeepsStore (run_handler (find key hs) name)
unfolding find run_handler
run_handler-LeavesStore [] key name ks env s w cmd = w
run_handler-LeavesStore ((n, h) ∷ hs) key name (k, ks) env s w cmd =
    elim (Bool-cases (bytes_beq n key)) [
      | inl same ↦ rw same (k env s w cmd)
      | inr other ↦ rw other (run_handler-LeavesStore hs key name ks env s w cmd)
    ]

builtin-Keep : Keep builtin_handlers
builtin-Keep = (
  ping-LeavesStore,
  (
    set_command-LeavesStore,
    (
      get_command-LeavesStore,
      (
        del_command-LeavesStore,
        (
          exists_command-LeavesStore,
          (
            expire_command-LeavesStore,
            (
              ttl_command-LeavesStore,
              (
                save_command-LeavesStore,
                (
                  lpush_command-LeavesStore,
                  (
                    rpush_command-LeavesStore,
                    (
                      lpop_command-LeavesStore,
                      (rpop_command-LeavesStore, (llen_command-LeavesStore, tt)),
                    ),
                  ),
                ),
              ),
            ),
          ),
        ),
      ),
    ),
  ),
)

-- Every command, whatever its name and its arguments, leaves a well-formed database well-formed
-- where C++ defines its run.
pub execute-LeavesStore :
    (env : Env) (s : Store) → IsWf s.db → (cmd : Command) → LeavesStore (execute env cmd s)
unfolding execute builtin_commands
execute-LeavesStore env s w [] = w
execute-LeavesStore env s w (name ∷ args) =
    run_handler-LeavesStore builtin_commands (to_upper name) name
      (register_all-Keep builtin_handlers [] builtin-Keep tt) env s w (name ∷ args)
