-- ===== src/Spec/Reads.antt =====
-- src/command.cpp: the reading commands answer as the abstract store does.
use velo_kv.Prelude.{
  ℕ, ◌≡◌, ◌∙◌, refl, ap, sym, subst, none, some, [], ◌∷◌, Bytes, codes, ℤ, pos, ◌≤ℤ◌, in_range,
  int64_bound, Outcome, ok, bytes_beq, bytes_eq, arith, true, false, Bool-cases, inl, inr,
}
use velo_kv.Map.{find}
use velo_kv.Db.{ttl}
use velo_kv.Db.View.{str, list, due, view, type_seen, string_seen, list_seen, is_seen}
use velo_kv.Db.Deadlines.{ttl-Reads, ttl-due, ttl_seen}
use velo_kv.Db.Reads.{Reads}
use velo_kv.Text.Upper.{to_upper}
use velo_kv.Command.{
  Env, Store, bool_reply, execute, builtin_commands, run_handler, ttl_command, ttl_reply,
}
use velo_kv.Command.Replies.{Replies, Reading, reply_seen, execute-Replies}
use velo_kv.Command.Replies
use velo_kv.Spec.{Entry, Keys, Request, getting, testing, counting, timing, effect, live, IsTimed}
use velo_kv.Spec.Coded.{coded, get_answer, llen_answer}
use velo_kv.Spec.Refines.{Shows, SameViews-Shows, view-Stored, Stored-deadline, live-some, Runs}

reply_seen-getting : (e : Entry) → reply_seen Reading.getting e e ≡ get_answer e
unfolding type_seen string_seen
reply_seen-getting none = refl
reply_seen-getting (some (str v, d)) = refl
reply_seen-getting (some (list l, d)) = refl

reply_seen-counting : (e : Entry) → reply_seen Reading.counting e e ≡ llen_answer e
unfolding type_seen list_seen
reply_seen-counting none = refl
reply_seen-counting (some (str v, d)) = refl
reply_seen-counting (some (list l, d)) = refl

module _ (now : ℤ) (keys : Keys) (env : Env) (name key : Bytes) (s : Store)
    (still : (i : ℕ) → env.clock i ≡ now) (h : Shows now keys s.db) where
  seen_now : view now key s.db ≡ live now (keys key)
  seen_now = h.shows now (omega arith) key

  replied :
      (r : Reading)
      → to_upper name ≡ Replies.word_of r
      → Replies now
          (reply_seen r (view now key s.db) (view now key s.db))
          s
          (execute env (name ∷ key ∷ []) s)
  replied r is =
      simp (still 0, still 1) at
        (execute-Replies r env name key s is h.wf (simp (still 0, still 1) (omega arith)))

  -- What a reading request leaves.
  read_Runs :
      (r : Request) (reply : Bytes) (o : Outcome (Bytes × Store))
      → Replies now reply s o
      → reply ≡ coded now r keys
      → effect now r keys ≡ keys
      → Runs now r keys s o
  read_Runs r reply o (db', made, v) same idle = (
    db',
    made ∙ ap (λ b. ok (b, record s { db = db' })) same,
    subst (λ ks. Shows now ks db') (sym idle) (SameViews-Shows now keys s.db db' h v),
    omega (arith, v.no_larger),
  )

  pub get-Runs :
      to_upper name ≡ codes "GET" → Runs now (getting key) keys s (execute env (name ∷ key ∷ []) s)
  get-Runs is =
      read_Runs (getting key) (reply_seen Reading.getting (view now key s.db) (view now key s.db))
        (execute env (name ∷ key ∷ []) s) (replied Reading.getting is)
        (reply_seen-getting (view now key s.db) ∙ ap get_answer seen_now) refl

  pub exists-Runs :
      to_upper name ≡ codes "EXISTS"
      → Runs now (testing key) keys s (execute env (name ∷ key ∷ []) s)
  exists-Runs is =
      read_Runs (testing key) (reply_seen Reading.testing (view now key s.db) (view now key s.db))
        (execute env (name ∷ key ∷ []) s) (replied Reading.testing is)
        (ap (λ e. bool_reply (is_seen e)) seen_now) refl

  pub llen-Runs :
      to_upper name ≡ codes "LLEN"
      → Runs now (counting key) keys s (execute env (name ∷ key ∷ []) s)
  llen-Runs is =
      read_Runs (counting key) (reply_seen Reading.counting (view now key s.db) (view now key s.db))
        (execute env (name ∷ key ∷ []) s) (replied Reading.counting is)
        (reply_seen-counting (view now key s.db) ∙ ap llen_answer seen_now) refl

  module _ (positive : pos 0 ≤ℤ now) (fits : in_range int64_bound now ≡ true)
      (timed : IsTimed keys) where
    -- A deadline that is in the store and has not passed is that of the entry.
    deadline_fits :
        due now key s.db ≡ false
        → (d : ℤ) → find key s.db.expiry ≡ some d
        → in_range int64_bound d ≡ true
    deadline_fits fresh d at =
        let (v, is) =
          Stored-deadline key s.db (live now (keys key)) d
            (view-Stored now key s.db (live now (keys key)) h.wf fresh seen_now) at in
        timed key v d (live-some now (keys key) (v, some d) is)

    ttl-Replies : Reads now s.db (ttl now now key s.db) (ttl_seen now (view now key s.db))
    ttl-Replies = elim (Bool-cases (due now key s.db)) [
      | inl passed ↦ ttl-due now now key s.db h.wf passed
      | inr fresh ↦
          ttl-Reads now now key s.db h.wf positive (omega arith) fits (deadline_fits fresh)
    ]

    pub ttl-Runs :
        to_upper name ≡ codes "TTL" → Runs now (timing key) keys s (execute env (name ∷ key ∷ []) s)
    unfolding execute builtin_commands find bytes_beq run_handler ttl_command
    ttl-Runs is =
        let (db', made, v) = ttl-Replies in
        read_Runs (timing key) (ttl_reply (ttl_seen now (view now key s.db)))
          (execute env (name ∷ key ∷ []) s) (db', simp (is, still 0, still 1, made) refl, v)
          (ap (λ e. ttl_reply (ttl_seen now e)) seen_now) refl
