-- ===== src/Spec/Lists.antt =====
-- src/command.cpp: LPUSH, RPUSH, LPOP and RPOP do what the abstract store does.
use velo_kv.Prelude.{
  ℕ, suc, ◌≡◌, ◌≤◌, ◌∙◌, refl, sym, subst, Option, none, some, List, [], ◌∷◌, ◌++◌, Bytes, codes, ℤ,
  length, length-append, Outcome, ok, bytes_beq, bytes_eq, bytes_beq_iff, arith, false, pop_back,
  Option-cases, inl, inr,
}
use velo_kv.Map.{find, find-insert, find-erase, length-erase-le, length-insert-le}
use velo_kv.Db.{
  Database, string_type, size, put_rest, list_at, lpush, rpush, lpop, rpop, pop_head, pop_tail,
  is_expired,
}
use velo_kv.Db.View.{str, list, due, stored, view, type_seen, list_seen}
use velo_kv.Db.Expiry.{sweep}
use velo_kv.Db.Reads.{sweep-SameViews, type_of-sweep, due-sweep}
use velo_kv.Db.Set.{clear-IsWf}
use velo_kv.Db.Lists.{put_list-IsWf}
use velo_kv.Text.Upper.{to_upper}
use velo_kv.Command.{
  Env, Store, reply, execute, builtin_commands, run_handler, wrong_type, lpush_command,
  rpush_command, lpop_command, rpop_command, unless_string,
}
use velo_kv.Spec.{
  Entry, Keys, Request, pushing_front, pushing_back, popping_front, popping_back, effect, live,
  update, rest_of,
}
use velo_kv.Spec.Coded.{coded}
use velo_kv.Spec.Refines.{
  Shows, Shows-update, Shows-same, SameViews-Shows, Runs, Stored, view-Stored,
}

size-put_rest :
    (key : Bytes) (l : List Bytes) (db : Database) → size (put_rest key l db) ≤ suc (size db)
unfolding put_rest
size-put_rest key [] db = omega (arith, length-erase-le key db.list_store)
size-put_rest key (x ∷ l) db = omega (arith, length-insert-le key (x ∷ l) db.list_store)

-- The write at the end of a push or a pop.
Shows-put_rest :
    (now : ℤ) (keys : Keys) (key : Bytes) (db : Database)
    → Shows now keys db
    → due now key db ≡ false
    → find key db.string_store ≡ none
    → (l : List Bytes)
    → Shows now (update key (rest_of l (find key db.expiry)) keys) (put_rest key l db)
unfolding put_rest view stored due
Shows-put_rest now keys key db h fresh free [] =
    Shows-update now keys key none db (put_rest key [] db) h (clear-IsWf db key h.wf)
      (λ t _. ground (
        arith,
        find-erase key key db.list_store,
        find-erase key key db.expiry,
        bytes_beq_iff key key,
      ))
      (λ t j _ ne.
        ground
          (arith, find-erase key j db.list_store, find-erase key j db.expiry, bytes_beq_iff key j))
Shows-put_rest now keys key db h fresh free (x ∷ l) =
    Shows-update now keys key (some (list (x ∷ l), find key db.expiry)) db (put_rest key (x ∷ l) db)
      h (put_list-IsWf now key db h.wf fresh free (x ∷ l) refl)
      (λ t _. elim (Option-cases (find key db.expiry)) [
        | inl untimed ↦
            ground (arith, find-insert key key (x ∷ l) db.list_store, bytes_beq_iff key key)
        | inr (d, timed) ↦
            ground (arith, find-insert key key (x ∷ l) db.list_store, bytes_beq_iff key key)
      ])
      (λ t j _ ne. ground (arith, find-insert key j (x ∷ l) db.list_store, bytes_beq_iff key j))

lpush_at :
    (key value : Bytes) (db : Database) (l : List Bytes)
    → list_at key db ≡ l
    → lpush key value db ≡ (suc (length l), put_rest key (value ∷ l) db)
unfolding lpush put_rest
lpush_at key value db l same = rw same refl

rpush_at :
    (key value : Bytes) (db : Database) (l : List Bytes)
    → list_at key db ≡ l
    → rpush key value db ≡ (suc (length l), put_rest key (l ++ value ∷ []) db)
unfolding rpush put_rest
rpush_at key value db [] same = rw same refl
rpush_at key value db (x ∷ l) same = rw (same, appended) refl
  where
    appended : length (l ++ value ∷ []) ≡ suc (length l)
    appended = omega (arith, length-append l (value ∷ []))

rest_of_snoc :
    (l : List Bytes) (value : Bytes) (d : Option ℤ)
    → rest_of (l ++ value ∷ []) d ≡ some (list (l ++ value ∷ []), d)
rest_of_snoc [] value d = refl
rest_of_snoc (x ∷ l) value d = refl

module _ (now : ℤ) (keys : Keys) (env : Env) (name key : Bytes) (s : Store)
    (still : (i : ℕ) → env.clock i ≡ now) (h : Shows now keys s.db) where
  -- The database behind the type check.
  looked : Database
  looked = sweep now key s.db

  looked-Shows : Shows now keys looked
  unfolding looked
  looked-Shows = SameViews-Shows now keys s.db looked h (sweep-SameViews now key s.db h.wf)

  size-looked : size looked ≤ size s.db
  unfolding looked
  size-looked = (sweep-SameViews now key s.db h.wf).no_larger

  looked-due : due now key looked ≡ false
  unfolding looked
  looked-due = due-sweep now key s.db h.wf

  there : (e : Entry) → live now (keys key) ≡ e → Stored e key looked
  there e is =
      view-Stored now key looked e looked-Shows.wf looked-due
        (looked-Shows.shows now (omega arith) key ∙ is)

  -- The type check, from the entry.
  checked :
      (e : Entry) (rest : Database → Outcome (Bytes × Store))
      → live now (keys key) ≡ e
      → unless_string (env.clock 0) key s rest
        ≡ elim (type_seen e) [ string_type ↦ reply wrong_type looked s | _ ↦ rest looked ]
  unfolding unless_string looked
  checked e rest is =
      rw (still 0, type_of-sweep now key s.db h.wf, h.shows now (omega arith) key, is) refl

  -- The key is not due any more when the pop looks again.
  again : is_expired now key looked ≡ ok (false, looked)
  unfolding is_expired due
  again = ground (arith, looked-due)

  idle-Runs :
      (r : Request) (o : Outcome (Bytes × Store))
      → o ≡ ok (coded now r keys, record s { db = looked })
      → effect now r keys ≡ update key (live now (keys key)) keys
      → Runs now r keys s o
  idle-Runs r o made same = (
    looked,
    made,
    subst (λ ks. Shows now ks looked) (sym same) (Shows-same now keys key looked looked-Shows),
    omega (arith, size-looked),
  )

  put-Runs :
      (r : Request) (o : Outcome (Bytes × Store)) (l : List Bytes)
      → find key looked.string_store ≡ none
      → o ≡ ok (coded now r keys, record s { db = put_rest key l looked })
      → effect now r keys ≡ update key (rest_of l (find key looked.expiry)) keys
      → Runs now r keys s o
  put-Runs r o l free made same = (
    put_rest key l looked,
    made,
    subst (λ ks. Shows now ks (put_rest key l looked)) (sym same)
        (Shows-put_rest now keys key looked looked-Shows looked-due free l),
    omega (arith, size-put_rest key l looked, size-looked),
  )

  popped_front :
      (o : Option (List Bytes))
      → find key looked.list_store ≡ o
      → lpop now key looked ≡ ok (pop_head key o looked)
  unfolding lpop
  popped_front o at = rw (again, at) refl

  popped_back :
      (o : Option (List Bytes))
      → find key looked.list_store ≡ o
      → rpop now key looked ≡ ok (pop_tail key o looked)
  unfolding rpop
  popped_back o at = rw (again, at) refl

  push_front_run :
      (value : Bytes) (e : Entry)
      → live now (keys key) ≡ e
      → Runs now (pushing_front key value) keys s (lpush_command env (name ∷ key ∷ value ∷ []) s)
  unfolding lpush_command type_seen list_seen
  push_front_run value none is =
      let (a, b, c) = there none is in
      put-Runs (pushing_front key value) (lpush_command env (name ∷ key ∷ value ∷ []) s)
        (value ∷ []) a
        (rw (checked none _ is, lpush_at key value looked [] (simp (b, list_at) refl), is) refl)
        (rw (is, c) refl)
  push_front_run value (some (str old, d)) is =
      idle-Runs (pushing_front key value) (lpush_command env (name ∷ key ∷ value ∷ []) s)
        (rw (checked (some (str old, d)) _ is, is) refl) (rw is refl)
  push_front_run value (some (list l, d)) is =
      let (a, b, c, full) = there (some (list l, d)) is in
      put-Runs (pushing_front key value) (lpush_command env (name ∷ key ∷ value ∷ []) s) (value ∷ l)
        a
        (rw
          (
            checked (some (list l, d)) _ is,
            lpush_at key value looked l (simp (b, list_at) refl),
            is,
          )
          refl)
        (rw (is, c) refl)

  push_back_run :
      (value : Bytes) (e : Entry)
      → live now (keys key) ≡ e
      → Runs now (pushing_back key value) keys s (rpush_command env (name ∷ key ∷ value ∷ []) s)
  unfolding rpush_command type_seen list_seen
  push_back_run value none is =
      let (a, b, c) = there none is in
      put-Runs (pushing_back key value) (rpush_command env (name ∷ key ∷ value ∷ []) s) (value ∷ [])
        a (rw (checked none _ is, rpush_at key value looked [] (simp (b, list_at) refl), is) refl)
        (rw (is, c) refl)
  push_back_run value (some (str old, d)) is =
      idle-Runs (pushing_back key value) (rpush_command env (name ∷ key ∷ value ∷ []) s)
        (rw (checked (some (str old, d)) _ is, is) refl) (rw is refl)
  push_back_run value (some (list l, d)) is =
      let (a, b, c, full) = there (some (list l, d)) is in
      put-Runs (pushing_back key value) (rpush_command env (name ∷ key ∷ value ∷ []) s)
        (l ++ value ∷ []) a
        (rw
          (
            checked (some (list l, d)) _ is,
            rpush_at key value looked l (simp (b, list_at) refl),
            is,
          )
          refl)
        (rw (is, c, rest_of_snoc l value d) refl)

  pop_front_run :
      (e : Entry)
      → live now (keys key) ≡ e
      → Runs now (popping_front key) keys s (lpop_command env (name ∷ key ∷ []) s)
  unfolding lpop_command pop_head type_seen
  pop_front_run none is =
      idle-Runs (popping_front key) (lpop_command env (name ∷ key ∷ []) s)
        (rw (checked none _ is, still 1, popped_front none (there none is).1, is) refl) (rw is refl)
  pop_front_run (some (str old, d)) is =
      idle-Runs (popping_front key) (lpop_command env (name ∷ key ∷ []) s)
        (rw (checked (some (str old, d)) _ is, is) refl) (rw is refl)
  pop_front_run (some (list [], d)) is = absurd (ground (arith, (there (some (list [], d)) is).3))
  pop_front_run (some (list (x ∷ l), d)) is =
      let (a, b, c, full) = there (some (list (x ∷ l), d)) is in
      put-Runs (popping_front key) (lpop_command env (name ∷ key ∷ []) s) l a
        (rw (checked (some (list (x ∷ l), d)) _ is, still 1, popped_front (some (x ∷ l)) b, is)
          refl)
        (rw (is, c) refl)

  pop_back_run :
      (e : Entry)
      → live now (keys key) ≡ e
      → Runs now (popping_back key) keys s (rpop_command env (name ∷ key ∷ []) s)
  unfolding rpop_command pop_tail type_seen
  pop_back_run none is =
      idle-Runs (popping_back key) (rpop_command env (name ∷ key ∷ []) s)
        (rw (checked none _ is, still 1, popped_back none (there none is).1, is) refl) (rw is refl)
  pop_back_run (some (str old, d)) is =
      idle-Runs (popping_back key) (rpop_command env (name ∷ key ∷ []) s)
        (rw (checked (some (str old, d)) _ is, is) refl) (rw is refl)
  pop_back_run (some (list [], d)) is = absurd (ground (arith, (there (some (list [], d)) is).3))
  pop_back_run (some (list (x ∷ l), d)) is =
      let (a, b, c, full) = there (some (list (x ∷ l), d)) is in
      put-Runs (popping_back key) (rpop_command env (name ∷ key ∷ []) s) (pop_back (x ∷ l)) a
        (rw (checked (some (list (x ∷ l), d)) _ is, still 1, popped_back (some (x ∷ l)) b, is) refl)
        (rw (is, c) refl)

  pub lpush-Runs :
      (value : Bytes)
      → to_upper name ≡ codes "LPUSH"
      → Runs now (pushing_front key value) keys s (execute env (name ∷ key ∷ value ∷ []) s)
  unfolding execute builtin_commands find bytes_beq run_handler
  lpush-Runs value is = rw is (push_front_run value (live now (keys key)) refl)

  pub rpush-Runs :
      (value : Bytes)
      → to_upper name ≡ codes "RPUSH"
      → Runs now (pushing_back key value) keys s (execute env (name ∷ key ∷ value ∷ []) s)
  unfolding execute builtin_commands find bytes_beq run_handler
  rpush-Runs value is = rw is (push_back_run value (live now (keys key)) refl)

  pub lpop-Runs :
      to_upper name ≡ codes "LPOP"
      → Runs now (popping_front key) keys s (execute env (name ∷ key ∷ []) s)
  unfolding execute builtin_commands find bytes_beq run_handler
  lpop-Runs is = rw is (pop_front_run (live now (keys key)) refl)

  pub rpop-Runs :
      to_upper name ≡ codes "RPOP"
      → Runs now (popping_back key) keys s (execute env (name ∷ key ∷ []) s)
  unfolding execute builtin_commands find bytes_beq run_handler
  rpop-Runs is = rw is (pop_back_run (live now (keys key)) refl)
