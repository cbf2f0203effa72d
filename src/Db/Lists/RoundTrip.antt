-- ===== src/Db/Lists/RoundTrip.antt =====
-- src/db.cpp: a pop at the end where a value was pushed undoes the push.
use velo_kv.Prelude.{
  ◌≡◌, ◌≢◌, refl, false, none, some, List, [], ◌∷◌, ◌++◌, Bytes, ℤ, back, pop_back, back-append,
  pop_back-append, Bool-cases, inl, inr, ◌∙◌, subst, bytes_eq, bytes_beq, bytes_beq_iff, arith, ok,
}
use velo_kv.Map.{find, find-insert}
use velo_kv.Db.{Database, list_at, lpush, rpush, lpop, rpop}
use velo_kv.Db.Wf.{IsWf}
use velo_kv.Db.View.{due, view}
use velo_kv.Db.Lists.{
  Holds, lpush-Holds, rpush-Holds, lpop-Holds, rpop-Holds, list_at-view, put_list,
}

-- `rpop` on a list that ends in the value.
rpop_last :
    (now : ℤ) (key : Bytes) (db : Database)
    → IsWf db
    → due now key db ≡ false
    → find key db.string_store ≡ none
    → (l : List Bytes) (value : Bytes) → find key db.list_store ≡ some (l ++ value ∷ [])
    → (db' : Database) × (rpop now key db ≡ ok (some value, db')) × Holds now key l db db'
unfolding back pop_back
rpop_last now key db w live free [] value at = rpop-Holds now key db w live free value [] at
rpop_last now key db w live free (x ∷ l) value at =
    let (db', popped, h) = rpop-Holds now key db w live free x (l ++ value ∷ []) at in
    (
      db',
      rw (← back-append (x ∷ l) value) popped,
      subst (λ m. Holds now key m db db') (pop_back-append (x ∷ l) value) h,
    )

module _ (now : ℤ) (key : Bytes) (db : Database) (w : IsWf db) (live : due now key db ≡ false)
    (free : find key db.string_store ≡ none) where
  restored :
      (mid db' : Database) (l m : List Bytes)
      → find key mid.expiry ≡ find key db.expiry
      → m ≡ list_at key db
      → Holds now key l db mid
      → Holds now key m mid db'
      → (j : Bytes) → view now j db' ≡ view now j db
  restored mid db' l m e same pushed popped j = elim (Bool-cases (bytes_beq j key)) [
    | inl here ↦
        rw ((bytes_beq_iff j key).0 here, popped.holds, e, same)
          (list_at-view now key db w live free)
    | inr there ↦
        let ne : j ≢ key = λ p. ground (arith, bytes_beq_iff j key) in
        popped.others j ne ∙ pushed.others j ne
  ]

  pushed_at : (l : List Bytes) → find key (put_list key l db).list_store ≡ some l
  pushed_at l = ground (arith, find-insert key key l db.list_store, bytes_beq_iff key key)

  -- On a well-formed database and a key that is no string and not due, `lpop` after `lpush` is
  -- defined, returns the value and restores every view.
  pub lpop-lpush :
      (value : Bytes)
      → (db' : Database) × (lpop now key (lpush key value db).1 ≡ ok (some value, db'))
        × ((j : Bytes) → view now j db' ≡ view now j db)
  lpop-lpush value =
      let mid = (lpush key value db).1 in
      let pushed = (lpush-Holds now key db w live free value).1 in
      let (db', popped, h) =
        lpop-Holds now key mid pushed.wf (unfold lpush due in live) (unfold lpush in free) value
          (list_at key db) (unfold lpush in pushed_at (value ∷ list_at key db)) in
      (
        db',
        popped,
        restored mid db' (value ∷ list_at key db) (list_at key db) (unfold lpush in refl) refl
            pushed h,
      )

  -- On a well-formed database and a key that is no string and not due, `rpop` after `rpush` is
  -- defined, returns the value and restores every view.
  pub rpop-rpush :
      (value : Bytes)
      → (db' : Database) × (rpop now key (rpush key value db).1 ≡ ok (some value, db'))
        × ((j : Bytes) → view now j db' ≡ view now j db)
  rpop-rpush value =
      let mid = (rpush key value db).1 in
      let l = list_at key db ++ value ∷ [] in
      let pushed = (rpush-Holds now key db w live free value).1 in
      let (db', popped, h) =
        rpop_last now key mid pushed.wf (unfold rpush due in live) (unfold rpush in free)
          (list_at key db) value (unfold rpush in pushed_at l) in
      (db', popped, restored mid db' l (list_at key db) (unfold rpush in refl) refl pushed h)
