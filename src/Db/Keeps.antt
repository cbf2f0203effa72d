-- ===== src/Db/Keeps.antt =====
-- src/db.cpp: the operations that may evict keep the invariant wherever they are defined.
use velo_kv.Prelude.{
  ◌≡◌, refl, false, none, some, List, [], ◌∷◌, Bytes, ℤ, in_range, int64_bound, ◌+ℤ◌, ◌-ℤ◌, Outcome,
  Bool-cases, Option-cases, inl, inr, bytes_eq, arith, ok, undef,
}
use velo_kv.Map.{find}
use velo_kv.Db.{Database, lpop, rpop, expire, ttl, int64}
use velo_kv.Db.Wf.{IsWf}
use velo_kv.Db.View.{due, view, is_seen, list_seen}
use velo_kv.Db.Expiry.{sweep, is_expired-sweep}
use velo_kv.Db.Reads.{Reads}
use velo_kv.Db.Lists.{lpop-Holds, rpop-Holds, lpop-Reads, rpop-Reads}
use velo_kv.Db.Deadlines.{expire-Times, expire-overflow, expire-Reads, ttl-due, ttl_live}

-- The state that a call leaves, if it is defined, is well-formed.
abbrev pub LeavesWf : {A : Type 0} → Outcome (A × Database) → Type 0
LeavesWf undef = Unit
LeavesWf (ok (a, db)) = IsWf db

pub Reads-LeavesWf :
    {A : Type 0} (now : ℤ) (db : Database) (r : Outcome (A × Database)) (a : A)
    → Reads now db r a
    → LeavesWf r
Reads-LeavesWf now db r a (db', e, s) = rw e s.wf

module _ (now : ℤ) (key : Bytes) (db : Database) (w : IsWf db) where
  -- A list in the view is in the store, and neither due nor a string.
  pub list_there :
      (x : Bytes) (l : List Bytes)
      → list_seen (view now key db) ≡ x ∷ l
      → (due now key db ≡ false)
        × (find key db.string_store ≡ none)
        × (find key db.list_store ≡ some (x ∷ l))
  unfolding view list_seen
  list_there x l h = (ground arith, ground arith, ground arith)

  lpop_by : (l : List Bytes) → list_seen (view now key db) ≡ l → LeavesWf (lpop now key db)
  lpop_by [] h = Reads-LeavesWf now db (lpop now key db) none (lpop-Reads now key db w h)
  lpop_by (x ∷ l) h =
      let (live, free, at) = list_there x l h in
      let (db', e, holds) = lpop-Holds now key db w live free x l at in rw e holds.wf

  pub lpop-LeavesWf : LeavesWf (lpop now key db)
  lpop-LeavesWf = lpop_by (list_seen (view now key db)) refl

  rpop_by : (l : List Bytes) → list_seen (view now key db) ≡ l → LeavesWf (rpop now key db)
  rpop_by [] h = Reads-LeavesWf now db (rpop now key db) none (rpop-Reads now key db w h)
  rpop_by (x ∷ l) h =
      let (live, free, at) = list_there x l h in
      let (db', e, holds) = rpop-Holds now key db w live free x l at in rw e holds.wf

  pub rpop-LeavesWf : LeavesWf (rpop now key db)
  rpop-LeavesWf = rpop_by (list_seen (view now key db)) refl

  pub expire-LeavesWf : (now' ttl_ms : ℤ) → LeavesWf (expire now now' key ttl_ms db)
  expire-LeavesWf now' ttl_ms = elim (Bool-cases (is_seen (view now key db))) [
    | inr unseen ↦
        Reads-LeavesWf now db (expire now now' key ttl_ms db) false
          (expire-Reads key db w now now' ttl_ms unseen)
    | inl seen ↦ elim (Bool-cases (in_range int64_bound (now' +ℤ ttl_ms))) [
      | inl fits ↦ let (db', e, t) = expire-Times key db w now now' ttl_ms seen fits in rw e t.wf
      | inr wide ↦ rw (expire-overflow key db w now now' ttl_ms seen wide) tt
    ]
  ]

  ttl_wide :
      (now' d : ℤ)
      → due now key db ≡ false
      → find key db.expiry ≡ some d
      → in_range int64_bound (d -ℤ now') ≡ false
      → ttl now now' key db ≡ undef
  unfolding ttl sweep int64
  ttl_wide now' d live timed wide =
      ground (arith, is_expired-sweep db w key now, w.timed key d timed)

  pub ttl-LeavesWf : (now' : ℤ) → LeavesWf (ttl now now' key db)
  ttl-LeavesWf now' = elim (Bool-cases (due now key db)) [
    | inl passed ↦ Reads-LeavesWf now db (ttl now now' key db) _ (ttl-due now now' key db w passed)
    | inr live ↦ elim (Option-cases (find key db.expiry)) [
      | inl untimed ↦
          Reads-LeavesWf now db (ttl now now' key db) _
            (ttl_live now now' key db w live (λ d timed. absurd (ground arith)))
      | inr (d, timed) ↦ elim (Bool-cases (in_range int64_bound (d -ℤ now'))) [
        | inl fits ↦
            Reads-LeavesWf now db (ttl now now' key db) _
              (ttl_live now now' key db w live (λ d' timed'. ground (arith)))
        | inr wide ↦ rw (ttl_wide now' d live timed wide) tt
      ]
    ]
  ]
