-- ===== src/Spec/Refines.antt =====
-- src/db.cpp: a `Database` that shows what the abstract store says, and how its parts read from that.
use velo_kv.Prelude.{
  Outcome, ok, ◌≡◌, ◌≢◌, ◌≤◌, ◌∙◌, ap, refl, false, suc, Option, none, some, Bytes, ℤ, ◌≤ℤ◌,
  bytes_beq, bytes_beq_iff, bytes_eq, is_empty, Bool-cases, Option-cases, inl, inr, arith,
}
use velo_kv.Map.{find}
use velo_kv.Db.{Database, size}
use velo_kv.Db.Wf.{IsWf}
use velo_kv.Db.View.{Value, str, list, due, stored, view}
use velo_kv.Db.Reads.{SameViews}
use velo_kv.Command.{Store}
use velo_kv.Spec.Coded.{coded, coded-answer}
use velo_kv.Spec.{Entry, Keys, Request, answer, effect, live, update}

-- From `now` on every key of the database shows what the abstract store has.
pub record Shows (now : ℤ) (keys : Keys) (db : Database) : Type 0 where
  pub wf : IsWf db
  pub shows : (t : ℤ) → now ≤ℤ t → (j : Bytes) → view t j db ≡ live t (keys j)

-- Every well-formed database shows an abstract store: the views of its keys.
pub view-Shows : (now : ℤ) (db : Database) → IsWf db → Shows now (λ j. view now j db) db
unfolding view due
view-Shows now db w = record { wf = w; shows = λ t h j. seen t h j (stored j db) refl }
  where
    seen :
        (t : ℤ)
        → now ≤ℤ t
        → (j : Bytes) (o : Option Value) → stored j db ≡ o
        → view t j db ≡ live t (view now j db)
    seen t h j none at = ground arith
    seen t h j (some v) at = elim (Option-cases (find j db.expiry)) [
      | inl untimed ↦ ground arith
      | inr (d, timed) ↦ ground arith
    ]

pub Shows-later :
    (now later : ℤ) (keys : Keys) (db : Database)
    → now ≤ℤ later
    → Shows now keys db
    → Shows later keys db
Shows-later now later keys db le s = record {
  wf = s.wf;
  shows = λ t h j. s.shows t (omega arith) j;
}

pub SameViews-Shows :
    (now : ℤ) (keys : Keys) (db db' : Database)
    → Shows now keys db
    → SameViews now db db'
    → Shows now keys db'
SameViews-Shows now keys db db' s v = record {
  wf = v.wf;
  shows = λ t h j. v.same t h j ∙ s.shows t h j;
}

-- A change at one key.
pub Shows-update :
    (now : ℤ) (keys : Keys) (key : Bytes) (e : Entry) (db db' : Database)
    → Shows now keys db
    → IsWf db'
    → ((t : ℤ) → now ≤ℤ t → view t key db' ≡ live t e)
    → ((t : ℤ) (j : Bytes) → now ≤ℤ t → j ≢ key → view t j db' ≡ view t j db)
    → Shows now (update key e keys) db'
Shows-update now keys key e db db' s w here others = record {
  wf = w;
  shows = λ t h j. elim (Bool-cases (bytes_beq key j)) [
    | inl same ↦ ground (arith, here t h, bytes_beq_iff key j)
    | inr other ↦ ground (arith, others t j h, s.shows t h j, bytes_beq_iff key j)
  ];
}

live-live : (now t : ℤ) (e : Entry) → now ≤ℤ t → live t (live now e) ≡ live t e
live-live now t none h = refl
live-live now t (some (v, none)) h = refl
live-live now t (some (v, some d)) h = ground arith

-- Nothing changes where the entry of the key is what it was at the time.
pub Shows-same :
    (now : ℤ) (keys : Keys) (key : Bytes) (db : Database)
    → Shows now keys db
    → Shows now (update key (live now (keys key)) keys) db
Shows-same now keys key db s = record {
  wf = s.wf;
  shows = λ t h j. elim (Bool-cases (bytes_beq key j)) [
    | inl same ↦ ground (arith, s.shows t h j, live-live now t (keys key) h, bytes_beq_iff key j)
    | inr other ↦ ground (arith, s.shows t h j, bytes_beq_iff key j)
  ];
}

-- The stores at a key that is not due, from the entry.
abbrev pub Stored : Entry → Bytes → Database → Type 0
Stored none key db =
    (find key db.string_store ≡ none)
    × (find key db.list_store ≡ none)
    × (find key db.expiry ≡ none)
Stored (some (str v, d)) key db =
    (find key db.string_store ≡ some v) × (find key db.list_store ≡ none) × (find key db.expiry ≡ d)
Stored (some (list l, d)) key db =
    (find key db.string_store ≡ none)
    × (find key db.list_store ≡ some l)
    × (find key db.expiry ≡ d)
    × (is_empty l ≡ false)

pub view-Stored :
    (now : ℤ) (key : Bytes) (db : Database) (e : Entry)
    → IsWf db
    → due now key db ≡ false
    → view now key db ≡ e
    → Stored e key db
unfolding view stored
view-Stored now key db none w fresh h = elim (Option-cases (find key db.expiry)) [
  | inl untimed ↦ ground arith
  | inr (d, timed) ↦ ground (arith, w.timed key d timed)
]
view-Stored now key db (some (str v, d)) w fresh h =
    elim (Option-cases (find key db.string_store)) [
      | inl absent ↦ ground arith
      | inr (x, at) ↦ ground (arith, w.disjoint key x at)
    ]
view-Stored now key db (some (list l, d)) w fresh h =
    (ground arith, ground arith, ground arith, w.nonempty key l (ground arith))

pub Stored-deadline :
    (key : Bytes) (db : Database) (e : Entry) (d : ℤ)
    → Stored e key db
    → find key db.expiry ≡ some d
    → (v : Value) × (e ≡ some (v, some d))
Stored-deadline key db none d h at = absurd (ground arith)
Stored-deadline key db (some (str v, o)) d h at = (str v, ground arith)
Stored-deadline key db (some (list l, o)) d h at = (list l, ground arith)

pub live-some : (now : ℤ) (e : Entry) (x : Value × Option ℤ) → live now e ≡ some x → e ≡ some x
live-some now none x h = h
live-some now (some (v, none)) x h = h
live-some now (some (v, some d)) x h = ground arith

-- The run is defined, the reply is the answer of the abstract store, the database that it leaves shows
-- the new one, and has at most one key more.
abbrev pub Refined : ℤ → Request → Keys → Store → Outcome (Bytes × Store) → Type 0
Refined now r keys s o =
    (db' : Database) × (o ≡ ok (answer now r keys, record s { db = db' }))
    × Shows now (effect now r keys) db'
    × (size db' ≤ suc (size s.db))

-- The same with the reply as the handlers make it.
abbrev pub Runs : ℤ → Request → Keys → Store → Outcome (Bytes × Store) → Type 0
Runs now r keys s o =
    (db' : Database) × (o ≡ ok (coded now r keys, record s { db = db' }))
    × Shows now (effect now r keys) db'
    × (size db' ≤ suc (size s.db))

pub Runs-Refined :
    (now : ℤ) (r : Request) (keys : Keys) (s : Store) (o : Outcome (Bytes × Store))
    → Runs now r keys s o
    → Refined now r keys s o
Runs-Refined now r keys s o (db', made, shows, larger) =
    (db', made ∙ ap (λ b. ok (b, record s { db = db' })) (coded-answer now r keys), shows, larger)
