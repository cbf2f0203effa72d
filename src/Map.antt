-- ===== src/Map.antt =====
-- `std::unordered_map`: an association list. A new key comes last; the order of the entries stands
-- for the order of iteration, which C++ leaves open.
use velo_kv.Prelude.{
  suc, ◌≤◌, ◌≡◌, refl, Bool, true, false, Option, none, some, List, [], ◌∷◌, ◌==◌, Eq, Bool-cases,
  inl, inr, arith, length, if◌then◌else◌,
}

abbrev pub Map : Type 0 → Type 0 → Type 0
Map K V = List (K × V)

module _ {K V : Type 0} ⦃e : Eq K⦄ where
  -- `find(k)`
  unfoldable pub find : K → Map K V → Option V
  find k [] = none
  find k ((j, v) ∷ m) = if j == k then some v else find k m

  -- `count(k) > 0`
  abbrev pub contains : K → Map K V → Bool
  contains k m = elim (find k m) [ none ↦ false | some _ ↦ true ]

  -- `erase(k)`
  unfoldable pub erase : K → Map K V → Map K V
  erase k [] = []
  erase k ((j, v) ∷ m) = let rest = erase k m in if j == k then rest else (j, v) ∷ rest

  -- `m[k] = v`
  unfoldable pub insert : K → V → Map K V → Map K V
  insert k new [] = (k, new) ∷ []
  insert k new ((j, old) ∷ rest) = if j == k then (k, new) ∷ rest else (j, old) ∷ insert k new rest

  pub find-erase :
      (k j : K) (m : Map K V) → find j (erase k m) ≡ (if k == j then none else find j m)
  unfolding find erase
  find-erase k j [] = ground arith
  find-erase k j ((i, v) ∷ m) =
      ground (arith, find-erase k j m, e.beq_iff i k, e.beq_iff i j, e.beq_iff k j)

  pub find-insert :
      (k j : K) (v : V) (m : Map K V)
      → find j (insert k v m) ≡ (if k == j then some v else find j m)
  unfolding find insert
  find-insert k j v [] = refl
  find-insert k j v ((i, w) ∷ m) =
      ground (arith, find-insert k j v m, e.beq_iff i k, e.beq_iff i j, e.beq_iff k j)

  pub insert-insert : (k : K) (v w : V) (m : Map K V) → insert k v (insert k w m) ≡ insert k v m
  unfolding insert
  insert-insert k v w [] = ground (arith, e.beq_iff k k)
  insert-insert k v w ((j, u) ∷ m) = ground (arith, insert-insert k v w m, e.beq_iff k k)

  pub length-erase-le : (k : K) (m : Map K V) → length (erase k m) ≤ length m
  unfolding erase
  length-erase-le k [] = omega arith
  length-erase-le k ((j, v) ∷ m) = ground (arith, length-erase-le k m)

  pub length-erase_found :
      (k : K) (m : Map K V) (v : V) → find k m ≡ some v → suc (length (erase k m)) ≤ length m
  unfolding find erase
  length-erase_found k [] v h = cc
  length-erase_found k ((j, w) ∷ m) v h =
      ground (arith, length-erase-le k m, length-erase_found k m v)

  pub erase_absent : (k : K) (m : Map K V) → find k m ≡ none → erase k m ≡ m
  unfolding find erase
  erase_absent k [] h = refl
  erase_absent k ((j, w) ∷ m) h = ground (arith, erase_absent k m)

  pub length-insert_new :
      (k : K) (v : V) (m : Map K V) → find k m ≡ none → length (insert k v m) ≡ suc (length m)
  unfolding find insert
  length-insert_new k v [] h = refl
  length-insert_new k v ((j, w) ∷ m) h = ground (arith, length-insert_new k v m)

  pub length-insert_found :
      (k : K) (v w : V) (m : Map K V) → find k m ≡ some w → length (insert k v m) ≡ length m
  unfolding find insert
  length-insert_found k v w [] h = cc
  length-insert_found k v w ((j, u) ∷ m) h = ground (arith, length-insert_found k v w m)

  pub length-insert-le : (k : K) (v : V) (m : Map K V) → length (insert k v m) ≤ suc (length m)
  unfolding insert
  length-insert-le k v [] = omega arith
  length-insert-le k v ((j, u) ∷ m) = ground (arith, length-insert-le k v m)

  pub nil_of_find : (m : Map K V) → ((k : K) → find k m ≡ none) → m ≡ []
  unfolding find
  nil_of_find [] h = refl
  nil_of_find ((k, v) ∷ m) h = ground (arith, h k, e.beq_iff k k)

  -- No key stands twice.
  abbrev pub Unique : Map K V → Type 0
  Unique [] = Unit
  Unique ((k, v) ∷ m) = (find k m ≡ none) × Unique m

  pub erase-Unique : (k : K) (m : Map K V) → Unique m → Unique (erase k m)
  unfolding erase
  erase-Unique k [] u = tt
  erase-Unique k ((j, v) ∷ m) u = elim (Bool-cases (j == k)) [
    | inl here ↦ rw here (erase-Unique k m u.1)
    | inr there ↦ rw there (ground (arith, find-erase k j m), erase-Unique k m u.1)
  ]

  pub insert-Unique : (k : K) (v : V) (m : Map K V) → Unique m → Unique (insert k v m)
  unfolding insert find
  insert-Unique k v [] u = (refl, tt)
  insert-Unique k v ((j, w) ∷ m) u = elim (Bool-cases (j == k)) [
    | inl here ↦ rw here (rw (← (e.beq_iff j k).0 here) u.0, u.1)
    | inr there ↦
        rw there (
          ground (arith, find-insert k j v m, e.beq_iff k j, e.beq_iff j k),
          insert-Unique k v m u.1,
        )
  ]
