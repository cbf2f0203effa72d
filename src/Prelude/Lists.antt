-- ===== src/Prelude/Lists.antt =====
-- Lists measured by native numbers, under the library's names, and predicates on lists.
use Prim.Native.Nat.{ℕ, zero, suc, ◌+◌, ◌-◌}
use mathlib.Core.Path.{◌≡◌, refl, ap, subst}
use mathlib.Core.Bool.{Bool, true, false}
use mathlib.Core.List.{List, [], ◌∷◌, ◌++◌}
use mathlib.Core.Option.{Option, none, some}
use native.Mathlib.Nat.{zero-add, suc-add}
use native.Mathlib.Omega.{arith}

module _ {ℓ} {A : Type ℓ} where
  abbrev pub length : List A → ℕ
  length [] = 0
  length (x ∷ xs) = suc (length xs)

  abbrev pub is_empty : List A → Bool
  is_empty [] = true
  is_empty (x ∷ xs) = false

  abbrev pub take : ℕ → List A → List A
  take zero xs = []
  take (suc n) [] = []
  take (suc n) (x ∷ xs) = x ∷ take n xs

  abbrev pub drop : ℕ → List A → List A
  drop zero xs = xs
  drop (suc n) [] = []
  drop (suc n) (x ∷ xs) = drop n xs

  abbrev pub get_elem? : List A → ℕ → Option A
  get_elem? [] i = none
  get_elem? (x ∷ xs) zero = some x
  get_elem? (x ∷ xs) (suc i) = get_elem? xs i

  -- `back()` of a sequence.
  unfoldable pub back : List A → Option A
  back [] = none
  back (x ∷ []) = some x
  back (x ∷ y ∷ xs) = back (y ∷ xs)

  -- `pop_back()`.
  unfoldable pub pop_back : List A → List A
  pop_back [] = []
  pop_back (x ∷ []) = []
  pop_back (x ∷ y ∷ xs) = x ∷ pop_back (y ∷ xs)

  pub length-append : (xs ys : List A) → length (xs ++ ys) ≡ length xs + length ys
  length-append [] ys = omega arith
  length-append (x ∷ xs) ys = omega (arith, length-append xs ys)

  pub drop-append : (xs ys : List A) → drop (length xs) (xs ++ ys) ≡ ys
  drop-append [] ys = refl
  drop-append (x ∷ xs) ys = drop-append xs ys

  pub take-append : (xs ys : List A) → take (length xs) (xs ++ ys) ≡ xs
  take-append [] ys = refl
  take-append (x ∷ xs) ys = ap (◌∷◌ x) (take-append xs ys)

  pub length-drop : (n : ℕ) (xs : List A) → length (drop n xs) ≡ length xs - n
  length-drop zero xs = omega arith
  length-drop (suc n) [] = omega arith
  length-drop (suc n) (x ∷ xs) = omega (arith, length-drop n xs)

  pub drop-drop : (m n : ℕ) (xs : List A) → drop (m + n) xs ≡ drop n (drop m xs)
  drop-drop zero n xs = rw zero-add
  drop-drop (suc m) zero [] = rw suc-add
  drop-drop (suc m) (suc n) [] = rw suc-add
  drop-drop (suc m) n (x ∷ xs) = rw suc-add (drop-drop m n xs)

  pub pop_back-append_back : (xs : List A) (x : A) → back xs ≡ some x → pop_back xs ++ x ∷ [] ≡ xs
  unfolding back pop_back
  pop_back-append_back [] x h = cc
  pop_back-append_back (y ∷ []) x h = cc
  pop_back-append_back (y ∷ z ∷ xs) x h = ap (◌∷◌ y) (pop_back-append_back (z ∷ xs) x h)

  pub length-pop_back : (x : A) (xs : List A) → suc (length (pop_back (x ∷ xs))) ≡ length (x ∷ xs)
  unfolding pop_back
  length-pop_back x [] = refl
  length-pop_back x (y ∷ xs) = ap suc (length-pop_back y xs)

  pub back_cons : (x : A) (xs : List A) → (y : A) × (back (x ∷ xs) ≡ some y)
  unfolding back
  back_cons x [] = (x, refl)
  back_cons x (y ∷ xs) = back_cons y xs

  pub back-append : (xs : List A) (x : A) → back (xs ++ x ∷ []) ≡ some x
  unfolding back
  back-append [] x = refl
  back-append (y ∷ []) x = refl
  back-append (y ∷ z ∷ xs) x = back-append (z ∷ xs) x

  pub pop_back-append : (xs : List A) (x : A) → pop_back (xs ++ x ∷ []) ≡ xs
  unfolding pop_back
  pop_back-append [] x = refl
  pop_back-append (y ∷ []) x = refl
  pop_back-append (y ∷ z ∷ xs) x = ap (◌∷◌ y) (pop_back-append (z ∷ xs) x)

module _ {ℓ} {A : Type ℓ} where
  pub has_back :
      (n : ℕ) (xs : List A)
      → length xs ≡ suc n
      → (x : A) × (back xs ≡ some x) × (length (pop_back xs) ≡ n)
  has_back n [] h = absurd (omega arith)
  has_back n (x ∷ xs) h = let (y, b) = back_cons x xs in (y, b, omega (arith, length-pop_back x xs))

  pub length_of_back :
      (xs : List A) (x : A) → back xs ≡ some x → length xs ≡ suc (length (pop_back xs))
  unfolding back
  length_of_back [] x h = cc
  length_of_back (y ∷ xs) x h = omega (arith, length-pop_back y xs)

  pub nil_of_length : (xs : List A) → length xs ≡ 0 → xs ≡ []
  nil_of_length [] h = refl
  nil_of_length (x ∷ xs) h = absurd (omega arith)

module _ {ℓ κ} {A : Type ℓ} (P : A → Type κ) where
  abbrev pub All : List A → Type κ
  All [] = Unit
  All (x ∷ xs) = P x × All xs

  pub All-append : (xs ys : List A) → All xs → All ys → All (xs ++ ys)
  All-append [] ys _ hy = hy
  All-append (x ∷ xs) ys (px, hx) hy = (px, All-append xs ys hx hy)

  pub All-pop_back : (xs : List A) → All xs → All (pop_back xs)
  unfolding pop_back
  All-pop_back [] h = tt
  All-pop_back (x ∷ []) h = tt
  All-pop_back (x ∷ y ∷ xs) (px, h) = (px, All-pop_back (y ∷ xs) h)

  pub All-back : (xs : List A) (x : A) → All xs → back xs ≡ some x → P x
  unfolding back
  All-back [] x h b = cc
  All-back (y ∷ []) x h b = subst P (cc) h.0
  All-back (y ∷ z ∷ xs) x h b = All-back (z ∷ xs) x h.1 b
