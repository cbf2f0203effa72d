-- ===== src/Text/Find/Laws.antt =====
-- Where `find` finds, and what `substr` cuts out, at an offset whose rest of the buffer is known.
use velo_kv.Prelude.{
  none, ℕ, ◌+◌, ◌<◌, ◌≤◌, ◌≡◌, ◌≢◌, ◌∙◌, refl, ap, some, [], ◌∷◌, ◌++◌, Bytes, drop, length,
  length-drop, length-append, drop-drop, drop-append, take-append, All, Option-cases, inl, inr,
  arith,
}
use velo_kv.Text.Find.{index_of, crlf_in, find_byte, find_crlf, substr, at}

index_of-lt : (b : ℕ) (s : Bytes) (i : ℕ) → index_of b s ≡ some i → i < length s
unfolding index_of
index_of-lt b [] i h = cc
index_of-lt b (c ∷ s) i h = elim (Option-cases (index_of b s)) [
  | inl absent ↦ ground arith
  | inr (j, found) ↦ ground (arith, index_of-lt b s j found)
]

crlf_in-lt : (s : Bytes) (i : ℕ) → crlf_in s ≡ some i → i + 1 < length s
unfolding crlf_in
crlf_in-lt [] i h = cc
crlf_in-lt (c ∷ []) i h = cc
crlf_in-lt (c ∷ d ∷ s) i h = elim (Option-cases (crlf_in (d ∷ s))) [
  | inl absent ↦ ground arith
  | inr (j, found) ↦ ground (arith, crlf_in-lt (d ∷ s) j found)
]

pub find_byte_range :
    (b : ℕ) (buffer : Bytes) (offset next : ℕ)
    → find_byte b buffer offset ≡ some next
    → (offset ≤ next) × (next < length buffer)
unfolding find_byte
find_byte_range b buffer offset next h = elim (Option-cases (index_of b (drop offset buffer))) [
  | inl absent ↦ ground arith
  | inr (i, found) ↦
      ground (arith, index_of-lt b (drop offset buffer) i found, length-drop offset buffer)
]

pub find_crlf_range :
    (buffer : Bytes) (offset next : ℕ)
    → find_crlf buffer offset ≡ some next
    → (offset ≤ next) × (next + 2 ≤ length buffer)
unfolding find_crlf
find_crlf_range buffer offset next h = elim (Option-cases (crlf_in (drop offset buffer))) [
  | inl absent ↦ ground arith
  | inr (i, found) ↦
      ground (arith, crlf_in-lt (drop offset buffer) i found, length-drop offset buffer)
]

-- The first line end behind bytes that hold no CR.
pub crlf_in-append :
    (s rest : Bytes) → All (λ c. c ≢ 13) s → crlf_in (s ++ 13 ∷ 10 ∷ rest) ≡ some (length s)
unfolding crlf_in
crlf_in-append [] rest h = refl
crlf_in-append (c ∷ []) rest h = ground arith
crlf_in-append (c ∷ d ∷ s) rest h = ground (arith, crlf_in-append (d ∷ s) rest h.1)

module _ (buffer : Bytes) (offset : ℕ) (s rest : Bytes)
    (here : drop offset buffer ≡ s ++ rest) where
  pub drop_behind : drop (offset + length s) buffer ≡ rest
  drop_behind = drop-drop offset (length s) buffer ∙ ap (drop (length s)) here ∙ drop-append s rest

  pub length_here : 0 < length (s ++ rest) → offset + length s + length rest ≡ length buffer
  length_here some_left =
      omega (arith, length-drop offset buffer, ap (length {A = ℕ}) here, length-append s rest)

  pub substr_here : substr buffer offset (length s) ≡ s
  unfolding substr
  substr_here = rw here (take-append s rest)

pub at_here : (buffer : Bytes) (i c : ℕ) (rest : Bytes) → drop i buffer ≡ c ∷ rest → at buffer i ≡ c
unfolding at
at_here buffer i c rest h = rw (h, at)

pub find_crlf_here :
    (buffer : Bytes) (offset : ℕ) (s rest : Bytes)
    → All (λ c. c ≢ 13) s
    → drop offset buffer ≡ s ++ 13 ∷ 10 ∷ rest
    → find_crlf buffer offset ≡ some (offset + length s)
unfolding find_crlf
find_crlf_here buffer offset s rest plain h = rw (h, crlf_in-append s rest plain)

pub inside_here :
    (buffer : Bytes) (i c : ℕ) (rest : Bytes) → drop i buffer ≡ c ∷ rest → i < length buffer
inside_here buffer i c rest h = omega (arith, length-drop i buffer, ap (length {A = ℕ}) h)

pub index_of-append :
    (b : ℕ) (s rest : Bytes) → All (λ c. c ≢ b) s → index_of b (s ++ b ∷ rest) ≡ some (length s)
unfolding index_of
index_of-append b [] rest h = ground arith
index_of-append b (c ∷ s) rest (h, hs) = ground (arith, index_of-append b s rest hs)

pub index_of_absent : (b : ℕ) (s : Bytes) → All (λ c. c ≢ b) s → index_of b s ≡ none
unfolding index_of
index_of_absent b [] h = refl
index_of_absent b (c ∷ s) (h, hs) = ground (arith, index_of_absent b s hs)

pub find_byte_here :
    (b : ℕ) (buffer : Bytes) (offset : ℕ) (s rest : Bytes)
    → All (λ c. c ≢ b) s
    → drop offset buffer ≡ s ++ b ∷ rest
    → find_byte b buffer offset ≡ some (offset + length s)
unfolding find_byte
find_byte_here b buffer offset s rest plain h = rw (h, index_of-append b s rest plain)
