-- ===== src/Persistence/Fields.antt =====
-- src/persistence.cpp: lines and fields of a file whose texts hold no blank and no line end.
use velo_kv.Prelude.{
  ℕ, suc, ◌+◌, ◌-◌, ◌≡◌, ◌≢◌, ◌∙◌, ap, refl, some, List, [], ◌∷◌, ◌++◌, append-nil, Bytes, ℤ, pos,
  negsuc, length, drop, drop-append, drop-drop, back, Option-cases, inl, inr, arith, All,
  All-append,
}
use velo_kv.Text.Percent.{percent_encode}
use velo_kv.Text.Percent.RoundTrip.{IsPlain, percent_encode-All}
use velo_kv.Text.Decimal.{decimal, to_string}
use velo_kv.Text.Decimal.RoundTrip.{IsDigit, decimal-All}
use velo_kv.Text.Find.{find_byte}
use velo_kv.Text.Find.Laws.{find_byte_here, index_of_absent, drop_behind, substr_here}
use velo_kv.Resp.{strip_cr}
use velo_kv.Persistence.{element_fields}
use velo_kv.Persistence.Load.{lines, split_record, cut_blank}

pub All-plain : (s : Bytes) → All IsPlain s → All (λ c. c ≢ 32) s
All-plain [] h = tt
All-plain (c ∷ s) (h, hs) = (h.0, All-plain s hs)

digits-IsPlain : (s : Bytes) → All IsDigit s → All IsPlain s
digits-IsPlain [] h = tt
digits-IsPlain (c ∷ s) (h, hs) = (omega arith, digits-IsPlain s hs)

pub decimal-IsPlain : (n : ℕ) → All IsPlain (decimal n)
decimal-IsPlain n = digits-IsPlain (decimal n) (decimal-All n)

pub to_string-IsPlain : (a : ℤ) → All IsPlain (to_string a)
unfolding to_string
to_string-IsPlain (pos n) = decimal-IsPlain n
to_string-IsPlain (negsuc n) = (omega arith, decimal-IsPlain (suc n))

-- A text that ends no line.
abbrev pub IsInline : Bytes → Type 0
IsInline s = All (λ c. (c ≢ 13) × (c ≢ 10)) s

pub plain-IsInline : (s : Bytes) → All IsPlain s → IsInline s
plain-IsInline [] h = tt
plain-IsInline (c ∷ s) (h, hs) = ((h.1, h.2), plain-IsInline s hs)

pub IsInline-append : (s t : Bytes) → IsInline s → IsInline t → IsInline (s ++ t)
IsInline-append s t h h' = All-append (λ c. (c ≢ 13) × (c ≢ 10)) s t h h'

pub lines-append : (s rest : Bytes) → IsInline s → lines (s ++ 10 ∷ rest) ≡ s ∷ lines rest
unfolding lines
lines-append [] rest h = refl
lines-append (c ∷ s) rest (h, hs) = ground (arith, lines-append s rest hs)

back_inline : (s : Bytes) (c : ℕ) → IsInline s → back s ≡ some c → c ≢ 13
unfolding back
back_inline [] c h at = cc
back_inline (x ∷ []) c h at = ground arith
back_inline (x ∷ y ∷ s) c h at = back_inline (y ∷ s) c h.1 at

pub strip_cr_inline : (s : Bytes) → IsInline s → strip_cr s ≡ s
unfolding strip_cr
strip_cr_inline s h = elim (Option-cases (back s)) [
  | inl none_there ↦ ground arith
  | inr (c, at) ↦ ground (arith, back_inline s c h at)
]

pub split_record-fields :
    (k e rest : Bytes)
    → All IsPlain k
    → All IsPlain e
    → split_record (k ++ 32 ∷ (e ++ 32 ∷ rest))
      ≡ some (record { enc_key = k; expiry_str = e; rest = rest })
unfolding split_record
split_record-fields k e rest hk he =
    let r = k ++ 32 ∷ (e ++ 32 ∷ rest) in
    let n = length k in
    let first : find_byte 32 r 0 ≡ some (0 + n) =
      find_byte_here 32 r 0 k (e ++ 32 ∷ rest) (All-plain k hk) refl in
    let behind : drop (n + 1) r ≡ e ++ 32 ∷ rest =
      drop-drop n 1 r ∙ ap (drop 1) (drop-append k (32 ∷ (e ++ 32 ∷ rest))) in
    let second : find_byte 32 r (n + 1) ≡ some (n + 1 + length e) =
      find_byte_here 32 r (n + 1) e rest (All-plain e he) behind in
    let last : drop (n + 1 + length e + 1) r ≡ rest =
      drop-drop (n + 1 + length e) 1 r ∙ ap (drop 1) (drop_behind r (n + 1) e (32 ∷ rest) behind) in
    let middle : n + 1 + length e - n - 1 ≡ length e = omega arith in
    ground (
      arith,
      first,
      second,
      middle,
      substr_here r (n + 1) e (32 ∷ rest) behind,
      last,
      substr_here r 0 k (32 ∷ (e ++ 32 ∷ rest)) refl,
    )

pub cut_blank-field : (s rest : Bytes) → All IsPlain s → cut_blank (s ++ 32 ∷ rest) ≡ (s, rest)
unfolding cut_blank
cut_blank-field s rest h =
    let r = s ++ 32 ∷ rest in
    let first : find_byte 32 r 0 ≡ some (0 + length s) =
      find_byte_here 32 r 0 s rest (All-plain s h) refl in
    let behind : drop (length s + 1) r ≡ rest =
      drop-drop (length s) 1 r ∙ ap (drop 1) (drop-append s (32 ∷ rest)) in
    ground (arith, first, behind, substr_here r 0 s (32 ∷ rest) refl)

pub cut_blank_last : (s : Bytes) → All IsPlain s → cut_blank s ≡ (s, [])
unfolding cut_blank find_byte
cut_blank_last s h = ground (arith, index_of_absent 32 s (All-plain s h))

-- The elements of a list that is not empty, behind the blank of the first.
unfoldable pub elements_text : Bytes → List Bytes → Bytes
unfolding percent_encode element_fields
elements_text e es = percent_encode e ++ element_fields es

pub cut_blank-elements_text :
    (e : Bytes) (es : List Bytes)
    → cut_blank (elements_text e es)
      ≡ (percent_encode e, elim es [ [] ↦ [] | f ∷ fs ↦ elements_text f fs ])
unfolding elements_text element_fields
cut_blank-elements_text e [] =
    rw append-nil (cut_blank_last (percent_encode e) (percent_encode-All e))
cut_blank-elements_text e (f ∷ fs) =
    cut_blank-field (percent_encode e) (percent_encode f ++ element_fields fs)
      (percent_encode-All e)

pub element_fields-IsInline : (es : List Bytes) → IsInline (element_fields es)
unfolding element_fields
element_fields-IsInline [] = tt
element_fields-IsInline (e ∷ es) = (
  (omega arith, omega arith),
  IsInline-append (percent_encode e) (element_fields es)
      (plain-IsInline (percent_encode e) (percent_encode-All e)) (element_fields-IsInline es),
)
