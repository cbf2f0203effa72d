-- ===== src/Text/Find.antt =====
-- `std::string::find` and `substr`, as the parsers use them.
pub mod Laws
use velo_kv.Prelude.{
  ℕ, zero, suc, ◌+◌, ◌-◌, ◌<◌, ◌≤◌, ◌≡◌, ◌≢◌, ◌∙◌, refl, ap, Bool, true, false, ◌&&◌, Option, none,
  some, List, [], ◌∷◌, ◌++◌, Bytes, nat_beq, take, drop, length, length-drop, All, if◌then◌else◌,
  Bool-cases, inl, inr, arith,
}

abbrev pub shift : ℕ → Option ℕ → Option ℕ
shift n none = none
shift n (some i) = some (n + i)

-- The first place of a byte.
unfoldable pub index_of : ℕ → Bytes → Option ℕ
index_of b [] = none
index_of b (c ∷ s) = let rest = index_of b s in if nat_beq c b then some 0 else shift 1 rest

-- The first place of "\r\n".
unfoldable pub crlf_in : Bytes → Option ℕ
crlf_in [] = none
crlf_in (c ∷ []) = none
crlf_in (c ∷ d ∷ s) =
    let rest = crlf_in (d ∷ s) in if nat_beq c 13 && nat_beq d 10 then some 0 else shift 1 rest

-- `buffer.find(b, offset)` and `buffer.find("\r\n", offset)`
unfoldable pub find_byte : ℕ → Bytes → ℕ → Option ℕ
unfolding index_of
find_byte b buffer offset = shift offset (index_of b (drop offset buffer))

unfoldable pub find_crlf : Bytes → ℕ → Option ℕ
unfolding crlf_in
find_crlf buffer offset = shift offset (crlf_in (drop offset buffer))

-- `buffer.substr(start, n)`
unfoldable pub substr : Bytes → ℕ → ℕ → Bytes
substr buffer start n = take n (drop start buffer)

-- `buffer[i]`; 0 where there is none
unfoldable pub at : Bytes → ℕ → ℕ
at buffer i = elim (drop i buffer) [ [] ↦ 0 | c ∷ _ ↦ c ]
