-- ===== src/Text/Upper.antt =====
-- `to_upper` of src/command.cpp, `str_upper` of src/server.cpp, and the loops over `std::toupper`.
use velo_kv.Prelude.{ℕ, ◌-◌, ◌≡◌, refl, ap, [], ◌∷◌, Bytes, leb, map, ◌&&◌, if◌then◌else◌, arith}

-- `std::toupper` on a byte, in the C locale.
unfoldable pub upper : ℕ → ℕ
upper c = if leb b'a' c && leb c b'z' then c - 32 else c

unfoldable pub to_upper : Bytes → Bytes
unfolding upper
to_upper = map upper

upper-upper : (c : ℕ) → upper (upper c) ≡ upper c
unfolding upper
upper-upper c = ground arith

pub to_upper-to_upper : (s : Bytes) → to_upper (to_upper s) ≡ to_upper s
unfolding to_upper
to_upper-to_upper [] = refl
to_upper-to_upper (c ∷ s) = ground (arith, upper-upper c, to_upper-to_upper s)

-- `str_upper` of src/server.cpp, a loop that writes in place.
unfoldable pub str_upper : Bytes → Bytes
unfolding upper
str_upper [] = []
str_upper (c ∷ s) = upper c ∷ str_upper s

-- The two are one function.
str_upper-eq : (s : Bytes) → str_upper s ≡ to_upper s
unfolding str_upper to_upper
str_upper-eq [] = refl
str_upper-eq (c ∷ s) = ap (◌∷◌ (upper c)) (str_upper-eq s)
