-- ===== src/Text/Percent/RoundTrip.antt =====
-- The two decoders agree, and they undo the encoding, which leaves no byte that would end a field
-- or a line.
use velo_kv.Prelude.{
  ℕ, ◌≡◌, ◌≢◌, ◌∙◌, refl, ap, false, some, [], ◌∷◌, ◌++◌, Bytes, All, All-append, nat_beq,
  Bool-cases, inl, inr, arith, fun_ext,
}
use velo_kv.Text.Percent.{
  encode_byte, percent_encode, percent_byte, decode_byte, decode_with, percent_decode, decode,
  cons_to,
}

byte-eq : (a b : ℕ) → percent_byte a b ≡ decode_byte a b
unfolding percent_byte decode_byte
byte-eq a b = ground arith

-- The decoder of the snapshot file and that of the replication stream are the same function: they
-- accept the same texts and read them alike.
pub percent_decode-eq-decode : (s : Bytes) → percent_decode s ≡ decode s
unfolding percent_decode decode
percent_decode-eq-decode s = ap (λ f. decode_with f s) (fun_ext (λ a. fun_ext (byte-eq a)))

-- A byte that no field and no line ends at.
abbrev pub IsPlain : ℕ → Type 0
IsPlain c = (c ≢ 32) × (c ≢ 13) × (c ≢ 10)

encode_byte-All : (c : ℕ) → All IsPlain (encode_byte c)
unfolding encode_byte
encode_byte-All c = elim (Bool-cases (nat_beq c b'%')) [
  | inl e ↦ rw (e, encode_byte) (omega arith)
  | inr n1 ↦ elim (Bool-cases (nat_beq c 32)) [
    | inl e ↦ rw (n1, e, encode_byte) (omega arith)
    | inr n2 ↦ elim (Bool-cases (nat_beq c 13)) [
      | inl e ↦ rw (n1, n2, e, encode_byte) (omega arith)
      | inr n3 ↦ elim (Bool-cases (nat_beq c 10)) [
        | inl e ↦ rw (n1, n2, n3, e, encode_byte) (omega arith)
        | inr n4 ↦ rw (n1, n2, n3, n4, encode_byte) ((ground arith, ground arith, ground arith), tt)
      ]
    ]
  ]
]

pub percent_encode-All : (s : Bytes) → All IsPlain (percent_encode s)
unfolding percent_encode
percent_encode-All [] = tt
percent_encode-All (c ∷ s) =
    All-append IsPlain (encode_byte c) (percent_encode s) (encode_byte-All c) (percent_encode-All s)

decode_plain : (c : ℕ) (s : Bytes) → nat_beq c b'%' ≡ false → decode (c ∷ s) ≡ cons_to c (decode s)
unfolding decode
decode_plain c [] h = ground arith
decode_plain c (a ∷ []) h = ground arith
decode_plain c (a ∷ b ∷ s) h = ground arith

decode_encoded_byte : (c : ℕ) (s : Bytes) → decode (encode_byte c ++ s) ≡ cons_to c (decode s)
unfolding decode encode_byte
decode_encoded_byte c s = ground (arith, decode_plain c s)

-- Every text is read back from its percent encoding.
pub decode-percent_encode : (s : Bytes) → decode (percent_encode s) ≡ some s
unfolding percent_encode
decode-percent_encode [] = unfold decode in refl
decode-percent_encode (c ∷ s) =
    decode_encoded_byte c (percent_encode s) ∙ ap (cons_to c) (decode-percent_encode s)
