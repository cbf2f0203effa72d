-- ===== src/Replication/RoundTrip.antt =====
-- src/replication.cpp: a replica reads back the commands that its leader encodes.
use velo_kv.Prelude.{
  ℕ, ◌≡◌, ◌≢◌, ◌∙◌, refl, ap, ap₂, false, List, [], ◌∷◌, ◌++◌, append_assoc, append-nil, Bytes, map,
  All, is_empty, nat_beq, Bool-cases, inl, inr, arith,
}
use velo_kv.Text.Decimal.{is_space}
use velo_kv.Text.Percent.{encode_byte, percent_encode}
use velo_kv.Text.Percent.RoundTrip.{decode-percent_encode}
use velo_kv.Text.Upper.{to_upper}
use velo_kv.Resp.{crlf}
use velo_kv.Replication.Stream.{encode_args, encode_command}
use velo_kv.Replication.Apply.{push_token, tokens_from, tokenise, decode_token}

-- No tab, vertical tab or form feed: the blanks that the encoding leaves as they are.
abbrev pub IsTabless : ℕ → Type 0
IsTabless c = (c ≢ 9) × (c ≢ 11) × (c ≢ 12)

-- An argument that reaches the replica whole.
abbrev pub IsArg : Bytes → Type 0
IsArg a = (is_empty a ≡ false) × All IsTabless a

abbrev pub IsToken : Bytes → Type 0
IsToken t = All (λ c. is_space c ≡ false) t

encode_byte-IsToken : (c : ℕ) → IsTabless c → IsToken (encode_byte c)
unfolding encode_byte
encode_byte-IsToken c (n9, n11, n12) = elim (Bool-cases (nat_beq c b'%')) [
  | inl e ↦ rw (e, encode_byte) (refl, (refl, (refl, tt)))
  | inr n1 ↦ elim (Bool-cases (nat_beq c 32)) [
    | inl e ↦ rw (n1, e, encode_byte) (refl, (refl, (refl, tt)))
    | inr n2 ↦ elim (Bool-cases (nat_beq c 13)) [
      | inl e ↦ rw (n1, n2, e, encode_byte) (refl, (refl, (refl, tt)))
      | inr n3 ↦ elim (Bool-cases (nat_beq c 10)) [
        | inl e ↦ rw (n1, n2, n3, e, encode_byte) (refl, (refl, (refl, tt)))
        | inr n4 ↦ rw (n1, n2, n3, n4, encode_byte) (ground arith, tt)
      ]
    ]
  ]
]

IsToken-append : (s t : Bytes) → IsToken s → IsToken t → IsToken (s ++ t)
IsToken-append [] t hs ht = ht
IsToken-append (c ∷ s) t (h, hs) ht = (h, IsToken-append s t hs ht)

percent_encode-IsToken : (a : Bytes) → All IsTabless a → IsToken (percent_encode a)
unfolding percent_encode
percent_encode-IsToken [] h = tt
percent_encode-IsToken (c ∷ a) (h, hs) =
    IsToken-append (encode_byte c) (percent_encode a) (encode_byte-IsToken c h)
      (percent_encode-IsToken a hs)

tokens_from-append :
    (t : Bytes) (tok rest : Bytes)
    → IsToken t
    → tokens_from tok (t ++ rest) ≡ tokens_from (tok ++ t) rest
unfolding tokens_from
tokens_from-append [] tok rest h = rw append-nil
tokens_from-append (c ∷ t) tok rest (h, hs) =
    rw (h, tokens_from)
      (tokens_from-append t (tok ++ c ∷ []) rest hs
        ∙ ap (λ w. tokens_from w rest) (append_assoc tok (c ∷ []) t))

not_empty_encoded : (a : Bytes) → is_empty a ≡ false → is_empty (percent_encode a) ≡ false
unfolding percent_encode encode_byte
not_empty_encoded [] h = h
not_empty_encoded (c ∷ a) h = ground arith

push_token_full : (t : Bytes) (ts : List Bytes) → is_empty t ≡ false → push_token t ts ≡ t ∷ ts
push_token_full [] ts h = absurd (ground arith)
push_token_full (c ∷ t) ts h = refl

tokens_from-encode_args :
    (tok : Bytes) (args : List Bytes)
    → All IsArg args
    → tokens_from tok (encode_args args) ≡ push_token tok (map percent_encode args)
unfolding tokens_from encode_args
tokens_from-encode_args tok [] h = refl
tokens_from-encode_args tok (a ∷ args) ((full, plain), hs) = ap (push_token tok) (
    tokens_from-append (percent_encode a) [] (encode_args args) (percent_encode-IsToken a plain)
    ∙ tokens_from-encode_args (percent_encode a) args hs
    ∙ push_token_full (percent_encode a) (map percent_encode args) (not_empty_encoded a full))

decode_token-percent_encode : (a : Bytes) → decode_token (percent_encode a) ≡ a
unfolding decode_token
decode_token-percent_encode a = ground (arith, decode-percent_encode a)

pub map-decode_token : (args : List Bytes) → map decode_token (map percent_encode args) ≡ args
map-decode_token [] = refl
map-decode_token (a ∷ args) = ap₂ ◌∷◌ (decode_token-percent_encode a) (map-decode_token args)

-- The line of a command, without its end.
unfoldable pub line_of : Bytes → List Bytes → Bytes
unfolding encode_args to_upper percent_encode
line_of name args = percent_encode (to_upper name) ++ encode_args args

pub encode_command-line_of :
    (name : Bytes) (args : List Bytes) → encode_command (name ∷ args) ≡ line_of name args ++ crlf
unfolding encode_command line_of
encode_command-line_of name args = rw append_assoc

-- The tokens of the line are those of the encoding, if no argument is empty and none has a tab, a
-- vertical tab or a form feed.
pub tokenise-line_of :
    (name : Bytes) (args : List Bytes)
    → IsArg (to_upper name)
    → All IsArg args
    → tokenise (line_of name args) ≡ percent_encode (to_upper name) ∷ map percent_encode args
unfolding tokenise line_of
tokenise-line_of name args (full, plain) hs =
    let enc = percent_encode (to_upper name) in
    tokens_from-append enc [] (encode_args args) (percent_encode-IsToken (to_upper name) plain)
    ∙ tokens_from-encode_args enc args hs
    ∙ push_token_full enc (map percent_encode args) (not_empty_encoded (to_upper name) full)

-- A word in front of encoded arguments.
pub tokenise_word :
    (word : Bytes) (args : List Bytes)
    → is_empty word ≡ false
    → IsToken word
    → All IsArg args
    → tokenise (word ++ encode_args args) ≡ word ∷ map percent_encode args
unfolding tokenise
tokenise_word word args full plain hs =
    tokens_from-append word [] (encode_args args) plain
    ∙ tokens_from-encode_args word args hs
    ∙ push_token_full word (map percent_encode args) full
