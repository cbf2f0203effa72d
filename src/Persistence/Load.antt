-- ===== src/Persistence/Load.antt =====
-- src/persistence.cpp: `PersistenceManager::load`, on what the path holds.
use velo_kv.Prelude.{
  ℕ, zero, suc, ◌+◌, ◌-◌, Bool, true, false, not, ◌&&◌, ◌||◌, Option, none, some, List, [], ◌∷◌,
  ◌++◌, Bytes, codes, ℤ, pos, negsuc, leb_ℤ, eqb_ℤ, Outcome, ok, ◌>>=◌, nat_beq, ltb, length,
  is_empty, drop, bytes_eq, bytes_beq, if◌then◌else◌,
}
use velo_kv.Db.{Database, set, del, rpush, expire_at}
use velo_kv.Text.Decimal.{stoi, stoll}
use velo_kv.Text.Percent.{percent_decode}
use velo_kv.Text.Find.{find_byte, substr, at}
use velo_kv.Resp.{strip_cr}
use velo_kv.Persistence.{header, header_v1, footer}

pub record LoadResult : Type 0 where
  pub success : Bool
  pub keys_loaded : ℕ
  pub error : Bytes

-- The lines that `std::getline` reads: a last line without its end counts if it has a byte.
unfoldable pub lines : Bytes → List Bytes
lines [] = []
lines (c ∷ s) =
    let rest = lines s in
    if nat_beq c 10 then [] ∷ rest else elim rest [ [] ↦ (c ∷ []) ∷ [] | l ∷ ls ↦ (c ∷ l) ∷ ls ]

-- The type character and the record of a line; `none` is a malformed v2 line.
unfoldable pub typed_record : Bool → Bytes → Option (ℕ × Bytes)
unfolding at
typed_record is_v2 line =
    if not is_v2
    then some (b'S', line)
    else if ltb (length line) 3 || not (nat_beq (at line 1) 32)
    then none
    else some (at line 0, drop 2 line)

-- A record's fields: the encoded key, the expiry and the rest.
pub record Fields : Type 0 where
  pub enc_key : Bytes
  pub expiry_str : Bytes
  pub rest : Bytes

unfoldable pub split_record : Bytes → Option Fields
unfolding find_byte substr
split_record r = elim (find_byte 32 r 0) [
  | none ↦ none
  | some s1 ↦ elim (find_byte 32 r (s1 + 1)) [
    | none ↦ none
    | some s2 ↦ some (record {
      enc_key = substr r 0 s1;
      expiry_str = substr r (s1 + 1) (s2 - s1 - 1);
      rest = drop (s2 + 1) r;
    })
  ]
]

-- A text up to its first blank, and behind it; all of it and nothing where there is no blank.
unfoldable pub cut_blank : Bytes → Bytes × Bytes
unfolding find_byte substr
cut_blank s = elim (find_byte 32 s 0) [
  | none ↦ (s, [])
  | some sep ↦ (substr s 0 sep, drop (sep + 1) s)
]

-- The loop over the elements of a list; `true` is a decoding error.
unfoldable pub push_elements : ℕ → Bytes → Bytes → Database → Bool × Database
unfolding cut_blank percent_decode
push_elements zero key remaining db = (false, db)
push_elements (suc count) key remaining db =
    let (enc_elem, rest) = cut_blank remaining in
    elim (percent_decode enc_elem) [
      | none ↦ (true, db)
      | some e ↦ push_elements count key rest (rpush key e db).1
    ]

-- `if (expiry_ms != -1) db.expire_at(key, expiry_ms);`
unfoldable pub restore_expiry : Bytes → ℤ → Database → Database
unfolding expire_at
restore_expiry key expiry_ms db =
    if eqb_ℤ expiry_ms (negsuc 0) then db else expire_at key expiry_ms db

unfoldable pub load_string : Bytes → ℤ → Bytes → ℕ × Database → Outcome (ℕ × Database)
unfolding percent_decode set restore_expiry
load_string key expiry_ms rest (loaded, db) = elim (percent_decode rest) [
  | none ↦ ok (loaded, db)
  | some value ↦ do db' ← set key value db; ok (suc loaded, restore_expiry key expiry_ms db')
]

abbrev positive_part : ℤ → ℕ
positive_part (pos n) = n
positive_part (negsuc n) = 0

unfoldable pub load_list : Bytes → ℤ → Bytes → ℕ × Database → ℕ × Database
unfolding cut_blank push_elements restore_expiry del stoi
load_list key expiry_ms rest (loaded, db) =
    let (count_str, elems) = cut_blank rest in
    elim (stoi count_str) [
      | none ↦ (loaded, db)
      | some n ↦ elim (positive_part n) [
        | zero ↦ (loaded, db)
        | suc count ↦
            let (decode_error, db') = push_elements (suc count) key elems db in
            if decode_error
            then (loaded, (del key db').1)
            else (suc loaded, restore_expiry key expiry_ms db')
      ]
    ]

-- The part of the loop's body behind the split, on the time of the load.
unfoldable pub load_fields : ℤ → ℕ → Fields → ℕ × Database → Outcome (ℕ × Database)
unfolding percent_decode stoll load_string load_list
load_fields now type_ch f s = elim (percent_decode f.enc_key) [
  | none ↦ ok s
  | some key ↦ elim (stoll f.expiry_str) [
    | none ↦ ok s
    | some expiry_ms ↦
        if not (eqb_ℤ expiry_ms (negsuc 0)) && leb_ℤ expiry_ms now
        then ok s
        else if nat_beq type_ch b'S'
        then load_string key expiry_ms f.rest s
        else if nat_beq type_ch b'L'
        then ok (load_list key expiry_ms f.rest s)
        else ok s
  ]
]

unfoldable pub load_line : ℤ → Bool → Bytes → ℕ × Database → Outcome (ℕ × Database)
unfolding typed_record split_record load_fields
load_line now is_v2 line s = elim (typed_record is_v2 line) [
  | none ↦ ok s
  | some (type_ch, r) ↦ elim (split_record r) [ none ↦ ok s | some f ↦ load_fields now type_ch f s ]
]

-- The loop over the lines; the Boolean is `found_footer`.
unfoldable pub load_lines : ℤ → Bool → List Bytes → ℕ × Database → Outcome (Bool × (ℕ × Database))
unfolding load_line strip_cr
load_lines now is_v2 [] s = ok (false, s)
load_lines now is_v2 (l ∷ ls) s =
    let line = strip_cr l in
    elim (bytes_beq line footer) [
      | true ↦ ok (true, s)
      | false ↦ elim (is_empty line) [
        | true ↦ load_lines now is_v2 ls s
        | false ↦ do s' ← load_line now is_v2 line s; load_lines now is_v2 ls s'
      ]
    ]

unfoldable pub load_from : ℤ → Bool → List Bytes → Database → Outcome (LoadResult × Database)
unfolding load_lines
load_from now is_v2 ls db = do
  (found_footer, (loaded, db')) ← load_lines now is_v2 ls (0, db)
  ok (
    record {
      success = true;
      keys_loaded = loaded;
      error =
          if found_footer
          then []
          else codes "File truncated: EOF marker not found. Partial load completed.";
    },
    db',
  )

abbrev failure : Bytes → LoadResult
failure e = record { success = false; keys_loaded = 0; error = e }

-- `load` on what the path holds, if it can be opened.
unfoldable pub load : ℤ → Option Bytes → Database → Outcome (LoadResult × Database)
unfolding load_from lines strip_cr
load now none db = ok (record { success = true; keys_loaded = 0; error = [] }, db)
load now (some text) db = elim (lines text) [
  | [] ↦ ok (failure (codes "File is empty or unreadable."), db)
  | l ∷ ls ↦
      let line = strip_cr l in
      if bytes_beq line header
      then load_from now true ls db
      else if bytes_beq line header_v1
      then load_from now false ls db
      else ok (
        failure (
            codes
              "Unknown file format. Expected 'REDIS-CLONE-RDB v2' or 'REDIS-CLONE-RDB v1', got: '"
            ++ (line ++ codes "'")),
        db,
      )
]
