-- ===== src/Persistence/Record.antt =====
-- src/persistence.cpp: `load` on the lines that `save` wrote.
use velo_kv.Prelude.{
  length-append, ℕ, suc, ◌<◌, ◌≡◌, ◌∙◌, refl, true, false, some, List, [], ◌∷◌, ◌++◌, Bytes, ℤ, pos,
  length, is_empty, bytes_eq, bytes_beq, in_range, int64_bound, int_bound, Outcome, ok, ◌>>=◌,
  Outcome-cases, inl, inr, arith, All, ◌⊎◌,
}
use velo_kv.Db.{Database, SnapshotEntry, KeyType, string_type, list_type, none_type, set, rpush}
use velo_kv.Text.Percent.{percent_encode, percent_decode}
use velo_kv.Text.Percent.RoundTrip.{
  percent_encode-All, decode-percent_encode, percent_decode-eq-decode,
}
use velo_kv.Text.Decimal.{decimal, to_string, stoi, stoll}
use velo_kv.Text.Decimal.RoundTrip.{parse_int-to_string}
use velo_kv.Text.Find.{at}
use velo_kv.Persistence.{footer, element_fields, entry_line}
use velo_kv.Persistence.Load.{
  typed_record, Fields, push_elements, restore_expiry, load_string, load_list, load_fields,
  load_line,
}
use velo_kv.Persistence.Restore.{IsEntry, rpush_all, restore_entry}
use velo_kv.Persistence.Entries.{overdue}
use velo_kv.Persistence.Fields.{
  decimal-IsPlain, to_string-IsPlain, IsInline, plain-IsInline, IsInline-append,
  split_record-fields, cut_blank-field, elements_text, cut_blank-elements_text,
  element_fields-IsInline,
}

pub percent_decode-percent_encode : (s : Bytes) → percent_decode (percent_encode s) ≡ some s
percent_decode-percent_encode s =
    percent_decode-eq-decode (percent_encode s) ∙ decode-percent_encode s

pub stoll-to_string : (a : ℤ) → in_range int64_bound a ≡ true → stoll (to_string a) ≡ some a
unfolding stoll
stoll-to_string a h = parse_int-to_string int64_bound a h

pub stoi-decimal : (n : ℕ) → n < int_bound → stoi (decimal n) ≡ some (pos n)
unfolding stoi
stoi-decimal n h =
    unfold to_string in parse_int-to_string int_bound (pos n) (unfold in_range in ground arith)

push_elements-elements_text :
    (e : Bytes) (es : List Bytes) (key : Bytes) (db : Database)
    → push_elements (suc (length es)) key (elements_text e es) db
      ≡ (false, rpush_all key (e ∷ es) db)
unfolding push_elements rpush_all
push_elements-elements_text e [] key db =
    ground (arith, cut_blank-elements_text e [], percent_decode-percent_encode e)
push_elements-elements_text e (f ∷ fs) key db = ground (
  arith,
  cut_blank-elements_text e (f ∷ fs),
  percent_decode-percent_encode e,
  push_elements-elements_text f fs key (rpush key e db).1,
)

-- A deadline and a count in the range of the types that they are read with.
abbrev pub FitsInts : SnapshotEntry → Type 0
FitsInts e = (in_range int64_bound e.expiry_ms ≡ true) × (length e.list_value < int_bound)

pub record IsSavable (e : SnapshotEntry) : Type 0 where
  pub entry : IsEntry e
  pub deadline : in_range int64_bound e.expiry_ms ≡ true
  pub count : length e.list_value < int_bound

pub All-IsSavable : (es : List SnapshotEntry) → All IsEntry es → All FitsInts es → All IsSavable es
All-IsSavable [] h h' = tt
All-IsSavable (e ∷ es) (entry, h) ((deadline, count), h') =
    (record { entry = entry; deadline = deadline; count = count }, All-IsSavable es h h')

-- What the file holds behind the deadline.
unfoldable pub payload : SnapshotEntry → Bytes
unfolding percent_encode decimal element_fields
payload e = elim e.type [
  | string_type ↦ percent_encode e.str_value
  | _ ↦ decimal (length e.list_value) ++ element_fields e.list_value
]

abbrev pub char_of : KeyType → ℕ
char_of string_type = b'S'
char_of none_type = b'L'
char_of list_type = b'L'

abbrev pub type_char : SnapshotEntry → ℕ
type_char e = char_of e.type

abbrev pub fields_text : SnapshotEntry → Bytes
fields_text e = percent_encode e.key ++ 32 ∷ (to_string e.expiry_ms ++ 32 ∷ payload e)

entry_line-payload : (e : SnapshotEntry) → entry_line e ≡ type_char e ∷ 32 ∷ fields_text e
unfolding entry_line payload
entry_line-payload e = by_type e.type refl
  where
    by_type : (t : KeyType) → e.type ≡ t → entry_line e ≡ type_char e ∷ 32 ∷ fields_text e
    by_type string_type h = rw (h, entry_line) refl
    by_type none_type h = rw (h, entry_line) refl
    by_type list_type h = rw (h, entry_line) refl

load_string-payload :
    (key v : Bytes) (ms : ℤ) (n : ℕ) (db : Database)
    → load_string key ms (percent_encode v) (n, db)
      ≡ (set key v db >>= λ d. ok (suc n, restore_expiry key ms d))
unfolding load_string
load_string-payload key v ms n db = ground (arith, percent_decode-percent_encode v)

load_list-payload :
    (key x : Bytes) (l : List Bytes) (ms : ℤ) (n : ℕ) (db : Database)
    → suc (length l) < int_bound
    → load_list key ms (decimal (suc (length l)) ++ 32 ∷ elements_text x l) (n, db)
      ≡ (suc n, restore_expiry key ms (rpush_all key (x ∷ l) db))
unfolding load_list
load_list-payload key x l ms n db few = ground (
  arith,
  cut_blank-field (decimal (suc (length l))) (elements_text x l) (decimal-IsPlain (suc (length l))),
  stoi-decimal (suc (length l)) few,
  push_elements-elements_text x l key db,
)

-- The rest of the loop's body, on an entry.
abbrev pub counted : ℕ → Outcome Database → Outcome (ℕ × Database)
counted n o = o >>= λ d. ok (suc n, d)

abbrev pub record_fields : SnapshotEntry → Fields
record_fields e = record {
  enc_key = percent_encode e.key;
  expiry_str = to_string e.expiry_ms;
  rest = payload e;
}

pub load_fields_live :
    (now : ℤ) (e : SnapshotEntry) (n : ℕ) (db : Database)
    → IsSavable e
    → overdue now e.expiry_ms ≡ false
    → load_fields now (type_char e) (record_fields e) (n, db) ≡ counted n (restore_entry e db)
unfolding load_fields payload restore_entry
load_fields_live now e n db good live = elim good.entry.typed [
  | inl string ↦ elim (Outcome-cases (set e.key e.str_value db)) [
    | inl stuck ↦ ground (
      arith,
      percent_decode-percent_encode e.key,
      stoll-to_string e.expiry_ms good.deadline,
      load_string-payload e.key e.str_value e.expiry_ms n db,
    )
    | inr (d, made) ↦ ground (
      arith,
      percent_decode-percent_encode e.key,
      stoll-to_string e.expiry_ms good.deadline,
      load_string-payload e.key e.str_value e.expiry_ms n db,
    )
  ]
  | inr (listed, full) ↦ ground (
    arith,
    percent_decode-percent_encode e.key,
    stoll-to_string e.expiry_ms good.deadline,
    load_full_list e.list_value full good.count,
  )
]
  where
    load_full_list :
        (l : List Bytes)
        → is_empty l ≡ false
        → length l < int_bound
        → load_list e.key e.expiry_ms (decimal (length l) ++ element_fields l) (n, db)
          ≡ (suc n, restore_expiry e.key e.expiry_ms (rpush_all e.key l db))
    load_full_list [] h few = absurd (ground arith)
    load_full_list (x ∷ l) h few =
        unfold element_fields elements_text in load_list-payload e.key x l e.expiry_ms n db few

pub load_fields_late :
    (now : ℤ) (e : SnapshotEntry) (s : ℕ × Database)
    → IsSavable e
    → overdue now e.expiry_ms ≡ true
    → load_fields now (type_char e) (record_fields e) s ≡ ok s
unfolding load_fields
load_fields_late now e s good late =
    ground (arith, percent_decode-percent_encode e.key, stoll-to_string e.expiry_ms good.deadline)

pub load_line-entry_line :
    (now : ℤ) (e : SnapshotEntry) (s : ℕ × Database)
    → load_line now true (entry_line e) s ≡ load_fields now (type_char e) (record_fields e) s
unfolding load_line typed_record at
load_line-entry_line now e s =
    let split =
      split_record-fields (percent_encode e.key) (to_string e.expiry_ms) (payload e)
        (percent_encode-All e.key) (to_string-IsPlain e.expiry_ms) in
    let long =
      length-append (percent_encode e.key) (32 ∷ (to_string e.expiry_ms ++ 32 ∷ payload e)) in
    rw (entry_line-payload e) (ground (arith, split, long))

payload-IsInline : (e : SnapshotEntry) → IsInline (payload e)
unfolding payload
payload-IsInline e = by_type e.type
  where
    listed : IsInline (decimal (length e.list_value) ++ element_fields e.list_value)
    listed =
        IsInline-append (decimal (length e.list_value)) (element_fields e.list_value)
          (plain-IsInline (decimal (length e.list_value)) (decimal-IsPlain (length e.list_value)))
          (element_fields-IsInline e.list_value)

    by_type :
        (t : KeyType)
        → IsInline (elim t [
          | string_type ↦ percent_encode e.str_value
          | _ ↦ decimal (length e.list_value) ++ element_fields e.list_value
        ])
    by_type string_type =
        plain-IsInline (percent_encode e.str_value) (percent_encode-All e.str_value)
    by_type none_type = listed
    by_type list_type = listed

fields_text-IsInline : (e : SnapshotEntry) → IsInline (fields_text e)
fields_text-IsInline e =
    IsInline-append (percent_encode e.key) (32 ∷ (to_string e.expiry_ms ++ 32 ∷ payload e))
      (plain-IsInline (percent_encode e.key) (percent_encode-All e.key))
      (
        ground arith,
        IsInline-append (to_string e.expiry_ms) (32 ∷ payload e)
            (plain-IsInline (to_string e.expiry_ms) (to_string-IsPlain e.expiry_ms))
            (ground arith, payload-IsInline e),
      )

char_of-cases : (t : KeyType) → (char_of t ≡ b'S') ⊎ (char_of t ≡ b'L')
char_of-cases string_type = inl refl
char_of-cases none_type = inr refl
char_of-cases list_type = inr refl

pub entry_line-IsInline : (e : SnapshotEntry) → IsInline (entry_line e)
entry_line-IsInline e =
    rw (entry_line-payload e)
      (ground (arith, char_of-cases e.type), (ground arith, fields_text-IsInline e))

pub footer_differs : (e : SnapshotEntry) → bytes_beq (entry_line e) footer ≡ false
unfolding bytes_beq
footer_differs e = rw (entry_line-payload e) (ground (arith, char_of-cases e.type))

pub entry_line_full : (e : SnapshotEntry) → is_empty (entry_line e) ≡ false
entry_line_full e = rw (entry_line-payload e) refl
