-- ===== src/Replication/Sync.antt =====
-- src/replication.cpp: the line of an entry in the full sync, and what the replica makes of it.
use velo_kv.Prelude.{
  Bool, ℕ, suc, ◌≤◌, ◌<◌, ◌≡◌, ◌⊎◌, refl, true, false, some, List, [], ◌∷◌, ◌++◌, append_assoc,
  Bytes, codes, ℤ, pos, negsuc, length, is_empty, bytes_eq, bytes_beq, in_range, int64_bound,
  int_bound, map, Outcome, ok, ◌>>=◌, Outcome-cases, inl, inr, arith, All,
}
use velo_kv.Map.{erase_absent}
use velo_kv.Db.{
  Database, SnapshotEntry, KeyType, string_type, list_type, none_type, set, del, rpush, erase_key,
}
use velo_kv.Db.Wf.{IsWf}
use velo_kv.Text.Percent.{percent_encode, encode_byte}
use velo_kv.Text.Percent.RoundTrip.{decode-percent_encode}
use velo_kv.Text.Decimal.{decimal, to_string, stoi, stoll}
use velo_kv.Text.Decimal.RoundTrip.{IsDigit, decimal-All, decimal_full}
use velo_kv.Text.Upper.{to_upper, upper}
use velo_kv.Resp.{crlf}
use velo_kv.Persistence.{element_fields}
use velo_kv.Persistence.Load.{restore_expiry}
use velo_kv.Persistence.Record.{stoll-to_string, stoi-decimal, FitsInts}
use velo_kv.Persistence.Restore.{IsEntry, IsAbsent, absent_untimed, rpush_all, restore_entry}
use velo_kv.Replication.Stream.{encode_args, sync_line}
use velo_kv.Replication.Apply.{
  ReplicaState, read_string, apply_replset, push_tokens, restore_list, apply_repllist, apply_tokens,
  apply_leader_line,
}
use velo_kv.Replication.RoundTrip.{IsArg, IsTabless, IsToken, tokenise_word}

-- A digit or a minus.
abbrev IsNumeric : ℕ → Type 0
IsNumeric c = (45 ≤ c) × (c ≤ 57)

IsNumeric-digits : (s : Bytes) → All IsDigit s → All IsNumeric s
IsNumeric-digits [] h = tt
IsNumeric-digits (c ∷ s) (h, hs) = (omega arith, IsNumeric-digits s hs)

IsNumeric-to_string : (a : ℤ) → All IsNumeric (to_string a)
unfolding to_string
IsNumeric-to_string (pos n) = IsNumeric-digits (decimal n) (decimal-All n)
IsNumeric-to_string (negsuc n) =
    (omega arith, IsNumeric-digits (decimal (suc n)) (decimal-All (suc n)))

percent_encode_numeric : (s : Bytes) → All IsNumeric s → percent_encode s ≡ s
unfolding percent_encode encode_byte
percent_encode_numeric [] h = refl
percent_encode_numeric (c ∷ s) (h, hs) = ground (arith, percent_encode_numeric s hs)

IsTabless-numeric : (s : Bytes) → All IsNumeric s → All IsTabless s
IsTabless-numeric [] h = tt
IsTabless-numeric (c ∷ s) (h, hs) = (omega arith, IsTabless-numeric s hs)

to_string_full : (a : ℤ) → is_empty (to_string a) ≡ false
unfolding to_string
to_string_full (pos n) = decimal_full n
to_string_full (negsuc n) = refl

pub to_string-IsArg : (a : ℤ) → IsArg (to_string a)
to_string-IsArg a = (to_string_full a, IsTabless-numeric (to_string a) (IsNumeric-to_string a))

pub decimal-IsArg : (n : ℕ) → IsArg (decimal n)
decimal-IsArg n =
    (decimal_full n, IsTabless-numeric (decimal n) (IsNumeric-digits (decimal n) (decimal-All n)))

pub element_fields-encode_args : (es : List Bytes) → element_fields es ≡ encode_args es
unfolding element_fields encode_args
element_fields-encode_args [] = refl
element_fields-encode_args (e ∷ es) = rw (element_fields-encode_args es) refl

-- The words of the line.
abbrev pub word_of : KeyType → Bytes
word_of string_type = codes "REPLSET"
word_of list_type = codes "REPLLIST"
word_of none_type = []

abbrev pub args_of : KeyType → SnapshotEntry → List Bytes
args_of string_type e = e.key ∷ e.str_value ∷ to_string e.expiry_ms ∷ []
args_of list_type e = e.key ∷ to_string e.expiry_ms ∷ decimal (length e.list_value) ∷ e.list_value
args_of none_type e = []

-- The line without its end.
unfoldable pub sync_text : SnapshotEntry → Bytes
unfolding encode_args to_string decimal
sync_text e = word_of e.type ++ encode_args (args_of e.type e)

-- An entry that the stream carries whole.
pub record IsSyncable (e : SnapshotEntry) : Type 0 where
  pub entry : IsEntry e
  pub fits : FitsInts e
  pub key : IsArg e.key
  pub value : e.type ≡ string_type → IsArg e.str_value
  pub elements : All IsArg e.list_value

sync_line-sync_text :
    (e : SnapshotEntry)
    → (e.type ≡ string_type) ⊎ (e.type ≡ list_type)
    → sync_line e ≡ sync_text e ++ crlf
unfolding sync_line sync_text encode_args
sync_line-sync_text e typed = elim typed [
  | inl string ↦
      rw (string, sync_line, sync_text)
        (simp (
          append_assoc,
          percent_encode_numeric (to_string e.expiry_ms) (IsNumeric-to_string e.expiry_ms),
        ))
  | inr listed ↦
      rw (listed, sync_line, sync_text)
        (simp (
          append_assoc,
          percent_encode_numeric (to_string e.expiry_ms) (IsNumeric-to_string e.expiry_ms),
          percent_encode_numeric (decimal (length e.list_value)) (
              IsNumeric-digits (decimal (length e.list_value)) (decimal-All (length e.list_value))),
          element_fields-encode_args e.list_value,
        ))
]

pub stoll_encoded :
    (a : ℤ) → in_range int64_bound a ≡ true → stoll (percent_encode (to_string a)) ≡ some a
stoll_encoded a h =
    rw (percent_encode_numeric (to_string a) (IsNumeric-to_string a)) (stoll-to_string a h)

pub stoi_encoded : (n : ℕ) → n < int_bound → stoi (percent_encode (decimal n)) ≡ some (pos n)
stoi_encoded n h =
    rw (percent_encode_numeric (decimal n) (IsNumeric-digits (decimal n) (decimal-All n)))
      (stoi-decimal n h)

pub push_tokens-rpush_all :
    (es : List Bytes) (key : Bytes) (db : Database)
    → push_tokens (length es) (map percent_encode es) key db ≡ (false, rpush_all key es db)
unfolding push_tokens rpush_all
push_tokens-rpush_all [] key db = refl
push_tokens-rpush_all (e ∷ es) key db =
    ground (arith, decode-percent_encode e, push_tokens-rpush_all es key (rpush key e db).1)

del_absent : (key : Bytes) (db : Database) → IsWf db → IsAbsent key db → (del key db).1 ≡ db
unfolding del erase_key
del_absent key db w (s, l) =
    rw
      (
        erase_absent key db.string_store s,
        erase_absent key db.list_store l,
        erase_absent key db.expiry (absent_untimed key db w (s, l)),
      )
      refl

apply_replset-args :
    (word key value : Bytes) (ms : ℤ) (db : Database)
    → in_range int64_bound ms ≡ true
    → apply_replset (word ∷ map percent_encode (key ∷ value ∷ to_string ms ∷ [])) db
      ≡ (set key value db >>= λ d. ok (true, restore_expiry key ms d))
unfolding apply_replset read_string
apply_replset-args word key value ms db fits =
    ground (arith, decode-percent_encode key, decode-percent_encode value, stoll_encoded ms fits)

apply_repllist-args :
    (word key : Bytes) (ms : ℤ) (l : List Bytes) (db : Database)
    → in_range int64_bound ms ≡ true
    → length l < int_bound
    → IsWf db
    → IsAbsent key db
    → apply_repllist (word ∷ map percent_encode (key ∷ to_string ms ∷ decimal (length l) ∷ l)) db
      ≡ (true, restore_expiry key ms (rpush_all key l db))
unfolding apply_repllist restore_list
apply_repllist-args word key ms l db fits few w free = ground (
  arith,
  decode-percent_encode key,
  stoll_encoded ms fits,
  stoi_encoded (length l) few,
  del_absent key db w free,
  push_tokens-rpush_all l key db,
)

-- What a line does to the state of the replica.
abbrev pub synced : ReplicaState → Outcome Database → Outcome (Bool × ReplicaState)
synced s o = o >>= λ d. ok (true, record s { db = d })

pub letters-IsToken : (s : Bytes) → All (λ c. 33 ≤ c) s → IsToken s
letters-IsToken [] h = tt
letters-IsToken (c ∷ s) (h, hs) = (ground arith, letters-IsToken s hs)

pub apply_replset_line :
    (clock : ℕ → ℤ) (e : SnapshotEntry) (s : ReplicaState)
    → IsSyncable e
    → e.type ≡ string_type
    → apply_leader_line clock (sync_text e) s ≡ synced s (restore_entry e s.db)
unfolding apply_leader_line apply_tokens sync_text restore_entry bytes_beq to_upper upper
apply_replset_line clock e s good string =
    let args = e.key ∷ e.str_value ∷ to_string e.expiry_ms ∷ [] in
    let tokens =
      tokenise_word (codes "REPLSET") args refl (letters-IsToken (codes "REPLSET") (omega arith))
        (good.key, (good.value string, (to_string-IsArg e.expiry_ms, tt))) in
    rw
      (
        string,
        sync_text,
        restore_entry,
        tokens,
        apply_replset-args (codes "REPLSET") e.key e.str_value e.expiry_ms s.db good.fits.0,
      )
      (elim (Outcome-cases (set e.key e.str_value s.db)) [
        | inl stuck ↦ rw stuck refl
        | inr (d, made) ↦ rw made refl
      ])

apply_repllist_line :
    (clock : ℕ → ℤ) (e : SnapshotEntry) (s : ReplicaState)
    → IsSyncable e
    → e.type ≡ list_type
    → IsWf s.db
    → IsAbsent e.key s.db
    → apply_leader_line clock (sync_text e) s ≡ synced s (restore_entry e s.db)
unfolding apply_leader_line apply_tokens sync_text restore_entry bytes_beq to_upper upper
apply_repllist_line clock e s good listed w free =
    let args = e.key ∷ to_string e.expiry_ms ∷ decimal (length e.list_value) ∷ e.list_value in
    let tokens =
      tokenise_word (codes "REPLLIST") args refl (letters-IsToken (codes "REPLLIST") (omega arith))
        (
          good.key,
          (to_string-IsArg e.expiry_ms, (decimal-IsArg (length e.list_value), good.elements)),
        ) in
    rw
      (
        listed,
        sync_text,
        restore_entry,
        tokens,
        apply_repllist-args (codes "REPLLIST") e.key e.expiry_ms e.list_value s.db good.fits.0
            good.fits.1 w free,
      )
      refl

pub typed_entry : (e : SnapshotEntry) → IsEntry e → (e.type ≡ string_type) ⊎ (e.type ≡ list_type)
typed_entry e good = elim good.typed [ inl string ↦ inl string | inr (listed, full) ↦ inr listed ]

pub apply_leader_line-sync_text :
    (clock : ℕ → ℤ) (e : SnapshotEntry) (s : ReplicaState)
    → IsSyncable e
    → IsWf s.db
    → IsAbsent e.key s.db
    → apply_leader_line clock (sync_text e) s ≡ synced s (restore_entry e s.db)
apply_leader_line-sync_text clock e s good w free = elim (typed_entry e good.entry) [
  | inl string ↦ apply_replset_line clock e s good string
  | inr listed ↦ apply_repllist_line clock e s good listed w free
]

pub sync_line_ended : (e : SnapshotEntry) → IsSyncable e → sync_line e ≡ sync_text e ++ crlf
sync_line_ended e good = sync_line-sync_text e (typed_entry e good.entry)
