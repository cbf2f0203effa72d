-- ===== src/Replication/Stream.antt =====
-- src/replication.cpp: what a leader writes to its replicas.
use velo_kv.Prelude.{
  List, [], ◌∷◌, ◌++◌, Bytes, codes, ℤ, length, nat_beq, if◌then◌else◌, ◌≡◌, refl, ap,
}
use velo_kv.Db.{Database, none_type, string_type, list_type, SnapshotEntry, snapshot}
use velo_kv.Text.Decimal.{decimal, to_string}
use velo_kv.Text.Percent.{percent_encode, encode_byte}
use velo_kv.Text.Upper.{to_upper}
use velo_kv.Resp.{Command, crlf}
use velo_kv.Persistence.{space, element_fields}

-- `encode` of the class, which has its own copy of the table of src/persistence.cpp.
unfoldable pub encode : Bytes → Bytes
encode [] = []
encode (c ∷ s) =
    (if nat_beq c b'%'
      then codes "%25"
      else if nat_beq c 32
      then codes "%20"
      else if nat_beq c 13
      then codes "%0D"
      else if nat_beq c 10
      then codes "%0A"
      else c ∷ [])
    ++ encode s

-- It is the encoding of the snapshot file.
encode-percent_encode : (s : Bytes) → encode s ≡ percent_encode s
unfolding encode percent_encode encode_byte
encode-percent_encode [] = refl
encode-percent_encode (c ∷ s) = ap (λ t. encode_byte c ++ t) (encode-percent_encode s)

-- `encode_command`, behind the name.
unfoldable pub encode_args : List Bytes → Bytes
unfolding percent_encode
encode_args [] = []
encode_args (a ∷ args) = space ++ (percent_encode a ++ encode_args args)

unfoldable pub encode_command : Command → Bytes
unfolding encode_args to_upper
encode_command [] = crlf
encode_command (name ∷ args) = percent_encode (to_upper name) ++ (encode_args args ++ crlf)

-- The line of an entry in the full sync.
unfoldable pub sync_line : SnapshotEntry → Bytes
unfolding percent_encode to_string decimal element_fields
sync_line e = elim e.type [
  | string_type ↦
      codes "REPLSET "
      ++ (percent_encode e.key
          ++ (space ++ (percent_encode e.str_value ++ (space ++ (to_string e.expiry_ms ++ crlf)))))
  | list_type ↦
      codes "REPLLIST "
      ++ (percent_encode e.key
          ++ (space
              ++ (to_string e.expiry_ms
                  ++ (space
                      ++ (decimal (length e.list_value)
                          ++ (element_fields e.list_value ++ crlf))))))
  | none_type ↦ []
]

unfoldable pub sync_lines : List SnapshotEntry → Bytes
unfolding sync_line
sync_lines [] = []
sync_lines (e ∷ es) = sync_line e ++ sync_lines es

unfoldable pub build_full_sync : ℤ → Database → Bytes
unfolding sync_lines snapshot
build_full_sync now db =
    codes "+FULLSYNC" ++ (crlf ++ (sync_lines (snapshot now db) ++ (codes "+FULLSYNCDONE" ++ crlf)))
