-- ===== src/Persistence.antt =====
-- src/persistence.hpp and src/persistence.cpp: `PersistenceManager`. The file system is a map from
-- paths to contents, with the outcome of each call that can fail given from outside; the clock is a
-- reading handed in. What is only logged is left out.
pub mod Load
pub mod Restore
pub mod Restored
pub mod Entries
pub mod Record
pub mod Fields
pub mod Snapshot
pub mod RoundTrip
pub mod Saves
pub mod Full
use velo_kv.Prelude.{
  ℕ, zero, suc, ◌+◌, ◌-◌, Bool, true, false, not, ◌&&◌, ◌||◌, Option, none, some, List, [], ◌∷◌,
  ◌++◌, Bytes, codes, ℤ, pos, negsuc, leb_ℤ, eqb_ℤ, Outcome, ok, ◌>>=◌, nat_beq, ltb, length,
  is_empty, take, drop, bytes_eq, bytes_beq, if◌then◌else◌,
}
use velo_kv.Map.{Map, erase, insert}
use velo_kv.Db.{Database, string_type, SnapshotEntry, snapshot, set, del, rpush, expire_at}
use velo_kv.Text.Decimal.{decimal, to_string, stoi, stoll}
use velo_kv.Text.Percent.{percent_encode, percent_decode}
use velo_kv.Text.Find.{find_byte, substr, at}
use velo_kv.Resp.{strip_cr}

abbrev pub header : Bytes
header = codes "REDIS-CLONE-RDB v2"

abbrev pub header_v1 : Bytes
header_v1 = codes "REDIS-CLONE-RDB v1"

abbrev pub footer : Bytes
footer = codes "EOF"

abbrev pub newline : Bytes
newline = 10 ∷ []

abbrev pub space : Bytes
space = 32 ∷ []

-- The fields of a list record: a blank and the encoded element, for each.
unfoldable pub element_fields : List Bytes → Bytes
unfolding percent_encode
element_fields [] = []
element_fields (e ∷ es) = space ++ (percent_encode e ++ element_fields es)

-- A record without its line end.
unfoldable pub entry_line : SnapshotEntry → Bytes
unfolding percent_encode to_string decimal element_fields
entry_line e = elim e.type [
  | string_type ↦
      codes "S "
      ++ (percent_encode e.key
          ++ (space ++ (to_string e.expiry_ms ++ (space ++ percent_encode e.str_value))))
  | _ ↦
      codes "L "
      ++ (percent_encode e.key
          ++ (space
              ++ (to_string e.expiry_ms
                  ++ (space ++ (decimal (length e.list_value) ++ element_fields e.list_value)))))
]

unfoldable pub entry_lines : List SnapshotEntry → Bytes
unfolding entry_line
entry_lines [] = []
entry_lines (e ∷ es) = entry_line e ++ (newline ++ entry_lines es)

-- What `save` writes at a time.
unfoldable pub file_text : ℤ → Database → Bytes
unfolding entry_lines snapshot
file_text now db = header ++ (newline ++ (entry_lines (snapshot now db) ++ (footer ++ newline)))

abbrev pub Disk : Type 0
Disk = Map Bytes Bytes

-- What the system calls of one `save` return: the open, the writes before the check, the rename, and
-- the removal of the temporary file. The stream is buffered, and its `close`, whose result nothing
-- looks at, writes the rest: `cut` is how many bytes of the text the file has then, where not all are.
pub record SaveFaults : Type 0 where
  pub opens : Bool
  pub writes : Bool
  pub cut : Option ℕ
  pub renames : Bool
  pub removes : Bool

abbrev pub tmp_path : Bytes → Bytes
tmp_path path = path ++ codes ".tmp"

-- What is in the file once the stream is closed.
abbrev pub closed_text : Option ℕ → Bytes → Bytes
closed_text none text = text
closed_text (some n) text = take n text

-- `std::remove(tmp_path.c_str())`, whose result nothing looks at.
abbrev pub remove_tmp : SaveFaults → Bytes → Disk → Disk
remove_tmp faults path disk = if faults.removes then erase (tmp_path path) disk else disk

unfoldable pub save : SaveFaults → ℤ → Database → Bytes → Disk → Bool × Disk
unfolding file_text
save faults now db path disk =
    let text = closed_text faults.cut (file_text now db) in
    let written = insert (tmp_path path) text disk in
    if not faults.opens
    then (false, disk)
    else if not faults.writes
    then (false, remove_tmp faults path written)
    else if not faults.renames
    then (false, remove_tmp faults path written)
    else (true, insert path text (erase (tmp_path path) written))
