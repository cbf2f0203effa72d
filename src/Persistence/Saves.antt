-- ===== src/Persistence/Saves.antt =====
-- src/persistence.cpp: what `save` leaves on the disk.
use velo_kv.Prelude.{
  ◌≡◌, ◌≢◌, ◌∙◌, ◌&&◌, ap, Bool, true, false, some, none, Bytes, ℤ, codes, length, length-append,
  bytes_beq, bytes_eq, bytes_beq_iff, arith,
}
use velo_kv.Map.{find, insert, erase, find-insert, find-erase}
use velo_kv.Db.{Database}
use velo_kv.Persistence.{Disk, SaveFaults, closed_text, tmp_path, file_text, save}

pub tmp_path_differs : (path : Bytes) → tmp_path path ≢ path
tmp_path_differs path e =
    let longer = length-append path (codes ".tmp") in
    let same = ap (λ p. length p) e in absurd (omega (arith, longer, same))

-- What the disk holds after `save` said whether it succeeded.
pub record Saves (faults : SaveFaults) (path text : Bytes) (disk : Disk) (r : Bool × Disk)
    : Type 0 where
  pub said : r.0 ≡ (faults.opens && (faults.writes && faults.renames))
  pub stored : r.0 ≡ true → find path r.1 ≡ some (closed_text faults.cut text)
  pub kept : r.0 ≡ false → find path r.1 ≡ find path disk
  pub no_temporary : r.0 ≡ true → find (tmp_path path) r.1 ≡ none
  pub removed :
      r.0 ≡ false → faults.opens ≡ true → faults.removes ≡ true → find (tmp_path path) r.1 ≡ none
  pub others : (p : Bytes) → p ≢ path → p ≢ tmp_path path → find p r.1 ≡ find p disk

-- `save` returns true exactly where the open, the writes before its check and the rename succeed,
-- whether or not the close could write the rest of the text. Where it returns true, the path has
-- as much of the new text as was written by the close, and there is no temporary file; where it
-- returns false, the path has what it had, and a temporary file that was opened is gone if it could
-- be removed. Every other file is as it was.
pub save-Saves :
    (faults : SaveFaults) (now : ℤ) (db : Database) (path : Bytes) (disk : Disk)
    → Saves faults path (file_text now db) disk (save faults now db path disk)
unfolding save
save-Saves faults now db path disk =
    let tmp = tmp_path path in
    let text = closed_text faults.cut (file_text now db) in
    let written = insert tmp text disk in
    let differs : bytes_beq tmp path ≡ false =
      ground (arith, bytes_beq_iff tmp path, tmp_path_differs path) in
    let differs' : bytes_beq path tmp ≡ false =
      ground (arith, bytes_beq_iff tmp path, bytes_beq_iff path tmp, tmp_path_differs path) in
    record {
      said = ground arith;
      stored = λ h.
          ground (arith, find-insert path path text (erase tmp written), bytes_beq_iff path path);
      kept =
          λ h. ground (arith, differs, find-erase tmp path written, find-insert tmp path text disk);
      no_temporary = λ h. ground (
        arith,
        differs',
        find-insert path tmp text (erase tmp written),
        find-erase tmp tmp written,
        bytes_beq_iff tmp tmp,
      );
      removed = λ h opened gone. ground (arith, find-erase tmp tmp written, bytes_beq_iff tmp tmp);
      others = λ p np nt. ground (
        arith,
        find-insert path p text (erase tmp written),
        find-erase tmp p written,
        find-insert tmp p text disk,
        bytes_beq_iff path p,
        bytes_beq_iff tmp p,
      );
    }

-- The close could write the rest of the text.
pub save_whole :
    (faults : SaveFaults) (now : ℤ) (db : Database) (path : Bytes) (disk : Disk)
    → (save faults now db path disk).0 ≡ true
    → faults.cut ≡ none
    → find path (save faults now db path disk).1 ≡ some (file_text now db)
save_whole faults now db path disk saved closed =
    (save-Saves faults now db path disk).stored saved
    ∙ ap (λ c. some (closed_text c (file_text now db))) closed
