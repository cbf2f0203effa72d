-- ===== src/Persistence/RoundTrip.antt =====
-- src/persistence.cpp: `load` reads back what `save` wrote.
use velo_kv.Prelude.{
  Bool, back, ℕ, suc, ◌+◌, ◌≡◌, ◌∙◌, ap, refl, true, false, none, some, List, [], ◌∷◌, ◌++◌,
  append_assoc, Bytes, ℤ, pos, ◌≤ℤ◌, length, bytes_eq, bytes_beq, Outcome, ok, ◌>>=◌, Outcome-cases,
  Bool-cases, inl, inr, arith, All,
}
use native.Mathlib.Nat.{add-zero, zero-add, add-suc, suc-add}
use velo_kv.Map.{find}
use velo_kv.Db.{Database, empty, SnapshotEntry, snapshot}
use velo_kv.Db.Wf.{IsWf}
use velo_kv.Db.View.{view}
use velo_kv.Resp.{strip_cr}
use velo_kv.Persistence.Saves.{save_whole}
use velo_kv.Persistence.{
  SaveFaults, Disk, save, header, footer, newline, entry_line, entry_lines, file_text,
}
use velo_kv.Persistence.Load.{LoadResult, lines, load_line, load_lines, load_from, load}
use velo_kv.Persistence.Restore.{restore_entry, restore_entries}
use velo_kv.Persistence.Entries.{overdue, live_entries}
use velo_kv.Persistence.Fields.{lines-append, strip_cr_inline}
use velo_kv.Persistence.Record.{
  FitsInts, All-IsSavable, IsSavable, counted, load_fields_live, load_fields_late,
  load_line-entry_line, entry_line-IsInline, footer_differs, entry_line_full,
}
use velo_kv.Persistence.Snapshot.{snapshot-IsEntry, restore_entries-snapshot}

load_line_live :
    (now : ℤ) (e : SnapshotEntry) (n : ℕ) (db : Database)
    → IsSavable e
    → overdue now e.expiry_ms ≡ false
    → load_line now true (entry_line e) (n, db) ≡ counted n (restore_entry e db)
load_line_live now e n db good live =
    load_line-entry_line now e (n, db) ∙ load_fields_live now e n db good live

load_line_late :
    (now : ℤ) (e : SnapshotEntry) (s : ℕ × Database)
    → IsSavable e
    → overdue now e.expiry_ms ≡ true
    → load_line now true (entry_line e) s ≡ ok s
load_line_late now e s good late = load_line-entry_line now e s ∙ load_fields_late now e s good late

load_lines-cons :
    (now : ℤ) (e : SnapshotEntry) (ls : List Bytes) (s : ℕ × Database)
    → load_lines now true (entry_line e ∷ ls) s
      ≡ (load_line now true (entry_line e) s >>= load_lines now true ls)
unfolding load_lines
load_lines-cons now e ls s = ground (
  arith,
  strip_cr_inline (entry_line e) (entry_line-IsInline e),
  footer_differs e,
  entry_line_full e,
)

abbrev end_text : Bytes
end_text = footer ++ newline

lines-entry_lines :
    (e : SnapshotEntry) (es : List SnapshotEntry)
    → lines (entry_lines (e ∷ es) ++ end_text) ≡ entry_line e ∷ lines (entry_lines es ++ end_text)
unfolding entry_lines
lines-entry_lines e es =
    ap lines (append_assoc (entry_line e) (newline ++ entry_lines es) end_text)
    ∙ lines-append (entry_line e) (entry_lines es ++ end_text) (entry_line-IsInline e)

-- What the loop returns, from the entries that are restored.
abbrev finished : ℕ → Outcome Database → Outcome (Bool × (ℕ × Database))
finished n o = o >>= λ d. ok (true, (n, d))

load_lines-entry_lines :
    (now : ℤ) (es : List SnapshotEntry) (n : ℕ) (db : Database)
    → All IsSavable es
    → load_lines now true (lines (entry_lines es ++ end_text)) (n, db)
      ≡ finished (n + length (live_entries now es)) (restore_entries (live_entries now es) db)
unfolding live_entries restore_entries
load_lines-entry_lines now [] n db good =
    unfold entry_lines lines load_lines strip_cr bytes_beq back in rw add-zero refl
load_lines-entry_lines now (e ∷ es) n db (g, good) =
    ap (λ ls. load_lines now true ls (n, db)) (lines-entry_lines e es)
    ∙ load_lines-cons now e (lines (entry_lines es ++ end_text)) (n, db)
    ∙ elim (Bool-cases (overdue now e.expiry_ms)) [
      | inl late ↦
          rw (load_line_late now e (n, db) g late, late) (load_lines-entry_lines now es n db good)
      | inr live ↦
          rw (load_line_live now e n db g live, live)
            (elim (Outcome-cases (restore_entry e db)) [
              | inl stuck ↦ rw stuck refl
              | inr (d, made) ↦
                  rw (made, add-suc) (rw (← suc-add) (load_lines-entry_lines now es (suc n) d good))
            ])
    ]

lines-file_text :
    (now : ℤ) (db : Database)
    → lines (file_text now db) ≡ header ∷ lines (entry_lines (snapshot now db) ++ end_text)
unfolding file_text
lines-file_text now db =
    lines-append header (entry_lines (snapshot now db) ++ end_text) (omega arith)

load-header :
    (now : ℤ) (text : Bytes) (ls : List Bytes) (db : Database)
    → lines text ≡ header ∷ ls
    → load now (some text) db ≡ load_from now true ls db
unfolding load strip_cr back bytes_beq
load-header now text ls db h = rw (h, load) refl

load_from_found :
    (now : ℤ) (ls : List Bytes) (db db' : Database) (n : ℕ)
    → load_lines now true ls (0, db) ≡ ok (true, (n, db'))
    → load_from now true ls db ≡ ok (record { success = true; keys_loaded = n; error = [] }, db')
unfolding load_from
load_from_found now ls db db' n h = rw h refl

-- What the load of a database that was saved at `now` gives at `now'`: the end of the file is found,
-- the restored entries are counted, and from then on the views are those of the database.
abbrev pub Reloads : ℤ → ℤ → Database → Outcome (LoadResult × Database) → Type 0
Reloads now now' db r =
    (db' : Database) × (r
      ≡ ok (
        record {
          success = true;
          keys_loaded = length (live_entries now' (snapshot now db));
          error = [];
        },
        db',
      ))
    × IsWf db'
    × ((t : ℤ) → now' ≤ℤ t → (j : Bytes) → view t j db' ≡ view t j db)

pub load-file_text :
    (now now' : ℤ) (db : Database)
    → IsWf db
    → All FitsInts (snapshot now db)
    → pos 0 ≤ℤ now
    → now ≤ℤ now'
    → Reloads now now' db (load now' (some (file_text now db)) empty)
load-file_text now now' db w fits positive later =
    let (db', made, w', same) = restore_entries-snapshot now db w now' positive later in
    let savable = All-IsSavable (snapshot now db) (snapshot-IsEntry now db w) fits in
    let ls = lines (entry_lines (snapshot now db) ++ end_text) in
    let loop : load_lines now' true ls (0, empty)
        ≡ ok (true, (length (live_entries now' (snapshot now db)), db')) =
      load_lines-entry_lines now' (snapshot now db) 0 empty savable ∙ rw (made, zero-add) refl in
    (
      db',
      load-header now' (file_text now db) ls empty (lines-file_text now db)
          ∙ load_from_found now' ls empty db' (length (live_entries now' (snapshot now db))) loop,
      w',
      same,
    )

-- Where `save` of a well-formed database returned true and its close could write the whole text,
-- whatever was on the disk before, a load from the
-- path into an empty database, at that time or later, is defined and succeeds, finds the end of the
-- file, leaves a well-formed database, and from then on shows every key as the saved one does. The
-- clock is not negative, the deadlines are of `int64_t` and the lengths of the lists of `int`.
pub load-save :
    (faults : SaveFaults) (now now' : ℤ) (db : Database) (path : Bytes) (disk : Disk)
    → (save faults now db path disk).0 ≡ true
    → faults.cut ≡ none
    → IsWf db
    → All FitsInts (snapshot now db)
    → pos 0 ≤ℤ now
    → now ≤ℤ now'
    → Reloads now now' db (load now' (find path (save faults now db path disk).1) empty)
load-save faults now now' db path disk saved closed w fits positive later =
    rw (save_whole faults now db path disk saved closed)
      (load-file_text now now' db w fits positive later)
