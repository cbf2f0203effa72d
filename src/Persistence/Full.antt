-- ===== src/Persistence/Full.antt =====
-- src/persistence.cpp: a `save` on a full disk, whose text is in the buffer of the stream until the
-- `close` behind the check, and the load after it.
use velo_kv.Prelude.{
  ◌≡◌, ◌≢◌, ◌∙◌, ◌≤◌, ◌<◌, refl, ap, true, false, ℕ, zero, suc, some, List, [], ◌∷◌, ◌++◌, Bytes,
  bytes_eq, bytes_beq, bytes_beq_iff, ℤ, codes, ok, take, length, arith, All,
}
use velo_kv.Map.{find}
use velo_kv.Db.{Database}
use velo_kv.Persistence.{Disk, SaveFaults, closed_text, file_text, save, header, header_v1}
use velo_kv.Persistence.Load.{lines, load}
use velo_kv.Persistence.Saves.{save-Saves}
use velo_kv.Persistence.Fields.{IsInline, strip_cr_inline}

module _ {ℓ} {A : Type ℓ} where
  take_append : (n : ℕ) (xs ys : List A) → n ≤ length xs → take n (xs ++ ys) ≡ take n xs
  take_append zero xs ys h = refl
  take_append (suc n) [] ys h = absurd (omega (arith, h))
  take_append (suc n) (x ∷ xs) ys h = ap (◌∷◌ x) (take_append n xs ys (omega (arith, h)))

  length-take : (n : ℕ) (xs : List A) → length (take n xs) ≤ n
  length-take zero xs = omega arith
  length-take (suc n) [] = omega arith
  length-take (suc n) (x ∷ xs) = omega (arith, length-take n xs)

  All-take {κ} : (P : A → Type κ) (n : ℕ) (xs : List A) → All P xs → All P (take n xs)
  All-take P zero xs h = tt
  All-take P (suc n) [] h = tt
  All-take P (suc n) (x ∷ xs) (h, hs) = (h, All-take P n xs hs)

lines_inline : (c : ℕ) (s : Bytes) → IsInline (c ∷ s) → lines (c ∷ s) ≡ (c ∷ s) ∷ []
unfolding lines
lines_inline c [] h = ground arith
lines_inline c (d ∷ s) (h, hs) = ground (arith, lines_inline d s hs)

-- A line that is shorter than another is not that one.
short_differs : (s t : Bytes) → length s < length t → bytes_beq s t ≡ false
short_differs s t h =
    let longer : s ≢ t = λ e. omega (arith, h, ap (λ l. length l) e) in
    ground (arith, bytes_beq_iff s t, longer)

load_short :
    (now : ℤ) (s : Bytes) (db : Database)
    → IsInline s
    → length s < length header
    → (error : Bytes) × (load now (some s) db
        ≡ ok (record { success = false; keys_loaded = 0; error = error }, db))
unfolding load
load_short now [] db h short = (_, unfold lines in refl)
load_short now (c ∷ s) db h short = (
  codes "Unknown file format. Expected 'REDIS-CLONE-RDB v2' or 'REDIS-CLONE-RDB v1', got: '"
      ++ (c ∷ s ++ codes "'"),
  simp
      (
        lines_inline c s h,
        strip_cr_inline (c ∷ s) h,
        short_differs (c ∷ s) header short,
        short_differs (c ∷ s) header_v1 (omega (arith, short)),
        load,
      )
      refl,
)

-- Where the open, the writes before the check and the rename succeed and the close could write
-- less than the first line of the text, `save` returns true, whatever the database and whatever the
-- path had before; a load from the path, at any time, then fails and leaves the database as it is.
pub load-save_cut :
    (faults : SaveFaults) (now now' : ℤ) (db loaded : Database) (path : Bytes) (disk : Disk) (n : ℕ)
    → faults.opens ≡ true
    → faults.writes ≡ true
    → faults.renames ≡ true
    → faults.cut ≡ some n
    → n < length header
    → ((save faults now db path disk).0 ≡ true)
      × (error : Bytes) × (load now' (find path (save faults now db path disk).1) loaded
          ≡ ok (record { success = false; keys_loaded = 0; error = error }, loaded))
unfolding file_text
load-save_cut faults now now' db loaded path disk n opened wrote renamed cut short =
    let left = save-Saves faults now db path disk in
    let saved : (save faults now db path disk).0 ≡ true =
      left.said ∙ simp (opened, wrote, renamed) refl in
    let cut_file : find path (save faults now db path disk).1 ≡ some (take n header) =
      left.stored saved
      ∙ ap (λ c. some (closed_text c (file_text now db))) cut
      ∙ ap some (take_append n header _ (omega (arith, short))) in
    let (error, failed) =
      load_short now' (take n header) loaded (All-take _ n header (omega arith))
        (omega (arith, short, length-take n header)) in
    (saved, error, rw cut_file failed)
