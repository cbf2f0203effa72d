-- ===== src/Replication/SyncLoop.antt =====
-- src/replication.cpp: the loop of a replica over the lines of a full sync.
use velo_kv.Prelude.{
  ℕ, zero, suc, ◌+◌, ◌-◌, ◌≡◌, ◌≢◌, ◌∙◌, ap, refl, subst, true, List, [], ◌∷◌, ◌++◌, append_assoc,
  Bytes, ℤ, length, length-append, drop, drop-drop, bytes_eq, bytes_beq_iff, ok, arith, All,
}
use native.Mathlib.Nat.{add-zero, zero-add, suc-add}
use velo_kv.Db.{Database, SnapshotEntry, KeyType, string_type, list_type, none_type, size}
use velo_kv.Db.Wf.{IsWf}
use velo_kv.Db.Snapshot.{entry_at, entry_value}
use velo_kv.Text.Find.{find_crlf, crlf_in}
use velo_kv.Text.Find.Laws.{find_crlf_here, drop_behind, substr_here}
use velo_kv.Resp.{crlf}
use velo_kv.Persistence.Restore.{restore_entries, restore_entry-Adds}
use velo_kv.Persistence.Restored.{HasRooms, IsDistinct, AreAbsent}
use velo_kv.Persistence.Fields.{IsInline, IsInline-append, element_fields-IsInline}
use velo_kv.Replication.Stream.{encode_args, sync_line, sync_lines}
use velo_kv.Replication.Apply.{ReplicaState, apply_leader_line}
use velo_kv.Replication.Manager.{apply_lines}
use velo_kv.Replication.Sync.{
  IsSyncable, sync_text, word_of, args_of, element_fields-encode_args, sync_line_ended, synced,
  apply_leader_line-sync_text,
}

no_cr : (s : Bytes) → IsInline s → All (λ c. c ≢ 13) s
no_cr [] h = tt
no_cr (c ∷ s) (h, hs) = (h.0, no_cr s hs)

word_of-IsInline : (t : KeyType) → IsInline (word_of t)
word_of-IsInline string_type = omega arith
word_of-IsInline list_type = omega arith
word_of-IsInline none_type = tt

pub sync_text-IsInline : (e : SnapshotEntry) → IsInline (sync_text e)
unfolding sync_text
sync_text-IsInline e =
    IsInline-append (word_of e.type) (encode_args (args_of e.type e)) (word_of-IsInline e.type) (
      subst IsInline (element_fields-encode_args (args_of e.type e))
        (element_fields-IsInline (args_of e.type e)))

module _ (clock : ℕ → ℕ → ℤ) (buffer : Bytes) where
  -- The loop takes a line that stands at its place.
  pub apply_lines-line :
      (fuel at : ℕ) (text rest : Bytes) (s s' : ReplicaState)
      → IsInline text
      → drop at buffer ≡ text ++ 13 ∷ 10 ∷ rest
      → apply_leader_line (clock fuel) text s ≡ ok (true, s')
      → apply_lines (suc fuel) clock buffer at s
        ≡ apply_lines fuel clock buffer (at + length text + 2) s'
  unfolding apply_lines
  apply_lines-line fuel at text rest s s' plain here applied =
      let middle : at + length text - at ≡ length text = omega arith in
      ground (
        arith,
        find_crlf_here buffer at text rest (no_cr text plain) here,
        middle,
        substr_here buffer at text (13 ∷ 10 ∷ rest) here,
        applied,
      )

  pub behind_line :
      (at : ℕ) (text rest : Bytes)
      → drop at buffer ≡ text ++ 13 ∷ 10 ∷ rest
      → drop (at + length text + 2) buffer ≡ rest
  behind_line at text rest here =
      drop-drop (at + length text) 2 buffer
      ∙ ap (drop 2) (drop_behind buffer at text (13 ∷ 10 ∷ rest) here)

  pub apply_lines_done :
      (fuel at : ℕ) (s : ReplicaState)
      → drop at buffer ≡ []
      → apply_lines fuel clock buffer at s ≡ ok (at, s)
  unfolding apply_lines find_crlf crlf_in
  apply_lines_done zero at s h = refl
  apply_lines_done (suc fuel) at s h = ground arith

  -- Where the entries can be restored, the loop restores them, a line for each.
  pub apply_lines-sync_lines :
      (es : List SnapshotEntry) (fuel at : ℕ) (rest : Bytes) (s : ReplicaState) (db' : Database)
      → drop at buffer ≡ sync_lines es ++ rest
      → All IsSyncable es
      → IsDistinct es
      → HasRooms es (size s.db)
      → AreAbsent es s.db
      → IsWf s.db
      → restore_entries es s.db ≡ ok db'
      → apply_lines (length es + fuel) clock buffer at s
        ≡ apply_lines fuel clock buffer (at + length (sync_lines es)) (record s { db = db' })
  unfolding sync_lines restore_entries entry_at
  apply_lines-sync_lines [] fuel at rest s db' here good distinct rooms free w made =
      rw (zero-add, add-zero)
        (ap (λ d. apply_lines fuel clock buffer at (record s { db = d })) (ground arith))
  apply_lines-sync_lines (e ∷ es) fuel at rest s db' here (g, good) (apart, distinct) (room, rooms)
        free w made =
      let absent =
        free e.key (entry_value e, e.expiry_ms) (ground (arith, bytes_beq_iff e.key e.key)) in
      let (mid, step, a) = restore_entry-Adds e s.db g.entry w absent room in
      let text = sync_text e in
      let tail = sync_lines es ++ rest in
      let line : drop at buffer ≡ text ++ 13 ∷ 10 ∷ tail =
        here
        ∙ ap (λ l. (l ++ sync_lines es) ++ rest) (sync_line_ended e g)
        ∙ append_assoc (text ++ crlf) (sync_lines es) rest
        ∙ append_assoc text crlf tail in
      let applied : apply_leader_line (clock (length es + fuel)) text s
          ≡ ok (true, record s { db = mid }) =
        apply_leader_line-sync_text (clock (length es + fuel)) e s g w absent
        ∙ ap (synced s) step in
      let free' : AreAbsent es mid = λ j f h.
        a.absent j (λ p. ground arith) (free j f (ground (arith, bytes_beq_iff e.key j))) in
      let size_line : length (sync_line e) ≡ length text + 2 =
        ap (λ l. length l) (sync_line_ended e g) ∙ length-append text crlf in
      let place : at + length text + 2 + length (sync_lines es)
          ≡ at + length (sync_line e ++ sync_lines es) =
        omega (arith, length-append (sync_line e) (sync_lines es), size_line) in
      rw suc-add (
        apply_lines-line (length es + fuel) at text tail s (record s { db = mid })
          (sync_text-IsInline e) line applied
        ∙ apply_lines-sync_lines es fuel (at + length text + 2) rest (record s { db = mid }) db'
            (behind_line at text tail line) good distinct (rw a.size_grows rooms) free' a.wf
            (ground (arith, step))
        ∙ ap (λ p. apply_lines fuel clock buffer p (record s { db = db' })) place)
