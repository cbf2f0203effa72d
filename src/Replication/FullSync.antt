-- ===== src/Replication/FullSync.antt =====
-- src/replication.cpp: a replica that reads a whole full sync.
use velo_kv.Prelude.{
  Bool, ℕ, suc, ◌+◌, ◌-◌, ◌≤◌, ◌≡◌, ◌∙◌, ap, refl, true, false, none, List, [], ◌∷◌, ◌++◌, Bytes,
  codes, ℤ, pos, ◌≤ℤ◌, length, length-append, drop, drop-drop, drop-append, bytes_eq, bytes_beq, ok,
  arith, All,
}
use velo_kv.Db.{Database, SnapshotEntry, empty, size, snapshot}
use velo_kv.Db.Wf.{IsWf, empty-IsWf}
use velo_kv.Db.View.{view}
use velo_kv.Db.Snapshot.{entry_at}
use velo_kv.Map.{find}
use velo_kv.Resp.{crlf}
use velo_kv.Persistence.Restore.{restore_entries}
use velo_kv.Persistence.Restored.{HasRooms, AreAbsent, restore_entries-Restored, or_view}
use velo_kv.Persistence.Snapshot.{
  restore_entries_all, snapshot-IsDistinct, snapshot-HasRooms, snapshot-IsEntry,
}
use velo_kv.Replication.Stream.{sync_line, sync_lines, build_full_sync}
use velo_kv.Replication.Apply.{ReplicaState, apply_leader_line}
use velo_kv.Replication.Manager.{ReplicationManager, apply_lines, read_received}
use velo_kv.Replication.Sync.{IsSyncable, sync_text, sync_line_ended}
use velo_kv.Replication.SyncLoop.{
  apply_lines-line, behind_line, apply_lines_done, apply_lines-sync_lines,
}

length-sync_lines :
    (es : List SnapshotEntry) → All IsSyncable es → length es ≤ length (sync_lines es)
unfolding sync_lines
length-sync_lines [] good = omega arith
length-sync_lines (e ∷ es) (g, good) = omega (
  arith,
  length-sync_lines es good,
  length-append (sync_line e) (sync_lines es),
  ap (λ l. length l) (sync_line_ended e g),
  length-append (sync_text e) crlf,
)

abbrev pub start_line : Bytes
start_line = codes "+FULLSYNC"

abbrev pub end_line : Bytes
end_line = codes "+FULLSYNCDONE"

abbrev pub in_sync : Bool → Database → ReplicaState
in_sync syncing db = record { full_sync_in_progress = syncing; db = db }

pub start_line_applied :
    (clock : ℕ → ℤ) (syncing : Bool) (db : Database)
    → apply_leader_line clock start_line (in_sync syncing db) ≡ ok (true, in_sync true db)
unfolding apply_leader_line bytes_beq
start_line_applied clock syncing db = refl

pub end_line_applied :
    (clock : ℕ → ℤ) (syncing : Bool) (db : Database)
    → apply_leader_line clock end_line (in_sync syncing db) ≡ ok (true, in_sync false db)
unfolding apply_leader_line bytes_beq
end_line_applied clock syncing db = refl

module _ (clock : ℕ → ℕ → ℤ) (now : ℤ) (db : Database)
    (good : All IsSyncable (snapshot now db)) where
  size_full_sync :
      length (build_full_sync now db) ≡ 11 + (length (sync_lines (snapshot now db)) + 15)
  unfolding build_full_sync
  size_full_sync = omega (arith, length-append (sync_lines (snapshot now db)) (end_line ++ crlf))

  -- What is left of the fuel when the last line is read.
  pub spare : ℕ
  spare = length (sync_lines (snapshot now db)) - length (snapshot now db) + 24

  pub fuel_full_sync : length (build_full_sync now db) ≡ suc (length (snapshot now db) + suc spare)
  unfolding spare
  fuel_full_sync = omega (arith, size_full_sync, length-sync_lines (snapshot now db) good)

  pub behind_start :
      drop 11 (build_full_sync now db) ≡ sync_lines (snapshot now db) ++ (end_line ++ crlf)
  unfolding build_full_sync
  behind_start = refl

  pub at_start_line :
      drop 0 (build_full_sync now db)
      ≡ start_line ++ 13 ∷ 10 ∷ (sync_lines (snapshot now db) ++ (end_line ++ crlf))
  unfolding build_full_sync
  at_start_line = refl

  abbrev pub sync_end : ℕ
  sync_end = 0 + length start_line + 2 + length (sync_lines (snapshot now db))

  pub at_end_line : drop sync_end (build_full_sync now db) ≡ end_line ++ 13 ∷ 10 ∷ []
  at_end_line =
      drop-drop 11 (length (sync_lines (snapshot now db))) (build_full_sync now db)
      ∙ ap (drop (length (sync_lines (snapshot now db)))) behind_start
      ∙ drop-append (sync_lines (snapshot now db)) (end_line ++ crlf)

  apply_lines-build_full_sync :
      (syncing : Bool) (old db' : Database)
      → IsWf db
      → IsWf old
      → HasRooms (snapshot now db) (size old)
      → AreAbsent (snapshot now db) old
      → restore_entries (snapshot now db) old ≡ ok db'
      → apply_lines
          (length (build_full_sync now db))
          clock
          (build_full_sync now db)
          0
          (in_sync syncing old)
        ≡ ok (sync_end + length end_line + 2, in_sync false db')
  apply_lines-build_full_sync syncing old db' w w_old rooms free made =
      let buffer = build_full_sync now db in
      let es = snapshot now db in
      ap (λ n. apply_lines n clock buffer 0 (in_sync syncing old)) fuel_full_sync
      ∙ apply_lines-line clock buffer (length es + suc spare) 0 start_line
          (sync_lines es ++ (end_line ++ crlf)) (in_sync syncing old) (in_sync true old)
          (omega arith) at_start_line
          (start_line_applied (clock (length es + suc spare)) syncing old)
      ∙ apply_lines-sync_lines clock buffer es (suc spare) 11 (end_line ++ crlf) (in_sync true old)
          db' behind_start good (snapshot-IsDistinct now db w) rooms free w_old made
      ∙ apply_lines-line clock buffer spare sync_end end_line [] (in_sync true db')
          (in_sync false db') (omega arith) at_end_line (end_line_applied (clock spare) true db')
      ∙ apply_lines_done clock buffer spare (sync_end + length end_line + 2) (in_sync false db')
          (behind_line clock buffer sync_end end_line [] at_end_line)

  read_received_restored :
      (m : ReplicationManager) (old db' : Database)
      → m.leader_input_buffer ≡ []
      → IsWf db
      → IsWf old
      → HasRooms (snapshot now db) (size old)
      → AreAbsent (snapshot now db) old
      → restore_entries (snapshot now db) old ≡ ok db'
      → read_received clock (build_full_sync now db) m old
        ≡ ok (record m { leader_input_buffer = []; full_sync_in_progress = false }, db')
  unfolding read_received
  read_received_restored m old db' fresh w w_old rooms free made =
      rw
        (fresh, apply_lines-build_full_sync m.full_sync_in_progress old db' w w_old rooms free made)
        (ap (λ b. ok (record m { leader_input_buffer = b; full_sync_in_progress = false }, db'))
          (behind_line clock (build_full_sync now db) sync_end end_line [] at_end_line))

-- A replica that is empty and has nothing buffered, and reads the whole of what a leader with a
-- well-formed database queues for it, has, in a defined run, an empty buffer, no sync in progress and
-- a well-formed database, in which from then on every key shows what it shows in the leader's. The
-- deadlines are of `int64_t` and the lengths of the lists of `int`; no key, value or element is empty
-- or has a tab, vertical tab or form feed; the leader's clock is not negative.
pub read_received-build_full_sync :
    (clock : ℕ → ℕ → ℤ) (now : ℤ) (db : Database) (m : ReplicationManager)
    → m.leader_input_buffer ≡ []
    → IsWf db
    → All IsSyncable (snapshot now db)
    → pos 0 ≤ℤ now
    → (db' : Database) × (read_received clock (build_full_sync now db) m empty
        ≡ ok (record m { leader_input_buffer = []; full_sync_in_progress = false }, db'))
      × IsWf db'
      × ((t : ℤ) → now ≤ℤ t → (j : Bytes) → view t j db' ≡ view t j db)
unfolding find
read_received-build_full_sync clock now db m fresh w good positive =
    let (db', made, w', same) = restore_entries_all now db w positive in
    (
      db',
      read_received_restored clock now db good m empty db' fresh w empty-IsWf
          (snapshot-HasRooms now db w) (λ j e h. (refl, refl)) made,
      w',
      same,
    )

-- A full sync deletes nothing: a replica with a well-formed database that has none of the leader's
-- keys, and room for them all, keeps after the sync every key that it had, which the leader does not
-- have, and shows it as before. The leader's database is well-formed, its deadlines are of `int64_t`
-- and the lengths of its lists of `int`; no key, value or element is empty or has a tab, vertical
-- tab or form feed.
pub full_sync_stale :
    (clock : ℕ → ℕ → ℤ) (now : ℤ) (db old : Database) (m : ReplicationManager)
    → m.leader_input_buffer ≡ []
    → IsWf db
    → IsWf old
    → All IsSyncable (snapshot now db)
    → HasRooms (snapshot now db) (size old)
    → AreAbsent (snapshot now db) old
    → (db' : Database) × (read_received clock (build_full_sync now db) m old
        ≡ ok (record m { leader_input_buffer = []; full_sync_in_progress = false }, db'))
      × IsWf db'
      × ((t : ℤ) (j : Bytes) → entry_at j (snapshot now db) ≡ none → view t j db' ≡ view t j old)
full_sync_stale clock now db old m fresh w w_old good rooms free =
    let (db', made, (w', views)) =
      restore_entries-Restored (snapshot now db) old (snapshot-IsEntry now db w)
        (snapshot-IsDistinct now db w) rooms free w_old in
    (
      db',
      read_received_restored clock now db good m old db' fresh w w_old rooms free made,
      w',
      λ t j gone. views t j ∙ ap (λ o. or_view t o (view t j old)) gone,
    )
