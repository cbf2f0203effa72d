-- ===== src/Replication/MergeSync.antt =====
-- src/replication.cpp: a full sync that reaches a replica which has keys already.
use velo_kv.Prelude.{
  ℕ, suc, ◌+◌, ◌<◌, ◌≤◌, ◌≡◌, ◌∙◌, ap, refl, true, false, Option, List, [], ◌∷◌, ◌++◌, append_assoc,
  map, Bytes, codes, ℤ, pos, ◌≤ℤ◌, length, length-append, drop, bytes_eq, bytes_beq, ok, >>=-eq-ok,
  arith, All, in_range, int64_bound, int_bound, if◌then◌else◌, inl, inr,
}
use native.Mathlib.Nat.{add-zero, zero-add, suc-add}
use velo_kv.Db.{Database, SnapshotEntry, string_type, list_type, max_capacity, size, snapshot, del}
use velo_kv.Db.Wf.{IsWf}
use velo_kv.Db.View.{Value, view, due, stored, is_seen}
use velo_kv.Db.Snapshot.{entry_at, entry_at-snapshot}
use velo_kv.Resp.{crlf}
use velo_kv.Text.Percent.{percent_encode}
use velo_kv.Text.Percent.RoundTrip.{decode-percent_encode}
use velo_kv.Text.Decimal.{decimal, to_string}
use velo_kv.Text.Upper.{to_upper, upper}
use velo_kv.Persistence.Load.{restore_expiry}
use velo_kv.Persistence.Restore.{rpush_all, restore_entry}
use velo_kv.Persistence.Restored.{or_view}
use velo_kv.Persistence.Snapshot.{snapshot-IsDistinct, snapshot-IsEntry}
use velo_kv.Replication.Stream.{sync_line, sync_lines, build_full_sync}
use velo_kv.Replication.Apply.{
  ReplicaState, apply_leader_line, apply_repllist, apply_tokens, restore_list,
}
use velo_kv.Replication.RoundTrip.{tokenise_word}
use velo_kv.Replication.Manager.{ReplicationManager, apply_lines, read_received}
use velo_kv.Replication.Sync.{
  IsSyncable, sync_text, sync_line_ended, synced, apply_replset_line, typed_entry,
  push_tokens-rpush_all, stoll_encoded, stoi_encoded, letters-IsToken, to_string-IsArg,
  decimal-IsArg,
}
use velo_kv.Replication.SyncLoop.{
  apply_lines-line, behind_line, apply_lines_done, sync_text-IsInline,
}
use velo_kv.Replication.Merge.{merge_entry, merge_entries, missing, merge_entries-Restored}
use velo_kv.Replication.FullSync.{
  spare, fuel_full_sync, at_start_line, behind_start, sync_end, at_end_line, start_line_applied,
  end_line_applied, start_line, end_line, in_sync,
}

apply_repllist-args :
    (word key : Bytes) (ms : ℤ) (l : List Bytes) (db : Database)
    → in_range int64_bound ms ≡ true
    → length l < int_bound
    → apply_repllist (word ∷ map percent_encode (key ∷ to_string ms ∷ decimal (length l) ∷ l)) db
      ≡ (true, restore_expiry key ms (rpush_all key l (del key db).1))
unfolding apply_repllist restore_list
apply_repllist-args word key ms l db fits few = ground (
  arith,
  decode-percent_encode key,
  stoll_encoded ms fits,
  stoi_encoded (length l) few,
  push_tokens-rpush_all l key (del key db).1,
)

list_line :
    (clock : ℕ → ℤ) (e : SnapshotEntry) (s : ReplicaState)
    → IsSyncable e
    → e.type ≡ list_type
    → apply_leader_line clock (sync_text e) s ≡ synced s (merge_entry e s.db)
unfolding apply_leader_line apply_tokens sync_text merge_entry bytes_beq to_upper upper
list_line clock e s good listed =
    let args = e.key ∷ to_string e.expiry_ms ∷ decimal (length e.list_value) ∷ e.list_value in
    let tokens =
      tokenise_word (codes "REPLLIST") args refl (letters-IsToken (codes "REPLLIST") (omega arith))
        (
          good.key,
          (to_string-IsArg e.expiry_ms, (decimal-IsArg (length e.list_value), good.elements)),
        ) in
    rw
      (
        listed,
        sync_text,
        merge_entry,
        tokens,
        apply_repllist-args (codes "REPLLIST") e.key e.expiry_ms e.list_value s.db good.fits.0
            good.fits.1,
      )
      refl

string_entry :
    (e : SnapshotEntry) (db : Database)
    → e.type ≡ string_type
    → restore_entry e db ≡ merge_entry e db
unfolding restore_entry merge_entry
string_entry e db string = rw (string, restore_entry, merge_entry) refl

-- The line of an entry, whatever the replica has at its key.
apply_leader_line-merge_entry :
    (clock : ℕ → ℤ) (e : SnapshotEntry) (s : ReplicaState)
    → IsSyncable e
    → apply_leader_line clock (sync_text e) s ≡ synced s (merge_entry e s.db)
apply_leader_line-merge_entry clock e s good = elim (typed_entry e good.entry) [
  | inl string ↦
      apply_replset_line clock e s good string ∙ ap (synced s) (string_entry e s.db string)
  | inr listed ↦ list_line clock e s good listed
]

module _ (clock : ℕ → ℕ → ℤ) (buffer : Bytes) where
  apply_lines-merge_entries :
      (es : List SnapshotEntry) (fuel at : ℕ) (rest : Bytes) (s : ReplicaState) (db' : Database)
      → drop at buffer ≡ sync_lines es ++ rest
      → All IsSyncable es
      → merge_entries es s.db ≡ ok db'
      → apply_lines (length es + fuel) clock buffer at s
        ≡ apply_lines fuel clock buffer (at + length (sync_lines es)) (record s { db = db' })
  unfolding sync_lines merge_entries
  apply_lines-merge_entries [] fuel at rest s db' here good made =
      rw (zero-add, add-zero)
        (ap (λ d. apply_lines fuel clock buffer at (record s { db = d })) (ground arith))
  apply_lines-merge_entries (e ∷ es) fuel at rest s db' here (g, good) made =
      let (mid, later, step) = >>=-eq-ok (merge_entry e s.db) (merge_entries es) made in
      let text = sync_text e in
      let tail = sync_lines es ++ rest in
      let line : drop at buffer ≡ text ++ 13 ∷ 10 ∷ tail =
        here
        ∙ ap (λ l. (l ++ sync_lines es) ++ rest) (sync_line_ended e g)
        ∙ append_assoc (text ++ crlf) (sync_lines es) rest
        ∙ append_assoc text crlf tail in
      let applied : apply_leader_line (clock (length es + fuel)) text s
          ≡ ok (true, record s { db = mid }) =
        apply_leader_line-merge_entry (clock (length es + fuel)) e s g ∙ ap (synced s) step in
      let size_line : length (sync_line e) ≡ length text + 2 =
        ap (λ l. length l) (sync_line_ended e g) ∙ length-append text crlf in
      let place : at + length text + 2 + length (sync_lines es)
          ≡ at + length (sync_line e ++ sync_lines es) =
        omega (arith, length-append (sync_line e) (sync_lines es), size_line) in
      rw suc-add (
        apply_lines-line clock buffer (length es + fuel) at text tail s (record s { db = mid })
          (sync_text-IsInline e) line applied
        ∙ apply_lines-merge_entries es fuel (at + length text + 2) rest (record s { db = mid }) db'
            (behind_line clock buffer at text tail line) good later
        ∙ ap (λ p. apply_lines fuel clock buffer p (record s { db = db' })) place)

merged_view :
    (now : ℤ) (db : Database)
    → IsWf db
    → pos 0 ≤ℤ now
    → (t : ℤ) → now ≤ℤ t
    → (j : Bytes) (old : Option (Value × Option ℤ))
    → or_view t (entry_at j (snapshot now db)) old
      ≡ (if is_seen (view now j db) then view t j db else old)
unfolding view due stored is_seen
merged_view now db w positive t later j old = ground (arith, entry_at-snapshot now db j w)

module _ (clock : ℕ → ℕ → ℤ) (now : ℤ) (db : Database)
    (good : All IsSyncable (snapshot now db)) where
  read_received_merged :
      (m : ReplicationManager) (old db' : Database)
      → m.leader_input_buffer ≡ []
      → merge_entries (snapshot now db) old ≡ ok db'
      → read_received clock (build_full_sync now db) m old
        ≡ ok (record m { leader_input_buffer = []; full_sync_in_progress = false }, db')
  unfolding read_received
  read_received_merged m old db' fresh made =
      let buffer = build_full_sync now db in
      let es = snapshot now db in
      let syncing = m.full_sync_in_progress in
      let left = spare clock now db good in
      let end_at = sync_end clock now db good in
      let read : apply_lines (length buffer) clock buffer 0 (in_sync syncing old)
          ≡ ok (end_at + length end_line + 2, in_sync false db') =
        ap (λ n. apply_lines n clock buffer 0 (in_sync syncing old))
          (fuel_full_sync clock now db good)
        ∙ apply_lines-line clock buffer (length es + suc left) 0 start_line
            (sync_lines es ++ (end_line ++ crlf)) (in_sync syncing old) (in_sync true old)
            (omega arith) (at_start_line clock now db good)
            (start_line_applied (clock (length es + suc left)) syncing old)
        ∙ apply_lines-merge_entries clock buffer es (suc left) 11 (end_line ++ crlf)
            (in_sync true old) db' (behind_start clock now db good) good made
        ∙ apply_lines-line clock buffer left end_at end_line [] (in_sync true db')
            (in_sync false db') (omega arith) (at_end_line clock now db good)
            (end_line_applied (clock left) true db')
        ∙ apply_lines_done clock buffer left (end_at + length end_line + 2) (in_sync false db')
            (behind_line clock buffer end_at end_line [] (at_end_line clock now db good)) in
      rw (fresh, read)
        (ap (λ b. ok (record m { leader_input_buffer = b; full_sync_in_progress = false }, db'))
          (behind_line clock buffer end_at end_line [] (at_end_line clock now db good)))

-- A replica with a well-formed database and nothing buffered reads the whole of what a leader with a
-- well-formed database queues for it; the keys that it has, and those of the leader that are new to
-- it, are together no more than 31. In a defined run it has an empty buffer, no sync in progress and
-- a well-formed database, in which from the leader's time on every key that the leader shows at that
-- time, new or not, a string or a list, shows what it shows in the leader's, and every other key,
-- stale or not, what it showed in the replica's. The deadlines are of `int64_t` and the lengths of
-- the lists of `int`; no key, value or element is empty or has a tab, vertical tab or form feed; the
-- leader's clock is not negative.
pub full_sync_merges :
    (clock : ℕ → ℕ → ℤ) (now : ℤ) (db old : Database) (m : ReplicationManager)
    → m.leader_input_buffer ≡ []
    → IsWf db
    → IsWf old
    → All IsSyncable (snapshot now db)
    → pos 0 ≤ℤ now
    → size old + missing (snapshot now db) old ≤ max_capacity
    → (db' : Database) × (read_received clock (build_full_sync now db) m old
        ≡ ok (record m { leader_input_buffer = []; full_sync_in_progress = false }, db'))
      × IsWf db'
      × ((t : ℤ)
          → now ≤ℤ t
          → (j : Bytes)
          → view t j db' ≡ (if is_seen (view now j db) then view t j db else view t j old))
full_sync_merges clock now db old m fresh w w_old good positive room =
    let (db', made, (w', views)) =
      merge_entries-Restored (snapshot now db) old (snapshot-IsEntry now db w)
        (snapshot-IsDistinct now db w) w_old room in
    (
      db',
      read_received_merged clock now db good m old db' fresh made,
      w',
      λ t later j. views t j ∙ merged_view now db w positive t later j (view t j old),
    )
