-- ===== src/Persistence/Entries.antt =====
-- src/db.cpp and src/persistence.cpp: the entries of a snapshot can be restored, and what a load skips.
use velo_kv.Prelude.{
  ℕ, suc, ◌+◌, ◌≤◌, ◌≡◌, refl, Bool, not, ◌&&◌, none, some, List, [], ◌∷◌, Bytes, ℤ, negsuc, leb_ℤ,
  eqb_ℤ, ◌≤ℤ◌, length, is_empty, bytes_eq, bytes_beq_iff, if◌then◌else◌, Bool-cases, Option-cases,
  inl, inr, arith, All,
}
use velo_kv.Map.{Map, Unique}
use velo_kv.Db.{max_capacity, SnapshotEntry, snapshot_strings, snapshot_lists, snapshot_expiry}
use velo_kv.Db.Snapshot.{entry_at, entry_at-strings, entry_at-lists, AllFull, full_tail}
use velo_kv.Persistence.Restore.{IsEntry}
use velo_kv.Persistence.Restored.{HasRooms, IsDistinct, or_view}

-- The entries that are not due at the time of a load.
abbrev pub overdue : ℤ → ℤ → Bool
overdue now ms = not (eqb_ℤ ms (negsuc 0)) && leb_ℤ ms now

unfoldable pub live_entries : ℤ → List SnapshotEntry → List SnapshotEntry
live_entries now [] = []
live_entries now (e ∷ es) =
    let rest = live_entries now es in if overdue now e.expiry_ms then rest else e ∷ rest

module _ (now : ℤ) where
  pub All-live {ℓ} :
      (P : SnapshotEntry → Type ℓ) (es : List SnapshotEntry)
      → All P es
      → All P (live_entries now es)
  unfolding live_entries
  All-live P [] h = tt
  All-live P (e ∷ es) (h, hs) = elim (Bool-cases (overdue now e.expiry_ms)) [
    | inl late ↦ rw late (All-live P es hs)
    | inr live ↦ rw live (h, All-live P es hs)
  ]

  pub entry_at-live_entries :
      (j : Bytes) (es : List SnapshotEntry)
      → IsDistinct es
      → entry_at j (live_entries now es)
        ≡ elim (entry_at j es) [ none ↦ none | some e ↦ if overdue now e.1 then none else some e ]
  unfolding entry_at live_entries
  entry_at-live_entries j [] d = refl
  entry_at-live_entries j (e ∷ es) (apart, d) =
      ground (arith, entry_at-live_entries j es d, bytes_beq_iff e.key j, apart)

  pub live_entries-IsDistinct :
      (es : List SnapshotEntry) → IsDistinct es → IsDistinct (live_entries now es)
  unfolding live_entries
  live_entries-IsDistinct [] d = tt
  live_entries-IsDistinct (e ∷ es) (apart, d) = elim (Bool-cases (overdue now e.expiry_ms)) [
    | inl late ↦ rw late (live_entries-IsDistinct es d)
    | inr live ↦
        rw live
          (ground (arith, entry_at-live_entries e.key es d, apart), live_entries-IsDistinct es d)
  ]

  pub live_entries-HasRooms :
      (es : List SnapshotEntry) (m n : ℕ) → m ≤ n → HasRooms es n → HasRooms (live_entries now es) m
  unfolding live_entries
  live_entries-HasRooms [] m n le h = tt
  live_entries-HasRooms (e ∷ es) m n le (room, h) = elim (Bool-cases (overdue now e.expiry_ms)) [
    | inl late ↦ rw late (live_entries-HasRooms es m (suc n) (omega arith) h)
    | inr live ↦
        rw live
          ((λ s. omega (arith, room s)), live_entries-HasRooms es (suc m) (suc n) (omega arith) h)
  ]

  -- From the time of the load on, the entries that it skips are not missed.
  pub or_view-live_entries :
      (t : ℤ) (j : Bytes) (es : List SnapshotEntry)
      → IsDistinct es
      → now ≤ℤ t
      → or_view t (entry_at j (live_entries now es)) none ≡ or_view t (entry_at j es) none
  or_view-live_entries t j es d later = ground (arith, entry_at-live_entries j es d)

module _ (now : ℤ) (expiry : Map Bytes ℤ) where
  pub strings-IsEntry : (m : Map Bytes Bytes) → All IsEntry (snapshot_strings now expiry m)
  unfolding snapshot_strings
  strings-IsEntry [] = tt
  strings-IsEntry ((k, v) ∷ m) = elim (Option-cases (snapshot_expiry now k expiry)) [
    | inl late ↦ rw (late, snapshot_strings) (strings-IsEntry m)
    | inr (ms, live) ↦ rw (live, snapshot_strings) (record { typed = inl refl }, strings-IsEntry m)
  ]

  pub strings-IsDistinct :
      (m : Map Bytes Bytes) → Unique m → IsDistinct (snapshot_strings now expiry m)
  unfolding snapshot_strings
  strings-IsDistinct [] u = tt
  strings-IsDistinct ((k, v) ∷ m) (apart, u) = elim (Option-cases (snapshot_expiry now k expiry)) [
    | inl late ↦ rw (late, snapshot_strings) (strings-IsDistinct m u)
    | inr (ms, live) ↦
        rw (live, snapshot_strings)
          (ground (arith, entry_at-strings now expiry k m u, apart), strings-IsDistinct m u)
  ]

  pub strings-HasRooms :
      (m : Map Bytes Bytes) (n : ℕ)
      → n + length m ≤ max_capacity
      → HasRooms (snapshot_strings now expiry m) n
  unfolding snapshot_strings
  strings-HasRooms [] n few = tt
  strings-HasRooms ((k, v) ∷ m) n few = elim (Option-cases (snapshot_expiry now k expiry)) [
    | inl late ↦ rw (late, snapshot_strings) (strings-HasRooms m n (omega arith))
    | inr (ms, live) ↦
        rw (live, snapshot_strings) ((λ s. omega arith), strings-HasRooms m (suc n) (omega arith))
  ]

  pub lists-IsEntry :
      (m : Map Bytes (List Bytes)) → Unique m → All IsEntry (snapshot_lists now expiry m)
  unfolding snapshot_lists
  lists-IsEntry [] u = tt
  lists-IsEntry ((k, l) ∷ m) u = elim (Option-cases (snapshot_expiry now k expiry)) [
    | inl late ↦ rw (late, snapshot_lists) (lists-IsEntry m u.1)
    | inr (ms, live) ↦ elim (Bool-cases (is_empty l)) [
      | inl gone ↦ rw (live, gone, snapshot_lists) (lists-IsEntry m u.1)
      | inr full ↦
          rw (live, full, snapshot_lists) (record { typed = inr (refl, full) }, lists-IsEntry m u.1)
    ]
  ]

  pub lists-IsDistinct :
      (m : Map Bytes (List Bytes)) → Unique m → AllFull m → IsDistinct (snapshot_lists now expiry m)
  unfolding snapshot_lists
  lists-IsDistinct [] u full = tt
  lists-IsDistinct ((k, l) ∷ m) u full =
      let full' = full_tail k l m u full in
      elim (Option-cases (snapshot_expiry now k expiry)) [
        | inl late ↦ rw (late, snapshot_lists) (lists-IsDistinct m u.1 full')
        | inr (ms, live) ↦ elim (Bool-cases (is_empty l)) [
          | inl gone ↦ rw (live, gone, snapshot_lists) (lists-IsDistinct m u.1 full')
          | inr there ↦
              rw (live, there, snapshot_lists)
                (
                  ground (arith, entry_at-lists now expiry k m u.1 full', u.0),
                  lists-IsDistinct m u.1 full',
                )
        ]
      ]

  pub lists-HasRooms :
      (m : Map Bytes (List Bytes)) (n : ℕ) → HasRooms (snapshot_lists now expiry m) n
  unfolding snapshot_lists
  lists-HasRooms [] n = tt
  lists-HasRooms ((k, l) ∷ m) n = elim (Option-cases (snapshot_expiry now k expiry)) [
    | inl late ↦ rw (late, snapshot_lists) (lists-HasRooms m n)
    | inr (ms, live) ↦ elim (Bool-cases (is_empty l)) [
      | inl gone ↦ rw (live, gone, snapshot_lists) (lists-HasRooms m n)
      | inr there ↦ rw (live, there, snapshot_lists) ((λ s. ground arith), lists-HasRooms m (suc n))
    ]
  ]
