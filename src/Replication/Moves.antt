-- ===== src/Replication/Moves.antt =====
-- src/replication.hpp: the moves of `ReplicaConnection`, by which `std::vector::erase` closes the gap.
use velo_kv.Prelude.{
  ◌≡◌, refl, ap, Bool, true, false, none, some, List, [], ◌∷◌, Bytes, ℕ, arith, if◌then◌else◌,
}
use velo_kv.Replication.Manager.{ReplicaConnection, remove_in, is_fd}

-- The constructor from a socket.
abbrev pub new_connection : ℕ → ReplicaConnection
new_connection fd = record { fd = some fd; output_buffer = []; synced = false }

-- The move constructor: the new object, and the other. C++ leaves open which bytes a string keeps that
-- was moved from.
unfoldable pub move_connection : Bytes → ReplicaConnection → ReplicaConnection × ReplicaConnection
move_connection left other = (other, record other { fd = none; output_buffer = left })

-- The move assignment: the two objects behind it. `same` says that they are one object.
unfoldable pub move_assign_connection :
    Bool → Bytes → ReplicaConnection → ReplicaConnection → ReplicaConnection × ReplicaConnection
unfolding move_connection
move_assign_connection true left c other = (c, other)
move_assign_connection false left c other = move_connection left other

-- `erase(it)` of a vector, where `it` is the object and the list what stands behind it: each
-- of these is moved one place to the front, and the last place is given up.
unfoldable pub close_gap :
    (ReplicaConnection → Bytes)
    → ReplicaConnection
    → List ReplicaConnection
    → List ReplicaConnection
unfolding move_assign_connection
close_gap left c [] = []
close_gap left c (other ∷ rest) =
    let (c', other') = move_assign_connection false (left other) c other in
    c' ∷ close_gap left other' rest

-- What stood behind is there, unchanged and in order, whatever was in the gap.
pub close_gap-eq :
    (left : ReplicaConnection → Bytes) (c : ReplicaConnection) (rest : List ReplicaConnection)
    → close_gap left c rest ≡ rest
unfolding close_gap move_assign_connection move_connection
close_gap-eq left c [] = refl
close_gap-eq left c (other ∷ rest) = ap (◌∷◌ other) (close_gap-eq left _ rest)

-- The loop of `remove_replica` with the erasure by moves.
unfoldable pub remove_by_moves :
    (ReplicaConnection → Bytes) → ℕ → List ReplicaConnection → List ReplicaConnection
unfolding close_gap
remove_by_moves left fd [] = []
remove_by_moves left fd (rc ∷ rcs) =
    let rest = remove_by_moves left fd rcs in
    if is_fd fd rc.fd then close_gap left (record rc { fd = none }) rcs else rc ∷ rest

-- It removes the connection and moves the others as they are.
remove_by_moves-eq :
    (left : ReplicaConnection → Bytes) (fd : ℕ) (rcs : List ReplicaConnection)
    → remove_by_moves left fd rcs ≡ remove_in fd rcs
unfolding remove_by_moves remove_in
remove_by_moves-eq left fd [] = refl
remove_by_moves-eq left fd (rc ∷ rcs) =
    ground (arith, remove_by_moves-eq left fd rcs, close_gap-eq left (record rc { fd = none }) rcs)
