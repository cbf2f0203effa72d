-- ===== src/Server/Owners.antt =====
-- src/server.cpp: which object holds a socket, through the handlers of what a client sends.
use velo_kv.Prelude.{
  ℕ, zero, suc, ◌+◌, ◌≤◌, ◌≡◌, refl, Option, none, some, List, [], ◌∷◌, ◌++◌, Bytes, Bool-cases,
  inl, inr, arith, nat_eq, nat_beq, nat_beq_iff, if◌then◌else◌,
}
use velo_kv.Map.{Map, find, insert, erase, find-insert, find-erase}
use velo_kv.Replication.Manager.{
  ReplicaConnection, ReplicationManager, is_fd, queue_all, flush_in, flush_connection, remove_in,
  SendResult, sent, send_blocks, send_fails,
}
use velo_kv.Client.{Client}

-- How many of the connections hold the socket.
unfoldable pub held : ℕ → List ReplicaConnection → ℕ
held fd [] = 0
held fd (rc ∷ rcs) = let rest = held fd rcs in if is_fd fd rc.fd then suc rest else rest

abbrev pub replicas_of : Option ReplicationManager → List ReplicaConnection
replicas_of none = []
replicas_of (some m) = m.replicas

-- A client has the socket that it is stored under, and no socket is held twice.
pub record Owned (clients : Map ℕ Client) (rcs : List ReplicaConnection) : Type 0 where
  pub keyed : (k : ℕ) (c : Client) → find k clients ≡ some c → c.fd ≡ some k
  pub single : (k : ℕ) → held k rcs ≤ 1
  pub apart : (k : ℕ) (c : Client) → find k clients ≡ some c → held k rcs ≡ 0

pub Owned-erase :
    (fd : ℕ) (clients : Map ℕ Client) (rcs : List ReplicaConnection)
    → Owned clients rcs
    → Owned (erase fd clients) rcs
Owned-erase fd clients rcs o = record {
  keyed = λ k c h. o.keyed k c (ground (arith, find-erase fd k clients));
  single = o.single;
  apart = λ k c h. o.apart k c (ground (arith, find-erase fd k clients));
}

pub Owned-insert :
    (fd : ℕ) (c : Client) (clients : Map ℕ Client) (rcs : List ReplicaConnection)
    → Owned clients rcs
    → c.fd ≡ some fd
    → held fd rcs ≡ 0
    → Owned (insert fd c clients) rcs
Owned-insert fd c clients rcs o mine free = record {
  keyed = λ k d h. elim (Bool-cases (nat_beq fd k)) [
    | inl same ↦ ground (arith, find-insert fd k c clients, nat_beq_iff fd k)
    | inr other ↦ o.keyed k d (ground (arith, find-insert fd k c clients))
  ];
  single = o.single;
  apart = λ k d h. elim (Bool-cases (nat_beq fd k)) [
    | inl same ↦ ground (arith, nat_beq_iff fd k)
    | inr other ↦ o.apart k d (ground (arith, find-insert fd k c clients))
  ];
}

pub Owned-fewer :
    (clients : Map ℕ Client) (rcs rcs' : List ReplicaConnection)
    → Owned clients rcs
    → ((k : ℕ) → held k rcs' ≤ held k rcs)
    → Owned clients rcs'
Owned-fewer clients rcs rcs' o fewer = record {
  keyed = o.keyed;
  single = λ k. omega (arith, o.single k, fewer k);
  apart = λ k c h. omega (arith, o.apart k c h, fewer k);
}

held-append :
    (k : ℕ) (rcs : List ReplicaConnection) (rc : ReplicaConnection)
    → held k (rcs ++ rc ∷ []) ≡ held k rcs + (if is_fd k rc.fd then 1 else 0)
unfolding held
held-append k [] rc = ground arith
held-append k (r ∷ rcs) rc = ground (arith, held-append k rcs rc)

pub held-queue_all :
    (k : ℕ) (wire : Bytes) (rcs : List ReplicaConnection) → held k (queue_all wire rcs) ≡ held k rcs
unfolding held queue_all
held-queue_all k wire [] = refl
held-queue_all k wire (rc ∷ rcs) = ground (arith, held-queue_all k wire rcs)

fd-flush_connection :
    (result : SendResult) (rc : ReplicaConnection) → (flush_connection result rc).1.fd ≡ rc.fd
unfolding flush_connection
fd-flush_connection (sent zero) rc = ground arith
fd-flush_connection (sent (suc n)) rc = ground arith
fd-flush_connection send_blocks rc = ground arith
fd-flush_connection send_fails rc = ground arith

pub held-flush_in :
    (k fd : ℕ) (result : SendResult) (rcs : List ReplicaConnection)
    → held k (flush_in fd result rcs).1 ≡ held k rcs
unfolding held flush_in
held-flush_in k fd result [] = refl
held-flush_in k fd result (rc ∷ rcs) =
    ground (arith, held-flush_in k fd result rcs, fd-flush_connection result rc)

pub held-remove_in :
    (k fd : ℕ) (rcs : List ReplicaConnection) → held k (remove_in fd rcs) ≤ held k rcs
unfolding held remove_in
held-remove_in k fd [] = omega arith
held-remove_in k fd (rc ∷ rcs) = ground (arith, held-remove_in k fd rcs)

pub Owned-add :
    (fd : ℕ) (clients : Map ℕ Client) (rcs : List ReplicaConnection) (rc : ReplicaConnection)
    → Owned clients rcs
    → held fd rcs ≡ 0
    → rc.fd ≡ some fd
    → Owned (erase fd clients) (rcs ++ rc ∷ [])
Owned-add fd clients rcs rc o free mine = record {
  keyed = λ k c h. o.keyed k c (ground (arith, find-erase fd k clients));
  single = λ k. elim (Bool-cases (nat_beq fd k)) [
    | inl same ↦ ground (arith, held-append k rcs rc, nat_beq_iff fd k)
    | inr other ↦ ground (arith, held-append k rcs rc, mine, o.single k)
  ];
  apart = λ k c h. elim (Bool-cases (nat_beq fd k)) [
    | inl same ↦ ground (arith, h, find-erase fd k clients)
    | inr other ↦ ground (arith, held-append k rcs rc, mine, find-erase fd k clients, o.apart k c)
  ];
}
