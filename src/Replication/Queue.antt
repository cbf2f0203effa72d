-- ===== src/Replication/Queue.antt =====
-- src/replication.cpp: the order of the bytes that a replica is sent, over any sequence of writes
-- that are propagated and of calls of `send`.
use velo_kv.Prelude.{
  ℕ, zero, suc, ◌≡◌, ◌⊎◌, ◌∙◌, refl, ap, sym, Bool, true, false, List, [], ◌∷◌, ◌++◌, append_assoc,
  append-nil, Bytes, take, drop, nat_beq, is_empty, Bool-cases, inl, inr, arith, if◌then◌else◌,
}
use velo_kv.Resp.{Command}
use velo_kv.Replication.Stream.{encode_command}
use velo_kv.Replication.Manager.{
  ReplicaConnection, ReplicationManager, queue_all, propagate, is_fd, SendResult, sent, send_blocks,
  send_fails, flush_connection, flush_in, flush_replica,
}

pub data Event : Type 0 where
  write : Command → Event
  send : ℕ → SendResult → Event

unfoldable pub run_event : Event → ReplicationManager → ReplicationManager
unfolding propagate flush_replica
run_event (write cmd) m = propagate cmd m
run_event (send fd result) m = (flush_replica fd result m).1

unfoldable pub run_events : List Event → ReplicationManager → ReplicationManager
unfolding run_event
run_events [] m = m
run_events (e ∷ es) m = run_events es (run_event e m)

-- The replica of a socket: the first connection that has it.
abbrev pub has_fd : ℕ → List ReplicaConnection → Bool
has_fd fd [] = false
has_fd fd (rc ∷ rcs) = if is_fd fd rc.fd then true else has_fd fd rcs

-- What is queued for the replica of a socket.
unfoldable pub queued : ℕ → List ReplicaConnection → Bytes
queued fd [] = []
queued fd (rc ∷ rcs) = if is_fd fd rc.fd then rc.output_buffer else queued fd rcs

-- What an event puts on the wire of a socket: `send` takes the start of the buffer.
unfoldable pub on_wire : ℕ → Event → ReplicationManager → Bytes
unfolding queued
on_wire fd (write cmd) m = []
on_wire fd (send fd' (sent n)) m = if nat_beq fd' fd then take n (queued fd m.replicas) else []
on_wire fd (send fd' send_blocks) m = []
on_wire fd (send fd' send_fails) m = []

unfoldable pub all_on_wire : ℕ → List Event → ReplicationManager → Bytes
unfolding on_wire run_event
all_on_wire fd [] m = []
all_on_wire fd (e ∷ es) m = on_wire fd e m ++ all_on_wire fd es (run_event e m)

-- The lines of the writes, in their order.
unfoldable pub written : List Event → Bytes
unfolding encode_command
written [] = []
written (write cmd ∷ es) = encode_command cmd ++ written es
written (send fd result ∷ es) = written es

queued-queue_all :
    (fd : ℕ) (wire : Bytes) (rcs : List ReplicaConnection)
    → has_fd fd rcs ≡ true
    → (queued fd (queue_all wire rcs) ≡ queued fd rcs ++ wire)
      × (has_fd fd (queue_all wire rcs) ≡ true)
unfolding queued queue_all
queued-queue_all fd wire [] h = absurd (ground arith)
queued-queue_all fd wire (rc ∷ rcs) h = elim (Bool-cases (is_fd fd rc.fd)) [
  | inl here ↦ rw here (refl, refl)
  | inr there ↦ rw there (queued-queue_all fd wire rcs (ground arith))
]

take-drop : (n : ℕ) (s : Bytes) → take n s ++ drop n s ≡ s
take-drop zero s = refl
take-drop (suc n) [] = refl
take-drop (suc n) (c ∷ s) = ap (◌∷◌ c) (take-drop n s)

has_fd-flush_in :
    (fd fd' : ℕ) (result : SendResult) (rcs : List ReplicaConnection)
    → has_fd fd (flush_in fd' result rcs).1 ≡ has_fd fd rcs
unfolding flush_in flush_connection
has_fd-flush_in fd fd' result [] = refl
has_fd-flush_in fd fd' (sent zero) (rc ∷ rcs) =
    ground (arith, has_fd-flush_in fd fd' (sent zero) rcs)
has_fd-flush_in fd fd' (sent (suc n)) (rc ∷ rcs) =
    ground (arith, has_fd-flush_in fd fd' (sent (suc n)) rcs)
has_fd-flush_in fd fd' send_blocks (rc ∷ rcs) =
    ground (arith, has_fd-flush_in fd fd' send_blocks rcs)
has_fd-flush_in fd fd' send_fails (rc ∷ rcs) = ground (arith, has_fd-flush_in fd fd' send_fails rcs)

queued-flush_in :
    (fd fd' n : ℕ) (rcs : List ReplicaConnection)
    → queued fd (flush_in fd' (sent n) rcs).1
      ≡ (if nat_beq fd' fd then drop n (queued fd rcs) else queued fd rcs)
unfolding queued flush_in flush_connection
queued-flush_in fd fd' zero [] = ground arith
queued-flush_in fd fd' (suc n) [] = ground arith
queued-flush_in fd fd' zero (rc ∷ rcs) = ground (arith, queued-flush_in fd fd' zero rcs)
queued-flush_in fd fd' (suc n) (rc ∷ rcs) = ground (arith, queued-flush_in fd fd' (suc n) rcs)

queued_unsent :
    (fd fd' : ℕ) (result : SendResult) (rcs : List ReplicaConnection)
    → (result ≡ send_blocks) ⊎ (result ≡ send_fails)
    → queued fd (flush_in fd' result rcs).1 ≡ queued fd rcs
unfolding queued flush_in flush_connection
queued_unsent fd fd' result [] h = refl
queued_unsent fd fd' send_blocks (rc ∷ rcs) h =
    ground (arith, queued_unsent fd fd' send_blocks rcs h)
queued_unsent fd fd' send_fails (rc ∷ rcs) h = ground (arith, queued_unsent fd fd' send_fails rcs h)
queued_unsent fd fd' (sent n) (rc ∷ rcs) h = ground arith

has_fd_full : (fd : ℕ) (rcs : List ReplicaConnection) → has_fd fd rcs ≡ true → is_empty rcs ≡ false
has_fd_full fd [] h = absurd (ground arith)
has_fd_full fd (rc ∷ rcs) h = refl

replicas-propagate :
    (fd : ℕ) (cmd : Command) (m : ReplicationManager)
    → has_fd fd m.replicas ≡ true
    → (propagate cmd m).replicas ≡ queue_all (encode_command cmd) m.replicas
unfolding propagate
replicas-propagate fd cmd m h = rw (has_fd_full fd m.replicas h) refl

-- The line of one event.
abbrev line : Event → Bytes
line (write cmd) = encode_command cmd
line (send fd result) = []

written_cons : (e : Event) (es : List Event) → written (e ∷ es) ≡ line e ++ written es
unfolding written
written_cons (write cmd) es = refl
written_cons (send fd result) es = refl

-- One event moves bytes from the queue to the wire, or adds a line to the queue.
one_event :
    (fd : ℕ) (e : Event) (m : ReplicationManager)
    → has_fd fd m.replicas ≡ true
    → (on_wire fd e m ++ queued fd (run_event e m).replicas ≡ queued fd m.replicas ++ line e)
      × (has_fd fd (run_event e m).replicas ≡ true)
unfolding on_wire run_event flush_replica
one_event fd (write cmd) m h =
    rw (replicas-propagate fd cmd m h) (queued-queue_all fd (encode_command cmd) m.replicas h)
one_event fd (send fd' (sent n)) m h = (
  ground (
    arith,
    queued-flush_in fd fd' n m.replicas,
    take-drop n (queued fd m.replicas),
    append-nil (queued fd m.replicas),
  ),
  has_fd-flush_in fd fd' (sent n) m.replicas ∙ h,
)
one_event fd (send fd' send_blocks) m h = (
  queued_unsent fd fd' send_blocks m.replicas (inl refl) ∙ sym (append-nil (queued fd m.replicas)),
  has_fd-flush_in fd fd' send_blocks m.replicas ∙ h,
)
one_event fd (send fd' send_fails) m h = (
  queued_unsent fd fd' send_fails m.replicas (inr refl) ∙ sym (append-nil (queued fd m.replicas)),
  has_fd-flush_in fd fd' send_fails m.replicas ∙ h,
)

-- Over any sequence of propagated writes and of calls of `send` on any sockets, whatever these
-- return: what a connected replica was sent, and then what is still queued for it, is what was
-- queued at the start and then the lines of the writes, in their order, none lost and none twice.
pub all_on_wire-queued :
    (fd : ℕ) (es : List Event) (m : ReplicationManager)
    → has_fd fd m.replicas ≡ true
    → all_on_wire fd es m ++ queued fd (run_events es m).replicas
      ≡ queued fd m.replicas ++ written es
unfolding all_on_wire run_events
all_on_wire-queued fd [] m h = unfold written in sym (append-nil (queued fd m.replicas))
all_on_wire-queued fd (e ∷ es) m h =
    let (moved, there) = one_event fd e m h in
    let m' = run_event e m in
    append_assoc (on_wire fd e m) (all_on_wire fd es m') (queued fd (run_events es m').replicas)
    ∙ ap (◌++◌ (on_wire fd e m)) (all_on_wire-queued fd es m' there)
    ∙ sym (append_assoc (on_wire fd e m) (queued fd m'.replicas) (written es))
    ∙ ap (λ s. s ++ written es) moved
    ∙ append_assoc (queued fd m.replicas) (line e) (written es)
    ∙ ap (◌++◌ (queued fd m.replicas)) (sym (written_cons e es))
