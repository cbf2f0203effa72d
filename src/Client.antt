-- ===== src/Client.antt =====
-- src/client.hpp and src/client.cpp: a connection with its two buffers. What `recv` and `send` return
-- is handed in.
pub mod Pieces
use velo_kv.Prelude.{
  ℕ, zero, suc, Bool, true, false, not, Option, none, some, List, [], ◌∷◌, ◌++◌, ◌≡◌, ap,
  append-nil, Bytes, is_empty, drop, if◌then◌else◌,
}
use velo_kv.Replication.Manager.{
  RecvResult, received, closed, recv_blocks, recv_fails, SendResult, sent, send_blocks, send_fails,
}

pub record Client : Type 0 where
  pub fd : Option ℕ
  pub input_buffer : Bytes
  pub output_buffer : Bytes

abbrev pub new_client : ℕ → Client
new_client fd = record { fd = some fd; input_buffer = []; output_buffer = [] }

-- The destructor: the socket that it closes.
unfoldable pub destroy_client : Client → List ℕ
destroy_client c = elim c.fd [ none ↦ [] | some fd ↦ fd ∷ [] ]

-- The move constructor: the new client and what is left of the other. C++ leaves open which bytes a
-- string keeps that was moved from.
unfoldable pub move_client : Bytes × Bytes → Client → Client × Client
move_client (input, output) other =
    (other, record { fd = none; input_buffer = input; output_buffer = output })

-- The move assignment of two objects: the sockets that it closes, and the two.
unfoldable pub move_assign : Bytes × Bytes → Client → Client → List ℕ × (Client × Client)
unfolding destroy_client move_client
move_assign left c other = (destroy_client c, move_client left other)

-- With the destructors of both, each socket is closed once.
destroy_client-move_assign :
    (left : Bytes × Bytes) (c other : Client)
    → (move_assign left c other).0
        ++ (destroy_client (move_assign left c other).1.0
            ++ destroy_client (move_assign left c other).1.1)
      ≡ destroy_client c ++ destroy_client other
unfolding move_assign
destroy_client-move_assign left c other =
    ap (λ l. destroy_client c ++ l) (append-nil (destroy_client other))

unfoldable pub release : Client → Option ℕ × Client
release c = (c.fd, record c { fd = none })

unfoldable pub read_from_socket : RecvResult → Client → Bool × Client
read_from_socket (received s) c = (true, record c { input_buffer = c.input_buffer ++ s })
read_from_socket closed c = (false, c)
read_from_socket recv_blocks c = (true, c)
read_from_socket recv_fails c = (false, c)

unfoldable pub write_to_socket : SendResult → Client → Bool × Client
write_to_socket result c = if is_empty c.output_buffer then (true, c) else elim result [
  | sent zero ↦ (false, c)
  | sent (suc n) ↦ (true, record c { output_buffer = drop (suc n) c.output_buffer })
  | send_blocks ↦ (true, c)
  | send_fails ↦ (false, c)
]

unfoldable pub has_pending_write : Client → Bool
has_pending_write c = not (is_empty c.output_buffer)

unfoldable pub queue_response : Bytes → Client → Client
queue_response response c = record c { output_buffer = c.output_buffer ++ response }
