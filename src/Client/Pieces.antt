-- ===== src/Client/Pieces.antt =====
-- src/client.cpp and src/resp.cpp: a client whose commands arrive in pieces.
use velo_kv.Prelude.{
  ◌≡◌, ◌∙◌, ap, sym, subst, refl, none, some, List, [], ◌∷◌, ◌++◌, append_assoc, append-nil, Bytes,
  All, Outcome, ok, undef, ◌>>=◌,
}
use velo_kv.Resp.{Command, parse}
use velo_kv.Resp.Pipeline.{serialize_commands, IsSendable, parse-serialize}
use velo_kv.Resp.Pieces.{pieces, IsCut, IsCut-incomplete, IsCut-ended, All-front, All-behind}
use velo_kv.Replication.Manager.{received}
use velo_kv.Client.{Client, read_from_socket}

-- What a read and the parse behind it make of a client: the commands, and the client.
unfoldable pub read_commands : Bytes → Client → Outcome (List Command × Client)
unfolding read_from_socket parse
read_commands piece client =
    let (alive, client') = read_from_socket (received piece) client in
    elim (parse client'.input_buffer) [
      | none ↦ undef
      | some p ↦ ok (p.commands, record client' { input_buffer = p.input_buffer })
    ]

-- A read for each piece, and all the commands.
unfoldable pub read_pieces : List Bytes → Client → Outcome (List Command × Client)
unfolding read_commands
read_pieces [] client = ok ([], client)
read_pieces (piece ∷ rest) client = do
  (commands, client') ← read_commands piece client
  (later, client'') ← read_pieces rest client'
  ok (commands ++ later, client'')

abbrev pub joined : List Bytes → Bytes
joined [] = []
joined (piece ∷ rest) = piece ++ joined rest

read_commands-serialize :
    (piece part : Bytes) (first later : List Command) (c : Client)
    → All IsSendable (first ++ later)
    → c.input_buffer ++ piece ≡ serialize_commands first ++ part
    → IsCut part later
    → read_commands piece c ≡ ok (first, record c { input_buffer = part })
unfolding read_commands read_from_socket
read_commands-serialize piece part first later c sendable here cut =
    let parsed =
      ap parse here
      ∙ parse-serialize first part (All-front IsSendable first later sendable)
          (IsCut-incomplete first later part (All-behind IsSendable first later sendable) cut) in
    rw (parsed, read_commands) refl

-- The bytes of a run of commands, each with an argument and with sizes that fit an `int`, come in any
-- pieces, down to single bytes, the first of them perhaps kept in the buffer already: the reads are
-- defined, they report exactly the commands, in order, and leave the buffer empty.
pub read_pieces-serialize :
    (ps : List Bytes) (cs : List Command) (c : Client)
    → All IsSendable cs
    → IsCut c.input_buffer cs
    → c.input_buffer ++ joined ps ≡ serialize_commands cs
    → read_pieces ps c ≡ ok (cs, record c { input_buffer = [] })
unfolding read_pieces
read_pieces-serialize [] cs c sendable cut whole =
    let (part, none_left) =
      IsCut-ended c.input_buffer cs cut (sym (append-nil c.input_buffer) ∙ whole) in
    rw (none_left, sym part) refl
read_pieces-serialize (piece ∷ ps) cs c sendable cut whole =
    let h =
      pieces cs (c.input_buffer ++ piece) (joined ps)
        (append_assoc c.input_buffer piece (joined ps) ∙ whole) in
    let sendable' = subst (All IsSendable) h.commands sendable in
    let read = read_commands-serialize piece h.part h.first h.later c sendable' h.front h.cut in
    let later =
      read_pieces-serialize ps h.later (record c { input_buffer = h.part })
        (All-behind IsSendable h.first h.later sendable') h.cut h.behind in
    rw (read, later) (ap (λ l. ok (l, record c { input_buffer = [] })) (sym h.commands))
