-- ===== src/Lib.antt =====
-- VeloKV, a key-value server that speaks the Redis protocol: strings and lists with deadlines, an
-- eviction list, a snapshot file, and replication from a leader to replicas.
--
-- Parts. A connection (src/client.cpp) collects bytes; the parser (src/resp.cpp) cuts them into
-- commands; the server (src/server.cpp) dispatches each to its handler (src/command.cpp), which
-- works on the database (src/db.cpp) and queues a reply. A leader also queues each write for its
-- replicas (src/replication.cpp), and a new replica first gets a full sync made from
-- `Database::snapshot`. SAVE and the end of the server write the same snapshot to a file, and the
-- start reads it (src/persistence.cpp). The event loop (src/server.cpp) drives all this from the
-- sockets that `select` finds ready, and src/main.cpp makes the objects from the arguments.
--
-- Files. Paths are from the root of the repository.
--   Prelude: Boolean tests, lists over the native numbers, ℤ with the bounds of `int` and `int64_t`,
--   and `Outcome`, in which `undef` is undefined behaviour.
--   Map: `std::unordered_map` as an association list.
--   Text: src/command.cpp `to_upper`; src/persistence.cpp `percent_encode`, `percent_decode`;
--   src/replication.cpp `decode`; `find`, `substr` and the decimal numbers of the standard library.
--   Db: src/db.cpp. `Database` has the two stores, the expiry index and the eviction list; an
--   iterator of the list is the number of a node, and a stale one makes an operation `undef`. A method
--   takes the readings of `now_ms()` in order. Db/Wf is the invariant and Db/View what a client sees
--   of a key at a time; the other children are about the methods.
--   Resp: src/resp.cpp. Offsets are native numbers; `int` counts are read in the range of `int`.
--   Bounds, Stable and Loop are about what the parser decides, RoundTrip, Pipeline and Pieces about
--   commands that a client serialised.
--   Persistence: src/persistence.cpp, on a map from paths to contents; Load is the reading of a file.
--   The stream is buffered, and how much of the text its close writes is handed in. Saves is about what
--   a save leaves on the disk, Full about one on a full disk, RoundTrip about a load after a save;
--   Restore, Restored, Entries, Fields, Record and Snapshot are the steps to that, from the database to
--   the bytes.
--   Command: src/command.cpp. A handler runs on the database and the disk. Keeps and Dispatch are about
--   what it leaves, Replies about what the reading commands answer, Saves about SAVE.
--   Spec: what the store promises, an abstract store with no trace of its data structures, and the
--   bytes of its answers. Refines says when a database shows it, Coded compares the replies; Reads, Strings, Lists and Execute are about the commands of
--   src/command.cpp, Session and Served about what a client of src/server.cpp gets.
--   Replication: src/replication.cpp. Stream is what a leader writes, Apply what a replica does with
--   a line, Manager the state of `ReplicationManager`, Sockets its part in `select` and its
--   destructor; RoundTrip, Applied and Queue are about the way of a command to the replica, Sync,
--   SyncLoop and FullSync about the full sync, Merge and MergeSync about one over keys that the replica
--   has, Divergence about the commands that a leader refuses, Late about a push after a deadline.
--   Moves is about the erasure of a connection from the vector.
--   Client: src/client.cpp, with the moves and the destructor; Pieces is about commands that come in
--   several reads. Common: src/common.cpp.
--   Server: src/server.cpp. Server has the handlers, Server/Life the constructor, `init` and the
--   destructor, Server/Serve and Server/Loop the rounds of `start`. A round gets the results of its
--   system calls, and FD_SETSIZE is an argument. Keeps and Invariant are about the database, Owners,
--   Sockets, Links and Reach about who holds a socket, Idle about the sweep, Stops about the end and
--   the next start, Crowded about the limit of FD_SET.
--   Main: src/main.cpp. Flags is about the arguments, Exit about the runs that end with an error.
--   Tests: runs of the code and the theorems at concrete inputs.
--
-- Fuel. `parse` runs its loop with one round more than the buffer has bytes; each round takes a
-- byte, and that this is enough is proved. `make_room` has a round for each node of the eviction
-- list: a round removes one, and with none left the loop of the source is undefined. `apply_lines`
-- has a round for each byte of the buffer, of which a round takes at least two.
--
-- Not modelled: the operating system, whose results are handed in; what is only logged or printed;
-- allocation; the Windows branches, and with them the set-up of the network, which is empty
-- elsewhere; the texts of system errors. A signal comes between two rounds of the loop, though it may
-- come within one. The order in which C++ iterates over a map is that of the association list, but for
-- the clients, whose order in a round is handed in. A reading of the clock is any number. The abstract
-- store of Spec has no eviction: it is compared as long as no more than 31 keys are stored.

mod Prelude
pub mod Map
pub mod Db
pub mod Text
pub mod Resp
pub mod Persistence
pub mod Command
pub mod Spec
pub mod Replication
pub mod Common
pub mod Client
pub mod Server
pub mod Main
mod Tests
