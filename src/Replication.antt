-- ===== src/Replication.antt =====
-- src/replication.hpp and src/replication.cpp: `ReplicationManager`. `Stream` is the wire format and
-- what a replica applies of it; `Manager` is the state of the leader's and of the replica's side.
pub mod Stream
pub mod Apply
pub mod Manager
pub mod Sockets
pub mod Moves
pub mod RoundTrip
pub mod Queue
pub mod Sync
pub mod SyncLoop
pub mod FullSync
pub mod Merge
pub mod MergeSync
pub mod Applied
pub mod Divergence
pub mod Late
