-- ===== src/Raft.antt =====
-- The Raft peer of Task5/raft/raft.go, a module for each of its parts.
pub mod Rising
pub mod Race
pub mod Types
pub mod Gob
pub mod State
pub mod Vote
pub mod Apply
pub mod Append
pub mod Leader
pub mod Election
pub mod Client
pub mod HeartBeat
pub mod Peer
