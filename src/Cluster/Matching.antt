-- ===== src/Cluster/Matching.antt =====
-- When the logs of the peers of a cluster match: for runs in which no two peers lead in one term.
pub mod Prefix
pub mod Moments
pub mod Moves
pub mod Onward
pub mod Ledger
