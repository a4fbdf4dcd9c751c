-- ===== src/Tests.antt =====
-- Concrete runs of the program of Task5/raft: the modules apply the theorems to small peers.
mod Samples
mod Sorting
mod Storage
mod Votes
mod Appends
mod Leading
mod Running
mod Checking
mod Clustered
mod Matched
mod Testing
mod Counting
mod Rivals
mod Racing
mod Crashing
mod Recount
