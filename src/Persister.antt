-- ===== src/Persister.antt =====
-- The stable storage of a peer (Task5/raft/persister.go). A slice of bytes is of the abstract type
-- `Bytes`, its `nil` and `len` are arguments; every method runs under the lock `ps.mu`.
use unique_freshman.Prelude.{ℕ}

pub record Persister (Bytes : Type 0) : Type 0 where
  pub raftstate : Bytes
  pub snapshot : Bytes

module _ {Bytes : Type 0} where
  unfoldable pub make_persister : Bytes → Persister Bytes
  make_persister nil_bytes = record { raftstate = nil_bytes; snapshot = nil_bytes }

  unfoldable pub copy : Bytes → Persister Bytes → Persister Bytes
  unfolding make_persister
  copy nil_bytes ps =
      let np = make_persister nil_bytes in
      record np { raftstate = ps.raftstate; snapshot = ps.snapshot }

  unfoldable pub save_raft_state : Persister Bytes → Bytes → Persister Bytes
  save_raft_state ps s = record ps { raftstate = s }

  unfoldable pub read_raft_state : Persister Bytes → Bytes
  read_raft_state ps = ps.raftstate

  unfoldable pub raft_state_size : (Bytes → ℕ) → Persister Bytes → ℕ
  raft_state_size size ps = size ps.raftstate

  unfoldable pub save_state_and_snapshot : Persister Bytes → Bytes → Bytes → Persister Bytes
  save_state_and_snapshot ps s snap = record ps { raftstate = s; snapshot = snap }

  unfoldable pub read_snapshot : Persister Bytes → Bytes
  read_snapshot ps = ps.snapshot

  unfoldable pub snapshot_size : (Bytes → ℕ) → Persister Bytes → ℕ
  snapshot_size size ps = size ps.snapshot
