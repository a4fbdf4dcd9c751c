-- ===== src/Raft/Race/Terms.antt =====
-- When the term of a peer may fall, as `RequestVote` takes no lock.
use unique_freshman.Prelude.{◌≡◌, ◌<ℤ◌, Bool}
use unique_freshman.Raft.Types.{Raft, RequestVoteArgs}
use unique_freshman.Raft.Gob.{Gob}
use unique_freshman.Raft.Race.{Handling, sets_term, Race}

module _ {Bytes Command : Type 0} where
  -- The call is about to write its term, and the peer's has come to be a later one since the call
  -- tested it.
  pub record IsOvertaken (h : Handling) (rf : Raft Bytes Command) : Type 0 where
    pub args : RequestVoteArgs
    pub granted : Bool
    pub at_write : h ≡ sets_term args granted
    pub late : args.term <ℤ rf.current_term
