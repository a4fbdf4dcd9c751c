-- ===== src/Raft/Types.antt =====
-- The types of Task5/raft/raft.go: log entries, messages, RPC arguments and replies, and the
-- state of a peer. Go's `int` is ℤ; a bound on its 64 bits is not modelled.
use unique_freshman.Prelude.{ℕ, ℤ, List, Bool, ◌≡◌, refl, ◌⊎◌, inl, inr}
use unique_freshman.Persister.{Persister}

pub record ApplyMsg (Command : Type 0) : Type 0 where
  pub command_valid : Bool
  pub command : Command
  pub command_index : ℤ

pub record LogEntry (Command : Type 0) : Type 0 where
  pub command : Command
  pub term : ℤ

-- The constants `Follower`, `Candidate` and `Leader`.
pub data Role : Type 0 where
  follower candidate leader : Role

pub Role-cases : (r : Role) → (r ≡ follower) ⊎ (r ≡ candidate) ⊎ (r ≡ leader)
Role-cases follower = inl refl
Role-cases candidate = inr (inl refl)
Role-cases leader = inr (inr refl)

-- A peer. `peers` is the length of the slice `peers`; `apply_ch` holds the messages sent on
-- `applyCh` so far, the oldest first; `timer` is the duration in milliseconds for which the timer
-- was last armed; a notification channel is the number of goroutines that wait to send on it.
pub record Raft (Bytes Command : Type 0) : Type 0 where
  pub peers : ℕ
  pub persister : Persister Bytes
  pub me : ℕ
  pub dead : ℤ
  pub current_term : ℤ
  pub voted_for : ℤ
  pub log : List (LogEntry Command)
  pub committed_index : ℤ
  pub last_applied : ℤ
  pub next_index : List ℤ
  pub match_index : List ℤ
  pub state : Role
  pub apply_ch : List (ApplyMsg Command)
  pub timer : ℕ
  pub grant_vote_ch : ℕ
  pub heart_beat_ch : ℕ
  pub leader_ch : ℕ
  pub vote_granted : ℤ
  pub vote_not_granted : ℤ

pub record RequestVoteArgs : Type 0 where
  pub term : ℤ
  pub candidate_id : ℤ
  pub last_log_index : ℤ
  pub last_log_term : ℤ

pub record RequestVoteReply : Type 0 where
  pub term : ℤ
  pub vote_granted : Bool

pub record AppendEntriesArgs (Command : Type 0) : Type 0 where
  pub term : ℤ
  pub leader_id : ℤ
  pub prev_log_index : ℤ
  pub prev_log_term : ℤ
  pub entries : List (LogEntry Command)
  pub leader_commit : ℤ

pub record AppendEntriesReply : Type 0 where
  pub term : ℤ
  pub success : Bool
  pub conflict_index : ℤ
  pub conflict_term : ℤ
