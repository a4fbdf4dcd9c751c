-- ===== src/Raft/Race.antt =====
-- The RPC handler `RequestVote` of Task5/raft/raft.go as it runs in the source: without a lock, so that
-- the goroutines that take the lock may come between its statements, and other calls of it too. A
-- step reads or writes one field of the peer; `convertToFollower` and `persist` are one step each.
pub mod Ends
pub mod Alone
pub mod Sound
pub mod Fall
pub mod Terms
pub mod Panic
use unique_freshman.Prelude.{
  ℕ, zero, suc, ◌≡◌, ℤ, pos, minus_one, ◌+ℤ◌, ◌-ℤ◌, ltb_ℤ, leb_ℤ, eqb_ℤ, Bool, true, false, ◌&&◌,
  ◌||◌, ◌==◌, List, [], ◌∷◌, Option, some, ◌>>=◌, if◌then◌else◌, length, length_ℤ, at, get_elem?,
  set,
}
use unique_freshman.Persister.{copy}
use unique_freshman.Raft.Types.{
  Raft, RequestVoteArgs, RequestVoteReply, follower, candidate, leader,
}
use unique_freshman.Raft.Gob.{Gob}
use unique_freshman.Raft.State.{make, persist, convert_to_follower, notify}
use unique_freshman.Raft.Leader.{SortInts}
use unique_freshman.Raft.Peer.{Step, StaysUp}

-- What a call of `RequestVote` does next, with the locals that it still needs: the sizes that it has
-- read of the log, `newer`, and `reply`.
pub data Handling : Type 0 where
  tests_later clears looks measures : RequestVoteArgs → Handling
  compares_last : RequestVoteArgs → ℤ → Handling
  measures_again : RequestVoteArgs → Handling
  compares_same : RequestVoteArgs → ℤ → Handling
  compares_length : RequestVoteArgs → Handling
  grants votes tests_older tests_newer sets_term tests_role converts :
      RequestVoteArgs → Bool → Handling
  replies : Bool → Handling
  persists notifies replied : RequestVoteReply → Handling

-- `votedFor`, the local of the handler.
abbrev pub vote_of : RequestVoteArgs → Bool → ℤ
vote_of args granted = if granted then args.candidate_id else minus_one

module _ {Bytes Command : Type 0} ⦃gob : Gob Bytes Command⦄ where
  -- One step of the handler; `none` is an index out of range.
  unfoldable pub resume : Handling → Raft Bytes Command → Option (Handling × Raft Bytes Command)
  unfolding convert_to_follower persist
  resume (tests_later args) rf =
      some (if ltb_ℤ rf.current_term args.term then clears args else looks args, rf)
  resume (clears args) rf = some (looks args, record rf { voted_for = minus_one })
  resume (looks args) rf = some (if length rf.log == 0 then grants args true else measures args, rf)
  resume (measures args) rf = some (compares_last args (length_ℤ rf.log -ℤ pos 1), rf)
  resume (compares_last args i) rf = at rf.log i >>= λ last.
      some
        (if ltb_ℤ last.term args.last_log_term then grants args true else measures_again args, rf)
  resume (measures_again args) rf = some (compares_same args (length_ℤ rf.log -ℤ pos 1), rf)
  resume (compares_same args i) rf = at rf.log i >>= λ last.
      some
        (if eqb_ℤ args.last_log_term last.term then compares_length args else grants args false, rf)
  resume (compares_length args) rf =
      some (grants args (leb_ℤ (length_ℤ rf.log) (args.last_log_index +ℤ pos 1)), rf)
  resume (grants args newer) rf = some (
    votes args (newer && (eqb_ℤ rf.voted_for minus_one || eqb_ℤ rf.voted_for args.candidate_id)),
    rf,
  )
  resume (votes args granted) rf =
      some (tests_older args granted, record rf { voted_for = vote_of args granted })
  resume (tests_older args granted) rf =
      some (if ltb_ℤ args.term rf.current_term then replies false else tests_newer args granted, rf)
  resume (tests_newer args granted) rf =
      some (if ltb_ℤ rf.current_term args.term then sets_term args granted else replies granted, rf)
  resume (sets_term args granted) rf =
      some (tests_role args granted, record rf { current_term = args.term })
  resume (tests_role args granted) rf = elim rf.state [
    | follower ↦ some (replies granted, rf)
    | candidate ↦ some (converts args granted, rf)
    | leader ↦ some (converts args granted, rf)
  ]
  resume (converts args granted) rf =
      some (replies granted, convert_to_follower rf.current_term (vote_of args granted) rf)
  resume (replies granted) rf =
      some (persists (record { term = rf.current_term; vote_granted = granted }), rf)
  resume (persists reply) rf = some (notifies reply, persist rf)
  resume (notifies reply) rf = some (
    replied reply,
    if reply.vote_granted then record rf { grant_vote_ch = notify rf.grant_vote_ch } else rf,
  )
  resume (replied reply) rf = some (replied reply, rf)

  -- `n` steps of one call with nothing in between.
  unfoldable pub run : ℕ → Handling → Raft Bytes Command → Option (Handling × Raft Bytes Command)
  unfolding resume
  run zero h rf = some (h, rf)
  run (suc n) h rf = resume h rf >>= λ (h', rf'). run n h' rf'

-- A peer and the calls of `RequestVote` under way.
pub record Racing (Bytes Command : Type 0) : Type 0 where
  pub raft : Raft Bytes Command
  pub calls : List Handling

module _ {Bytes Command : Type 0} ⦃gob : Gob Bytes Command⦄ (sort : SortInts) where
  -- A step of the race. The calls under way on a peer that is started anew go on with the old one.
  pub data Race (r r' : Racing Bytes Command) : Type 0 where
    came :
        (args : RequestVoteArgs) → record r { calls = tests_later args ∷ r.calls } ≡ r' → Race r r'
    went_on :
        (k : ℕ) (h h' : Handling) (rf' : Raft Bytes Command)
        → get_elem? r.calls k ≡ some h
        → resume h r.raft ≡ some (h', rf')
        → record { raft = rf'; calls = set r.calls k h' } ≡ r'
        → Race r r'
    locked :
        (rf' : Raft Bytes Command) (st : Step sort r.raft rf')
        → StaysUp sort st
        → record r { raft = rf' } ≡ r'
        → Race r r'
    began_anew :
        (draw : ℕ) (rf' : Raft Bytes Command)
        → make r.raft.peers r.raft.me (copy gob.nil_bytes r.raft.persister) draw ≡ rf'
        → record { raft = rf'; calls = [] } ≡ r'
        → Race r r'

  -- The peer is not started anew.
  abbrev pub GoesOn : {r r' : Racing Bytes Command} → Race r r' → Type 0
  GoesOn (began_anew draw rf' made_so e) = ⊥
  GoesOn _ = Unit

  pub data Races (r : Racing Bytes Command) : Racing Bytes Command → Type 0 where
    here : Races r r
    onward : {r' r'' : Racing Bytes Command} → Races r r' → Race r' r'' → Races r r''
