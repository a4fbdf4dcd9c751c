-- ===== src/Raft/Peer/Snapshot.antt =====
-- No peer saves a snapshot: `SaveStateAndSnapshot` has no caller in Task5/raft/raft.go.
use unique_freshman.Prelude.{ℕ, ◌≡◌, sym, ap, ◌∙◌, Option, none, some, arith}
use unique_freshman.Persister.{make_persister, copy}
use unique_freshman.Raft.Types.{Raft, RequestVoteArgs, RequestVoteReply}
use unique_freshman.Raft.Gob.{Gob}
use unique_freshman.Raft.State.{crowd, make, kill}
use unique_freshman.Raft.Election.{vote_reply}
use unique_freshman.Raft.Leader.{SortInts}
use unique_freshman.Raft.Leader.Frame.{append_reply-Replied}
use unique_freshman.Raft.Peer.{
  Step, Reach, made, next, asked, told, vote_came, answer_came, submitted, round_began, woke,
  was_killed, crowded, restarted,
}
use unique_freshman.Raft.Peer.Shape.{
  request_vote-SameShape, append_entries-SameShape, begin_round-SameShape, start-SameShape,
  wake-SameShape, Replied-SameShape,
}

module _ {Bytes Command : Type 0} ⦃gob : Gob Bytes Command⦄ where
  vote_reply-snapshot :
      (args : RequestVoteArgs) (reply : Option RequestVoteReply) (n : ℕ) (rf : Raft Bytes Command)
      → (vote_reply args reply n rf).0.persister.snapshot ≡ rf.persister.snapshot
  unfolding vote_reply
  vote_reply-snapshot args none n rf = ground arith
  vote_reply-snapshot args (some reply) n rf = ground arith

module _ {Bytes Command : Type 0} ⦃gob : Gob Bytes Command⦄ (sort : SortInts) where
  Step-snapshot :
      {rf rf' : Raft Bytes Command}
      → Step sort rf rf'
      → rf'.persister.snapshot ≡ rf.persister.snapshot
  unfolding kill crowd make copy make_persister
  Step-snapshot {rf} {rf'} (asked args reply h) =
      (request_vote-SameShape args rf rf' reply h).snapshot
  Step-snapshot {rf} {rf'} (told args reply h) =
      (append_entries-SameShape args rf rf' reply h).snapshot
  Step-snapshot {rf} (vote_came args reply n e) =
      sym (ap (λ r. r.persister.snapshot) e) ∙ vote_reply-snapshot args reply n rf
  Step-snapshot {rf} {rf'} (answer_came j args reply then_do h) =
      (Replied-SameShape (append_reply-Replied sort j args reply rf rf' then_do h)).snapshot
  Step-snapshot {rf} (submitted command e) =
      sym (ap (λ r. r.persister.snapshot) e) ∙ (start-SameShape command rf).snapshot
  Step-snapshot {rf} (round_began draw e) =
      sym (ap (λ r. r.persister.snapshot) e) ∙ (begin_round-SameShape draw rf).snapshot
  Step-snapshot {rf} {rf'} (woke event wait h) = (wake-SameShape event wait rf rf' h).snapshot
  Step-snapshot (was_killed e) = sym (ap (λ r. r.persister.snapshot) e)
  Step-snapshot (crowded ch e) = sym (ap (λ r. r.persister.snapshot) e)
  Step-snapshot (restarted draw e) = sym (ap (λ r. r.persister.snapshot) e)

  pub Reach-snapshot :
      (peers me : ℕ) {rf : Raft Bytes Command}
      → Reach sort peers me rf
      → rf.persister.snapshot ≡ gob.nil_bytes
  unfolding make make_persister
  Reach-snapshot peers me (made draw rf e) = sym (ap (λ r. r.persister.snapshot) e)
  Reach-snapshot peers me (next r st) = Step-snapshot st ∙ Reach-snapshot peers me r
