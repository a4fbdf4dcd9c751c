-- ===== src/Raft/Peer/Sized.antt =====
-- The slices `nextIndex` and `matchIndex` of a leader have a place for every peer.
use unique_freshman.Prelude.{
  ℕ, ◌≡◌, refl, ap, ◌∙◌, subst, inl, inr, Option, none, some, length, arith, length-replicate,
}
use unique_freshman.Persister.{Persister}
use unique_freshman.Raft.Types.{Raft, RequestVoteArgs, RequestVoteReply, leader}
use unique_freshman.Raft.Gob.{Gob}
use unique_freshman.Raft.State.{crowd, kill, make}
use unique_freshman.Raft.Election.{vote_reply}
use unique_freshman.Raft.Election.Win.{vote_reply-IsWin}
use unique_freshman.Raft.Leader.{SortInts}
use unique_freshman.Raft.Leader.Frame.{append_reply-Replied}
use unique_freshman.Raft.Peer.{
  Step, Reach, made, next, asked, told, vote_came, answer_came, submitted, round_began, woke,
  was_killed, crowded, restarted,
}
use unique_freshman.Raft.Peer.Shape.{
  SameShape, request_vote-SameShape, append_entries-SameShape, begin_round-SameShape,
  start-SameShape, wake-SameShape, Replied-SameShape,
}

module _ {Bytes Command : Type 0} where
  pub record IsSized (peers me : ℕ) (rf : Raft Bytes Command) : Type 0 where
    pub count : rf.peers ≡ peers
    pub index : rf.me ≡ me
    pub sized : rf.state ≡ leader → (length rf.next_index ≡ peers) × (length rf.match_index ≡ peers)

  pub SameShape-IsSized :
      (peers me : ℕ) {rf rf' : Raft Bytes Command}
      → SameShape rf rf'
      → IsSized peers me rf
      → IsSized peers me rf'
  SameShape-IsSized peers me s z = record {
    count = s.count ∙ z.count;
    index = s.index ∙ z.index;
    sized =
        λ leads. let (a, b) = z.sized (s.no_leader leads) in (s.next_index ∙ a, s.match_index ∙ b);
  }

module _ {Bytes Command : Type 0} ⦃gob : Gob Bytes Command⦄ where
  vote_reply-fixed :
      (args : RequestVoteArgs) (reply : Option RequestVoteReply) (n : ℕ) (rf : Raft Bytes Command)
      → ((vote_reply args reply n rf).0.peers ≡ rf.peers)
        × ((vote_reply args reply n rf).0.me ≡ rf.me)
  unfolding vote_reply
  vote_reply-fixed args none n rf = ground arith
  vote_reply-fixed args (some reply) n rf = ground arith

  vote_reply-IsSized :
      (peers me : ℕ) (args : RequestVoteArgs) (reply : Option RequestVoteReply) (n : ℕ)
      (rf : Raft Bytes Command)
      → IsSized peers me rf
      → IsSized peers me (vote_reply args reply n rf).0
  vote_reply-IsSized peers me args reply n rf z =
      let (same_peers, same_me) = vote_reply-fixed args reply n rf in
      record {
        count = same_peers ∙ z.count;
        index = same_me ∙ z.index;
        sized = λ leads. elim (vote_reply-IsWin args reply n rf refl leads) [
          | inl (led, same, _) ↦
              let (a, b) = z.sized led in
              (ap (λ r. length r.next_index) same ∙ a, ap (λ r. length r.match_index) same ∙ b)
          | inr (_, r, _, win) ↦ (
            ap length win.next ∙ length-replicate rf.peers _ ∙ z.count,
            ap length win.match ∙ length-replicate rf.peers _ ∙ z.count,
          )
        ];
      }

module _ {Bytes Command : Type 0} ⦃gob : Gob Bytes Command⦄ (sort : SortInts) where
  pub fresh-IsSized :
      (peers me draw : ℕ) {rf : Raft Bytes Command} (persister : Persister Bytes)
      → make peers me persister draw ≡ rf
      → IsSized peers me rf
  unfolding make
  fresh-IsSized peers me draw persister e =
      subst (IsSized peers me) e (record { count = refl; index = refl; sized = λ leads. cc })

  pub Step-IsSized :
      (peers me : ℕ) {rf rf' : Raft Bytes Command}
      → Step sort rf rf'
      → IsSized peers me rf
      → IsSized peers me rf'
  Step-IsSized peers me {rf} {rf'} (asked args reply h) z =
      SameShape-IsSized peers me (request_vote-SameShape args rf rf' reply h) z
  Step-IsSized peers me {rf} {rf'} (told args reply h) z =
      SameShape-IsSized peers me (append_entries-SameShape args rf rf' reply h) z
  Step-IsSized peers me {rf} (vote_came args reply n e) z =
      subst (IsSized peers me) e (vote_reply-IsSized peers me args reply n rf z)
  Step-IsSized peers me {rf} {rf'} (answer_came j args reply then_do h) z =
      SameShape-IsSized peers me
        (Replied-SameShape (append_reply-Replied sort j args reply rf rf' then_do h)) z
  Step-IsSized peers me {rf} (submitted command e) z =
      subst (IsSized peers me) e (SameShape-IsSized peers me (start-SameShape command rf) z)
  Step-IsSized peers me {rf} (round_began draw e) z =
      subst (IsSized peers me) e (SameShape-IsSized peers me (begin_round-SameShape draw rf) z)
  Step-IsSized peers me {rf} {rf'} (woke event wait h) z =
      SameShape-IsSized peers me (wake-SameShape event wait rf rf' h) z
  Step-IsSized peers me {rf} (was_killed e) z =
      subst (IsSized peers me) e
        (unfold kill in (record { count = z.count; index = z.index; sized = z.sized }))
  Step-IsSized peers me {rf} (crowded ch e) z =
      subst (IsSized peers me) e
        (unfold crowd in (record { count = z.count; index = z.index; sized = z.sized }))
  Step-IsSized peers me {rf} {rf'} (restarted draw e) z =
      let new : IsSized rf.peers rf.me rf' = fresh-IsSized rf.peers rf.me draw _ e in
      record {
        count = new.count ∙ z.count;
        index = new.index ∙ z.index;
        sized = λ leads. let (a, b) = new.sized leads in (a ∙ z.count, b ∙ z.count);
      }

  -- Whatever reaches a peer, its index and the number of peers stay, and while it leads, each of
  -- `nextIndex` and `matchIndex` has a place for every peer.
  pub Reach-IsSized :
      (peers me : ℕ) {rf : Raft Bytes Command} → Reach sort peers me rf → IsSized peers me rf
  Reach-IsSized peers me (made draw rf e) = fresh-IsSized peers me draw _ e
  Reach-IsSized peers me (next r st) = Step-IsSized peers me st (Reach-IsSized peers me r)
