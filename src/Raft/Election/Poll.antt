-- ===== src/Raft/Election/Poll.antt =====
-- The replies to one call of `startRequestVote`, one after the other.
use unique_freshman.Prelude.{
  ℕ, suc, ◌+◌, ◌≤◌, ◌≡◌, refl, ◌∙◌, sym, ℤ, pos, ◌+ℤ◌, ◌≤ℤ◌, ltb, true, false, List, [], ◌∷◌,
  Option, none, some, arith, Bool-cases, inl, inr, if◌then◌else◌,
}
use unique_freshman.Raft.Types.{Raft, Role, RequestVoteArgs, RequestVoteReply, candidate, leader}
use unique_freshman.Raft.Gob.{Gob}
use unique_freshman.Raft.Election.{vote_reply}

-- How many of the replies grant the vote.
abbrev pub granted : List (Option RequestVoteReply) → ℕ
granted [] = 0
granted (none ∷ rs) = granted rs
granted (some r ∷ rs) = if r.vote_granted then suc (granted rs) else granted rs

-- No reply is of a later term.
abbrev pub InTime : ℤ → List (Option RequestVoteReply) → Type 0
InTime t [] = Unit
InTime t (none ∷ rs) = InTime t rs
InTime t (some r ∷ rs) = (r.term ≤ℤ t) × InTime t rs

-- The outcome of an election for a candidate with `v` votes.
abbrev pub elected : ℕ → ℕ → Role
elected peers v = if ltb peers (v + v) then leader else candidate

module _ {Bytes Command : Type 0} ⦃gob : Gob Bytes Command⦄ (args : RequestVoteArgs) where
  unfoldable pub poll : List (Option RequestVoteReply) → ℕ → Raft Bytes Command → Raft Bytes Command
  poll [] n rf = rf
  poll (r ∷ rs) n rf = poll rs (vote_reply args r n rf).1 (vote_reply args r n rf).0

  -- A candidate of the request's term, with `v` votes.
  record IsRunning (v : ℕ) (rf : Raft Bytes Command) : Type 0 where
    role : rf.state ≡ candidate
    same_term : args.term ≡ rf.current_term
    votes : rf.vote_granted ≡ pos v

  vote_reply-leading :
      (r : Option RequestVoteReply) (n : ℕ) (rf : Raft Bytes Command)
      → rf.state ≡ leader
      → InTime rf.current_term (r ∷ [])
      → vote_reply args r n rf ≡ (rf, n)
  unfolding vote_reply
  vote_reply-leading none n rf leads t = refl
  vote_reply-leading (some r) n rf leads (t, _) = ground arith

  poll-leading :
      (rs : List (Option RequestVoteReply)) (n : ℕ) (rf : Raft Bytes Command)
      → rf.state ≡ leader
      → InTime rf.current_term rs
      → (poll rs n rf).state ≡ leader
  unfolding poll
  poll-leading [] n rf leads t = leads
  poll-leading (none ∷ rs) n rf leads t =
      rw (poll, vote_reply-leading none n rf leads tt) (poll-leading rs n rf leads t)
  poll-leading (some r ∷ rs) n rf leads (here, t) =
      rw (poll, vote_reply-leading (some r) n rf leads (here, tt)) (poll-leading rs n rf leads t)

  vote_reply-granted :
      (r : RequestVoteReply) (v n : ℕ) (rf : Raft Bytes Command)
      → n ≡ 0
      → IsRunning v rf
      → r.term ≤ℤ rf.current_term
      → r.vote_granted ≡ true
      → let out : Raft Bytes Command × ℕ = vote_reply args (some r) n rf in
        (out.0.state ≡ elected rf.peers (suc v))
        × (out.0.current_term ≡ rf.current_term)
        × (out.0.vote_granted ≡ pos (suc v))
        × (out.0.peers ≡ rf.peers)
        × (ltb rf.peers (suc v + suc v) ≡ false → out.1 ≡ 0)
  unfolding vote_reply ◌+ℤ◌
  vote_reply-granted r v n rf zero_n is t given = ground (arith, is.role, is.same_term, is.votes)

  vote_reply-denied :
      (r : RequestVoteReply) (v n : ℕ) (rf : Raft Bytes Command)
      → n ≡ 0
      → IsRunning v rf
      → r.term ≤ℤ rf.current_term
      → r.vote_granted ≡ false
      → let out : Raft Bytes Command × ℕ = vote_reply args (some r) n rf in
        (out.0.state ≡ candidate)
        × (out.0.current_term ≡ rf.current_term)
        × (out.0.vote_granted ≡ pos v)
        × (out.0.peers ≡ rf.peers)
        × (out.1 ≡ 0)
  unfolding vote_reply
  vote_reply-denied r v n rf zero_n is t given = ground (arith, is.role, is.same_term, is.votes)

  vote_reply-lost : (n : ℕ) (rf : Raft Bytes Command) → vote_reply args none n rf ≡ (rf, n)
  unfolding vote_reply
  vote_reply-lost n rf = refl

  -- The rest of the replies, where `n` has not been counted yet.
  poll_running :
      (rs : List (Option RequestVoteReply)) (v n : ℕ) (rf : Raft Bytes Command)
      → n ≡ 0
      → IsRunning v rf
      → v + v ≤ rf.peers
      → InTime rf.current_term rs
      → (poll rs n rf).state ≡ elected rf.peers (v + granted rs)
  unfolding poll
  poll_running [] v n rf zero_n is few t = ground (arith, is.role)
  poll_running (none ∷ rs) v n rf zero_n is few t =
      rw (poll, vote_reply-lost n rf) (poll_running rs v n rf zero_n is few t)
  poll_running (some r ∷ rs) v n rf zero_n is few (here, t) = elim (Bool-cases r.vote_granted) [
    | inl given ↦
        let (role, term, votes, peers, uncounted) =
          vote_reply-granted r v n rf zero_n is here given in
        let out = vote_reply args (some r) n rf in
        let t' : InTime out.0.current_term rs = rw term t in
        elim (Bool-cases (ltb rf.peers (suc v + suc v))) [
          | inl enough ↦
              let won : (poll rs out.1 out.0).state ≡ leader =
                poll-leading rs out.1 out.0 (ground arith) t' in
              won ∙ ground arith
          | inr short ↦
              let is' : IsRunning (suc v) out.0 = record {
                role = ground arith;
                same_term = is.same_term ∙ sym term;
                votes = votes;
              } in
              poll_running rs (suc v) out.1 out.0 (uncounted short) is' (ground (arith, peers)) t'
              ∙ ground (arith, peers)
        ]
    | inr denied ↦
        let (role, term, votes, peers, uncounted) =
          vote_reply-denied r v n rf zero_n is here denied in
        let out = vote_reply args (some r) n rf in
        let t' : InTime out.0.current_term rs = rw term t in
        let is' : IsRunning v out.0 = record {
          role = role;
          same_term = is.same_term ∙ sym term;
          votes = votes;
        } in
        poll_running rs v out.1 out.0 uncounted is' (omega (arith, peers)) t'
        ∙ ground (arith, peers)
  ]

  -- A candidate of the request's term, whose votes are not yet more than half of the peers, hears the
  -- replies of one call in some order, failed calls among them and none of a later term. Afterwards
  -- it leads exactly if its votes and those that the replies grant are more than half of the peers,
  -- and is a candidate still if not.
  pub poll-elected :
      (rs : List (Option RequestVoteReply)) (v : ℕ) (rf : Raft Bytes Command)
      → rf.state ≡ candidate
      → args.term ≡ rf.current_term
      → rf.vote_granted ≡ pos v
      → v + v ≤ rf.peers
      → InTime rf.current_term rs
      → (poll rs 0 rf).state ≡ elected rf.peers (v + granted rs)
  poll-elected rs v rf cand same votes few t =
      poll_running rs v 0 rf refl (record { role = cand; same_term = same; votes = votes }) few t
