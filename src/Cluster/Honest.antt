-- ===== src/Cluster/Honest.antt =====
-- What the messages on the wire tell of the peers that sent them.
use unique_freshman.Prelude.{
  ℕ, ◌≡◌, sym, subst, ap, ◌∙◌, ℤ, pos, ◌≤ℤ◌, List, [], some, get_elem?, set, Every, Every-cons,
  get_elem?-set_self, inl, inr, arith,
}
use unique_freshman.Raft.Types.{
  Raft, RequestVoteArgs, RequestVoteReply, AppendEntriesArgs, AppendEntriesReply,
}
use unique_freshman.Raft.Gob.{Gob}
use unique_freshman.Raft.State.Restart.{IsSaved}
use unique_freshman.Raft.Vote.Decide.{request_vote-term}
use unique_freshman.Raft.Append.Replicate.{append_entries-success}
use unique_freshman.Raft.Election.{vote_args}
use unique_freshman.Raft.Leader.{SortInts, append_args}
use unique_freshman.Raft.Peer.Durable.{Reach-IsSaved}
use unique_freshman.Raft.Peer.Terms.{Step-grows}
use unique_freshman.Raft.Peer.Sized.{Reach-IsSized}
use unique_freshman.Cluster.{
  Cluster, Sent, Move, Runs, acted, called_vote, answered_vote, took_vote, called_append,
  answered_append, took_append, began, onward,
}
use unique_freshman.Cluster.Peers.{Runs-Reach, Move-Change, Change, Change-at}
use unique_freshman.Cluster.Orderly.{Runs-InOrder}

module _ {Bytes Command : Type 0} where
  -- The peer is in this term, or in a later one.
  abbrev pub HasReached : List (Raft Bytes Command) → ℕ → ℤ → Type 0
  HasReached rafts i t =
      (rf : Raft Bytes Command) → get_elem? rafts i ≡ some rf → t ≤ℤ rf.current_term

  abbrev pub HonestVoteCall : List (Raft Bytes Command) → Sent RequestVoteArgs → Type 0
  HonestVoteCall rafts m = HasReached rafts m.from m.body.term × (m.body.candidate_id ≡ pos m.from)

  abbrev pub HonestVoteReply :
      List (Raft Bytes Command) → Sent (RequestVoteArgs × RequestVoteReply) → Type 0
  HonestVoteReply rafts m =
      HasReached rafts m.to m.body.0.term
      × (m.body.0.candidate_id ≡ pos m.to)
      × HasReached rafts m.from m.body.1.term

  abbrev pub HonestAppendCall :
      List (Raft Bytes Command) → Sent (AppendEntriesArgs Command) → Type 0
  HonestAppendCall rafts m = HasReached rafts m.from m.body.term × (m.body.leader_id ≡ pos m.from)

  abbrev pub HonestAppendReply :
      List (Raft Bytes Command) → Sent (AppendEntriesArgs Command × AppendEntriesReply) → Type 0
  HonestAppendReply rafts m =
      HasReached rafts m.to m.body.0.term
      × (m.body.0.leader_id ≡ pos m.to)
      × HasReached rafts m.from m.body.1.term

  pub record IsHonest (rafts : List (Raft Bytes Command)) (c : Cluster Bytes Command) : Type 0 where
    pub vote_calls : Every (HonestVoteCall rafts) c.vote_calls
    pub vote_replies : Every (HonestVoteReply rafts) c.vote_replies
    pub append_calls : Every (HonestAppendCall rafts) c.append_calls
    pub append_replies : Every (HonestAppendReply rafts) c.append_replies

  -- Terms may grow.
  abbrev Grows : List (Raft Bytes Command) → List (Raft Bytes Command) → Type 0
  Grows rafts rafts' = (i : ℕ) (t : ℤ) → HasReached rafts i t → HasReached rafts' i t

  Grows-IsHonest :
      {rafts rafts' : List (Raft Bytes Command)} {c : Cluster Bytes Command}
      → Grows rafts rafts'
      → IsHonest rafts c
      → IsHonest rafts' c
  Grows-IsHonest g h = record {
    vote_calls = λ k m e. let (a, b) = h.vote_calls k m e in (g _ _ a, b);
    vote_replies = λ k m e. let (a, b, d) = h.vote_replies k m e in (g _ _ a, b, g _ _ d);
    append_calls = λ k m e. let (a, b) = h.append_calls k m e in (g _ _ a, b);
    append_replies = λ k m e. let (a, b, d) = h.append_replies k m e in (g _ _ a, b, g _ _ d);
  }

  same_messages :
      (c : Cluster Bytes Command) (rafts' : List (Raft Bytes Command))
      {rafts : List (Raft Bytes Command)}
      → IsHonest rafts c
      → IsHonest rafts (record c { rafts = rafts' })
  same_messages c rafts' h = record {
    vote_calls = h.vote_calls;
    vote_replies = h.vote_replies;
    append_calls = h.append_calls;
    append_replies = h.append_replies;
  }

  vote_args-told :
      (rf : Raft Bytes Command) (args : RequestVoteArgs)
      → vote_args rf ≡ some (some args)
      → (args.term ≡ rf.current_term) × (args.candidate_id ≡ pos rf.me)
  unfolding vote_args
  vote_args-told rf args h = ground arith

  append_args-told :
      (j : ℕ) (rf : Raft Bytes Command) (args : AppendEntriesArgs Command)
      → append_args j rf ≡ some (some args)
      → (args.term ≡ rf.current_term) × (args.leader_id ≡ pos rf.me)
  unfolding append_args
  append_args-told j rf args h = ground arith

module _ {Bytes Command : Type 0} ⦃gob : Gob Bytes Command⦄ (sort : SortInts) where
  Change-Grows :
      {c c' : Cluster Bytes Command}
      → Every IsSaved c.rafts
      → Change sort c c'
      → Grows c.rafts c'.rafts
  Change-Grows saved change i t reached rf' here =
      let (rf, there, how) = Change-at sort i rf' change here in
      elim how [
        | inl same ↦ rw same (reached rf there)
        | inr st ↦ let e = reached rf there in omega (arith, Step-grows sort st (saved i rf there))
      ]

  at_sender :
      (rafts : List (Raft Bytes Command)) (i : ℕ) (rf : Raft Bytes Command) (t : ℤ)
      → get_elem? rafts i ≡ some rf
      → t ≡ rf.current_term
      → HasReached rafts i t
  at_sender rafts i rf t here same x there = let is : rf ≡ x = cc in rw (same, is) (omega arith)

  at_writer :
      (c c' : Cluster Bytes Command) (i : ℕ) (rf rf' : Raft Bytes Command) (t : ℤ)
      → get_elem? c.rafts i ≡ some rf
      → set c.rafts i rf' ≡ c'.rafts
      → t ≡ rf'.current_term
      → HasReached c'.rafts i t
  at_writer c c' i rf rf' t here e same =
      subst (λ rs. HasReached rs i t) e
        (at_sender _ i rf' t (get_elem?-set_self c.rafts i rf rf' here) same)

  Move-IsHonest :
      (n : ℕ) {c c' : Cluster Bytes Command}
      → Runs sort n c
      → Move sort c c'
      → IsHonest c'.rafts c
      → Grows c.rafts c'.rafts
      → IsHonest c'.rafts c'
  Move-IsHonest n {c} {c'} r (acted i rf rf' here a e) old g =
      subst (IsHonest c'.rafts) e (same_messages c _ old)
  Move-IsHonest n {c} {c'} r (called_vote i j rf args other here made e) old g =
      let (term, id) = vote_args-told rf args made in
      let mine = (Reach-IsSized sort n i (Runs-Reach sort n i rf r here)).index in
      subst (IsHonest c'.rafts) e (record {
        vote_calls =
            Every-cons (HonestVoteCall c'.rafts) _ c.vote_calls
              (g i args.term (at_sender c.rafts i rf args.term here term), id ∙ ap pos mine)
              old.vote_calls;
        vote_replies = old.vote_replies;
        append_calls = old.append_calls;
        append_replies = old.append_replies;
      })
  Move-IsHonest n {c} {c'} r (answered_vote k m rf rf' reply sent here ran e) old g =
      let (a, b) = old.vote_calls k m sent in
      let told = (request_vote-term m.body rf ran).0 in
      subst (IsHonest c'.rafts) e (record {
        vote_calls = old.vote_calls;
        vote_replies =
            Every-cons (HonestVoteReply c'.rafts) _ c.vote_replies
              (a, b, at_writer c c' m.to rf rf' reply.term here (ap (λ d. d.rafts) e) told)
              old.vote_replies;
        append_calls = old.append_calls;
        append_replies = old.append_replies;
      })
  Move-IsHonest n {c} {c'} r (took_vote k l m rf sent here e) old g =
      subst (IsHonest c'.rafts) e (same_messages c _ old)
  Move-IsHonest n {c} {c'} r (called_append i j rf args other here made e) old g =
      let (term, id) = append_args-told j rf args made in
      let mine = (Reach-IsSized sort n i (Runs-Reach sort n i rf r here)).index in
      subst (IsHonest c'.rafts) e (record {
        vote_calls = old.vote_calls;
        vote_replies = old.vote_replies;
        append_calls =
            Every-cons (HonestAppendCall c'.rafts) _ c.append_calls
              (g i args.term (at_sender c.rafts i rf args.term here term), id ∙ ap pos mine)
              old.append_calls;
        append_replies = old.append_replies;
      })
  Move-IsHonest n {c} {c'} r (answered_append k m rf rf' reply sent here ran e) old g =
      let (a, b) = old.append_calls k m sent in
      let fit = (Runs-InOrder sort n r).calls k m sent in
      let told = (append_entries-success m.body fit.index rf fit.next ran).0 in
      subst (IsHonest c'.rafts) e (record {
        vote_calls = old.vote_calls;
        vote_replies = old.vote_replies;
        append_calls = old.append_calls;
        append_replies =
            Every-cons (HonestAppendReply c'.rafts) _ c.append_replies
              (a, b, at_writer c c' m.to rf rf' reply.term here (ap (λ d. d.rafts) e) told)
              old.append_replies;
      })
  Move-IsHonest n {c} {c'} r (took_append k m rf rf' then_do sent here ran e) old g =
      subst (IsHonest c'.rafts) e (same_messages c _ old)

  silent-IsHonest :
      (c : Cluster Bytes Command)
      → c.vote_calls ≡ []
      → c.vote_replies ≡ []
      → c.append_calls ≡ []
      → c.append_replies ≡ []
      → IsHonest c.rafts c
  silent-IsHonest c a b d e = record {
    vote_calls = subst (Every (HonestVoteCall c.rafts)) (sym a) (λ k m sent. cc);
    vote_replies = subst (Every (HonestVoteReply c.rafts)) (sym b) (λ k m sent. cc);
    append_calls = subst (Every (HonestAppendCall c.rafts)) (sym d) (λ k m sent. cc);
    append_replies = subst (Every (HonestAppendReply c.rafts)) (sym e) (λ k m sent. cc);
  }

  -- In runs in which every call of `RequestVote`, and every write of the main loop, runs without
  -- another step of its peer in between, although they take no lock: whatever else happens in a
  -- cluster, also when peers start anew, no request and no reply on the wire
  -- tells a later term than that of the peer that sent it; a reply stands with a request of the peer
  -- that it goes to, of a term which that peer has reached; and a request names the peer that made it.
  pub Runs-IsHonest : (n : ℕ) {c : Cluster Bytes Command} → Runs sort n c → IsHonest c.rafts c
  Runs-IsHonest n (began c fresh a b d e) = silent-IsHonest c a b d e
  Runs-IsHonest n (onward {c} r move) =
      let saved : Every IsSaved c.rafts =
        λ i rf here. Reach-IsSaved sort n i (Runs-Reach sort n i rf r here) in
      let g = Change-Grows saved (Move-Change sort move) in
      Move-IsHonest n r move (Grows-IsHonest g (Runs-IsHonest n r)) g
