-- ===== src/Raft/Peer/Shape.antt =====
-- What most steps of a peer leave as it is: who it is, the sizes of its slices, and whether it
-- has been killed.
use unique_freshman.Prelude.{
  ℕ, ◌≡◌, sym, ap, ◌∙◌, subst, inl, inr, some, length, arith, bind-some, Bool-cases,
}
use unique_freshman.Raft.Types.{
  Raft, RequestVoteArgs, RequestVoteReply, AppendEntriesArgs, AppendEntriesReply, leader,
}
use unique_freshman.Raft.Gob.{Gob}
use unique_freshman.Raft.State.{convert_to_follower}
use unique_freshman.Raft.Vote.{request_vote, decide_vote, enter_term}
use unique_freshman.Raft.Apply.Order.{start_apply_logs-frame}
use unique_freshman.Raft.Append.{append_entries, accept_entries, answer_append, merge_entries}
use unique_freshman.Raft.Append.Accept.{entered, append_entries-inv}
use unique_freshman.Raft.Client.{start}
use unique_freshman.Raft.HeartBeat.{
  Event, Wait, begin_round, wake, electing, following, vote_token, beat_token, leader_token, tick,
}
use unique_freshman.Raft.Leader.Frame.{Replied, unchanged, outdated, backed_up, advanced}

module _ {Bytes Command : Type 0} where
  -- A step that makes no leader, and leaves the sizes of the slices, the snapshot and `dead` alone.
  pub record SameShape (rf rf' : Raft Bytes Command) : Type 0 where
    pub count : rf'.peers ≡ rf.peers
    pub index : rf'.me ≡ rf.me
    pub next_index : length rf'.next_index ≡ length rf.next_index
    pub match_index : length rf'.match_index ≡ length rf.match_index
    pub no_leader : rf'.state ≡ leader → rf.state ≡ leader
    pub snapshot : rf'.persister.snapshot ≡ rf.persister.snapshot
    pub dead : rf'.dead ≡ rf.dead

  SameShape-trans :
      {rf rf' rf'' : Raft Bytes Command} → SameShape rf rf' → SameShape rf' rf'' → SameShape rf rf''
  SameShape-trans s t = record {
    count = t.count ∙ s.count;
    index = t.index ∙ s.index;
    next_index = t.next_index ∙ s.next_index;
    match_index = t.match_index ∙ s.match_index;
    no_leader = λ leads. s.no_leader (t.no_leader leads);
    snapshot = t.snapshot ∙ s.snapshot;
    dead = t.dead ∙ s.dead;
  }

module _ {Bytes Command : Type 0} ⦃gob : Gob Bytes Command⦄ where
  pub request_vote-SameShape :
      (args : RequestVoteArgs) (rf rf' : Raft Bytes Command) (reply : RequestVoteReply)
      → request_vote args rf ≡ some (rf', reply)
      → SameShape rf rf'
  unfolding request_vote decide_vote
  request_vote-SameShape args rf rf' reply h = ground arith

  pub entered-SameShape :
      (args : AppendEntriesArgs Command) (rf : Raft Bytes Command) → SameShape rf (entered args rf)
  unfolding entered enter_term
  entered-SameShape args rf = ground arith

  pub accept_entries-SameShape :
      (args : AppendEntriesArgs Command) (rf rf' : Raft Bytes Command)
      → accept_entries args rf ≡ some rf'
      → SameShape rf rf'
  unfolding accept_entries
  accept_entries-SameShape args rf rf' h =
      let (log, _, rest) = bind-some (merge_entries args.prev_log_index args.entries rf.log) _ h in
      let e = start_apply_logs-frame _ rf' rest in
      record {
        count = ap (λ r. r.peers) e;
        index = ap (λ r. r.me) e;
        next_index = ap (λ r. length r.next_index) e;
        match_index = ap (λ r. length r.match_index) e;
        no_leader = λ leads. sym (ap (λ r. r.state) e) ∙ leads;
        snapshot = ap (λ r. r.persister.snapshot) e;
        dead = ap (λ r. r.dead) e;
      }

  pub append_entries-SameShape :
      (args : AppendEntriesArgs Command) (rf rf' : Raft Bytes Command) (reply : AppendEntriesReply)
      → append_entries args rf ≡ some (rf', reply)
      → SameShape rf rf'
  unfolding answer_append
  append_entries-SameShape args rf rf' reply h =
      let (_, rf'', done, last) = append_entries-inv args rf rf' reply h in
      let s : SameShape rf rf'' = elim (Bool-cases reply.success) [
        | inl good ↦
            SameShape-trans (entered-SameShape args rf)
              (accept_entries-SameShape args (entered args rf) rf'' (ground arith))
        | inr bad ↦
            let same : entered args rf ≡ rf'' = ground arith in
            subst (SameShape rf) same (entered-SameShape args rf)
      ] in
      subst (SameShape rf) (sym last) (record {
        count = s.count;
        index = s.index;
        next_index = s.next_index;
        match_index = s.match_index;
        no_leader = s.no_leader;
        snapshot = s.snapshot;
        dead = s.dead;
      })

  pub begin_round-SameShape :
      (draw : ℕ) (rf : Raft Bytes Command) → SameShape rf (begin_round draw rf).0
  unfolding begin_round
  begin_round-SameShape draw rf = ground arith

  pub start-SameShape :
      (command : Command) (rf : Raft Bytes Command) → SameShape rf (start command rf).0
  unfolding start
  start-SameShape command rf = ground arith

  pub wake-SameShape :
      (event : Event) (wait : Wait) (rf rf' : Raft Bytes Command)
      → wake event wait rf ≡ some rf'
      → SameShape rf rf'
  unfolding wake
  wake-SameShape beat_token electing rf rf' h = ground arith
  wake-SameShape leader_token electing rf rf' h = ground arith
  wake-SameShape (tick draw) electing rf rf' h = ground arith
  wake-SameShape vote_token following rf rf' h = ground arith
  wake-SameShape beat_token following rf rf' h = ground arith
  wake-SameShape (tick draw) following rf rf' h = ground arith
  wake-SameShape _ _ rf rf' h = ground arith

  pub Replied-SameShape : {rf rf' : Raft Bytes Command} → Replied rf rf' → SameShape rf rf'
  unfolding convert_to_follower
  Replied-SameShape (unchanged e) = ground arith
  Replied-SameShape (outdated t late e) = ground arith
  Replied-SameShape (backed_up ns size e) = ground arith
  Replied-SameShape (advanced ms ns c size size' up h) =
      let e = start_apply_logs-frame _ _ h in
      record {
        count = ap (λ r. r.peers) e;
        index = ap (λ r. r.me) e;
        next_index = ap (λ r. length r.next_index) e ∙ size';
        match_index = ap (λ r. length r.match_index) e ∙ size;
        no_leader = λ leads. sym (ap (λ r. r.state) e) ∙ leads;
        snapshot = ap (λ r. r.persister.snapshot) e;
        dead = ap (λ r. r.dead) e;
      }
