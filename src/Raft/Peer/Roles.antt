-- ===== src/Raft/Peer/Roles.antt =====
-- How the role of a peer changes.
use unique_freshman.Prelude.{
  ℕ, ◌≡◌, ◌≢◌, refl, sym, ap, ◌∙◌, ℤ, pos, ◌+ℤ◌, ◌<ℤ◌, ltb_ℤ, ◌⊎◌, Bool-cases, bind-some, Option,
  none, some, arith, subst, inl, inr, if◌then◌else◌,
}
use unique_freshman.Raft.Types.{
  Raft, Role, RequestVoteArgs, RequestVoteReply, AppendEntriesArgs, AppendEntriesReply, follower,
  candidate, leader,
}
use unique_freshman.Raft.Gob.{Gob}
use unique_freshman.Raft.State.{crowd, kill, convert_to_follower, make}
use unique_freshman.Raft.Vote.{request_vote}
use unique_freshman.Raft.Vote.Decide.{request_vote-term}
use unique_freshman.Raft.Append.{append_entries, accept_entries, answer_append, merge_entries}
use unique_freshman.Raft.Append.Accept.{entered, entered-fields, append_entries-inv}
use unique_freshman.Raft.Apply.Order.{start_apply_logs-frame}
use unique_freshman.Raft.Leader.{SortInts}
use unique_freshman.Raft.Leader.Frame.{
  Replied, unchanged, outdated, backed_up, advanced, append_reply-Replied,
}
use unique_freshman.Raft.Election.{vote_reply}
use unique_freshman.Raft.Election.Win.{vote_reply-IsWin}
use unique_freshman.Raft.Client.{start}
use unique_freshman.Raft.HeartBeat.{
  Event, Wait, begin_round, wake, electing, following, vote_token, beat_token, leader_token, tick,
}
use unique_freshman.Raft.Peer.{
  Step, asked, told, vote_came, answer_came, submitted, round_began, woke, was_killed, crowded,
  restarted,
}

module _ {Bytes Command : Type 0} where
  -- It becomes a follower; it keeps role and term; it stands for election in the next term, with
  -- its own vote; or it wins one in its term, with the votes of more than half of the peers.
  pub data Turn (rf rf' : Raft Bytes Command) : Type 0 where
    stepped_down : rf'.state ≡ follower → Turn rf rf'
    stayed : rf'.state ≡ rf.state → rf'.current_term ≡ rf.current_term → Turn rf rf'
    stood :
        rf'.state ≡ candidate
        → rf'.current_term ≡ rf.current_term +ℤ pos 1
        → rf'.voted_for ≡ pos rf.me
        → rf'.vote_granted ≡ pos 1
        → Turn rf rf'
    won :
        rf.state ≡ candidate
        → rf'.state ≡ leader
        → rf'.current_term ≡ rf.current_term
        → pos rf.peers <ℤ rf'.vote_granted +ℤ rf'.vote_granted
        → Turn rf rf'

  -- By what the new term and role are.
  turn_of :
      (rf rf' : Raft Bytes Command) (late : ℤ)
      → rf'.current_term ≡ (if ltb_ℤ rf.current_term late then late else rf.current_term)
      → rf'.state ≡ (if ltb_ℤ rf.current_term late then follower else rf.state)
      → Turn rf rf'
  turn_of rf rf' late term state = elim (Bool-cases (ltb_ℤ rf.current_term late)) [
    | inl is_late ↦ stepped_down (ground arith)
    | inr in_time ↦ stayed (ground arith) (ground arith)
  ]

module _ {Bytes Command : Type 0} ⦃gob : Gob Bytes Command⦄ where
  request_vote-Turn :
      (args : RequestVoteArgs) (rf rf' : Raft Bytes Command) (reply : RequestVoteReply)
      → request_vote args rf ≡ some (rf', reply)
      → Turn rf rf'
  request_vote-Turn args rf rf' reply h =
      let t = request_vote-term args rf h in turn_of rf rf' args.term t.1 t.2

  accept_entries-keeps :
      (args : AppendEntriesArgs Command) (rf rf' : Raft Bytes Command)
      → accept_entries args rf ≡ some rf'
      → (rf'.current_term ≡ rf.current_term) × (rf'.state ≡ rf.state)
  unfolding accept_entries
  accept_entries-keeps args rf rf' h =
      let (log, _, rest) = bind-some (merge_entries args.prev_log_index args.entries rf.log) _ h in
      let same = start_apply_logs-frame _ rf' rest in
      (ap (λ r. r.current_term) same, ap (λ r. r.state) same)

  append_entries-Turn :
      (args : AppendEntriesArgs Command) (rf rf' : Raft Bytes Command) (reply : AppendEntriesReply)
      → append_entries args rf ≡ some (rf', reply)
      → Turn rf rf'
  unfolding answer_append
  append_entries-Turn args rf rf' reply h =
      let (_, rf'', done, last) = append_entries-inv args rf rf' reply h in
      let kept = accept_entries-keeps args (entered args rf) rf'' in
      turn_of rf rf' args.term (ground (arith, kept, entered-fields args rf))
        (ground (arith, kept, entered-fields args rf))

  -- A reply of a vote, where the peer does not lead afterwards.
  vote_reply-not_leader :
      (args : RequestVoteArgs) (reply : Option RequestVoteReply) (n : ℕ)
      (rf rf' : Raft Bytes Command)
      → (vote_reply args reply n rf).0 ≡ rf'
      → rf'.state ≢ leader
      → (rf'.state ≡ follower) ⊎ ((rf'.state ≡ rf.state) × (rf'.current_term ≡ rf.current_term))
  unfolding vote_reply
  vote_reply-not_leader args none n rf rf' h other = ground arith
  vote_reply-not_leader args (some r) n rf rf' h other = ground arith

  vote_reply-Turn :
      (args : RequestVoteArgs) (reply : Option RequestVoteReply) (n : ℕ) (rf : Raft Bytes Command)
      {rf' : Raft Bytes Command} {n' : ℕ}
      → vote_reply args reply n rf ≡ (rf', n')
      → (rf'.state ≡ leader) ⊎ (rf'.state ≢ leader)
      → Turn rf rf'
  vote_reply-Turn args reply n rf {rf'} h (inl leads) =
      elim (vote_reply-IsWin args reply n rf h leads) [
        | inl (led, same, _) ↦ stayed (leads ∙ sym led) (ap (λ r. r.current_term) same)
        | inr (_, r, _, win) ↦ won win.asked_as leads win.kept_term win.majority
      ]
  vote_reply-Turn args reply n rf {rf'} h (inr other) =
      elim (vote_reply-not_leader args reply n rf rf' (ap (λ p. p.0) h) other) [
        | inl down ↦ stepped_down down
        | inr (role, term) ↦ stayed role term
      ]

  wake-Turn :
      (event : Event) (wait : Wait) (rf rf' : Raft Bytes Command)
      → wake event wait rf ≡ some rf'
      → (rf'.state ≡ follower)
        ⊎ ((rf'.state ≡ rf.state) × (rf'.current_term ≡ rf.current_term))
        ⊎ ((rf'.state ≡ candidate)
            × (rf'.current_term ≡ rf.current_term +ℤ pos 1)
            × (rf'.voted_for ≡ pos rf.me)
            × (rf'.vote_granted ≡ pos 1))
  unfolding wake
  wake-Turn beat_token electing rf rf' h = ground arith
  wake-Turn leader_token electing rf rf' h = ground arith
  wake-Turn (tick draw) electing rf rf' h = ground arith
  wake-Turn vote_token following rf rf' h = ground arith
  wake-Turn beat_token following rf rf' h = ground arith
  wake-Turn (tick draw) following rf rf' h = ground arith
  wake-Turn _ _ rf rf' h = ground arith

  start-keeps :
      (command : Command) (rf : Raft Bytes Command)
      → ((start command rf).0.state ≡ rf.state)
        × ((start command rf).0.current_term ≡ rf.current_term)
  unfolding start
  start-keeps command rf = ground arith

  begin_round-keeps :
      (draw : ℕ) (rf : Raft Bytes Command)
      → ((begin_round draw rf).0.state ≡ rf.state)
        × ((begin_round draw rf).0.current_term ≡ rf.current_term)
  unfolding begin_round
  begin_round-keeps draw rf = ground arith

  Replied-Turn : {rf rf' : Raft Bytes Command} → Replied rf rf' → Turn rf rf'
  unfolding convert_to_follower
  Replied-Turn (unchanged e) = stayed (ground arith) (ground arith)
  Replied-Turn (outdated t late e) = stepped_down (ground arith)
  Replied-Turn (backed_up ns size e) = stayed (ground arith) (ground arith)
  Replied-Turn (advanced ms ns c size size' up h) =
      let e = start_apply_logs-frame _ _ h in
      stayed (ap (λ r. r.state) e) (ap (λ r. r.current_term) e)

leader-cases : (s : Role) → (s ≡ leader) ⊎ (s ≢ leader)
leader-cases leader = inl refl
leader-cases follower = inr (ground arith)
leader-cases candidate = inr (ground arith)

module _ {Bytes Command : Type 0} ⦃gob : Gob Bytes Command⦄ (sort : SortInts) where
  -- Every step of a peer is a turn of its role's state machine. It becomes a follower; it keeps its
  -- role and its term; it becomes a candidate of the next term that has voted for itself and counts
  -- one vote; or it is a candidate and becomes the leader of its term, with the votes of more than
  -- half of the peers.
  pub Step-Turn : {rf rf' : Raft Bytes Command} → Step sort rf rf' → Turn rf rf'
  Step-Turn {rf} {rf'} (asked args reply h) = request_vote-Turn args rf rf' reply h
  Step-Turn {rf} {rf'} (told args reply h) = append_entries-Turn args rf rf' reply h
  Step-Turn {rf} {rf'} (vote_came args reply n e) =
      subst (Turn rf) e (vote_reply-Turn args reply n rf refl (leader-cases _))
  Step-Turn {rf} {rf'} (answer_came j args reply then_do h) =
      Replied-Turn (append_reply-Replied sort j args reply rf rf' then_do h)
  Step-Turn {rf} (submitted command e) =
      subst (Turn rf) e (stayed (start-keeps command rf).0 (start-keeps command rf).1)
  Step-Turn {rf} (round_began draw e) =
      subst (Turn rf) e (stayed (begin_round-keeps draw rf).0 (begin_round-keeps draw rf).1)
  Step-Turn {rf} {rf'} (woke event wait h) = elim (wake-Turn event wait rf rf' h) [
    | inl down ↦ stepped_down down
    | inr (inl (role, term)) ↦ stayed role term
    | inr (inr (role, term, vote, count)) ↦ stood role term vote count
  ]
  Step-Turn {rf} (was_killed e) = subst (Turn rf) e (unfold kill in (stayed refl refl))
  Step-Turn {rf} (crowded ch e) = subst (Turn rf) e (unfold crowd in (stayed refl refl))
  Step-Turn {rf} (restarted draw e) = subst (Turn rf) e (unfold make in (stepped_down refl))
