-- ===== src/Raft/Peer/Orderly.antt =====
-- The terms in the log of a peer, after each of its steps.
use unique_freshman.Prelude.{
  ℕ, ◌≤◌, ◌≡◌, refl, sym, ap, ◌∙◌, subst, ℤ, pos, negsuc, ◌+ℤ◌, ◌-ℤ◌, ◌≤ℤ◌, int_laws, eq_of_parts,
  [], ◌∷◌, ◌++◌, Option, none, some, length, at, arith, Bool-cases, Option-cases, ◌⊎◌, inl, inr,
}
use unique_freshman.Raft.Types.{
  Raft, RequestVoteArgs, RequestVoteReply, AppendEntriesArgs, AppendEntriesReply, leader,
}
use unique_freshman.Raft.Gob.{Gob}
use unique_freshman.Raft.Rising.{
  Rises, final, before, final-append, Rises-append, merged-Rises, rest-Rises,
}
use unique_freshman.Raft.State.{crowd, kill, convert_to_follower}
use unique_freshman.Raft.State.Restart.{IsSaved, make-copy}
use unique_freshman.Raft.Vote.Decide.{request_vote-term}
use unique_freshman.Raft.Apply.Order.{start_apply_logs-frame}
use unique_freshman.Raft.Election.{vote_reply}
use unique_freshman.Raft.HeartBeat.{
  Event, Wait, begin_round, wake, electing, following, vote_token, beat_token, leader_token, tick,
}
use unique_freshman.Raft.Leader.{SortInts}
use unique_freshman.Raft.Leader.Frame.{
  Replied, unchanged, outdated, backed_up, advanced, append_reply-Replied,
}
use unique_freshman.Raft.Peer.{
  Step, asked, told, vote_came, answer_came, submitted, round_began, woke, was_killed, crowded,
  restarted,
}
use unique_freshman.Raft.Peer.Terms.{Step-grows}
use unique_freshman.Raft.Append.{append_entries}
use unique_freshman.Raft.Append.Replicate.{append_entries-success, merged_on_success, refusal_keeps}
use unique_freshman.Raft.Client.{start}
use unique_freshman.Raft.Leader.{append_args}
use unique_freshman.Raft.Leader.Request.{IsRequest-of}

there_and_back : (n : ℤ) → n -ℤ pos 1 +ℤ pos 1 ≡ n
there_and_back n = eq_of_parts _ _ (omega int_laws)

module _ {Bytes Command : Type 0} where
  -- The terms of the log never fall, none is negative, and none is later than the peer's.
  pub record IsOrderly (rf : Raft Bytes Command) : Type 0 where
    pub rises : Rises (pos 0) rf.log
    pub ends : final (pos 0) rf.log ≤ℤ rf.current_term

  pub keeps-IsOrderly :
      {rf rf' : Raft Bytes Command}
      → rf'.log ≡ rf.log
      → rf.current_term ≤ℤ rf'.current_term
      → IsOrderly rf
      → IsOrderly rf'
  keeps-IsOrderly same grows o = record {
    rises = subst (Rises (pos 0)) (sym same) o.rises;
    ends = rw same (let e = o.ends in omega arith);
  }

module _ {Command : Type 0} where
  -- The same of a request: its entries follow one of the term that it tells.
  pub record IsFit (args : AppendEntriesArgs Command) : Type 0 where
    pub index : ℕ
    pub next : args.prev_log_index +ℤ pos 1 ≡ pos index
    pub rises : Rises (before index args.prev_log_term) args.entries
    pub ends : final (before index args.prev_log_term) args.entries ≤ℤ args.term

module _ {Bytes Command : Type 0} ⦃gob : Gob Bytes Command⦄ where
  pub append_entries-IsOrderly :
      (args : AppendEntriesArgs Command) (rf rf' : Raft Bytes Command) (reply : AppendEntriesReply)
      → append_entries args rf ≡ some (rf', reply)
      → IsFit args
      → IsOrderly rf
      → IsOrderly rf'
  append_entries-IsOrderly args rf rf' reply ran fit o =
      let (_, term, good_iff) = append_entries-success args fit.index rf fit.next ran in
      elim (Bool-cases reply.success) [
        | inl good ↦
            let (fresh, _, prev) = good_iff.0 good in
            let (made, _) = merged_on_success args fit.index rf fit.next ran good in
            let (rises, ends) =
              merged-Rises fit.index args.prev_log_term args.entries rf.log rf'.log prev o.rises
                fit.rises made in
            record { rises = rises; ends = let a = o.ends in let b = fit.ends in ground arith }
        | inr bad ↦
            let kept = refusal_keeps args fit.index rf fit.next ran bad in
            keeps-IsOrderly kept.0 (ground arith) o
      ]

  start_cases :
      (command : Command) (rf : Raft Bytes Command)
      → ((start command rf).0.current_term ≡ rf.current_term)
        × (((start command rf).0.log ≡ rf.log)
            ⊎ ((start command rf).0.log
                ≡ rf.log ++ record { command = command; term = rf.current_term } ∷ []))
  unfolding start
  start_cases command rf = ground arith

  pub start-IsOrderly :
      (command : Command) (rf : Raft Bytes Command) → IsOrderly rf → IsOrderly (start command rf).0
  start-IsOrderly command rf o =
      let (term, how) = start_cases command rf in
      elim how [
        | inl same ↦ keeps-IsOrderly same (rw term (omega arith)) o
        | inr grown ↦ record {
          rises = rw grown (Rises-append (pos 0) rf.log _ o.rises (o.ends, tt));
          ends = rw (grown, final-append (pos 0) rf.log, term) (omega arith);
        }
      ]

module _ {Bytes Command : Type 0} where
  -- A request is made only by a leader, and from an index inside its log or at its end.
  made_at :
      (j : ℕ) (n : ℤ) (rf : Raft Bytes Command) (args : AppendEntriesArgs Command)
      → at rf.next_index (pos j) ≡ some n
      → append_args j rf ≡ some (some args)
      → (k : ℕ) × (rf.state ≡ leader) × (n ≡ pos k) × (k ≤ length rf.log)
  unfolding append_args
  made_at j (pos k) rf args at_j made =
      (k, ground arith, refl, ground (arith, there_and_back (pos k)))
  made_at j (negsuc k) rf args at_j made = absurd (ground (arith, there_and_back (negsuc k)))

  next_there :
      (j : ℕ) (rf : Raft Bytes Command) (args : AppendEntriesArgs Command)
      → append_args j rf ≡ some (some args)
      → (n : ℤ) × (at rf.next_index (pos j) ≡ some n)
  unfolding append_args
  next_there j rf args made = elim (Option-cases (at rf.next_index (pos j))) [
    | inl missing ↦ absurd (ground (arith, missing))
    | inr found ↦ found
  ]

  pub append_args-inv :
      (j : ℕ) (rf : Raft Bytes Command) (args : AppendEntriesArgs Command)
      → append_args j rf ≡ some (some args)
      → (k : ℕ) × (rf.state ≡ leader)
        × (at rf.next_index (pos j) ≡ some (pos k))
        × (k ≤ length rf.log)
  append_args-inv j rf args made =
      let (n, at_j) = next_there j rf args made in
      let (k, leads, is_k, fits) = made_at j n rf args at_j made in
      (k, leads, at_j ∙ ap some is_k, fits)

  pub append_args-IsFit :
      (j : ℕ) (rf : Raft Bytes Command) (args : AppendEntriesArgs Command)
      → append_args j rf ≡ some (some args)
      → IsOrderly rf
      → IsFit args
  append_args-IsFit j rf args made o =
      let (k, leads, at_j, fits) = append_args-inv j rf args made in
      let is = IsRequest-of j k rf args leads at_j fits made in
      let (rises, ends) = rest-Rises k args.prev_log_term rf.log is.prev o.rises in
      record {
        index = k;
        next = is.next;
        rises = rw is.suffix rises;
        ends = rw (is.suffix, ends, is.fresh) o.ends;
      }

module _ {Bytes Command : Type 0} ⦃gob : Gob Bytes Command⦄ where
  pub vote_reply-log :
      (args : RequestVoteArgs) (reply : Option RequestVoteReply) (n : ℕ) (rf : Raft Bytes Command)
      → (vote_reply args reply n rf).0.log ≡ rf.log
  unfolding vote_reply
  vote_reply-log args none n rf = ground arith
  vote_reply-log args (some reply) n rf = ground arith

  pub begin_round-log : (draw : ℕ) (rf : Raft Bytes Command) → (begin_round draw rf).0.log ≡ rf.log
  unfolding begin_round
  begin_round-log draw rf = ground arith

  pub wake-log :
      (event : Event) (wait : Wait) (rf rf' : Raft Bytes Command)
      → wake event wait rf ≡ some rf'
      → rf'.log ≡ rf.log
  unfolding wake
  wake-log beat_token electing rf rf' h = ground arith
  wake-log leader_token electing rf rf' h = ground arith
  wake-log (tick draw) electing rf rf' h = ground arith
  wake-log vote_token following rf rf' h = ground arith
  wake-log beat_token following rf rf' h = ground arith
  wake-log (tick draw) following rf rf' h = ground arith
  wake-log _ _ rf rf' h = ground arith

  pub Replied-log : {rf rf' : Raft Bytes Command} → Replied rf rf' → rf'.log ≡ rf.log
  unfolding convert_to_follower
  Replied-log (unchanged e) = ground arith
  Replied-log (outdated t late e) = ground arith
  Replied-log (backed_up ns size e) = ground arith
  Replied-log (advanced ms ns c size size' up h) = ap (λ r. r.log) (start_apply_logs-frame _ _ h)

module _ {Bytes Command : Type 0} ⦃gob : Gob Bytes Command⦄ (sort : SortInts) where
  -- What a step must bring with it: a request for entries has to be fit.
  abbrev pub BringsFit : {rf rf' : Raft Bytes Command} → Step sort rf rf' → Type 0
  BringsFit (told args reply h) = IsFit args
  BringsFit _ = Unit

  pub Step-IsOrderly :
      {rf rf' : Raft Bytes Command} (st : Step sort rf rf')
      → BringsFit st
      → IsSaved rf
      → IsOrderly rf
      → IsOrderly rf'
  Step-IsOrderly {rf} (asked args reply h) fit d o =
      keeps-IsOrderly (request_vote-term args rf h).4 (Step-grows sort (asked args reply h) d) o
  Step-IsOrderly {rf} {rf'} (told args reply h) fit d o =
      append_entries-IsOrderly args rf rf' reply h fit o
  Step-IsOrderly {rf} (vote_came args reply n e) fit d o =
      keeps-IsOrderly (rw (← e) (vote_reply-log args reply n rf))
        (Step-grows sort (vote_came args reply n e) d) o
  Step-IsOrderly {rf} {rf'} (answer_came j args reply then_do h) fit d o =
      keeps-IsOrderly (Replied-log (append_reply-Replied sort j args reply rf rf' then_do h))
        (Step-grows sort (answer_came j args reply then_do h) d) o
  Step-IsOrderly {rf} (submitted command e) fit d o =
      subst IsOrderly e (start-IsOrderly command rf o)
  Step-IsOrderly {rf} (round_began draw e) fit d o =
      keeps-IsOrderly (rw (← e) (begin_round-log draw rf)) (Step-grows sort (round_began draw e) d)
        o
  Step-IsOrderly {rf} {rf'} (woke event wait h) fit d o =
      keeps-IsOrderly (wake-log event wait rf rf' h) (Step-grows sort (woke event wait h) d) o
  Step-IsOrderly {rf} (was_killed e) fit d o =
      keeps-IsOrderly (rw (← e) (unfold kill in refl)) (Step-grows sort (was_killed e) d) o
  Step-IsOrderly {rf} (crowded ch e) fit d o =
      keeps-IsOrderly (rw (← e) (unfold crowd in refl)) (Step-grows sort (crowded ch e) d) o
  Step-IsOrderly {rf} (restarted draw e) fit d o =
      keeps-IsOrderly (rw (← e, make-copy rf draw d)) (Step-grows sort (restarted draw e) d) o
