-- ===== src/Raft/Peer/Logs.antt =====
-- What each step of a peer does to its log.
use unique_freshman.Prelude.{◌≡◌, ◌⊎◌, inl, inr, refl, ap, subst, [], ◌∷◌, ◌++◌, arith}
use unique_freshman.Raft.Types.{LogEntry, Raft, leader, Role-cases}
use unique_freshman.Raft.Gob.{Gob}
use unique_freshman.Raft.State.{crowd, kill}
use unique_freshman.Raft.State.Restart.{IsSaved, make-copy}
use unique_freshman.Raft.Vote.Decide.{request_vote-term}
use unique_freshman.Raft.Client.{start}
use unique_freshman.Raft.Leader.{SortInts}
use unique_freshman.Raft.Leader.Frame.{append_reply-Replied}
use unique_freshman.Raft.Peer.{
  Step, asked, told, vote_came, answer_came, submitted, round_began, woke, was_killed, crowded,
  restarted,
}
use unique_freshman.Raft.Peer.Orderly.{vote_reply-log, begin_round-log, wake-log, Replied-log}

module _ {Bytes Command : Type 0} where
  -- A leader has put an entry of its term behind its log.
  pub record HasGrown (rf rf' : Raft Bytes Command) : Type 0 where
    pub led : rf.state ≡ leader
    pub leads : rf'.state ≡ leader
    pub term : rf'.current_term ≡ rf.current_term
    pub entry : LogEntry Command
    pub of_term : entry.term ≡ rf.current_term
    pub log : rf'.log ≡ rf.log ++ entry ∷ []

module _ {Bytes Command : Type 0} ⦃gob : Gob Bytes Command⦄ where
  start-log :
      (command : Command) (rf : Raft Bytes Command)
      → ((start command rf).0.log ≡ rf.log) ⊎ HasGrown rf (start command rf).0
  unfolding start
  start-log command rf = elim (Role-cases rf.state) [
    | inl down ↦ inl (ground (arith, down))
    | inr (inl stands) ↦ inl (ground (arith, stands))
    | inr (inr leads) ↦ inr (record {
      led = leads;
      leads = rw leads refl;
      term = rw leads refl;
      entry = record { command = command; term = rf.current_term };
      of_term = refl;
      log = rw leads refl;
    })
  ]

module _ {Bytes Command : Type 0} ⦃gob : Gob Bytes Command⦄ (sort : SortInts) where
  -- The step is not the handler of entries.
  abbrev pub IsAside : {rf rf' : Raft Bytes Command} → Step sort rf rf' → Type 0
  IsAside (told args reply h) = ⊥
  IsAside _ = Unit

  pub Step-log :
      {rf rf' : Raft Bytes Command} (st : Step sort rf rf')
      → IsAside st
      → IsSaved rf
      → (rf'.log ≡ rf.log) ⊎ HasGrown rf rf'
  Step-log {rf} (asked args reply h) aside d = inl ((request_vote-term args rf h).4)
  Step-log (told args reply h) aside d = elim aside [ ]
  Step-log {rf} (vote_came args reply n e) aside d = inl (rw (← e) (vote_reply-log args reply n rf))
  Step-log {rf} {rf'} (answer_came j args reply then_do h) aside d =
      inl (Replied-log (append_reply-Replied sort j args reply rf rf' then_do h))
  Step-log {rf} (submitted command e) aside d =
      subst (λ q. (q.log ≡ rf.log) ⊎ HasGrown rf q) e (start-log command rf)
  Step-log {rf} (round_began draw e) aside d = inl (rw (← e) (begin_round-log draw rf))
  Step-log {rf} {rf'} (woke event wait h) aside d = inl (wake-log event wait rf rf' h)
  Step-log {rf} (was_killed e) aside d = inl (rw (← e) (unfold kill in refl))
  Step-log {rf} (crowded ch e) aside d = inl (rw (← e) (unfold crowd in refl))
  Step-log {rf} (restarted draw e) aside d = inl (rw (← e) (ap (λ q. q.log) (make-copy rf draw d)))
