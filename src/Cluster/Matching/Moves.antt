-- ===== src/Cluster/Matching/Moves.antt =====
-- What a step of a cluster does to the logs, in a run in which no two peers lead in one term.
use unique_freshman.Prelude.{
  ℕ, ◌≤◌, ◌≡◌, ◌≢◌, ◌⊎◌, inl, inr, refl, sym, ap, subst, List, some, get_elem?, length, drop, Every,
  arith, Bool-cases, get_elem?-set_cases, set,
}
use unique_freshman.Raft.Types.{Raft, AppendEntriesArgs, AppendEntriesReply, leader}
use unique_freshman.Raft.Gob.{Gob}
use unique_freshman.Raft.Append.{append_entries}
use unique_freshman.Raft.Append.Merge.{merged}
use unique_freshman.Raft.Append.Replicate.{append_entries-success, merged_on_success, refusal_keeps}
use unique_freshman.Raft.Leader.{SortInts}
use unique_freshman.Raft.Leader.Request.{IsRequest}
use unique_freshman.Raft.Peer as Peer
use unique_freshman.Raft.Peer.{Step}
use unique_freshman.Raft.Peer.Logs.{HasGrown, IsAside, Step-log}
use unique_freshman.Raft.Peer.Roles.{Turn, stepped_down, stayed, stood, won, Step-Turn}
use unique_freshman.Raft.Peer.Shape.{append_entries-SameShape}
use unique_freshman.Cluster.{
  Cluster, Sent, Alone, Move, Runs, acted, called_vote, answered_vote, took_vote, called_append,
  answered_append, took_append, submitted, round_began, woke, was_killed, crowded, restarted,
}
use unique_freshman.Cluster.Peers.{Alone-Step}
use unique_freshman.Cluster.Matching.Prefix.{IsPrefix, IsGrown, IsFunctional, merged-whole}
use unique_freshman.Cluster.Matching.Moments.{Moment, OneLeadsATerm, Led, at_present, is_saved}

module _ {Bytes Command : Type 0} ⦃gob : Gob Bytes Command⦄ (sort : SortInts) (n : ℕ) where
  -- The request is one that a peer has made, at a moment at which it led, for another peer.
  pub record IsGenuine {c : Cluster Bytes Command} (r : Runs sort n c)
      (m : Sent (AppendEntriesArgs Command)) : Type 0 where
    pub other : m.from ≢ m.to
    pub sender : Raft Bytes Command
    pub moment : Moment sort n m.from sender r
    pub led : sender.state ≡ leader
    pub index : ℕ
    pub fits : index ≤ length sender.log
    pub request : IsRequest sender index m.body

  -- The log stays; the leader puts an entry behind it; or it becomes the log of a leader or is cut,
  -- and the peer does not lead.
  pub data LogMove {c : Cluster Bytes Command} (r : Runs sort n c) (rf rf' : Raft Bytes Command)
      : Type 0 where
    kept : rf'.log ≡ rf.log → LogMove r rf rf'
    grew : HasGrown rf rf' → LogMove r rf rf'
    copied :
        rf'.state ≢ leader
        → (j : ℕ) (q : Raft Bytes Command) → Moment sort n j q r
        → rf'.log ≡ q.log
        → LogMove r rf rf'
    was_cut : rf'.state ≢ leader → IsPrefix rf'.log rf.log → LogMove r rf rf'

  -- What has come about in the run.
  pub record IsMatched {c : Cluster Bytes Command} (r : Runs sort n c) : Type 0 where
    pub calls : Every (IsGenuine r) c.append_calls
    pub grown :
        (i : ℕ) (rf : Raft Bytes Command) → Moment sort n i rf r → IsGrown (Led sort n r) rf.log
    pub functional : IsFunctional (Led sort n r)
    -- What a leader has once had is where its log begins as long as it leads in that term.
    pub later :
        (i : ℕ) (rf q : Raft Bytes Command)
        → Moment sort n i rf r
        → rf.state ≡ leader
        → get_elem? c.rafts i ≡ some q
        → q.state ≡ leader
        → rf.current_term ≡ q.current_term
        → IsPrefix rf.log q.log
    pub nested :
        (i : ℕ) (rf q : Raft Bytes Command)
        → Moment sort n i rf r
        → Moment sort n i q r
        → rf.state ≡ leader
        → q.state ≡ leader
        → rf.current_term ≡ q.current_term
        → IsPrefix rf.log q.log ⊎ IsPrefix q.log rf.log

  pub leads-on :
      (rf rf' : Raft Bytes Command)
      → Turn rf rf'
      → rf'.state ≡ leader
      → rf.state ≡ leader
      → rf'.current_term ≡ rf.current_term
  leads-on rf rf' (stepped_down down) leads led = cc
  leads-on rf rf' (stayed role term) leads led = term
  leads-on rf rf' (stood role term vote count) leads led = cc
  leads-on rf rf' (won stands l term votes) leads led = term

  took_entries :
      {c : Cluster Bytes Command} (r : Runs sort n c) (m : Sent (AppendEntriesArgs Command))
      (rf rf' : Raft Bytes Command) (reply : AppendEntriesReply)
      → OneLeadsATerm sort n r
      → IsMatched r
      → IsGenuine r m
      → get_elem? c.rafts m.to ≡ some rf
      → append_entries m.body rf ≡ some (rf', reply)
      → LogMove r rf rf'
  took_entries r m rf rf' reply one im g here ran =
      let (_, term, good_iff) = append_entries-success m.body g.index rf g.request.next ran in
      elim (Bool-cases reply.success) [
        | inl good ↦
            let (fresh, fits, prev) = good_iff.0 good in
            let (made, _) = merged_on_success m.body g.index rf g.request.next ran good in
            let down : rf'.state ≢ leader = λ leads.
              let led = (append_entries-SameShape m.body rf rf' reply ran).no_leader leads in
              let still = leads-on rf rf' (Step-Turn sort (Peer.told m.body reply ran)) leads led in
              let same : g.sender.current_term ≡ rf.current_term =
                ground (arith, term, still, fresh, g.request.fresh) in
              g.other (
                one m.from m.to g.sender rf g.moment (at_present sort n m.to rf r here) g.led led
                  same) in
            let whole : merged g.index (drop g.index g.sender.log) rf.log ≡ some rf'.log =
              subst (λ es. merged g.index es rf.log ≡ some rf'.log) g.request.suffix made in
            elim (merged-whole (Led sort n r) g.index m.body.prev_log_term rf.log g.sender.log
              im.functional (im.grown m.to rf (at_present sort n m.to rf r here))
              (im.grown m.from g.sender g.moment) fits g.fits prev g.request.prev rf'.log whole) [
                | inl copy ↦ copied down m.from g.sender g.moment copy
                | inr cut ↦ was_cut down cut
              ]
        | inr bad ↦ kept ((refusal_keeps m.body g.index rf g.request.next ran bad).0)
      ]

  aside_moves :
      {c : Cluster Bytes Command} (r : Runs sort n c) (i : ℕ) {rf rf' : Raft Bytes Command}
      → get_elem? c.rafts i ≡ some rf
      → (st : Step sort rf rf') → IsAside sort st
      → LogMove r rf rf'
  aside_moves r i {rf} here st aside = elim (Step-log sort st aside (is_saved sort n i rf r here)) [
    | inl same ↦ kept same
    | inr more ↦ grew more
  ]

  Alone-IsAside :
      {rf rf' : Raft Bytes Command} (a : Alone sort rf rf') → IsAside sort (Alone-Step sort a)
  unfolding Alone-Step
  Alone-IsAside (submitted command e) = tt
  Alone-IsAside (round_began draw e) = tt
  Alone-IsAside (woke event wait e) = tt
  Alone-IsAside (was_killed e) = tt
  Alone-IsAside (crowded ch e) = tt
  Alone-IsAside (restarted draw e) = tt

  -- A peer after a step: it is what it was, or a step of its own has done this to its log.
  abbrev pub Moved : {c : Cluster Bytes Command} → Runs sort n c → ℕ → Raft Bytes Command → Type 0
  Moved {c} r i rf' =
      (rf : Raft Bytes Command) × (get_elem? c.rafts i ≡ some rf)
      × ((rf' ≡ rf) ⊎ (Step sort rf rf' × LogMove r rf rf'))

  after :
      {c : Cluster Bytes Command} (r : Runs sort n c) (j : ℕ) (rf new : Raft Bytes Command)
      (rafts : List (Raft Bytes Command)) (i : ℕ) (rf' : Raft Bytes Command)
      → get_elem? c.rafts j ≡ some rf
      → Step sort rf new
      → LogMove r rf new
      → set c.rafts j new ≡ rafts
      → get_elem? rafts i ≡ some rf'
      → Moved r i rf'
  after {c} r j rf new rafts i rf' there st move e here =
      elim (get_elem?-set_cases c.rafts j i new rf'
        (subst (λ rs. get_elem? rs i ≡ some rf') (sym e) here)) [
          | inl (at_j, is_new) ↦ (
            rf,
            subst (λ k. get_elem? c.rafts k ≡ some rf) (sym at_j) there,
            inr (subst (Step sort rf) (sym is_new) st, subst (LogMove r rf) (sym is_new) move),
          )
          | inr old ↦ (rf', old, inl refl)
        ]

  pub Move-Moved :
      {c c' : Cluster Bytes Command} (r : Runs sort n c) (i : ℕ) (rf' : Raft Bytes Command)
      → OneLeadsATerm sort n r
      → IsMatched r
      → Move sort c c'
      → get_elem? c'.rafts i ≡ some rf'
      → Moved r i rf'
  Move-Moved r i rf' one im (acted j rf new there a e) here =
      after r j rf new _ i rf' there (Alone-Step sort a)
        (aside_moves r j there (Alone-Step sort a) (Alone-IsAside a)) (ap (λ d. d.rafts) e) here
  Move-Moved r i rf' one im (called_vote j k rf args other there made e) here =
      (rf', subst (λ d. get_elem? d.rafts i ≡ some rf') (sym e) here, inl refl)
  Move-Moved r i rf' one im (answered_vote k m rf new reply sent there ran e) here =
      let st = Peer.asked m.body reply ran in
      after r m.to rf new _ i rf' there st (aside_moves r m.to there st tt) (ap (λ d. d.rafts) e)
        here
  Move-Moved r i rf' one im (took_vote k l m rf sent there e) here =
      let st = Peer.vote_came m.body.0 (some m.body.1) l refl in
      after r m.to rf _ _ i rf' there st (aside_moves r m.to there st tt) (ap (λ d. d.rafts) e) here
  Move-Moved r i rf' one im (called_append j k rf args other there made e) here =
      (rf', subst (λ d. get_elem? d.rafts i ≡ some rf') (sym e) here, inl refl)
  Move-Moved r i rf' one im (answered_append k m rf new reply sent there ran e) here =
      after r m.to rf new _ i rf' there (Peer.told m.body reply ran)
        (took_entries r m rf new reply one im (im.calls k m sent) there ran) (ap (λ d. d.rafts) e)
        here
  Move-Moved r i rf' one im (took_append k m rf new then_do sent there ran e) here =
      let st = Peer.answer_came m.from m.body.0 (some m.body.1) then_do ran in
      after r m.to rf new _ i rf' there st (aside_moves r m.to there st tt) (ap (λ d. d.rafts) e)
        here
