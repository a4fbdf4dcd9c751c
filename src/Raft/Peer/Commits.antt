-- ===== src/Raft/Peer/Commits.antt =====
-- What a leader commits, in any state that its steps may lead to.
use unique_freshman.Prelude.{
  ℕ, ◌/◌, ◌+◌, ◌≤◌, ◌<◌, ◌≡◌, sym, ap, ◌∙◌, subst, ◌<ℤ◌, leb_ℤ, ◌⊎◌, inl, inr, Option, none, some,
  length, length_ℤ, set, at, arith, bind-some, Bool-cases,
}
use unique_freshman.Raft.Types.{LogEntry, Raft, AppendEntriesArgs, AppendEntriesReply, leader}
use unique_freshman.Raft.Gob.{Gob}
use unique_freshman.Raft.State.{convert_to_follower}
use unique_freshman.Raft.Apply.Order.{with_applied, start_apply_logs-frame}
use unique_freshman.Raft.Leader.{SortInts, Next, accepted, refused, current_reply, append_reply}
use unique_freshman.Raft.Leader.Count.{count}
use unique_freshman.Raft.Leader.Quorum.{matches, advance_commit-quorum}
use unique_freshman.Raft.Leader.Frame.{accepted_parts, append_reply-cases, refused-inv}
use unique_freshman.Raft.Peer.{Reach}
use unique_freshman.Raft.Peer.Sized.{Reach-IsSized}

module _ {Bytes Command : Type 0} where
  -- `committedIndex` moves on, by the counts of the state that follows.
  abbrev pub AdvancesTo : ℕ → Raft Bytes Command → Raft Bytes Command → Type 0
  AdvancesTo peers rf rf' =
      (rf.committed_index <ℤ rf'.committed_index)
      × (e : LogEntry Command) × (at rf'.log rf'.committed_index ≡ some e)
      × (e.term ≡ rf'.current_term)
      × (peers ≤ count (leb_ℤ rf'.committed_index) (matches rf') + peers / 2)

  -- `committedIndex` stays, or moves to a later entry of the leader's term which all peers but at
  -- most half of them, rounded down, are known to have reached.
  abbrev pub CommitsQuorum : ℕ → Raft Bytes Command → Raft Bytes Command → Type 0
  CommitsQuorum peers rf rf' = (rf'.committed_index ≡ rf.committed_index) ⊎ AdvancesTo peers rf rf'

module _ {Bytes Command : Type 0} ⦃gob : Gob Bytes Command⦄ (sort : SortInts) where
  current_reply-cases :
      (j : ℕ) (args : AppendEntriesArgs Command) (reply : AppendEntriesReply)
      (rf rf' : Raft Bytes Command) (then_do : Next)
      → current_reply sort j args reply rf ≡ some (rf', then_do)
      → (accepted sort j args rf ≡ some rf') ⊎ (refused j reply rf ≡ some rf')
  unfolding current_reply refused accepted
  current_reply-cases j args reply rf rf' then_do h = elim (Bool-cases reply.success) [
    | inl good ↦
        let (r, done, last) = bind-some (accepted sort j args rf) _ (rw good at h) in
        let same : r ≡ rf' = ground arith in inl (done ∙ ap some same)
    | inr bad ↦
        let (r, done, last) = bind-some (refused j reply rf) _ (rw bad at h) in
        let same : r ≡ rf' = ground arith in inr (done ∙ ap some same)
  ]

  accepted-CommitsQuorum :
      (peers j : ℕ) (args : AppendEntriesArgs Command) (rf rf' : Raft Bytes Command)
      → length rf.match_index ≡ peers
      → rf.peers ≡ peers
      → rf.me < peers
      → accepted sort j args rf ≡ some rf'
      → CommitsQuorum peers rf rf'
  accepted-CommitsQuorum peers j args rf rf' sized all mine h =
      let (ms, ns, rf'', size, _, moved, last) = accepted_parts sort j args rf rf' h in
      let e = start_apply_logs-frame rf'' rf' last in
      elim (advance_commit-quorum sort (record rf { match_index = ms; next_index = ns })
        (size ∙ sized ∙ sym all) (rw all mine) moved) [
          | inl same ↦ inl (ap (λ r. r.committed_index) e ∙ ap (λ r. r.committed_index) same)
          | inr (n, same, beyond, entry, there, own, most) ↦
              let whole = e ∙ ap (with_applied rf'.apply_ch rf'.last_applied) same in
              let counted =
                subst (λ p. p ≤ count (leb_ℤ n) (set ms rf.me (length_ℤ rf.log)) + p / 2) all
                  most in
              inr (subst (AdvancesTo peers rf) (sym whole) (beyond, entry, there, own, counted))
        ]

  -- Whatever has reached a leader, one of `peers`, before, a reply to `AppendEntries` that it takes
  -- leaves `committedIndex` where it is, or moves it to a later entry of its own term that all
  -- peers but at most half of them, rounded down, are known to have reached.
  pub Reach-CommitsQuorum :
      (peers me j : ℕ) (args : AppendEntriesArgs Command) (reply : Option AppendEntriesReply)
      (then_do : Next) {rf rf' : Raft Bytes Command}
      → Reach sort peers me rf
      → rf.state ≡ leader
      → me < peers
      → append_reply sort j args reply rf ≡ some (rf', then_do)
      → CommitsQuorum peers rf rf'
  Reach-CommitsQuorum peers me j args none then_do r leads mine h =
      inl (unfold append_reply in ground arith)
  Reach-CommitsQuorum peers me j args (some reply) then_do {rf} {rf'} r leads mine h =
      let z = Reach-IsSized sort peers me r in
      elim (append_reply-cases sort j args reply rf rf' then_do h) [
        | inl same ↦ inl (ap (λ r. r.committed_index) same)
        | inr (inl (_, late)) ↦ inl (unfold convert_to_follower in ap (λ r. r.committed_index) late)
        | inr (inr own) ↦ elim (current_reply-cases j args reply rf rf' then_do own) [
          | inl good ↦
              accepted-CommitsQuorum peers j args rf rf' (z.sized leads).1 z.count (rw z.index mine)
                good
          | inr bad ↦
              let (_, _, same) = refused-inv j reply rf rf' bad in
              inl (ap (λ r. r.committed_index) same)
        ]
      ]
