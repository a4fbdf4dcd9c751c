-- ===== src/Raft/Leader/Progress.antt =====
-- A refusal of `AppendEntries`, from the follower's check to the leader's `nextIndex`.
use unique_freshman.Prelude.{
  ◌>>=◌, Bool-cases, ℕ, suc, ◌≤◌, ◌≡◌, ◌≢◌, refl, ap, ◌∙◌, inl, inr, ℤ, pos, minus_one, ◌≤ℤ◌, ◌<ℤ◌,
  false, some, length, length_ℤ, at, set, get_elem?, get_elem?-lt, get_elem?-lt_length, arith,
  -ℤ_parts, store-set, set-get_elem?,
}
use native.Mathlib.Decide.{dec_le}
use unique_freshman.Raft.Types.{LogEntry, Raft, AppendEntriesArgs, AppendEntriesReply, leader}
use unique_freshman.Raft.Gob.{Gob}
use unique_freshman.Raft.Append.{append_entries, check_prev}
use unique_freshman.Raft.Append.Check.{check_prev-conflict, check_prev-short}
use unique_freshman.Raft.Append.Replicate.{append_entries-success}
use unique_freshman.Raft.Append.Accept.{entered, append_entries-inv, entered-fields}
use unique_freshman.Raft.Append.Merge.{parts_of_next}
use unique_freshman.Raft.Leader.{
  append_args, back_up, refused, SortInts, append_reply, current_reply, again,
}
use unique_freshman.Raft.Leader.Request.{IsRequest, IsRequest-of}
use unique_freshman.Raft.Leader.Retry.{NoneLater, back_up-le, back_up-same}

module _ {Bytes Command : Type 0} where
  refused_lem :
      (j : ℕ) (reply : AppendEntriesReply) (rf : Raft Bytes Command) (next : ℤ)
      → at rf.next_index (pos j) ≡ some next
      → refused j reply rf
        ≡ some (record rf { next_index = set rf.next_index j (back_up reply rf.log next) })
  unfolding refused
  refused_lem j reply rf next at_j =
      rw (at_j, store-set rf.next_index j next (back_up reply rf.log next) at_j) refl

-- What a refusal reports, if the follower is not ahead in its term.
module _ {Bytes Command : Type 0} ⦃gob : Gob Bytes Command⦄ (args : AppendEntriesArgs Command)
    (p : ℕ) (peer : Raft Bytes Command) {peer' : Raft Bytes Command} {reply : AppendEntriesReply}
    (at_p : args.prev_log_index ≡ pos p) (ran : append_entries args peer ≡ some (peer', reply))
    (fresh : peer.current_term ≤ℤ args.term) where
  entered_fresh : (entered args peer).current_term ≤ℤ args.term
  entered_fresh = ground (arith, entered-fields args peer)

  same_log : (entered args peer).log ≡ peer.log
  same_log = (entered-fields args peer).0

  answered : check_prev args (entered args peer).current_term (entered args peer).log ≡ some reply
  answered = (append_entries-inv args peer peer' reply ran).0

  short_reports :
      length peer.log ≤ p → (reply.conflict_term ≡ minus_one) × (reply.conflict_index ≤ℤ pos p)
  short_reports short =
      let e =
        check_prev-short args (entered args peer).current_term (entered args peer).log p at_p
          (ground (arith, same_log)) entered_fresh in
      ground (arith, e, answered, same_log, -ℤ_parts (length_ℤ (entered args peer).log) (pos 1))

  conflict_reports :
      (e : LogEntry Command)
      → get_elem? peer.log p ≡ some e
      → e.term ≢ args.prev_log_term
      → (reply.conflict_term ≡ e.term) × (reply.conflict_index ≤ℤ pos p)
  conflict_reports e found other =
      let (d, eq, below, _) =
        check_prev-conflict args (entered args peer).current_term (entered args peer).log p e at_p
          (rw same_log found) other entered_fresh in
      ground (arith, eq, below, answered)

  -- The refusal names an earlier term than `ours`, if whatever entry the follower has at
  -- `PrevLogIndex` is of an earlier one, and an index up to there.
  refusal_reports :
      (ours : LogEntry Command)
      → ours.term ≡ args.prev_log_term
      → pos 0 ≤ℤ ours.term
      → ((e : LogEntry Command) → get_elem? peer.log p ≡ some e → e.term <ℤ ours.term)
      → (reply.conflict_term <ℤ ours.term) × (reply.conflict_index ≤ℤ pos p)
  refusal_reports ours same valid earlier = elim (dec_le (length peer.log) p) [
    | yes short ↦ ground (arith, short_reports short)
    | no long ↦
        let (e, found) = get_elem?-lt peer.log p (omega arith) in
        let before = earlier e found in
        let other : e.term ≢ args.prev_log_term = ground arith in
        ground (arith, conflict_reports e found other)
  ]

module _ {Bytes Command : Type 0} ⦃gob : Gob Bytes Command⦄ (sort : SortInts) (j p : ℕ)
    (rf peer : Raft Bytes Command) (args : AppendEntriesArgs Command) (ours : LogEntry Command)
    {peer' : Raft Bytes Command} {reply : AppendEntriesReply} (leads : rf.state ≡ leader)
    (at_j : at rf.next_index (pos j) ≡ some (pos (suc p))) (found : get_elem? rf.log p ≡ some ours)
    (made : append_args j rf ≡ some (some args)) (fresh : peer.current_term ≤ℤ rf.current_term)
    (ran : append_entries args peer ≡ some (peer', reply)) where
  is_request : IsRequest rf (suc p) args
  is_request =
      IsRequest-of j (suc p) rf args leads at_j (get_elem?-lt_length rf.log p ours found) made

  prev_is : args.prev_log_index ≡ pos p
  prev_is = ground (arith, parts_of_next args.prev_log_index (suc p) is_request.next)

  prev_term : ours.term ≡ args.prev_log_term
  prev_term = let h = is_request.prev in ground (arith, h)

  not_ahead : peer.current_term ≤ℤ args.term
  not_ahead = rw is_request.fresh fresh

  -- The reply is a refusal of the leader's own term, and the leader takes it as one.
  refusal :
      ((e : LogEntry Command) → get_elem? peer.log p ≡ some e → e.term ≢ ours.term)
      → append_reply sort j args (some reply) rf ≡ (refused j reply rf >>= λ rf'. some (rf', again))
  unfolding append_reply current_reply
  refusal other =
      let answer = append_entries-success args (suc p) peer is_request.next ran in
      let own : args.term ≡ rf.current_term = is_request.fresh in
      let unlike : reply.success ≡ false = elim (Bool-cases reply.success) [
        | inl good ↦
            let (_, long, same) = answer.2.0 good in
            let (e, there) = get_elem?-lt peer.log p long in
            absurd (other e there (ground (arith, same, prev_term)))
        | inr bad ↦ bad
      ] in
      ground (arith, answer.0, answer.1)

  -- A leader whose `nextIndex` for peer `j` is `p + 1`, and that has the entry `ours`, of a term that
  -- is not negative, at index `p`, sends its request to a follower that is not ahead of it in its
  -- term, and gets a reply. If the follower's entry at `p`, where there is one, is of an earlier term,
  -- the reply makes the leader's `nextIndex` for `j` strictly smaller and not negative, it changes
  -- nothing else of the leader, and another request follows.
  pub refusal_lowers_next_index :
      pos 0 ≤ℤ ours.term
      → ((e : LogEntry Command) → get_elem? peer.log p ≡ some e → e.term <ℤ ours.term)
      → (n : ℤ) × (append_reply sort j args (some reply) rf
          ≡ some (record rf { next_index = set rf.next_index j n }, again))
        × (pos 0 ≤ℤ n)
        × (n <ℤ pos (suc p))
  refusal_lowers_next_index valid earlier =
      let (before, index) =
        refusal_reports args p peer prev_is ran not_ahead ours prev_term valid earlier in
      let (low, high) = back_up-le reply rf.log p ours (pos (suc p)) found before index in
      let taken = refusal (λ e there. let h = earlier e there in ground arith) in
      (
        back_up reply rf.log (pos (suc p)),
        taken
            ∙ ap (λ o. o >>= λ rf'. some (rf', again)) (refused_lem j reply rf (pos (suc p)) at_j),
        low,
        omega arith,
      )

  -- A leader whose `nextIndex` for peer `j` is `p + 1`, and that has the entry `ours` at index `p`,
  -- sends its request to a follower that is not ahead of it in its term, and gets a reply. If the
  -- follower's entry at `p` is of a later term than `ours`, and no entry of the leader's log is of a
  -- later term than that, the reply leaves the leader as it was, and another request follows, which
  -- is then the same one.
  pub refusal_repeats :
      (theirs : LogEntry Command)
      → get_elem? peer.log p ≡ some theirs
      → ours.term <ℤ theirs.term
      → NoneLater theirs.term rf.log
      → append_reply sort j args (some reply) rf ≡ some (rf, again)
  refusal_repeats theirs there later none_later =
      let (named, _) =
        conflict_reports args p peer prev_is ran not_ahead theirs there
          (ground (arith, prev_term)) in
      let same = back_up-same reply rf.log (suc p) (rw named none_later) in
      let taken = refusal (λ e found'. ground (arith, later, there)) in
      let kept : refused j reply rf ≡ some rf =
        refused_lem j reply rf (pos (suc p)) at_j
        ∙ ap (λ xs. some (record rf { next_index = xs }))
            (ap (set rf.next_index j) same ∙ set-get_elem? rf.next_index j (pos (suc p)) at_j) in
      taken ∙ ap (λ o. o >>= λ rf'. some (rf', again)) kept
