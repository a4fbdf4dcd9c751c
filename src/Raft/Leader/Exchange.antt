-- ===== src/Raft/Leader/Exchange.antt =====
-- The goroutine of `startAppendEntries` for one peer, against a peer that answers each request: how
-- long it goes on.
use mathlib.Core.Option
use unique_freshman.Prelude.{
  ℕ, zero, suc, ◌≤◌, ◌<◌, ◌≡◌, ◌≢◌, sym, ap, ◌∙◌, subst, ℤ, pos, negsuc, ◌≤ℤ◌, ◌<ℤ◌, true, false,
  List, [], ◌∷◌, none, some, length, at, set, get_elem?, get_elem?-lt, get_elem?-lt_length,
  get_elem?-set_self, arith, Option-cases, inl, inr,
}
use unique_freshman.Raft.Types.{LogEntry, Raft, AppendEntriesArgs, AppendEntriesReply, leader}
use unique_freshman.Raft.Gob.{Gob}
use unique_freshman.Raft.Rising.{Rises}
use unique_freshman.Raft.Append.{append_entries}
use unique_freshman.Raft.Append.Replicate.{append_entries-success, refusal_keeps}
use unique_freshman.Raft.Leader.{SortInts, stop, again, append_args, append_reply, current_reply}
use unique_freshman.Raft.Leader.Request.{IsRequest, append_args-IsRequest}
use unique_freshman.Raft.Leader.Progress.{refusal_lowers_next_index}

-- How the loop stands: the goroutine has returned, it would make another request, or one of the two
-- has panicked.
pub data Exchange (Bytes Command : Type 0) : Type 0 where
  returned : (leader_after peer_after : Raft Bytes Command) → Exchange Bytes Command
  running : Exchange Bytes Command
  panicked : Exchange Bytes Command

module _ {Bytes Command : Type 0} ⦃gob : Gob Bytes Command⦄ (sort : SortInts) where
  -- The inner loop for peer `j`, for as many rounds as the fuel allows. Each request is answered,
  -- and neither peer does anything else in between.
  unfoldable pub exchange : ℕ → ℕ → Raft Bytes Command → Raft Bytes Command → Exchange Bytes Command
  exchange zero j rf peer = running
  exchange (suc fuel) j rf peer = elim (append_args j rf) [
    | none ↦ panicked
    | some none ↦ returned rf peer
    | some (some args) ↦ elim (append_entries args peer) [
      | none ↦ panicked
      | some (peer', reply) ↦ elim (append_reply sort j args (some reply) rf) [
        | none ↦ panicked
        | some (rf', stop) ↦ returned rf' peer'
        | some (rf', again) ↦ exchange fuel j rf' peer'
      ]
    ]
  ]

module _ {Command : Type 0} where
  -- Where both logs have an entry, the second log's is not of a later term.
  abbrev pub NotAhead : List (LogEntry Command) → List (LogEntry Command) → Type 0
  NotAhead ours theirs =
      (i : ℕ) (our their : LogEntry Command)
      → get_elem? ours i ≡ some our
      → get_elem? theirs i ≡ some their
      → their.term ≤ℤ our.term

  Rises-get_elem? :
      (t : ℤ) (log : List (LogEntry Command)) (i : ℕ) (e : LogEntry Command)
      → Rises t log
      → get_elem? log i ≡ some e
      → t ≤ℤ e.term
  Rises-get_elem? t [] i e h found = absurd (ground arith)
  Rises-get_elem? t (x ∷ xs) zero e (le, h) found = ground arith
  Rises-get_elem? t (x ∷ xs) (suc i) e (le, h) found =
      omega (arith, Rises-get_elem? x.term xs i e h found)

module _ {Bytes Command : Type 0} ⦃gob : Gob Bytes Command⦄ (sort : SortInts) where
  append_reply-again :
      (j : ℕ) (args : AppendEntriesArgs Command) (reply : AppendEntriesReply)
      (rf rf' : Raft Bytes Command)
      → append_reply sort j args (some reply) rf ≡ some (rf', again)
      → reply.success ≡ false
  unfolding append_reply current_reply
  append_reply-again j args reply rf rf' h = ground arith

  -- A leader that may send from index `k`, and a follower that is nowhere ahead of it.
  record IsBehind (j k : ℕ) (rf peer : Raft Bytes Command) : Type 0 where
    leads : rf.state ≡ leader
    at_j : at rf.next_index (pos j) ≡ some (pos k)
    fits : k ≤ length rf.log
    rises : Rises (pos 0) rf.log
    in_term : peer.current_term ≤ℤ rf.current_term
    not_ahead : NotAhead rf.log peer.log

  -- The exchange after one round.
  round :
      (fuel j : ℕ) (rf peer peer' : Raft Bytes Command) (args : AppendEntriesArgs Command)
      (reply : AppendEntriesReply)
      → append_args j rf ≡ some (some args)
      → append_entries args peer ≡ some (peer', reply)
      → ((rf' : Raft Bytes Command)
          → append_reply sort j args (some reply) rf ≡ some (rf', again)
          → exchange sort fuel j rf' peer' ≢ running)
      → exchange sort (suc fuel) j rf peer ≢ running
  unfolding exchange
  round fuel j rf peer peer' args reply made ran more =
      elim (Option-cases (append_reply sort j args (some reply) rf)) [
        | inl bad ↦ rw (made, exchange, ran, bad) (λ h. cc)
        | inr ((rf', stop), e) ↦ rw (made, exchange, ran, e) (λ h. cc)
        | inr ((rf', again), e) ↦ rw (made, exchange, ran, e) (more rf' e)
      ]

  panics :
      (fuel j : ℕ) (rf peer : Raft Bytes Command) (args : AppendEntriesArgs Command)
      → append_args j rf ≡ some (some args)
      → append_entries args peer ≡ none
      → exchange sort (suc fuel) j rf peer ≢ running
  unfolding exchange
  panics fuel j rf peer args made bad = rw (made, exchange, bad) (λ h. cc)

  -- The same two at a smaller index.
  back_to :
      (j p : ℕ) (n : ℤ) (rf peer peer' rf' : Raft Bytes Command)
      → IsBehind j (suc p) rf peer
      → pos 0 ≤ℤ n
      → n <ℤ pos (suc p)
      → rf' ≡ record rf { next_index = set rf.next_index j n }
      → peer'.log ≡ peer.log
      → peer'.current_term ≤ℤ rf.current_term
      → (k' : ℕ) × (k' < suc p) × IsBehind j k' rf' peer'
  back_to j p (negsuc m) rf peer peer' rf' b low high same kept in_term = absurd (omega arith)
  back_to j p (pos m) rf peer peer' rf' b low high same kept in_term = (
    m,
    omega arith,
    subst (λ r. IsBehind j m r peer') (sym same)
        (record {
          leads = b.leads;
          at_j = get_elem?-set_self rf.next_index j (pos (suc p)) (pos m) b.at_j;
          fits = let h = b.fits in omega arith;
          rises = b.rises;
          in_term = in_term;
          not_ahead = subst (NotAhead rf.log) (sym kept) b.not_ahead;
        }),
  )

  -- A refusal, and where the leader goes on.
  refused_round :
      (j k : ℕ) (rf peer peer' rf' : Raft Bytes Command) (args : AppendEntriesArgs Command)
      (reply : AppendEntriesReply)
      → IsBehind j k rf peer
      → append_args j rf ≡ some (some args)
      → IsRequest rf k args
      → append_entries args peer ≡ some (peer', reply)
      → append_reply sort j args (some reply) rf ≡ some (rf', again)
      → (k' : ℕ) × (k' < k) × IsBehind j k' rf' peer'
  refused_round j zero rf peer peer' rf' args reply b made is ran more =
      let (_, _, good_iff) = append_entries-success args 0 peer is.next ran in
      let good = good_iff.1 (rw is.fresh b.in_term, omega arith, tt) in
      let bad = append_reply-again j args reply rf rf' more in cc
  refused_round j (suc p) rf peer peer' rf' args reply b made is ran more =
      let (_, term, good_iff) = append_entries-success args (suc p) peer is.next ran in
      let bad = append_reply-again j args reply rf rf' more in
      let (ours, found) = get_elem?-lt rf.log p b.fits in
      let same_prev : ours.term ≡ args.prev_log_term = let h = is.prev in ground (arith, found) in
      let unlike : (e : LogEntry Command)
          → get_elem? peer.log p ≡ some e
          → e.term ≡ ours.term
          → reply.success ≡ true =
        λ e there same. good_iff.1 (
          rw is.fresh b.in_term,
          get_elem?-lt_length peer.log p e there,
          ap (Option.map (λ x. x.term)) there ∙ ap some (same ∙ same_prev),
        ) in
      let earlier : (e : LogEntry Command) → get_elem? peer.log p ≡ some e → e.term <ℤ ours.term =
        λ e there. ground (arith, bad, unlike e there, b.not_ahead p ours e found there) in
      let (n, took, low, high) =
        refusal_lowers_next_index sort j p rf peer args ours b.leads b.at_j found made b.in_term ran
          (Rises-get_elem? (pos 0) rf.log p ours b.rises found) earlier in
      let same : rf' ≡ record rf { next_index = set rf.next_index j n } =
        ground (arith, more, took) in
      let kept = (refusal_keeps args (suc p) peer is.next ran bad).0 in
      back_to j p n rf peer peer' rf' b low high same kept
        (let h = is.fresh in let l = b.in_term in ground (arith, term))

  exchange_below :
      (fuel j k : ℕ) (rf peer : Raft Bytes Command)
      → k < fuel
      → IsBehind j k rf peer
      → exchange sort fuel j rf peer ≢ running
  exchange_below zero j k rf peer below b = absurd (omega arith)
  exchange_below (suc fuel) j k rf peer below b =
      let (args, made, is) = append_args-IsRequest j k rf b.leads b.at_j b.fits in
      elim (Option-cases (append_entries args peer)) [
        | inl bad ↦ panics fuel j rf peer args made bad
        | inr ((peer', reply), ran) ↦ round fuel j rf peer peer' args reply made ran λ rf' more.
            let (k', less, b') =
              refused_round j k rf peer peer' rf' args reply b made is ran more in
            exchange_below fuel j k' rf' peer' (omega arith) b'
      ]

  -- A leader whose `nextIndex` for peer `j` is `k`, inside its log or at its end, with terms in its
  -- log that begin at 0 or later and never fall, talks to a follower that is not ahead of it in its
  -- term, nor in the term of any entry where both logs have one. If each request is answered, and
  -- neither of the two does anything else in between, the goroutine for that follower makes at most
  -- `k + 1` requests: then it has returned, or there was a panic.
  pub exchange-ne-running :
      (j k : ℕ) (rf peer : Raft Bytes Command)
      → rf.state ≡ leader
      → at rf.next_index (pos j) ≡ some (pos k)
      → k ≤ length rf.log
      → Rises (pos 0) rf.log
      → peer.current_term ≤ℤ rf.current_term
      → NotAhead rf.log peer.log
      → exchange sort (suc k) j rf peer ≢ running
  exchange-ne-running j k rf peer leads at_j fits rises in_term not_ahead =
      exchange_below (suc k) j k rf peer (omega arith) (record {
        leads = leads;
        at_j = at_j;
        fits = fits;
        rises = rises;
        in_term = in_term;
        not_ahead = not_ahead;
      })
