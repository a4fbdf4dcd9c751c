-- ===== src/Tests/Leading.antt =====
-- Leaders, their requests and the replies to these.
use unique_freshman.Prelude.{
  ℕ, ℤ, ◌+◌, ◌/◌, ◌≤◌, pos, minus_one, [], ◌∷◌, ◌≡◌, ◌≢◌, refl, ◌⊎◌, false, some, none, ◌+ℤ◌, ◌-ℤ◌,
  ◌≤ℤ◌, ◌<ℤ◌, leb_ℤ, arith, take, set, at,
}
use unique_freshman.Raft.Types.{LogEntry, AppendEntriesArgs, AppendEntriesReply, follower}
use unique_freshman.Raft.State.{persist, convert_to_follower}
use unique_freshman.Raft.Vote.{enter_term}
use unique_freshman.Raft.Apply.{is_pending, apply_loop, start_apply_logs}
use unique_freshman.Raft.Append.{
  first_of_term, conflict_reply, check_prev, cut_conflict, write_entries, merge_entries,
  next_commit, accept_entries, answer_append, append_entries,
}
use unique_freshman.Raft.Append.Merge.{first_conflict}
use unique_freshman.Raft.Leader.{append_reply, again, append_args, quorum_index, advance_commit}
use unique_freshman.Raft.Leader.Request.{append_args-append_entries}
use unique_freshman.Raft.Leader.Progress.{refusal_lowers_next_index, refusal_repeats}
use unique_freshman.Raft.Leader.Exchange.{exchange, running, exchange-ne-running}
use unique_freshman.Raft.Leader.Count.{count}
use unique_freshman.Raft.Leader.Quorum.{matches, advance_commit-quorum}
use unique_freshman.Raft.Leader.Bounds.{advance_commit-some, advance_commit-two}
use unique_freshman.Tests.Samples.{plain, Peer, entry, peer, head, tell, outcome}
use unique_freshman.Tests.Sorting.{insert, insertion_sort, by_insertion}

-- A leader of term 2 among three peers that sends its second entry to peer 1.
abbrev chief : Peer
chief = head 3 (pos 2 ∷ pos 1 ∷ pos 2 ∷ []) (minus_one ∷ minus_one ∷ pos 1 ∷ [])

abbrev second_only : AppendEntriesArgs ℕ
second_only = record (tell 2 (pos 0) (pos 1) (entry 8 2 ∷ []) minus_one) { leader_id = pos 0 }

-- A follower that has the first entry of that leader, one that has another one of a later term,
-- and one that has nothing.
abbrev near : Peer
near = peer 3 follower 1 minus_one (entry 7 1 ∷ [])

abbrev ahead : Peer
ahead = peer 3 follower 2 minus_one (entry 6 2 ∷ [])

abbrev empty : Peer
empty = peer 3 follower 1 minus_one []

abbrev handle : AppendEntriesArgs ℕ → Peer → Peer × AppendEntriesReply
handle args rf =
    unfold append_entries accept_entries merge_entries cut_conflict write_entries next_commit
      start_apply_logs apply_loop is_pending enter_term answer_append persist check_prev
      conflict_reply first_of_term convert_to_follower ◌+ℤ◌ ◌-ℤ◌ in
    outcome
      (rf, record { term = pos 0; success = false; conflict_index = pos 0; conflict_term = pos 0 })
      (append_entries args rf)

append_args-append_entries_example : take 2 (handle second_only near).0.log ≡ chief.log
unfolding append_entries accept_entries merge_entries cut_conflict write_entries next_commit
    start_apply_logs apply_loop is_pending enter_term answer_append persist check_prev
    conflict_reply first_of_term convert_to_follower ◌+ℤ◌ ◌-ℤ◌ append_args first_conflict
append_args-append_entries_example =
    append_args-append_entries 1 1 chief near second_only {peer' = (handle second_only near).0}
      {reply = (handle second_only near).1} refl refl (omega arith) refl refl (ground arith) refl
      refl

refusal_lowers_next_index_example :
    (n : ℤ) × (append_reply by_insertion 1 second_only (some (handle second_only empty).1) chief
      ≡ some (record chief { next_index = set chief.next_index 1 n }, again))
    × (pos 0 ≤ℤ n)
    × (n <ℤ pos 1)
unfolding append_entries accept_entries merge_entries cut_conflict write_entries next_commit
    start_apply_logs apply_loop is_pending enter_term answer_append persist check_prev
    conflict_reply first_of_term convert_to_follower ◌+ℤ◌ ◌-ℤ◌ append_args
refusal_lowers_next_index_example =
    refusal_lowers_next_index by_insertion 1 0 chief empty second_only (entry 7 1)
      {peer' = (handle second_only empty).0} {reply = (handle second_only empty).1} refl refl refl
      refl (omega arith) refl (omega arith) (λ e found. ground arith)

-- A leader of term 3 with no entry of that term yet, and its request for `ahead`.
abbrev stuck : Peer
stuck = record chief { current_term = pos 3; log = entry 7 1 ∷ entry 8 1 ∷ [] }

abbrev second_of_stuck : AppendEntriesArgs ℕ
second_of_stuck = record second_only { term = pos 3; entries = entry 8 1 ∷ [] }

refusal_repeats_example :
    append_reply by_insertion 1 second_of_stuck (some (handle second_of_stuck ahead).1) stuck
    ≡ some (stuck, again)
unfolding append_entries accept_entries merge_entries cut_conflict write_entries next_commit
    start_apply_logs apply_loop is_pending enter_term answer_append persist check_prev
    conflict_reply first_of_term convert_to_follower ◌+ℤ◌ ◌-ℤ◌ append_args
refusal_repeats_example =
    refusal_repeats by_insertion 1 0 stuck ahead second_of_stuck (entry 7 1)
      {peer' = (handle second_of_stuck ahead).0} {reply = (handle second_of_stuck ahead).1} refl
      refl refl refl (omega arith) refl (entry 6 2) refl (omega arith)
      (omega arith, (omega arith, tt))

abbrev reached : Peer
reached = record chief { committed_index = pos 1 }

advance_commit-quorum_example :
    (reached ≡ chief)
    ⊎ ((n : ℤ) × (reached ≡ record chief { committed_index = n })
        × (minus_one <ℤ n)
        × (e : LogEntry ℕ) × (at chief.log n ≡ some e)
        × (e.term ≡ pos 2)
        × (3 ≤ count (leb_ℤ n) (matches chief) + 3 / 2))
unfolding advance_commit quorum_index insertion_sort insert
advance_commit-quorum_example = advance_commit-quorum by_insertion chief refl (omega arith) refl

advance_commit-some_example : (rf' : Peer) × (advance_commit by_insertion chief ≡ some rf')
advance_commit-some_example =
    advance_commit-some by_insertion chief refl (omega arith) (omega arith) (omega arith)
      (omega arith, (omega arith, (omega arith, tt)))

advance_commit-two_example :
    advance_commit by_insertion (head 2 (pos 2 ∷ pos 0 ∷ []) (minus_one ∷ minus_one ∷ [])) ≡ none
advance_commit-two_example =
    advance_commit-two by_insertion (head 2 (pos 2 ∷ pos 0 ∷ []) (minus_one ∷ minus_one ∷ [])) refl
      (omega arith) refl (omega arith)

exchange-ne-running_example : exchange by_insertion 2 1 chief empty ≢ running
exchange-ne-running_example =
    exchange-ne-running by_insertion 1 1 chief empty refl refl (omega arith)
      (omega arith, (omega arith, tt)) (omega arith)
      (λ i our their ours theirs. absurd (ground arith))
