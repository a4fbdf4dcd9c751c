-- ===== src/Tests/Appends.antt =====
-- Requests with entries, and the messages to the service.
use unique_freshman.Prelude.{
  ℕ, zero, ◌≤◌, pos, minus_one, [], ◌∷◌, ◌≡◌, refl, ◌↔◌, ◌⊎◌, true, false, some, none, ◌+ℤ◌, ◌-ℤ◌,
  ◌≤ℤ◌, ◌<ℤ◌, arith, length, length_ℤ, take,
}
use unique_freshman.Raft.Types.{AppendEntriesArgs, AppendEntriesReply, follower}
use unique_freshman.Raft.State.{persist, convert_to_follower}
use unique_freshman.Raft.Vote.{enter_term}
use unique_freshman.Raft.Apply.{is_pending, apply_loop, start_apply_logs}
use unique_freshman.Raft.Apply.Order.{delivered, start_apply_logs-delivered}
use unique_freshman.Raft.Append.{
  first_of_term, conflict_reply, check_prev, cut_conflict, write_entries, merge_entries,
  next_commit, accept_entries, answer_append, append_entries,
}
use unique_freshman.Raft.Append.Merge.{first_conflict, merged, merge_entries-merged}
use unique_freshman.Raft.Append.Check.{PrevMatches}
use unique_freshman.Raft.Append.Replicate.{
  append_entries-success, refusal_keeps, entries_stored, entries_lost, commit_rises,
}
use unique_freshman.Raft.Append.Panic.{append_entries-none}
use unique_freshman.Tests.Samples.{plain, Peer, entry, peer, tell, outcome}

-- A follower of term 2 with three entries, the last one of which the leader of term 3 replaces.
abbrev behind : Peer
behind = peer 3 follower 2 minus_one (entry 5 1 ∷ entry 6 1 ∷ entry 7 2 ∷ [])

abbrev sent : AppendEntriesArgs ℕ
sent = tell 3 (pos 0) (pos 1) (entry 6 1 ∷ entry 8 3 ∷ entry 9 3 ∷ []) (pos 1)

-- A request whose first entry conflicts, and one that the check refuses.
abbrev sent_at_conflict : AppendEntriesArgs ℕ
sent_at_conflict = tell 3 (pos 1) (pos 1) (entry 8 3 ∷ []) (pos 1)

abbrev sent_too_far : AppendEntriesArgs ℕ
sent_too_far = tell 3 (pos 2) (pos 3) (entry 9 3 ∷ []) (pos 1)

abbrev no_reply : AppendEntriesReply
no_reply = record { term = pos 0; success = false; conflict_index = pos 0; conflict_term = pos 0 }

abbrev handle : AppendEntriesArgs ℕ → Peer → Peer × AppendEntriesReply
handle args rf =
    unfold append_entries accept_entries merge_entries cut_conflict write_entries next_commit
      start_apply_logs apply_loop is_pending enter_term answer_append persist check_prev
      conflict_reply first_of_term convert_to_follower ◌+ℤ◌ ◌-ℤ◌ in
    outcome (rf, no_reply) (append_entries args rf)

abbrev caught_up : Peer × AppendEntriesReply
caught_up = handle sent behind

abbrev lost : Peer × AppendEntriesReply
lost = handle sent_at_conflict behind

abbrev refused : Peer × AppendEntriesReply
refused = handle sent_too_far behind

append_entries-success_example :
    (caught_up.1.term ≡ pos 3)
    × (pos 3 ≡ pos 3)
    × ((caught_up.1.success ≡ true)
        ↔ ((pos 2 ≤ℤ pos 3) × (1 ≤ 3) × PrevMatches 1 (pos 1) behind.log))
unfolding append_entries accept_entries merge_entries cut_conflict write_entries next_commit
    start_apply_logs apply_loop is_pending enter_term answer_append persist check_prev
    conflict_reply first_of_term convert_to_follower ◌+ℤ◌ ◌-ℤ◌
append_entries-success_example =
    append_entries-success sent 1 behind {rf' = caught_up.0} {reply = caught_up.1} refl refl

refusal_keeps_example :
    (refused.0.log ≡ behind.log)
    × (refused.0.committed_index ≡ minus_one)
    × (refused.0.last_applied ≡ minus_one)
    × (refused.0.apply_ch ≡ [])
unfolding append_entries accept_entries merge_entries cut_conflict write_entries next_commit
    start_apply_logs apply_loop is_pending enter_term answer_append persist check_prev
    conflict_reply first_of_term convert_to_follower ◌+ℤ◌ ◌-ℤ◌
refusal_keeps_example =
    refusal_keeps sent_too_far 3 behind {rf' = refused.0} {reply = refused.1} refl refl refl

entries_stored_example :
    (take 4 caught_up.0.log ≡ entry 5 1 ∷ entry 6 1 ∷ entry 8 3 ∷ entry 9 3 ∷ [])
    × (4 ≤ length caught_up.0.log)
unfolding append_entries accept_entries merge_entries cut_conflict write_entries next_commit
    start_apply_logs apply_loop is_pending enter_term answer_append persist check_prev
    conflict_reply first_of_term convert_to_follower ◌+ℤ◌ ◌-ℤ◌ first_conflict
entries_stored_example =
    entries_stored sent 1 behind {rf' = caught_up.0} {reply = caught_up.1} refl refl refl
      (ground arith)

entries_lost_example : (lost.0.log ≡ entry 5 1 ∷ []) × (length lost.0.log ≡ 1)
unfolding append_entries accept_entries merge_entries cut_conflict write_entries next_commit
    start_apply_logs apply_loop is_pending enter_term answer_append persist check_prev
    conflict_reply first_of_term convert_to_follower ◌+ℤ◌ ◌-ℤ◌ first_conflict
entries_lost_example =
    entries_lost sent_at_conflict 2 behind {rf' = lost.0} {reply = lost.1} refl refl 1 refl refl
      refl

commit_rises_example :
    (caught_up.0.committed_index ≡ pos 1)
    × ((caught_up.0.committed_index ≡ minus_one)
        ⊎ (caught_up.0.committed_index <ℤ length_ℤ caught_up.0.log))
unfolding append_entries accept_entries merge_entries cut_conflict write_entries next_commit
    start_apply_logs apply_loop is_pending enter_term answer_append persist check_prev
    conflict_reply first_of_term convert_to_follower ◌+ℤ◌ ◌-ℤ◌ first_conflict
commit_rises_example =
    commit_rises sent 1 behind {rf' = caught_up.0} {reply = caught_up.1} refl refl refl
      (ground arith) (omega arith)

merge_entries-merged_example :
    merge_entries (pos 0) sent.entries behind.log ≡ merged 1 sent.entries behind.log
unfolding ◌+ℤ◌
merge_entries-merged_example =
    merge_entries-merged (pos 0) 1 sent.entries behind.log refl (omega arith)

-- The first entry of a follower's log conflicts.
append_entries-none_example :
    (append_entries (tell 3 minus_one minus_one (entry 8 3 ∷ []) (pos 1)) behind ≡ none)
    ↔ ((pos 2 ≤ℤ pos 3) × (zero ≡ zero) × (first_conflict behind.log (entry 8 3 ∷ []) ≡ some 0))
append_entries-none_example =
    append_entries-none (tell 3 minus_one minus_one (entry 8 3 ∷ []) (pos 1)) 0 0 behind
      (unfold ◌+ℤ◌ in refl) refl

-- Two of the three entries are committed and not yet sent to the service.
abbrev committed : Peer
committed = record behind { committed_index = pos 1 }

start_apply_logs-delivered_example :
    (start_apply_logs committed ≡ some (delivered 0 2 committed))
    × (is_pending (delivered 0 2 committed) ≡ false)
start_apply_logs-delivered_example = start_apply_logs-delivered 0 committed refl
