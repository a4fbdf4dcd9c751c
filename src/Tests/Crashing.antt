-- ===== src/Tests/Crashing.antt =====
-- What a peer of three knows after a crash, with and without a write of the main loop under way.
use unique_freshman.Prelude.{ℕ, ◌≡◌, refl, pos, minus_one, List, [], ◌∷◌, false, ◌+ℤ◌, ◌-ℤ◌}
use unique_freshman.Persister.{copy}
use unique_freshman.Raft.Types.{AppendEntriesArgs, AppendEntriesReply, follower}
use unique_freshman.Raft.Gob.{Item}
use unique_freshman.Raft.State.{make, persist, convert_to_follower}
use unique_freshman.Raft.State.Restart.{IsDurable, anew}
use unique_freshman.Raft.Vote.{enter_term}
use unique_freshman.Raft.Apply.{is_pending, apply_loop, start_apply_logs}
use unique_freshman.Raft.Append.{
  first_of_term, conflict_reply, check_prev, cut_conflict, write_entries, merge_entries,
  next_commit, accept_entries, answer_append, append_entries,
}
use unique_freshman.Raft.Peer.Survive.{of_entries, Answer-survives}
use unique_freshman.Raft.Peer.Stale.{Writes, Writes-loses}
use unique_freshman.Tests.Samples.{plain, Peer, tell, entry, peer, outcome}
use unique_freshman.Tests.Sorting.{by_insertion}

-- A peer of term 1 with one entry.
abbrev voter : Peer
voter = peer 3 follower 1 minus_one (entry 7 1 ∷ [])

-- It takes another entry while the main loop writes its state.
abbrev more : AppendEntriesArgs ℕ
more = tell 1 (pos 0) (pos 1) (entry 8 1 ∷ []) minus_one

abbrev grown : Peer × AppendEntriesReply
grown =
    outcome
      (
        voter,
        record { term = pos 0; success = false; conflict_index = pos 0; conflict_term = pos 0 },
      )
      (append_entries more voter)

Writes-loses_example :
    (bytes : List (Item ℕ)) × (q : Peer) × Writes by_insertion
      (record { raft = voter; unsaved = [] })
      (record { raft = grown.0; unsaved = bytes ∷ [] })
    × IsDurable grown.0
    × Writes by_insertion
        (record { raft = grown.0; unsaved = bytes ∷ [] })
        (record { raft = q; unsaved = [] })
    × (q.current_term ≡ pos 1)
    × (q.voted_for ≡ minus_one)
    × (q.log ≡ entry 7 1 ∷ [])
unfolding append_entries accept_entries merge_entries cut_conflict write_entries next_commit
    start_apply_logs apply_loop is_pending enter_term answer_append persist check_prev
    conflict_reply first_of_term convert_to_follower ◌+ℤ◌ ◌-ℤ◌
Writes-loses_example = Writes-loses by_insertion more grown.1 voter grown.0 9 refl

-- What it has answered survives a crash after that.
Answer-survives_example :
    make grown.0.peers grown.0.me (copy [] grown.0.persister) 9 ≡ anew 9 grown.0
unfolding append_entries accept_entries merge_entries cut_conflict write_entries next_commit
    start_apply_logs apply_loop is_pending enter_term answer_append persist check_prev
    conflict_reply first_of_term convert_to_follower ◌+ℤ◌ ◌-ℤ◌
Answer-survives_example =
    Answer-survives {rf = voter} {rf' = grown.0} 9 (of_entries more grown.1 refl)
