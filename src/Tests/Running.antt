-- ===== src/Tests/Running.antt =====
-- A peer through several steps.
use unique_freshman.Prelude.{
  ◌==◌, arith, ℕ, true, false, pos, minus_one, [], ◌∷◌, ◌≡◌, refl, some, ◌+ℤ◌, ◌-ℤ◌,
}
use unique_freshman.Persister.{make_persister, read_raft_state}
use unique_freshman.Raft.Types.{RequestVoteReply, AppendEntriesArgs, AppendEntriesReply}
use unique_freshman.Raft.State.{
  make, persist, convert_to_candidate, convert_to_leader, convert_to_follower, read_persist,
  decode_int, decode_log,
}
use unique_freshman.Raft.Vote.{enter_term}
use unique_freshman.Raft.Apply.{is_pending, apply_loop, start_apply_logs}
use unique_freshman.Raft.Append.{
  first_of_term, conflict_reply, check_prev, cut_conflict, write_entries, merge_entries,
  next_commit, accept_entries, answer_append, append_entries,
}
use unique_freshman.Raft.HeartBeat.{following, tick, wake}
use unique_freshman.Raft.Election.{vote_reply, count_vote, has_majority}
use unique_freshman.Raft.Client.{start}
use unique_freshman.Config.{Config}
use unique_freshman.Config.Reader.{IsInOrder, Reach-IsInOrder}
use unique_freshman.Raft.Peer.{Reach, told, vote_came, submitted, woke, made, next}
use unique_freshman.Raft.Peer.Commits.{CommitsQuorum, Reach-CommitsQuorum}
use unique_freshman.Raft.Leader.{
  Next, stop, append_reply, current_reply, accepted, advance_commit, quorum_index,
}
use unique_freshman.Raft.Peer.Roles.{Turn, Step-Turn}
use unique_freshman.Raft.Peer.Applied.{IsApplied, Reach-IsApplied}
use unique_freshman.Tests.Samples.{plain, Peer, ask, tell, entry, outcome}
use unique_freshman.Tests.Sorting.{insert, insertion_sort, by_insertion}

-- Peer 0 of three starts, becomes a candidate when its timer fires, wins with the vote of peer 1 and
-- takes a command.
abbrev fresh : Peer
fresh = make {Command = ℕ} 3 0 (make_persister []) 5

abbrev running : Peer
running = convert_to_candidate 4 fresh

abbrev granted : RequestVoteReply
granted = record { term = pos 1; vote_granted = true }

abbrev won : Peer
won = (vote_reply (ask 1 0 0 0) (some granted) 0 running).0

abbrev busy : Peer
busy = (start 9 won).0

fresh-Reach : Reach by_insertion 3 0 fresh
fresh-Reach = made 5 fresh refl

busy-Reach : Reach by_insertion 3 0 busy
unfolding wake
busy-Reach =
    next
      (next (next fresh-Reach (woke (tick 4) following refl))
        (vote_came (ask 1 0 0 0) (some granted) 0 refl))
      (submitted 9 refl)

Step-Turn_example : Turn running won
Step-Turn_example = Step-Turn by_insertion (vote_came (ask 1 0 0 0) (some granted) 0 refl)

-- Peer 1 has taken the entry of that command, and says so.
abbrev first_sent : AppendEntriesArgs ℕ
first_sent = record {
  term = pos 1;
  leader_id = pos 0;
  prev_log_index = minus_one;
  prev_log_term = minus_one;
  entries = busy.log;
  leader_commit = minus_one;
}

abbrev taken : AppendEntriesReply
taken = record { term = pos 1; success = true; conflict_index = pos 0; conflict_term = pos 0 }

abbrev answered : Peer × Next
answered =
    unfold append_reply current_reply accepted advance_commit quorum_index insertion_sort insert
      start_apply_logs apply_loop is_pending ◌+ℤ◌ ◌-ℤ◌ start wake convert_to_candidate vote_reply
      count_vote has_majority convert_to_leader persist make read_persist make_persister
      read_raft_state decode_int decode_log in
    outcome (busy, stop) (append_reply by_insertion 1 first_sent (some taken) busy)

Reach-CommitsQuorum_example : CommitsQuorum 3 busy answered.0
unfolding append_reply current_reply accepted advance_commit quorum_index insertion_sort insert
    start_apply_logs apply_loop is_pending ◌+ℤ◌ ◌-ℤ◌ start wake convert_to_candidate vote_reply
    count_vote has_majority convert_to_leader persist make read_persist make_persister
    read_raft_state decode_int decode_log
Reach-CommitsQuorum_example =
    Reach-CommitsQuorum by_insertion 3 0 1 first_sent (some taken) stop busy-Reach refl
      (omega arith) refl

committed_of_answered : answered.0.committed_index ≡ pos 0
unfolding append_reply current_reply accepted advance_commit quorum_index insertion_sort insert
    start_apply_logs apply_loop is_pending ◌+ℤ◌ ◌-ℤ◌ start wake convert_to_candidate vote_reply
    count_vote has_majority convert_to_leader persist make read_persist make_persister
    read_raft_state decode_int decode_log
committed_of_answered = refl

-- The same peer at first, which takes an entry from a leader of term 1 that has committed it.
abbrev hello : AppendEntriesArgs ℕ
hello = tell 1 minus_one minus_one (entry 7 1 ∷ []) (pos 0)

abbrev heard : Peer × AppendEntriesReply
heard =
    unfold append_entries accept_entries merge_entries cut_conflict write_entries next_commit
      start_apply_logs apply_loop is_pending enter_term answer_append persist check_prev
      conflict_reply first_of_term convert_to_follower ◌+ℤ◌ ◌-ℤ◌ make read_persist make_persister
      read_raft_state decode_int decode_log in
    outcome
      (
        fresh,
        record { term = pos 0; success = false; conflict_index = pos 0; conflict_term = pos 0 },
      )
      (append_entries hello fresh)

heard-Reach : Reach by_insertion 3 0 heard.0
unfolding append_entries accept_entries merge_entries cut_conflict write_entries next_commit
    start_apply_logs apply_loop is_pending enter_term answer_append persist check_prev
    conflict_reply first_of_term convert_to_follower ◌+ℤ◌ ◌-ℤ◌ make read_persist make_persister
    read_raft_state decode_int decode_log
heard-Reach = next fresh-Reach (told hello heard.1 refl)

Reach-IsApplied_example : IsApplied heard.0
Reach-IsApplied_example = Reach-IsApplied by_insertion 3 0 heard-Reach

-- The tester before it has read anything of three servers.
abbrev unread : Config ℕ
unread = record { logs = [] ∷ [] ∷ [] ∷ []; max_index = pos 0 }

Reach-IsInOrder_example : IsInOrder (λ a b. a == b) 0 heard.0.apply_ch unread
Reach-IsInOrder_example =
    Reach-IsInOrder by_insertion (λ a b. a == b) 3 0 0 unread heard-Reach (omega arith)
