-- ===== src/Tests/Matched.antt =====
-- A leader among three peers that sends its first entry to one of the others.
use unique_freshman.Prelude.{
  ℕ, zero, suc, ◌≡◌, ◌≢◌, refl, sym, ◌∙◌, pos, minus_one, List, [], ◌∷◌, Bool, true, false, some,
  get_elem?, take, ◌+ℤ◌, ◌-ℤ◌, arith, inl, inr,
}
use unique_freshman.Persister.{make_persister, read_raft_state}
use unique_freshman.Raft.Types.{AppendEntriesArgs, AppendEntriesReply, leader}
use unique_freshman.Raft.Gob.{Item}
use unique_freshman.Raft.State.{
  make, read_persist, decode_int, decode_log, persist, convert_to_candidate, convert_to_follower,
  convert_to_leader,
}
use unique_freshman.Raft.Vote.{request_vote, decide_vote, enter_term, answer_vote, is_newer}
use unique_freshman.Raft.Election.{vote_args, vote_reply, count_vote, has_majority}
use unique_freshman.Raft.Client.{start}
use unique_freshman.Raft.Leader.{append_args, leads}
use unique_freshman.Raft.State.{killed}
use unique_freshman.Raft.Append.{
  append_entries, accept_entries, merge_entries, cut_conflict, write_entries, next_commit,
  check_prev, answer_append,
}
use unique_freshman.Raft.Apply.{start_apply_logs, apply_loop, is_pending}
use unique_freshman.Raft.HeartBeat.{following, tick, wake}
use unique_freshman.Cluster.{
  Cluster, Sent, Move, Runs, began, onward, acted, woke, submitted, called_vote, answered_vote,
  took_vote, called_append, answered_append,
}
use unique_freshman.Cluster.Matching.Moments.{Moment, OneLeadsATerm}
use unique_freshman.Cluster.Matching.Ledger.{Runs-logs_match}
use unique_freshman.Tests.Samples.{plain, Peer, outcome, entry}
use unique_freshman.Tests.Sorting.{by_insertion}
use unique_freshman.Tests.Clustered.{fresh, at_first, all_fresh, running, call, voted, answered}

abbrev Peers : Type 0
Peers = Cluster (List (Item ℕ)) ℕ

abbrev none_lead : List Peer → Bool
none_lead [] = true
none_lead (rf ∷ rfs) = let rest = none_lead rfs in elim rf.state [ leader ↦ false | _ ↦ rest ]

-- Peer 0 alone may lead.
abbrev others_follow : List Peer → Bool
others_follow [] = true
others_follow (rf ∷ rfs) = none_lead rfs

none_lead-get_elem? :
    (rfs : List Peer) (i : ℕ) (rf : Peer)
    → none_lead rfs ≡ true
    → get_elem? rfs i ≡ some rf
    → rf.state ≢ leader
none_lead-get_elem? [] i rf all h leads = absurd (ground (arith, h))
none_lead-get_elem? (x ∷ rfs) zero rf all h leads = absurd (ground (arith, all, h, leads))
none_lead-get_elem? (x ∷ rfs) (suc i) rf all h leads =
    none_lead-get_elem? rfs i rf (ground (arith, all)) h leads

first_leads :
    (rfs : List Peer) (i : ℕ) (rf : Peer)
    → others_follow rfs ≡ true
    → get_elem? rfs i ≡ some rf
    → rf.state ≡ leader
    → i ≡ 0
first_leads [] i rf all h leads = absurd (ground (arith, h))
first_leads (x ∷ rfs) zero rf all h leads = refl
first_leads (x ∷ rfs) (suc i) rf all h leads = absurd (none_lead-get_elem? rfs i rf all h leads)

-- A run in which peer 0 alone has led.
abbrev Calm : Peers → Type 0
Calm c =
    (r : Runs by_insertion 3 c) × ((i : ℕ) (rf : Peer)
      → Moment by_insertion 3 i rf r
      → rf.state ≡ leader
      → i ≡ 0)

Calm-onward :
    {c c' : Peers} → Calm c → Move by_insertion c c' → others_follow c'.rafts ≡ true → Calm c'
Calm-onward {c} {c'} (r, only) move others = (onward r move, all)
  where
    all :
        (i : ℕ) (rf : Peer) → Moment by_insertion 3 i rf (onward r move) → rf.state ≡ leader → i ≡ 0
    all i rf (inl here) leads = first_leads c'.rafts i rf others here leads
    all i rf (inr m) leads = only i rf m leads

Calm-OneLeadsATerm : {c : Peers} (calm : Calm c) → OneLeadsATerm by_insertion 3 calm.0
Calm-OneLeadsATerm (r, only) i j rf q m m' leads leads' same =
    only i rf m leads ∙ sym (only j q m' leads')

-- Peer 0 wins with the vote of peer 1, and is handed the command 7.
abbrev elected : Peer
elected = (vote_reply call.body (some voted.1) 0 running).0

abbrev writer : Peer
writer = (start 7 elected).0

abbrev none_sent : AppendEntriesArgs ℕ
none_sent = record {
  term = pos 0;
  leader_id = pos 0;
  prev_log_index = minus_one;
  prev_log_term = minus_one;
  entries = [];
  leader_commit = minus_one;
}

abbrev request : Sent (AppendEntriesArgs ℕ)
request = record {
  from = 0;
  to = 1;
  body = outcome none_sent (outcome (some none_sent) (append_args 1 writer));
}

abbrev taken : Peer × AppendEntriesReply
taken =
    outcome
      (
        fresh 1,
        record { term = pos 0; success = false; conflict_index = pos 0; conflict_term = pos 0 },
      )
      (append_entries request.body voted.0)

abbrev led : Peers
led = record answered { rafts = elected ∷ voted.0 ∷ fresh 2 ∷ [] }

abbrev written : Peers
written = record led { rafts = writer ∷ voted.0 ∷ fresh 2 ∷ [] }

abbrev sent : Peers
sent = record written { append_calls = request ∷ [] }

abbrev stored : Peers
stored = record sent {
  rafts = writer ∷ taken.0 ∷ fresh 2 ∷ [];
  append_replies = record { from = 1; to = 0; body = (request.body, taken.1) } ∷ [];
}

began-Calm : Calm at_first
unfolding make make_persister
began-Calm = (
  began at_first all_fresh refl refl refl refl,
  λ i rf here. first_leads at_first.rafts i rf refl here,
)

stored-Calm : Calm stored
unfolding wake convert_to_candidate vote_args request_vote decide_vote enter_term answer_vote
    is_newer make read_persist make_persister read_raft_state decode_int decode_log persist
    convert_to_follower ◌+ℤ◌ ◌-ℤ◌ vote_reply count_vote has_majority convert_to_leader start killed
    leads append_args append_entries accept_entries merge_entries cut_conflict write_entries
    next_commit check_prev answer_append start_apply_logs apply_loop is_pending
stored-Calm =
    Calm-onward
      (Calm-onward
        (Calm-onward
          (Calm-onward
            (Calm-onward
              (Calm-onward
                (Calm-onward began-Calm
                  (acted 0 (fresh 0) running refl (woke (tick 4) following refl) refl) refl)
                (called_vote 0 1 running call.body (λ h. ground arith) refl refl refl) refl)
              (answered_vote 0 call (fresh 1) voted.0 voted.1 refl refl refl refl) refl)
            (took_vote 0 0 (record { from = 1; to = 0; body = (call.body, voted.1) }) running refl
              refl refl)
            refl)
          (acted 0 elected writer refl (submitted 7 refl) refl) refl)
        (called_append 0 1 writer request.body (λ h. ground arith) refl refl refl) refl)
      (answered_append 0 request voted.0 taken.0 taken.1 refl refl refl refl) refl

Runs-logs_match_example : take 1 writer.log ≡ take 1 taken.0.log
unfolding wake convert_to_candidate vote_args request_vote decide_vote enter_term answer_vote
    is_newer make read_persist make_persister read_raft_state decode_int decode_log persist
    convert_to_follower ◌+ℤ◌ ◌-ℤ◌ vote_reply count_vote has_majority convert_to_leader start killed
    leads append_args append_entries accept_entries merge_entries cut_conflict write_entries
    next_commit check_prev answer_append start_apply_logs apply_loop is_pending
Runs-logs_match_example =
    Runs-logs_match by_insertion 3 stored-Calm.0 0 1 0 writer taken.0 (entry 7 1) (entry 7 1)
      (Calm-OneLeadsATerm stored-Calm) refl refl refl refl refl
