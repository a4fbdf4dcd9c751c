-- ===== src/Raft/HeartBeat.antt =====
-- The main loop of a peer (Task5/raft/raft.go, `heartBeat`). A round runs up to the place where it
-- waits, and an event ends the wait; handlers of the peer may run in between.
use unique_freshman.Prelude.{ℕ, ◌+◌, pos, minus_one, ◌+ℤ◌, ltb_ℤ, Option, none, some, if◌then◌else◌}
use unique_freshman.Raft.Types.{Raft, follower, candidate, leader}
use unique_freshman.Raft.Gob.{Gob}
use unique_freshman.Raft.State.{persist, killed, convert_to_follower, convert_to_candidate}

-- Where a round stands: it left the loop, runs `startAppendEntries`, has started
-- `startRequestVote` and waits, or waits as a follower.
pub data Wait : Type 0 where
  exited leading electing following : Wait

-- What a `select` receives: a token of one of the three channels, or the timer's tick. After a
-- tick `draw` is the number that `convertToCandidate` would take from `rand.Intn(200)`.
pub data Event : Type 0 where
  vote_token beat_token leader_token : Event
  tick : (draw : ℕ) → Event

module _ {Bytes Command : Type 0} ⦃gob : Gob Bytes Command⦄ where
  -- From the head of the loop to the wait, with `draw` from `rand.Intn(200)`. The state is read
  -- twice in the source, and nothing comes between the two reads here.
  unfoldable pub begin_round : ℕ → Raft Bytes Command → Raft Bytes Command × Wait
  unfolding killed persist
  begin_round draw rf =
      let rf' = persist rf in
      let armed : Raft Bytes Command = record rf' { timer = draw + 200 } in
      if killed rf then (rf, exited) else elim rf.state [
        | candidate ↦ (rf', electing)
        | follower ↦ (armed, following)
        | leader ↦ (armed, leading)
      ]

  -- The timer's tick while an election is on.
  unfoldable pub election_tick : ℕ → Raft Bytes Command → Raft Bytes Command
  unfolding convert_to_candidate convert_to_follower
  election_tick draw rf =
      let retry =
        if ltb_ℤ (rf.vote_not_granted +ℤ rf.vote_not_granted) (pos rf.peers)
        then convert_to_candidate draw rf
        else convert_to_follower rf.current_term minus_one rf in
      elim rf.state [ follower ↦ rf | candidate ↦ retry | leader ↦ retry ]

  -- The event that ends a wait; `none` where the `select` does not listen to it, or no goroutine
  -- waits to send.
  unfoldable pub wake : Event → Wait → Raft Bytes Command → Option (Raft Bytes Command)
  unfolding election_tick convert_to_follower convert_to_candidate
  wake beat_token electing rf = elim rf.heart_beat_ch [
    | ℕ.zero ↦ none
    | ℕ.suc k ↦
        some (convert_to_follower rf.current_term minus_one (record rf { heart_beat_ch = k }))
  ]
  wake leader_token electing rf = elim rf.leader_ch [
    | ℕ.zero ↦ none
    | ℕ.suc k ↦ some (record rf { leader_ch = k })
  ]
  wake (tick draw) electing rf = some (election_tick draw rf)
  wake vote_token following rf = elim rf.grant_vote_ch [
    | ℕ.zero ↦ none
    | ℕ.suc k ↦ some (record rf { grant_vote_ch = k })
  ]
  wake beat_token following rf = elim rf.heart_beat_ch [
    | ℕ.zero ↦ none
    | ℕ.suc k ↦ some (record rf { heart_beat_ch = k })
  ]
  wake (tick draw) following rf = some (convert_to_candidate draw rf)
  wake _ _ rf = none
