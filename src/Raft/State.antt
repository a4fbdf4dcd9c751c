-- ===== src/Raft/State.antt =====
-- A peer's life outside the RPCs (Task5/raft/raft.go): `persist`, `readPersist`, `Make`, `Kill` and
-- the conversions between the three roles. A random number is an argument.
pub mod Restart
use unique_freshman.Prelude.{
  ℕ, ◌+◌, suc, pred, ℤ, pos, minus_one, ◌+ℤ◌, eqb_ℤ, Bool, List, [], ◌∷◌, length_ℤ, replicate,
}
use unique_freshman.Persister.{Persister, save_raft_state, read_raft_state}
use unique_freshman.Raft.Types.{LogEntry, Raft, follower, candidate, leader}
use unique_freshman.Raft.Gob.{Gob, Item, int, entries}

-- `go func() { select { case <-ch: default: }; ch <- true }()`: the token of a goroutine that
-- waits is taken away, and a new goroutine waits to send. This is the goroutine as it runs with no
-- other one in between; for the others see `crowd`.
abbrev pub notify : ℕ → ℕ
notify waiting = suc (pred waiting)

-- The channels of such goroutines.
pub data Channel : Type 0 where
  grant_votes heart_beats leaders : Channel

module _ {Bytes Command : Type 0} where
  -- A goroutine has found no other one waiting in its `select`, and one has come to wait before it
  -- waits itself: both wait to send.
  unfoldable pub crowd : Channel → Raft Bytes Command → Raft Bytes Command
  crowd ch rf = record rf {
    grant_vote_ch = elim ch [ grant_votes ↦ suc rf.grant_vote_ch | _ ↦ rf.grant_vote_ch ];
    heart_beat_ch = elim ch [ heart_beats ↦ suc rf.heart_beat_ch | _ ↦ rf.heart_beat_ch ];
    leader_ch = elim ch [ leaders ↦ suc rf.leader_ch | _ ↦ rf.leader_ch ];
  }

-- The arguments of `rand.Intn` stand for the durations that the source draws.
abbrev pub election_timeout : ℕ → ℕ
election_timeout draw = draw + 200

module _ {Command : Type 0} where
  -- `d.Decode(&v)` for an `int`: at the end of the stream, or at a value of another type, it fails
  -- and leaves `v` alone.
  unfoldable pub decode_int : List (Item Command) → ℤ → ℤ × List (Item Command)
  decode_int [] v = (v, [])
  decode_int (int n ∷ s) v = (n, s)
  decode_int (entries l ∷ s) v = (v, s)

  -- The same for a slice of log entries.
  unfoldable pub decode_log :
      List (Item Command) → List (LogEntry Command) → List (LogEntry Command) × List (Item Command)
  decode_log [] v = (v, [])
  decode_log (int n ∷ s) v = (v, s)
  decode_log (entries l ∷ s) v = (l, s)

module _ {Bytes Command : Type 0} where
  -- What `persist` encodes, in order.
  abbrev pub persistent : Raft Bytes Command → List (Item Command)
  persistent rf =
      int rf.current_term
      ∷ int rf.voted_for
      ∷ entries rf.log
      ∷ int rf.vote_granted
      ∷ int rf.vote_not_granted
      ∷ []

  unfoldable pub get_state : Raft Bytes Command → ℤ × Bool
  get_state rf = (rf.current_term, elim rf.state [ leader ↦ Bool.true | _ ↦ Bool.false ])

  unfoldable pub kill : Raft Bytes Command → Raft Bytes Command
  kill rf = record rf { dead = pos 1 }

  unfoldable pub killed : Raft Bytes Command → Bool
  killed rf = eqb_ℤ rf.dead (pos 1)

module _ {Bytes Command : Type 0} ⦃gob : Gob Bytes Command⦄ where
  unfoldable pub persist : Raft Bytes Command → Raft Bytes Command
  unfolding save_raft_state
  persist rf = record rf { persister = save_raft_state rf.persister (gob.encode (persistent rf)) }

  -- The source's test for an empty `data` stands behind the decoding, and only returns.
  unfoldable pub read_persist : Bytes → Raft Bytes Command → Raft Bytes Command
  unfolding decode_int decode_log
  read_persist b rf =
      let (current_term, s₁) = decode_int (gob.items b) rf.current_term in
      let (voted_for, s₂) = decode_int s₁ rf.voted_for in
      let (log, s₃) = decode_log s₂ rf.log in
      let (vote_granted, s₄) = decode_int s₃ rf.vote_granted in
      let (vote_not_granted, s₅) = decode_int s₄ rf.vote_not_granted in
      record rf {
        current_term = current_term;
        voted_for = voted_for;
        log = log;
        vote_granted = vote_granted;
        vote_not_granted = vote_not_granted;
      }

  -- `Make(peers, me, persister, applyCh)`, with `draw` from `rand.Intn(300)`. The goroutine of
  -- `heartBeat` that it starts is the loop of its own module.
  unfoldable pub make : ℕ → ℕ → Persister Bytes → ℕ → Raft Bytes Command
  unfolding read_persist read_raft_state
  make peers me persister draw = read_persist (read_raft_state persister) (record {
    peers = peers;
    persister = persister;
    me = me;
    dead = pos 0;
    current_term = pos 0;
    voted_for = minus_one;
    log = [];
    committed_index = minus_one;
    last_applied = minus_one;
    next_index = [];
    match_index = [];
    state = follower;
    apply_ch = [];
    timer = draw + 300;
    grant_vote_ch = 0;
    heart_beat_ch = 0;
    leader_ch = 0;
    vote_granted = pos 0;
    vote_not_granted = pos 0;
  })

  unfoldable pub convert_to_follower : ℤ → ℤ → Raft Bytes Command → Raft Bytes Command
  unfolding persist
  convert_to_follower term vote_for rf = persist (record rf {
    current_term = term;
    state = follower;
    voted_for = vote_for;
    vote_granted = pos 0;
    vote_not_granted = pos 0;
  })

  -- `draw` is the number from `rand.Intn(200)`.
  unfoldable pub convert_to_candidate : ℕ → Raft Bytes Command → Raft Bytes Command
  unfolding persist ◌+ℤ◌
  convert_to_candidate draw rf = persist (record rf {
    current_term = rf.current_term +ℤ pos 1;
    state = candidate;
    voted_for = pos rf.me;
    vote_granted = pos 1;
    vote_not_granted = pos 0;
    timer = election_timeout draw;
  })

  -- The loop of the source fills every place of the two fresh slices.
  unfoldable pub convert_to_leader : Raft Bytes Command → Raft Bytes Command
  unfolding persist
  convert_to_leader rf = persist (record rf {
    state = leader;
    next_index = replicate rf.peers (length_ℤ rf.log);
    match_index = replicate rf.peers minus_one;
  })
