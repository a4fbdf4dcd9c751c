-- ===== src/Raft/State/Restart.antt =====
-- Stable storage: what a peer has written, and what a peer that starts from it knows.
use unique_freshman.Prelude.{ℕ, ◌+◌, ◌≡◌, refl, ap, pos, minus_one, [], arith, ◌⊎◌, inl, inr, ◌∙◌}
use unique_freshman.Persister.{make_persister, copy}
use unique_freshman.Raft.Types.{Raft, follower}
use unique_freshman.Raft.Gob.{Gob}
use unique_freshman.Raft.State.{persistent, persist, make}

module _ {Bytes Command : Type 0} ⦃gob : Gob Bytes Command⦄ where
  -- The persister holds what the peer knows.
  abbrev pub IsDurable : Raft Bytes Command → Type 0
  IsDurable rf = rf.persister.raftstate ≡ gob.encode (persistent rf)

  -- The persister is still empty, and the peer knows nothing yet.
  pub record IsBlank (rf : Raft Bytes Command) : Type 0 where
    pub empty : rf.persister.raftstate ≡ gob.nil_bytes
    pub no_term : rf.current_term ≡ pos 0
    pub no_vote : rf.voted_for ≡ minus_one
    pub no_log : rf.log ≡ []
    pub none_granted : rf.vote_granted ≡ pos 0
    pub none_refused : rf.vote_not_granted ≡ pos 0

  -- A new start from the persister loses nothing.
  abbrev pub IsSaved : Raft Bytes Command → Type 0
  IsSaved rf = IsDurable rf ⊎ IsBlank rf

  pub persist-IsDurable : (rf : Raft Bytes Command) → IsDurable (persist rf)
  unfolding persist
  persist-IsDurable rf = refl

  items_of_durable :
      (rf : Raft Bytes Command) → IsDurable rf → gob.items rf.persister.raftstate ≡ persistent rf
  items_of_durable rf h = rw h (gob.items-encode (persistent rf))

  abbrev pub anew : ℕ → Raft Bytes Command → Raft Bytes Command
  anew draw rf = record rf {
    dead = pos 0;
    committed_index = minus_one;
    last_applied = minus_one;
    next_index = [];
    match_index = [];
    state = follower;
    apply_ch = [];
    timer = draw + 300;
    grant_vote_ch = 0;
    heart_beat_ch = 0;
    leader_ch = 0;
  }

  make-copy_durable :
      (rf : Raft Bytes Command) (draw : ℕ)
      → IsDurable rf
      → make rf.peers rf.me (copy gob.nil_bytes rf.persister) draw ≡ anew draw rf
  unfolding make copy
  make-copy_durable rf draw h = rw (items_of_durable rf h) refl

  make-copy_blank :
      (rf : Raft Bytes Command) (draw : ℕ)
      → IsBlank rf
      → make rf.peers rf.me (copy gob.nil_bytes rf.persister) draw ≡ anew draw rf
  unfolding make copy
  make-copy_blank rf draw b =
      let nothing : gob.items rf.persister.raftstate ≡ [] = ap gob.items b.empty ∙ gob.items-nil in
      rw nothing (ground arith)

  -- `Make` on a copy of the persister of a peer that has written what it knows, or knows nothing yet,
  -- as the tester does after a crash, restores the term, the vote, the log and the two counts of
  -- votes. All else begins anew: a follower with nothing committed, nothing applied and no message
  -- sent.
  pub make-copy :
      (rf : Raft Bytes Command) (draw : ℕ)
      → IsSaved rf
      → make rf.peers rf.me (copy gob.nil_bytes rf.persister) draw ≡ anew draw rf
  make-copy rf draw (inl d) = make-copy_durable rf draw d
  make-copy rf draw (inr b) = make-copy_blank rf draw b

  -- `Make` on a new persister gives a follower of term 0 that has voted for nobody and has no log.
  pub make-make_persister :
      (peers me draw : ℕ) (rf : Raft Bytes Command)
      → rf ≡ make peers me (make_persister gob.nil_bytes) draw
      → (rf.current_term ≡ pos 0)
        × (rf.voted_for ≡ minus_one)
        × (rf.log ≡ [])
        × (rf.state ≡ follower)
        × (rf.committed_index ≡ minus_one)
        × (rf.last_applied ≡ minus_one)
  unfolding make make_persister
  make-make_persister peers me draw rf h = ground (arith, gob.items-nil)

  pub make-IsBlank :
      (peers me draw : ℕ) {rf : Raft Bytes Command}
      → make peers me (make_persister gob.nil_bytes) draw ≡ rf
      → IsBlank rf
  unfolding make make_persister
  make-IsBlank peers me draw h = ground (arith, gob.items-nil)
