-- ===== src/Tests/Samples.antt =====
-- An encoding, and peers whose commands are numbers.
use unique_freshman.Prelude.{ℕ, ℤ, pos, minus_one, List, [], ◌∷◌, Option, none, some, length, refl}
use unique_freshman.Raft.Types.{LogEntry, Raft, Role, RequestVoteArgs, AppendEntriesArgs, leader}
use unique_freshman.Raft.Gob.{Gob, Item}

-- The stream is the list of the values.
instance abbrev pub plain : Gob (List (Item ℕ)) ℕ
plain = record {
  nil_bytes = [];
  size = length;
  encode = λ xs. xs;
  items = λ xs. xs;
  items-encode = λ xs. refl;
  items-nil = refl;
}

abbrev pub Peer : Type 0
Peer = Raft (List (Item ℕ)) ℕ

abbrev pub entry : ℕ → ℕ → LogEntry ℕ
entry command term = record { command = command; term = pos term }

-- Peer 0 of `peers`.
abbrev pub peer : ℕ → Role → ℕ → ℤ → List (LogEntry ℕ) → Peer
peer peers role term voted_for log = record {
  peers = peers;
  persister = record { raftstate = []; snapshot = [] };
  me = 0;
  dead = pos 0;
  current_term = pos term;
  voted_for = voted_for;
  log = log;
  committed_index = minus_one;
  last_applied = minus_one;
  next_index = [];
  match_index = [];
  state = role;
  apply_ch = [];
  timer = 0;
  grant_vote_ch = 0;
  heart_beat_ch = 0;
  leader_ch = 0;
  vote_granted = pos 0;
  vote_not_granted = pos 0;
}

-- A leader of term 2 among `peers`, with a log of two entries, that last knew of one at peer 1.
abbrev pub head : ℕ → List ℤ → List ℤ → Peer
head peers next_index match_index =
    record (peer peers leader 2 (pos 0) (entry 7 1 ∷ entry 8 2 ∷ [])) {
      next_index = next_index;
      match_index = match_index;
    }

abbrev pub ask : ℕ → ℕ → ℕ → ℕ → RequestVoteArgs
ask term candidate_id last_log_index last_log_term = record {
  term = pos term;
  candidate_id = pos candidate_id;
  last_log_index = pos last_log_index;
  last_log_term = pos last_log_term;
}

abbrev pub tell : ℕ → ℤ → ℤ → List (LogEntry ℕ) → ℤ → AppendEntriesArgs ℕ
tell term prev_log_index prev_log_term entries leader_commit = record {
  term = pos term;
  leader_id = pos 1;
  prev_log_index = prev_log_index;
  prev_log_term = prev_log_term;
  entries = entries;
  leader_commit = leader_commit;
}

-- The result of a run, with a value for one that panics.
abbrev pub outcome {ℓ} : {A : Type ℓ} → A → Option A → A
outcome a none = a
outcome a (some b) = b
