-- ===== src/Config/Agreement/Agreed.antt =====
-- What it means that `one` of Task5/raft/config.go passes.
use unique_freshman.Prelude.{
  ℕ, zero, suc, ◌+◌, ◌≤◌, ◌<◌, ◌≡◌, ◌↔◌, refl, ap, subst, ℤ, minus_one, eqb_ℤ, Bool, true, false,
  List, [], ◌∷◌, Option, none, some, if◌then◌else◌, length, length_ℤ, get_elem?, ◌%◌, arith,
  Bool-cases, Option-cases, inl, inr,
}
use unique_freshman.Raft.Types.{Raft, leader}
use unique_freshman.Raft.Gob.{Gob}
use unique_freshman.Raft.Client.{start}
use unique_freshman.Config.{passed, Check-cases, failed-ne-passed, panicked-ne-passed}
use unique_freshman.Config.Agreement.{Logs, Submission, Attempt, try_start, poll, one}
use unique_freshman.Config.Agreement.Holders.{AllHold, holders, poll-holders}

-- What it takes that `one` passes with an index: a connected leader got the command and gave it that
-- index, the end of its log, and later enough logs have a value there, and each of these is the
-- command.
pub record IsAgreed {Bytes Command : Type 0} (cmd : Command) (expected : ℕ) (index : ℤ)
    (attempt : Attempt Bytes Command) : Type 0 where
  pub server : ℕ
  pub raft : Raft Bytes Command
  pub connected : get_elem? attempt.servers server ≡ some (true, some raft)
  pub leads : raft.state ≡ leader
  pub end : index ≡ length_ℤ raft.log
  pub look : ℕ
  pub logs : Logs Command
  pub seen : get_elem? attempt.looks look ≡ some logs
  pub any : 0 < holders index logs
  pub enough : expected ≤ holders index logs
  pub all : AllHold index cmd logs

module _ {Bytes Command : Type 0} ⦃gob : Gob Bytes Command⦄ where
  -- The server that `one` has found is connected and leads.
  abbrev pub IsTried :
      Command → List (Bool × Option (Raft Bytes Command)) → ℕ → Submission Bytes Command → Type 0
  IsTried cmd servers s t =
      (rf : Raft Bytes Command) × (get_elem? servers s ≡ some (true, some rf))
      × (rf.state ≡ leader)
      × (t.index ≡ length_ℤ rf.log)

  start-leads :
      (cmd : Command) (rf : Raft Bytes Command)
      → (start cmd rf).3 ≡ true
      → (rf.state ≡ leader) × ((start cmd rf).1 ≡ length_ℤ rf.log)
  unfolding start
  start-leads cmd rf h = ground arith

  -- A round of `try_start` at a connected server.
  start-IsTried :
      (cmd : Command) (rf : Raft Bytes Command) (s s' : ℕ) (t : Submission Bytes Command)
      (servers : List (Bool × Option (Raft Bytes Command)))
      (rest : ℕ × Option (Submission Bytes Command))
      → (if (start cmd rf).3
          then (s', some (record { raft = (start cmd rf).0; index = (start cmd rf).1 }))
          else rest)
        ≡ (s, some t)
      → get_elem? servers s' ≡ some (true, some rf)
      → (rest ≡ (s, some t) → IsTried cmd servers s t)
      → IsTried cmd servers s t
  start-IsTried cmd rf s s' t servers rest h here more = elim (Bool-cases (start cmd rf).3) [
    | inl ok ↦
        let (leads, end) = start-leads cmd rf ok in
        let place : s' ≡ s = ground arith in
        (
          rf,
          subst (λ k. get_elem? servers k ≡ some (true, some rf)) place here,
          leads,
          ground (arith, end),
        )
    | inr refused ↦ more (rw (refused) at h)
  ]

  pub try_start-IsTried :
      (cmd : Command) (servers : List (Bool × Option (Raft Bytes Command))) (k starts s : ℕ)
      (t : Submission Bytes Command)
      → try_start cmd servers k starts ≡ (s, some t)
      → IsTried cmd servers s t
  unfolding try_start
  try_start-IsTried cmd servers zero starts s t h = absurd (ground arith)
  try_start-IsTried cmd servers (suc k) starts s t h =
      let s' = (starts + 1) % length servers in
      elim (Option-cases (get_elem? servers s')) [
        | inl beyond ↦ try_start-IsTried cmd servers k s' s t (rw (beyond, try_start) at h)
        | inr ((false, x), here) ↦
            try_start-IsTried cmd servers k s' s t (rw (here, try_start) at h)
        | inr ((true, none), here) ↦
            try_start-IsTried cmd servers k s' s t (rw (here, try_start) at h)
        | inr ((true, some rf), here) ↦
            start-IsTried cmd rf s s' t servers (try_start cmd servers k s')
              (rw (here, try_start) at h) here (try_start-IsTried cmd servers k s' s t)
      ]

module _ {Bytes Command : Type 0} ⦃gob : Gob Bytes Command⦄ (same : Command → Command → Bool)
    (same_iff : (a b : Command) → (same a b ≡ true) ↔ (a ≡ b)) where
  -- A round of `one` that passes.
  agreed :
      (cmd : Command) (expected s : ℕ) (t : Submission Bytes Command)
      (attempt : Attempt Bytes Command)
      → IsTried cmd attempt.servers s t
      → poll same cmd expected t.index attempt.looks ≡ passed true
      → IsAgreed cmd expected t.index attempt
  agreed cmd expected s t attempt (rf, here, leads, end) h =
      let (m, logs, seen, any, enough, all) =
        poll-holders same same_iff cmd expected t.index attempt.looks h in
      record {
        server = s;
        raft = rf;
        connected = here;
        leads = leads;
        end = end;
        look = m;
        logs = logs;
        seen = seen;
        any = any;
        enough = enough;
        all = all;
      }

  -- `same` decides equality of commands. If `one` passes with an index, then in one of its rounds a
  -- connected server led, and that index is the end of its log, where `Start` puts the command; and
  -- at a look of that round some server, and no fewer than expected, had a value at that index, and
  -- every value there was the command.
  pub one-IsAgreed :
      (cmd : Command) (expected : ℕ) (retry : Bool) (starts : ℕ) (index : ℤ)
      (attempts : List (Attempt Bytes Command))
      → one same cmd expected retry starts attempts ≡ passed index
      → (k : ℕ) × (attempt : Attempt Bytes Command) × (get_elem? attempts k ≡ some attempt)
        × IsAgreed cmd expected index attempt
  unfolding one
  one-IsAgreed cmd expected retry starts index [] h = absurd (failed-ne-passed h)
  one-IsAgreed cmd expected retry starts index (attempt ∷ attempts) h =
      let tried = try_start cmd attempt.servers (length attempt.servers) starts in
      let later : one same cmd expected retry tried.0 attempts ≡ passed index
          → (k : ℕ) × (seen : Attempt Bytes Command) × (get_elem? (attempt ∷ attempts) k
              ≡ some seen)
            × IsAgreed cmd expected index seen =
        λ h'.
          let (k, seen, there, is) = one-IsAgreed cmd expected retry tried.0 index attempts h' in
          (suc k, seen, there, is) in
      elim (Option-cases tried.1) [
        | inl nobody ↦ later (rw (nobody, one) at h)
        | inr (t, found) ↦ elim (Bool-cases (eqb_ℤ t.index minus_one)) [
          | inl no_index ↦ later (rw (found, one, no_index) at h)
          | inr an_index ↦ elim (Check-cases (poll same cmd expected t.index attempt.looks)) [
            | inl (true, done) ↦
                let passes : passed t.index ≡ passed index = rw (found, one, an_index, done) at h in
                let same_index : t.index ≡ index = ground (arith, passes) in
                let where_tried : try_start cmd attempt.servers (length attempt.servers) starts
                    ≡ (tried.0, some t) =
                  ap (λ o. (tried.0, o)) found in
                (
                  0,
                  attempt,
                  refl,
                  subst (λ n. IsAgreed cmd expected n attempt) same_index
                      (agreed cmd expected tried.0 t attempt
                        (try_start-IsTried cmd attempt.servers (length attempt.servers) starts
                          tried.0 t where_tried)
                        done),
                )
            | inl (false, gave_up) ↦ elim (Bool-cases retry) [
              | inl again ↦ later (rw (found, one, an_index, gave_up, again) at h)
              | inr once ↦ absurd (failed-ne-passed (rw (found, one, an_index, gave_up, once) at h))
            ]
            | inr (inl bad) ↦ absurd (failed-ne-passed (rw (found, one, an_index, bad) at h))
            | inr (inr bad) ↦ absurd (panicked-ne-passed (rw (found, one, an_index, bad) at h))
          ]
        ]
      ]
