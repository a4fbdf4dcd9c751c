-- ===== src/Raft/Race/Ends.antt =====
-- The steps of a call of `RequestVote` with nothing in between, from the test of `votedFor` on.
use unique_freshman.Prelude.{
  ℕ, zero, suc, ◌≤◌, ◌≡◌, refl, ap, subst, ◌&&◌, ◌||◌, minus_one, ltb_ℤ, eqb_ℤ, Bool, true, false,
  some, if◌then◌else◌, arith, Bool-cases, inl, inr,
}
use unique_freshman.Raft.Types.{Raft, RequestVoteArgs, RequestVoteReply, Role-cases}
use unique_freshman.Raft.Gob.{Gob}
use unique_freshman.Raft.State.{persist, convert_to_follower}
use unique_freshman.Raft.Vote.{decide_vote, enter_term, answer_vote}
use unique_freshman.Raft.Race.{
  Handling, grants, votes, tests_older, tests_newer, sets_term, tests_role, converts, replies,
  persists, notifies, replied, resume, run, vote_of,
}

module _ {Bytes Command : Type 0} ⦃gob : Gob Bytes Command⦄ where
  -- After `k` steps, and any number more, the call has replied.
  abbrev pub Ends :
      ℕ → Handling → Raft Bytes Command → Raft Bytes Command × RequestVoteReply → Type 0
  Ends k h rf out = (n : ℕ) → k ≤ n → run n h rf ≡ some (replied out.1, out.0)

  pub step-Ends :
      (k : ℕ) (h h' : Handling) (rf rf' : Raft Bytes Command)
      (out : Raft Bytes Command × RequestVoteReply)
      → resume h rf ≡ some (h', rf')
      → Ends k h' rf' out
      → Ends (suc k) h rf out
  unfolding run
  step-Ends k h h' rf rf' out e more zero low = absurd (omega arith)
  step-Ends k h h' rf rf' out e more (suc n) low = rw (run, e) (more n (omega arith))

  pub later-Ends :
      (k k' : ℕ) (h : Handling) (rf : Raft Bytes Command)
      (out : Raft Bytes Command × RequestVoteReply)
      → k ≤ k'
      → Ends k h rf out
      → Ends k' h rf out
  later-Ends k k' h rf out le more n low = more n (omega arith)

  replied-Ends :
      (reply : RequestVoteReply) (rf : Raft Bytes Command) → Ends 0 (replied reply) rf (rf, reply)
  unfolding run resume
  replied-Ends reply rf zero low = refl
  replied-Ends reply rf (suc n) low = replied-Ends reply rf n (omega arith)

  replies-Ends :
      (granted : Bool) (rf : Raft Bytes Command)
      → Ends 3 (replies granted) rf (answer_vote granted rf)
  unfolding resume answer_vote persist
  replies-Ends granted rf =
      let reply : RequestVoteReply = record { term = rf.current_term; vote_granted = granted } in
      let out = answer_vote granted rf in
      step-Ends 2 (replies granted) (persists reply) rf rf out refl (
        step-Ends 1 (persists reply) (notifies reply) rf (persist rf) out refl (
          step-Ends 0 (notifies reply) (replied reply) (persist rf) out.0 out (ground arith)
            (same_reply granted)))
    where
      same_reply :
          (g : Bool)
          → Ends 0
              (replied (record { term = rf.current_term; vote_granted = g }))
              (answer_vote g rf).0
              (answer_vote g rf)
      same_reply true = replied-Ends (answer_vote true rf).1 (answer_vote true rf).0
      same_reply false = replied-Ends (answer_vote false rf).1 (answer_vote false rf).0

  -- One step, to a call whose end is known.
  pub step-to :
      (k : ℕ) (h h' : Handling) (rf rf' : Raft Bytes Command)
      (out out' : Raft Bytes Command × RequestVoteReply)
      → resume h rf ≡ some (h', rf')
      → Ends k h' rf' out'
      → out' ≡ out
      → Ends (suc k) h rf out
  step-to k h h' rf rf' out out' e more same =
      step-Ends k h h' rf rf' out e (subst (Ends k h' rf') same more)

  pub tests_role-Ends :
      (args : RequestVoteArgs) (granted : Bool) (rf rf' : Raft Bytes Command)
      → rf' ≡ record rf { current_term = args.term }
      → Ends 5
          (tests_role args granted)
          rf'
          (answer_vote granted (enter_term args.term (vote_of args granted) rf))
  unfolding resume enter_term convert_to_follower
  tests_role-Ends args granted rf rf' e =
      let to = enter_term args.term (vote_of args granted) rf in
      let out = answer_vote granted to in
      let turned = convert_to_follower rf'.current_term (vote_of args granted) rf' in
      let turns : resume (tests_role args granted) rf' ≡ some (converts args granted, rf')
          → turned ≡ to
          → Ends 5 (tests_role args granted) rf' out =
        λ first same.
          step-Ends 4 (tests_role args granted) (converts args granted) rf' rf' out first (
            step-to 3 (converts args granted) (replies granted) rf' turned out
              (answer_vote granted turned) refl (replies-Ends granted turned)
              (ap (answer_vote granted) same)) in
      elim (Role-cases rf.state) [
        | inl is ↦ later-Ends 4 5 (tests_role args granted) rf' out (omega arith) (
            step-to 3 (tests_role args granted) (replies granted) rf' rf' out
              (answer_vote granted rf') (ground arith) (replies-Ends granted rf')
              (ap (answer_vote granted) (ground arith)))
        | inr (inl is) ↦ turns (ground arith) (ground arith)
        | inr (inr is) ↦ turns (ground arith) (ground arith)
      ]

  tests_older-Ends :
      (args : RequestVoteArgs) (granted : Bool) (rf : Raft Bytes Command)
      (out : Raft Bytes Command × RequestVoteReply)
      → out ≡ (
          if ltb_ℤ args.term rf.current_term
          then answer_vote false rf
          else (if ltb_ℤ rf.current_term args.term
              then answer_vote granted (enter_term args.term (vote_of args granted) rf)
              else answer_vote granted rf))
      → Ends 8 (tests_older args granted) rf out
  unfolding resume
  tests_older-Ends args granted rf out e = elim (Bool-cases (ltb_ℤ args.term rf.current_term)) [
    | inl older ↦ later-Ends 4 8 (tests_older args granted) rf out (omega arith) (
        step-to 3 (tests_older args granted) (replies false) rf rf out (answer_vote false rf)
          (ground arith) (replies-Ends false rf) (ground arith))
    | inr not_older ↦
        step-Ends 7 (tests_older args granted) (tests_newer args granted) rf rf out (ground arith)
          (elim (Bool-cases (ltb_ℤ rf.current_term args.term)) [
            | inl newer ↦
                let moved : Raft Bytes Command = record rf { current_term = args.term } in
                step-Ends 6 (tests_newer args granted) (sets_term args granted) rf rf out
                  (ground arith)
                  (step-to 5 (sets_term args granted) (tests_role args granted) rf moved out _ refl
                    (tests_role-Ends args granted rf moved refl) (ground arith))
            | inr same ↦ later-Ends 4 7 (tests_newer args granted) rf out (omega arith) (
                step-to 3 (tests_newer args granted) (replies granted) rf rf out
                  (answer_vote granted rf) (ground arith) (replies-Ends granted rf) (ground arith))
          ])
  ]

  pub grants-Ends :
      (args : RequestVoteArgs) (newer : Bool) (rf : Raft Bytes Command)
      → Ends 10 (grants args newer) rf (decide_vote args newer rf)
  unfolding resume decide_vote
  grants-Ends args newer rf =
      let granted =
        newer && (eqb_ℤ rf.voted_for minus_one || eqb_ℤ rf.voted_for args.candidate_id) in
      let voted : Raft Bytes Command = record rf { voted_for = vote_of args granted } in
      let out = decide_vote args newer rf in
      step-Ends 9 (grants args newer) (votes args granted) rf rf out refl (
        step-Ends 8 (votes args granted) (tests_older args granted) rf voted out refl
          (tests_older-Ends args granted voted out refl))
