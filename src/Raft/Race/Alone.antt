-- ===== src/Raft/Race/Alone.antt =====
-- A call of `RequestVote` with nothing in between.
use unique_freshman.Prelude.{
  ℕ, ◌≤◌, ◌≡◌, refl, sym, ap, ◌&&◌, pos, minus_one, ◌-ℤ◌, ltb_ℤ, eqb_ℤ, leb_ℤ, Bool, true, false,
  some, ◌>>=◌, if◌then◌else◌, length, length_ℤ, at, ◌==◌, ◌+ℤ◌, Option-some, arith, Bool-cases,
  Option-cases, inl, inr,
}
use unique_freshman.Raft.Types.{LogEntry, Raft, RequestVoteArgs}
use unique_freshman.Raft.Gob.{Gob}
use unique_freshman.Raft.Vote.{request_vote, is_newer, decide_vote}
use unique_freshman.Raft.Vote.Newer.{is_newer-ne-none}
use unique_freshman.Raft.Race.{
  tests_later, clears, looks, measures, compares_last, measures_again, compares_same,
  compares_length, grants, replied, resume, run,
}
use unique_freshman.Raft.Race.Ends.{Ends, step-Ends, later-Ends, step-to, grants-Ends}

module _ {Bytes Command : Type 0} ⦃gob : Gob Bytes Command⦄ where
  -- Where the last entry of the log is `e`.
  measures-Ends :
      (args : RequestVoteArgs) (rf : Raft Bytes Command) (e : LogEntry Command)
      → at rf.log (length_ℤ rf.log -ℤ pos 1) ≡ some e
      → Ends 15 (measures args) rf (
          decide_vote args
            (if ltb_ℤ e.term args.last_log_term
              then true
              else (eqb_ℤ args.last_log_term e.term
                  && leb_ℤ (length_ℤ rf.log) (args.last_log_index +ℤ pos 1)))
            rf)
  unfolding resume
  measures-Ends args rf e found =
      let i = length_ℤ rf.log -ℤ pos 1 in
      let fits = leb_ℤ (length_ℤ rf.log) (args.last_log_index +ℤ pos 1) in
      let out =
        decide_vote args
          (if ltb_ℤ e.term args.last_log_term
            then true
            else (eqb_ℤ args.last_log_term e.term && fits))
          rf in
      step-Ends 14 (measures args) (compares_last args i) rf rf out refl
        (elim (Bool-cases (ltb_ℤ e.term args.last_log_term)) [
          | inl later ↦ later-Ends 11 14 (compares_last args i) rf out (omega arith) (
              step-to 10 (compares_last args i) (grants args true) rf rf out
                (decide_vote args true rf) (ground (arith, found)) (grants-Ends args true rf)
                (ap (λ b. decide_vote args b rf) (ground arith)))
          | inr not_later ↦
              step-Ends 13 (compares_last args i) (measures_again args) rf rf out
                (ground (arith, found))
                (step-Ends 12 (measures_again args) (compares_same args i) rf rf out refl
                  (elim (Bool-cases (eqb_ℤ args.last_log_term e.term)) [
                    | inl same ↦
                        step-Ends 11 (compares_same args i) (compares_length args) rf rf out
                          (ground (arith, found))
                          (step-to 10 (compares_length args) (grants args fits) rf rf out
                            (decide_vote args fits rf) refl (grants-Ends args fits rf)
                            (ap (λ b. decide_vote args b rf) (ground arith)))
                    | inr other ↦ later-Ends 11 12 (compares_same args i) rf out (omega arith) (
                        step-to 10 (compares_same args i) (grants args false) rf rf out
                          (decide_vote args false rf) (ground (arith, found))
                          (grants-Ends args false rf)
                          (ap (λ b. decide_vote args b rf) (ground arith)))
                  ]))
        ])

  looks-Ends :
      (args : RequestVoteArgs) (newer : Bool) (rf : Raft Bytes Command)
      → is_newer args rf.log ≡ some newer
      → Ends 16 (looks args) rf (decide_vote args newer rf)
  unfolding resume is_newer
  looks-Ends args newer rf h = elim (Bool-cases (length rf.log == 0)) [
    | inl empty ↦ later-Ends 11 16 (looks args) rf (decide_vote args newer rf) (omega arith) (
        step-to 10 (looks args) (grants args true) rf rf (decide_vote args newer rf)
          (decide_vote args true rf) (ground arith) (grants-Ends args true rf)
          (ap (λ b. decide_vote args b rf) (ground (arith, h))))
    | inr some_entry ↦ elim (Option-cases (at rf.log (length_ℤ rf.log -ℤ pos 1))) [
      | inl nothing ↦ absurd (ground (arith, h, nothing))
      | inr (e, found) ↦
          step-to 15 (looks args) (measures args) rf rf (decide_vote args newer rf) _ (ground arith)
            (measures-Ends args rf e found)
            (ap (λ b. decide_vote args b rf) (ground (arith, h, found)))
    ]
  ]

  begun_later :
      (args : RequestVoteArgs) (newer : Bool) (rf : Raft Bytes Command)
      → ltb_ℤ rf.current_term args.term ≡ true
      → is_newer args rf.log ≡ some newer
      → Ends 18 (tests_later args) rf (decide_vote args newer (record rf { voted_for = minus_one }))
  unfolding resume
  begun_later args newer rf later e =
      let freed : Raft Bytes Command = record rf { voted_for = minus_one } in
      let out = decide_vote args newer freed in
      step-Ends 17 (tests_later args) (clears args) rf rf out (rw (later) refl)
        (step-Ends 16 (clears args) (looks args) rf freed out refl (looks-Ends args newer freed e))

  begun_same :
      (args : RequestVoteArgs) (newer : Bool) (rf : Raft Bytes Command)
      → ltb_ℤ rf.current_term args.term ≡ false
      → is_newer args rf.log ≡ some newer
      → Ends 18 (tests_later args) rf (decide_vote args newer rf)
  unfolding resume
  begun_same args newer rf same e =
      let out = decide_vote args newer rf in
      later-Ends 17 18 (tests_later args) rf out (omega arith) (
        step-Ends 16 (tests_later args) (looks args) rf rf out (rw (same) refl)
          (looks-Ends args newer rf e))

  -- The handler as one step, once `newer` is known.
  decided :
      (args : RequestVoteArgs) (newer : Bool) (rf rf' : Raft Bytes Command)
      → rf' ≡ record rf {
        voted_for = if ltb_ℤ rf.current_term args.term then minus_one else rf.voted_for;
      }
      → is_newer args rf.log ≡ some newer
      → request_vote args rf ≡ some (decide_vote args newer rf')
  unfolding request_vote
  decided args newer rf rf' e h = rw (h) (ap (λ r. some (decide_vote args newer r)) (sym e))

  -- A call of `RequestVote` with nothing in between has replied after 18 of its steps, and stays so:
  -- it leaves the peer and the reply that the handler as one step gives.
  pub run-request_vote :
      (args : RequestVoteArgs) (rf : Raft Bytes Command) (n : ℕ)
      → 18 ≤ n
      → run n (tests_later args) rf
        ≡ (request_vote args rf >>= λ (rf', reply). some (replied reply, rf'))
  run-request_vote args rf n enough =
      let (newer, e) = Option-some (is_newer args rf.log) (is_newer-ne-none args rf.log) in
      elim (Bool-cases (ltb_ℤ rf.current_term args.term)) [
        | inl later ↦
            let freed : Raft Bytes Command = record rf { voted_for = minus_one } in
            rw (decided args newer rf freed (rw (later) refl) e)
              (begun_later args newer rf later e n enough)
        | inr not_later ↦
            rw (decided args newer rf rf (rw (not_later) refl) e)
              (begun_same args newer rf not_later e n enough)
      ]
