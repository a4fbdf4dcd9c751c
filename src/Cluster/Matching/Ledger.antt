-- ===== src/Cluster/Matching/Ledger.antt =====
-- The logs of a cluster in which no two peers lead in one term match.
use unique_freshman.Prelude.{
  ℕ, suc, ◌≡◌, ◌≢◌, inl, inr, refl, sym, ap, ◌∙◌, subst, List, [], ◌++◌, some, get_elem?, Every,
  Every-cons, take, get_elem?-lt_length,
}
use unique_freshman.Raft.Types.{LogEntry, Raft, AppendEntriesArgs}
use unique_freshman.Raft.Gob.{Gob}
use unique_freshman.Raft.Rising.{final-take}
use unique_freshman.Raft.State.Restart.{make-IsBlank}
use unique_freshman.Raft.Append.Check.{PrevMatches}
use unique_freshman.Raft.Leader.{SortInts, append_args}
use unique_freshman.Raft.Leader.Request.{IsRequest-of}
use unique_freshman.Raft.Peer.Orderly.{append_args-inv}
use unique_freshman.Cluster.{
  Cluster, Sent, Move, Runs, acted, called_vote, answered_vote, took_vote, called_append,
  answered_append, took_append, began, onward,
}
use unique_freshman.Cluster.Matching.Prefix.{nil_of_append, beginnings_match}
use unique_freshman.Cluster.Matching.Moments.{Moment, OneLeadsATerm, Led, at_present}
use unique_freshman.Cluster.Matching.Moves.{IsGenuine, IsMatched}
use unique_freshman.Cluster.Matching.Onward.{onward-IsMatched, old_calls-IsGenuine}

module _ {Bytes Command : Type 0} ⦃gob : Gob Bytes Command⦄ (sort : SortInts) (n : ℕ) where
  made-IsGenuine :
      {c c' : Cluster Bytes Command} (r : Runs sort n c) (move : Move sort c c') (i j : ℕ)
      (rf : Raft Bytes Command) (args : AppendEntriesArgs Command)
      → i ≢ j
      → get_elem? c.rafts i ≡ some rf
      → append_args j rf ≡ some (some args)
      → IsGenuine sort n (onward r move) (record { from = i; to = j; body = args })
  made-IsGenuine r move i j rf args other here made =
      let (k, leads, at_j, fits) = append_args-inv j rf args made in
      record {
        other = other;
        sender = rf;
        moment = inr (at_present sort n i rf r here);
        led = leads;
        index = k;
        fits = fits;
        request = IsRequest-of j k rf args leads at_j fits made;
      }

  Every-same :
      {c : Cluster Bytes Command} (r : Runs sort n c)
      (calls calls' : List (Sent (AppendEntriesArgs Command)))
      → calls ≡ calls'
      → Every (IsGenuine sort n r) calls
      → Every (IsGenuine sort n r) calls'
  Every-same r calls calls' e all = subst (Every (IsGenuine sort n r)) e all

  Move-calls :
      {c c' : Cluster Bytes Command} (r : Runs sort n c) (move : Move sort c c')
      → OneLeadsATerm sort n (onward r move)
      → IsMatched sort n r
      → Every (IsGenuine sort n (onward r move)) c'.append_calls
  Move-calls r (acted i rf rf' here a e) one im =
      Every-same (onward r (acted i rf rf' here a e)) _ _ (ap (λ d. d.append_calls) e)
        (old_calls-IsGenuine sort n r (acted i rf rf' here a e) one im)
  Move-calls r (called_vote i j rf args other here made e) one im =
      Every-same (onward r (called_vote i j rf args other here made e)) _ _
        (ap (λ d. d.append_calls) e)
        (old_calls-IsGenuine sort n r (called_vote i j rf args other here made e) one im)
  Move-calls r (answered_vote k m rf rf' reply sent here ran e) one im =
      Every-same (onward r (answered_vote k m rf rf' reply sent here ran e)) _ _
        (ap (λ d. d.append_calls) e)
        (old_calls-IsGenuine sort n r (answered_vote k m rf rf' reply sent here ran e) one im)
  Move-calls r (took_vote k l m rf sent here e) one im =
      Every-same (onward r (took_vote k l m rf sent here e)) _ _ (ap (λ d. d.append_calls) e)
        (old_calls-IsGenuine sort n r (took_vote k l m rf sent here e) one im)
  Move-calls r (called_append i j rf args other here made e) one im =
      let move = called_append i j rf args other here made e in
      Every-same (onward r move) _ _ (ap (λ d. d.append_calls) e) (
        Every-cons (IsGenuine sort n (onward r move)) _ _
          (made-IsGenuine r move i j rf args other here made)
          (old_calls-IsGenuine sort n r move one im))
  Move-calls r (answered_append k m rf rf' reply sent here ran e) one im =
      Every-same (onward r (answered_append k m rf rf' reply sent here ran e)) _ _
        (ap (λ d. d.append_calls) e)
        (old_calls-IsGenuine sort n r (answered_append k m rf rf' reply sent here ran e) one im)
  Move-calls r (took_append k m rf rf' then_do sent here ran e) one im =
      Every-same (onward r (took_append k m rf rf' then_do sent here ran e)) _ _
        (ap (λ d. d.append_calls) e)
        (old_calls-IsGenuine sort n r (took_append k m rf rf' then_do sent here ran e) one im)

  -- Every log is empty.
  fresh-IsMatched :
      {c : Cluster Bytes Command} (r : Runs sort n c)
      → c.append_calls ≡ []
      → ((i : ℕ) (rf : Raft Bytes Command) → Moment sort n i rf r → rf.log ≡ [])
      → IsMatched sort n r
  fresh-IsMatched r silent empty = record {
    calls = subst (Every (IsGenuine sort n r)) (sym silent) (λ k m sent. cc);
    grown = λ i rf m p (s, e) there. absurd (there (nil_of_append p s (sym e ∙ empty i rf m)));
    functional =
        λ p q (i, rf, m, leads, term, (s, e)) (j, rf', m', leads', term', (s', e')) len same.
          nil_of_append p s (sym e ∙ empty i rf m)
          ∙ sym (nil_of_append q s' (sym e' ∙ empty j rf' m'));
    later = λ i rf q m leads here leads' same. (q.log, ap (λ l. l ++ q.log) (sym (empty i rf m)));
    nested =
        λ i rf q m m' leads leads' same. inl (q.log, ap (λ l. l ++ q.log) (sym (empty i rf m)));
  }

  pub Runs-IsMatched :
      {c : Cluster Bytes Command} (r : Runs sort n c) → OneLeadsATerm sort n r → IsMatched sort n r
  Runs-IsMatched (began c fresh a b d e) one =
      fresh-IsMatched (began c fresh a b d e) d
        (λ i rf here. let (draw, made) = fresh i rf here in (make-IsBlank n i draw made).no_log)
  Runs-IsMatched (onward r move) one =
      let im = Runs-IsMatched r (λ i j rf q m m'. one i j rf q (inr m) (inr m')) in
      onward-IsMatched sort n r move one im (Move-calls r move one im)

  -- In a run in which no two peers lead in one term, and every call of `RequestVote` and every write of
  -- the main loop runs without another step of its peer in between: if two logs hold entries of the same term at one
  -- index, they are the same up to that entry, commands included. Peers may crash and start anew, and
  -- messages may be lost, delayed, repeated and overtaken.
  pub Runs-logs_match :
      {c : Cluster Bytes Command} (r : Runs sort n c) (i j k : ℕ) (rf q : Raft Bytes Command)
      (e e' : LogEntry Command)
      → OneLeadsATerm sort n r
      → get_elem? c.rafts i ≡ some rf
      → get_elem? c.rafts j ≡ some q
      → get_elem? rf.log k ≡ some e
      → get_elem? q.log k ≡ some e'
      → e.term ≡ e'.term
      → take (suc k) rf.log ≡ take (suc k) q.log
  Runs-logs_match r i j k rf q e e' one here there at_k at_k' same =
      let im = Runs-IsMatched r one in
      let prev : PrevMatches (suc k) e.term rf.log = rw at_k refl in
      let prev' : PrevMatches (suc k) e.term q.log = rw (at_k', same) refl in
      beginnings_match (Led sort n r) rf.log q.log (suc k) im.functional
        (im.grown i rf (at_present sort n i rf r here))
        (im.grown j q (at_present sort n j q r there)) (get_elem?-lt_length rf.log k e at_k)
        (get_elem?-lt_length q.log k e' at_k')
        (final-take (suc k) e.term rf.log prev ∙ sym (final-take (suc k) e.term q.log prev'))
