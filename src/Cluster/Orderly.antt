-- ===== src/Cluster/Orderly.antt =====
-- The terms in the logs and on the wire of a cluster.
use unique_freshman.Prelude.{
  ℕ, ◌≡◌, refl, sym, subst, some, get_elem?, set, Every, Every-set, Every-cons, arith,
}
use unique_freshman.Persister.{make_persister}
use unique_freshman.Raft.Types.{Raft}
use unique_freshman.Raft.Gob.{Gob}
use unique_freshman.Raft.State.{make}
use unique_freshman.Raft.State.Restart.{IsSaved, make-IsBlank}
use unique_freshman.Raft.Leader.{SortInts}
use unique_freshman.Raft.Peer as Peer
use unique_freshman.Raft.Peer.{Step}
use unique_freshman.Raft.Peer.Durable.{Reach-IsSaved}
use unique_freshman.Raft.Peer.Orderly.{
  IsOrderly, IsFit, BringsFit, Step-IsOrderly, append_args-IsFit,
}
use unique_freshman.Cluster.{
  Cluster, Move, Runs, acted, called_vote, Alone, answered_vote, took_vote, called_append,
  answered_append, took_append, began, onward, submitted, round_began, woke, was_killed, crowded,
  restarted,
}
use unique_freshman.Cluster.Peers.{Runs-Reach, Alone-Step}

module _ {Bytes Command : Type 0} where
  -- Every log is in order, and so is every request for entries on the wire.
  pub record InOrder (c : Cluster Bytes Command) : Type 0 where
    pub peers : Every IsOrderly c.rafts
    pub calls : Every (λ m. IsFit m.body) c.append_calls

module _ {Bytes Command : Type 0} ⦃gob : Gob Bytes Command⦄ (sort : SortInts) where
  stepped :
      {c : Cluster Bytes Command} (i : ℕ) {rf rf' : Raft Bytes Command}
      → get_elem? c.rafts i ≡ some rf
      → IsSaved rf
      → (st : Step sort rf rf') → BringsFit sort st
      → InOrder c
      → Every IsOrderly (set c.rafts i rf')
  stepped {c} i {rf} {rf'} here saved st fit o =
      Every-set IsOrderly c.rafts i rf' (Step-IsOrderly sort st fit saved (o.peers i rf here))
        o.peers

  Alone-fit :
      {rf rf' : Raft Bytes Command} (a : Alone sort rf rf') → BringsFit sort (Alone-Step sort a)
  unfolding Alone-Step
  Alone-fit (submitted command e) = tt
  Alone-fit (round_began draw e) = tt
  Alone-fit (woke event wait e) = tt
  Alone-fit (was_killed e) = tt
  Alone-fit (crowded ch e) = tt
  Alone-fit (restarted draw e) = tt

  Move-InOrder :
      {c c' : Cluster Bytes Command}
      → Every IsSaved c.rafts
      → Move sort c c'
      → InOrder c
      → InOrder c'
  Move-InOrder saved (acted i rf rf' here a e) o = subst InOrder e (record {
    peers = stepped i here (saved i rf here) (Alone-Step sort a) (Alone-fit a) o;
    calls = o.calls;
  })
  Move-InOrder saved (called_vote i j rf args other here made e) o =
      subst InOrder e (record { peers = o.peers; calls = o.calls })
  Move-InOrder saved (answered_vote k m rf rf' reply sent here ran e) o = subst InOrder e (record {
    peers = stepped m.to here (saved m.to rf here) (Peer.asked m.body reply ran) tt o;
    calls = o.calls;
  })
  Move-InOrder saved (took_vote k n m rf sent here e) o = subst InOrder e (record {
    peers =
        stepped m.to here (saved m.to rf here) (Peer.vote_came m.body.0 (some m.body.1) n refl) tt
          o;
    calls = o.calls;
  })
  Move-InOrder saved (called_append i j rf args other here made e) o = subst InOrder e (record {
    peers = o.peers;
    calls =
        Every-cons (λ m. IsFit m.body) _ _ (append_args-IsFit j rf args made (o.peers i rf here))
          o.calls;
  })
  Move-InOrder saved (answered_append k m rf rf' reply sent here ran e) o =
      subst InOrder e (record {
        peers =
            stepped m.to here (saved m.to rf here) (Peer.told m.body reply ran) (o.calls k m sent)
              o;
        calls = o.calls;
      })
  Move-InOrder saved (took_append k m rf rf' then_do sent here ran e) o = subst InOrder e (record {
    peers =
        stepped m.to here (saved m.to rf here)
          (Peer.answer_came m.from m.body.0 (some m.body.1) then_do ran) tt o;
    calls = o.calls;
  })

  fresh-IsOrderly :
      (n i draw : ℕ) (rf : Raft Bytes Command)
      → make n i (make_persister gob.nil_bytes) draw ≡ rf
      → IsOrderly rf
  fresh-IsOrderly n i draw rf e =
      let blank = make-IsBlank n i draw e in
      record { rises = rw (blank.no_log) tt; ends = rw (blank.no_log, blank.no_term) (omega arith) }

  -- In runs in which every call of `RequestVote`, and every write of the main loop, runs without
  -- another step of its peer in between, although they take no lock: whatever else happens in a
  -- cluster, the terms in each log never fall, none is negative and none is
  -- later than the term of the peer; and the entries of each request on the wire follow the term that
  -- it tells of the entry before them in the same way, up to the term of the request.
  pub Runs-InOrder : (n : ℕ) {c : Cluster Bytes Command} → Runs sort n c → InOrder c
  Runs-InOrder n (began c fresh _ _ no_calls _) = record {
    peers = λ i rf here. let (draw, e) = fresh i rf here in fresh-IsOrderly n i draw rf e;
    calls = subst (Every (λ m. IsFit m.body)) (sym no_calls) (λ k m sent. cc);
  }
  Runs-InOrder n (onward r move) =
      Move-InOrder (λ i rf here. Reach-IsSaved sort n i (Runs-Reach sort n i rf r here)) move
        (Runs-InOrder n r)
