-- ===== src/Raft/Race/Sound.antt =====
-- What holds of a peer although `RequestVote` takes no lock.
use unique_freshman.Prelude.{ℕ, ◌≡◌, subst, some, arith}
use unique_freshman.Persister.{make_persister, copy}
use unique_freshman.Raft.Types.{Raft}
use unique_freshman.Raft.Gob.{Gob}
use unique_freshman.Raft.State.{make, persist, convert_to_follower}
use unique_freshman.Raft.Leader.{SortInts}
use unique_freshman.Raft.Peer.{restarted, made}
use unique_freshman.Raft.Peer.Shape.{SameShape}
use unique_freshman.Raft.Peer.Sized.{IsSized, SameShape-IsSized, Step-IsSized, Reach-IsSized}
use unique_freshman.Raft.Peer.Applied.{IsApplied, sent-IsApplied, Step-IsApplied, Reach-IsApplied}
use unique_freshman.Raft.Race.{
  Handling, tests_later, clears, looks, measures, compares_last, measures_again, compares_same,
  compares_length, grants, votes, tests_older, tests_newer, sets_term, tests_role, converts,
  replies, persists, notifies, replied, resume, Racing, Race, Races, came, went_on, locked,
  began_anew, here, onward,
}

module _ {Bytes Command : Type 0} where
  -- A step leaves who the peer is, the sizes of its slices, its log and what it has sent, and makes no
  -- leader.
  pub record LeavesAlone (rf rf' : Raft Bytes Command) : Type 0 where
    pub shape : SameShape rf rf'
    pub sent : rf'.apply_ch ≡ rf.apply_ch
    pub applied : rf'.last_applied ≡ rf.last_applied
    pub committed : rf'.committed_index ≡ rf.committed_index
    pub log : rf'.log ≡ rf.log

module _ {Bytes Command : Type 0} ⦃gob : Gob Bytes Command⦄ where
  pub resume-LeavesAlone :
      (h h' : Handling) (rf rf' : Raft Bytes Command)
      → resume h rf ≡ some (h', rf')
      → LeavesAlone rf rf'
  unfolding resume convert_to_follower persist
  resume-LeavesAlone (tests_later args) h' rf rf' e = ground arith
  resume-LeavesAlone (clears args) h' rf rf' e = ground arith
  resume-LeavesAlone (looks args) h' rf rf' e = ground arith
  resume-LeavesAlone (measures args) h' rf rf' e = ground arith
  resume-LeavesAlone (compares_last args i) h' rf rf' e = ground arith
  resume-LeavesAlone (measures_again args) h' rf rf' e = ground arith
  resume-LeavesAlone (compares_same args i) h' rf rf' e = ground arith
  resume-LeavesAlone (compares_length args) h' rf rf' e = ground arith
  resume-LeavesAlone (grants args newer) h' rf rf' e = ground arith
  resume-LeavesAlone (votes args granted) h' rf rf' e = ground arith
  resume-LeavesAlone (tests_older args granted) h' rf rf' e = ground arith
  resume-LeavesAlone (tests_newer args granted) h' rf rf' e = ground arith
  resume-LeavesAlone (sets_term args granted) h' rf rf' e = ground arith
  resume-LeavesAlone (tests_role args granted) h' rf rf' e = ground arith
  resume-LeavesAlone (converts args granted) h' rf rf' e = ground arith
  resume-LeavesAlone (replies granted) h' rf rf' e = ground arith
  resume-LeavesAlone (persists reply) h' rf rf' e = ground arith
  resume-LeavesAlone (notifies reply) h' rf rf' e = ground arith
  resume-LeavesAlone (replied reply) h' rf rf' e = ground arith

-- The sizes of a leader's slices, and what has been sent to the service.
pub record IsSound {Bytes Command : Type 0} (peers me : ℕ) (rf : Raft Bytes Command) : Type 0 where
  pub sized : IsSized peers me rf
  pub applied : IsApplied rf

module _ {Bytes Command : Type 0} ⦃gob : Gob Bytes Command⦄ (sort : SortInts) (peers me : ℕ) where
  resume-IsSound :
      (h h' : Handling) (rf rf' : Raft Bytes Command)
      → resume h rf ≡ some (h', rf')
      → IsSound peers me rf
      → IsSound peers me rf'
  resume-IsSound h h' rf rf' e s =
      let l = resume-LeavesAlone h h' rf rf' e in
      record {
        sized = SameShape-IsSized peers me l.shape s.sized;
        applied = sent-IsApplied l.sent l.applied s.applied;
      }

  -- A new start on whatever the persister holds.
  made-IsSound :
      (draw : ℕ) (rf rf' : Raft Bytes Command)
      → make rf.peers rf.me (copy gob.nil_bytes rf.persister) draw ≡ rf'
      → IsSound peers me rf
      → IsSound peers me rf'
  made-IsSound draw rf rf' e s = record {
    sized = Step-IsSized sort peers me (restarted draw e) s.sized;
    applied = Step-IsApplied sort (restarted draw e) s.applied;
  }

  Race-IsSound :
      {r r' : Racing Bytes Command}
      → Race sort r r'
      → IsSound peers me r.raft
      → IsSound peers me r'.raft
  Race-IsSound {r} (came args e) s = subst (λ q. IsSound peers me q.raft) e s
  Race-IsSound {r} (went_on k h h' rf' at_k moved e) s =
      subst (λ q. IsSound peers me q.raft) e (resume-IsSound h h' r.raft rf' moved s)
  Race-IsSound (locked rf' st up e) s =
      subst (λ q. IsSound peers me q.raft) e
        (record {
          sized = Step-IsSized sort peers me st s.sized;
          applied = Step-IsApplied sort st s.applied;
        })
  Race-IsSound {r} (began_anew draw rf' made_so e) s =
      subst (λ q. IsSound peers me q.raft) e (made-IsSound draw r.raft rf' made_so s)

  -- However calls of `RequestVote` come between each other and between the steps that take the lock,
  -- and however often the peer is started anew in the middle of them: the peer's index and the number
  -- of peers stay; while it leads, each of `nextIndex` and `matchIndex` has a place for every peer;
  -- and the messages that it has sent since it started are valid, carry the indices 0, 1, 2 and so on,
  -- and `lastApplied` is the index of the last one.
  pub Races-IsSound :
      {r r' : Racing Bytes Command} (draw : ℕ)
      → make peers me (make_persister gob.nil_bytes) draw ≡ r.raft
      → Races sort r r'
      → IsSound peers me r'.raft
  Races-IsSound {r} draw fresh here =
      let reach = made draw r.raft fresh in
      record {
        sized = Reach-IsSized sort peers me reach;
        applied = Reach-IsApplied sort peers me reach;
      }
  Races-IsSound draw fresh (onward rs st) = Race-IsSound st (Races-IsSound draw fresh rs)
