-- ===== src/Lib.antt =====
-- Verification of the Raft library of Task5: one peer of the consensus protocol with its stable
-- storage and its handlers, a cluster of such peers, and the tester that runs one.
--
-- The program. Task5/raft/raft.go is a Raft peer. The network calls its handlers `RequestVote` and
-- `AppendEntries`, the service calls `Start`, and the goroutine `heartBeat` runs the roles: it
-- waits as a follower, starts `startRequestVote` as a candidate, and runs `startAppendEntries` as a
-- leader, whose goroutines send requests and take in the replies. All of them work on one struct
-- `Raft`, write it down with `persist` into the `Persister` of Task5/raft/persister.go, and hand
-- committed entries to the service with `startApplyLogs`.
--
-- The files. Persister is persister.go. Raft/Types has the structs and constants of raft.go,
-- Raft/Gob what is used of encoding/gob, Raft/State `Make`, `persist`, `readPersist`, `Kill`,
-- `GetState` and the three role conversions, Raft/Vote the handler `RequestVote`, Raft/Append the
-- handler `AppendEntries`, Raft/Apply `startApplyLogs`, Raft/Election `startRequestVote`,
-- Raft/Leader `startAppendEntries`, Raft/Client `Start`, Raft/HeartBeat `heartBeat`. Raft/Peer puts
-- them together: `Step` is one handler, reply, command, round of the main loop, kill or restart,
-- and `Reach` holds the peers that a fresh one may become in any order of such steps. Each module
-- has its theorems in child modules; Raft/Rising is about logs whose terms never fall, and
-- Raft/Leader/Exchange about the inner loop of a leader's goroutine for one peer. Raft/Race is
-- `RequestVote` statement by statement: `resume` is one step of a call, and `Races` puts the steps
-- of several calls, the steps of `Step` and new starts in any order. Raft/Peer/Stale takes apart
-- the `persist` that the main loop calls without the lock. Cluster is several peers and the
-- messages between them: `Move` is a step of one peer, a call, a handler that answers a call in
-- flight, or a peer that takes a reply in flight, and `Runs` holds the clusters that fresh peers
-- may become. Cluster/Matching is about the logs of a run in which no two peers lead in one term.
-- Config is the tester of Task5/raft/config.go: its checks `checkTerms`, `checkNoLeader`,
-- `nCommitted` and the reader of `applyCh`, Config/Leaders `checkOneLeader`, Config/Agreement
-- `wait` and `one`, and Config/Testbed `make_config`, `start1`, `crash1`, `connect`, `disconnect`
-- and `cleanup`, and Config/Statistics `begin`, `end`, `checkTimeout` and the one-line calls into
-- the network. Prelude has the integers, the lists and their lemmas; Tests runs the program on
-- small peers, Tests/Crashing on a peer that crashes, Tests/Rivals on a cluster that elects two
-- leaders of one term, and Tests/Recount on a candidate that counts one vote twice.
--
-- Names. A function of the source keeps its name in lower case with underscores: `RequestVote` is
-- `request_vote`, `startApplyLogs` is `start_apply_logs`. A long function is cut into helpers at
-- its own branches: `AppendEntries` is `append_entries` with `check_prev` (the consistency check),
-- `merge_entries` (the two loops over the log) and `next_commit`. The goroutine for one peer of
-- `startAppendEntries` is `append_args` (the request) and `append_reply` (the reply), in the same
-- way `startRequestVote` is `vote_args` and `vote_reply`.
--
-- How it is modelled. A handler is a function from the state to the new state and the reply. `none`
-- is a run-time panic: an index or slice out of range. A lock makes a handler one step.
-- `RequestVote` takes no lock in the source: in Raft/Vote, Raft/Peer and Cluster it is one step all
-- the same, and Raft/Race takes it apart, down to single reads and writes of the peer, with
-- `convertToFollower` and `persist` one step each. The same goes for the `persist` of the main
-- loop, which Raft/Peer/Stale takes apart. So a theorem on `Step`, `Reach` or `Runs` is about runs
-- in which neither of the two is interrupted by another step of its peer. A read of the state
-- between two locks in `heartBeat` is taken at one moment. The goroutines that send on a
-- notification channel are a count of those that wait; in the step of the handler that starts one
-- it takes the token of another that waits, and in a step of its own (`crowd`) one more comes to
-- wait beside the others. A number from `rand` is an argument, and the timer may fire at any time.
-- For one peer, replies of the network are arguments, `none` for a call that failed; in Cluster a
-- message that was sent stays in flight, so that it may be lost, delayed, repeated and overtaken.
-- `int` is the integers without a bound: terms and indices grow by one at a time. The bytes that
-- encoding/gob writes are abstract: what was encoded is what is decoded, and an empty buffer has no
-- values (`Gob`); `sort.Ints` is any function that returns the numbers in increasing order
-- (`SortInts`). `applyCh` is the list of messages sent. The network of labrpc is an interface as
-- far as the tester calls it (`Network`): only whether a client end may send, and the totals of
-- calls and bytes, are read. A loop of the tester that waits for the clock is given what each of
-- its rounds sees; where the tester reads the clock, the time is an argument. Its readers of
-- `applyCh` are `read_message`, and `read_all` for a run of messages up to the first error, which
-- ends the program.
--
-- Bounds and fuel. Two loops are not on a list. The fuel of `startApplyLogs` is the length of the
-- log, and each round moves `lastApplied` up by one below that length, so that it stops before the
-- fuel ends. `exchange`, the loop of a leader's goroutine for one peer, has as fuel the number of
-- its requests, since the loop itself has no bound. `run` takes the number of steps of
-- `RequestVote` as an argument.
--
-- Not modelled: the timer and the pauses, interleavings between the reads that `heartBeat` makes
-- outside a lock, the copies of labrpc and labgob, debug output and what the tester prints, and the
-- other tasks of the repository, which are not written in Go.
pub mod Prelude
pub mod Persister
pub mod Raft
pub mod Cluster
pub mod Config
pub mod Tests
