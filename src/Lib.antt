-- ===== src/Lib.antt =====
-- The course systems of this repository: a Raft key-value store (hw3), a primary-backup key-value
-- store ordered by Lamport clocks (hw2), the task broker of an embedding pipeline (hw4), and the
-- Connect-M game (hw1).
--
-- The parts, and the files that model them:
--   hw3/internal/log/log.go     Raft/Log.antt, with Raft/Log/WellFormed.antt on its indices
--   hw3/config/config.go        Raft/Config.antt (hw2/config/config.go has the same functions)
--   hw3/raft/raft.go            Raft/Node.antt (the state, the timer, becomeFollower),
--                               Raft/Vote.antt (RequestVote, startElection, becomeLeader, replies),
--                               Raft/Replicate.antt (Start, AppendEntries, sendAppendEntries),
--                               Raft/Commit.antt (advanceCommitIndex, applyLoop),
--                               Raft/Step.antt (any sequence of these on one node)
--   several nodes of it         Cluster.antt: a step relation whose steps are the calls of one node,
--                               with the ballots of each candidate as ghost state;
--                               Cluster/Network.antt: the same with the requests of sendAppendEntries
--                               and their replies, kept for ever, so that each may be delayed, lost,
--                               or come in twice, and with what each node hands to its server;
--                               Cluster/Completeness.antt: what a majority has confirmed, against
--                               the logs of later leaders, as ghost state that only proofs see;
--                               Cluster/Replicas.antt: the stores that the servers build from it
--   hw3/internal/store/store.go Kvraft/Store.antt
--   hw3/server/main.go          Kvraft/Command.antt (encodeCommand, decodeCommand),
--                               Kvraft/Server.antt (the handlers and the apply loop)
--   hw2/internal/clock/clock.go Kvstore/Clock.antt
--   hw2/internal/store/store.go Kvstore/Store.antt
--   hw2/server/main.go          Kvstore/Node.antt (the handlers, failure detection, the election)
--   hw4/broker/main.go          Pipeline/Broker.antt
--   hw1/game/game.go            Connectm/Board.antt, with its children on what each part comes to
--   hw1/server/main.go          Connectm/Session.antt, likewise
--   hw4/worker/main.go          Pipeline/Hash.antt (fnv64, chunkIDToUUID)
--   hw4/producer/main.go        Pipeline/Producer.antt (chunkText)
-- Prelude.antt and its children hold what they share: Boolean tests, byte strings, lists, int64, Go
-- maps as association tables, and results that may be a panic. Tests.antt runs the definitions.
--
-- How the code becomes definitions. A section of code that holds a mutex is one function from the
-- state to the new state and what it returns. A function that lets go of the lock to make a call,
-- or to wait, is cut there: `Put` of hw3 is put_submit, put_register, and put_wake or put_timeout;
-- an election is start_election, one vote_reply for each reply, and become_leader inside it; and
-- the answers that come over the network are arguments. Any order of these pieces is an
-- interleaving that the locks allow, and Raft/Step.antt, Cluster.antt, Cluster/Network.antt and
-- Pipeline/Broker/Tasks.antt take all of them. In Cluster/Network.antt a voter is asked once for
-- each ballot, as each goroutine of startElection makes one call, and a request of sendAppendEntries
-- may reach any node. The number that `rand` draws, the time of `time.Now`, the identifier of
-- `uuid.New` and the order in which a map is walked are arguments too; the broker's scan takes the
-- visits to its keys, each with the time that `time.Since` reads there. An index out of range is the
-- value `panic` of Outcome, and the theorems say where it cannot come up.
--
-- Numbers. Terms, indices and node identifiers are int64 or int32 in the code, never negative where
-- they are used, and here natural numbers; the value -1 of `votedFor` and `leaderID` is `none`.
-- The Lamport clock is an integer with the wrap-around of int64, since its input comes from the
-- network. Times are natural numbers of milliseconds or nanoseconds as the constants say. Strings
-- are lists of bytes where the code looks into them, and strings where it only compares them.
--
-- Fuel. The apply loop drains on fuel, as many steps as the commit index lies ahead of
-- `lastApplied`, and chunkText as many as there are words; their theorems say that this is enough.
-- Everything else recurs on a list or a number.
--
-- Not modelled: gRPC and its connections, JSON configuration, goroutines and tickers as such (what
-- they run is), logging, the command lines, the clients, the query tool, what the producer does with
-- files and the network, the calls to the embedding service and the vector store, and of Connect-M
-- the rendering of the board, the JSON of the messages, and the clients. A node that restarts is not
-- modelled either: hw3 keeps nothing on disk.
pub mod Prelude
pub mod Raft
pub mod Cluster
pub mod Kvraft
pub mod Kvstore
pub mod Pipeline
pub mod Connectm
pub mod Tests
