-- ===== src/Raft/Node.antt =====
-- hw3/raft/raft.go: the state of a node, its constructor, and the helpers that its handlers share.
use cmsc.Prelude.{
  ℕ, ◌+◌, ◌-◌, ◌/◌, ◌%◌, Bool, true, false, Option, none, some, List, Text, length, replicate,
}
use cmsc.Raft.Log
use cmsc.Raft.Log.{Log, LogEntry}
use cmsc.Raft.Config.{NodeConfig, ClusterConfig}

pub data RaftState : Type 0 where
  follower candidate leader : RaftState

-- The constants of the file, in nanoseconds.
abbrev pub heartbeat_interval : ℕ
heartbeat_interval = 100000000

abbrev pub election_timeout_min : ℕ
election_timeout_min = 150000000

abbrev pub election_timeout_max : ℕ
election_timeout_max = 300000000

abbrev pub rpc_timeout : ℕ
rpc_timeout = 50000000

pub record ApplyMsg : Type 0 where
  pub index : ℕ
  pub term : ℕ
  pub command : Text

-- `voted_for` is `none` for -1. `election_timer` is the duration that the timer was last set to,
-- `none` before it exists. The mutex, the condition variable and the connections are not here.
pub record Raft : Type 0 where
  pub current_term : ℕ
  pub voted_for : Option ℕ
  pub log : Log
  pub commit_index : ℕ
  pub last_applied : ℕ
  pub next_index : List ℕ
  pub match_index : List ℕ
  pub id : ℕ
  pub peers : List NodeConfig
  pub state : RaftState
  pub election_timer : Option ℕ
  pub dead : Bool

-- `NewPaused`
unfoldable pub new_paused : ℕ → ClusterConfig → Raft
unfolding Log.new
new_paused id cfg = record {
  current_term = 0;
  voted_for = none;
  log = Log.new;
  commit_index = 0;
  last_applied = 0;
  next_index = replicate (length cfg.nodes) 0;
  match_index = replicate (length cfg.nodes) 0;
  id = id;
  peers = cfg.nodes;
  state = follower;
  election_timer = none;
  dead = false;
}

-- `resetElectionTimer`. `draw` is the source of `rand.Int63n`, which is below its argument.
unfoldable pub reset_election_timer : ℕ → Raft → Raft
reset_election_timer draw rf = record rf {
  election_timer =
      some (election_timeout_min + draw % (election_timeout_max - election_timeout_min));
}

-- `Resume`, up to the start of the apply goroutine
unfoldable pub resume : ℕ → Raft → Raft
unfolding reset_election_timer
resume draw rf = reset_election_timer draw rf

-- `becomeFollower`
unfoldable pub become_follower : ℕ → ℕ → Raft → Raft
unfolding reset_election_timer
become_follower draw term rf =
    reset_election_timer draw
      (record rf { current_term = term; state = follower; voted_for = none })

-- `rf.state == Leader`, `rf.state == Candidate`
abbrev pub is_leader : RaftState → Bool
is_leader leader = true
is_leader _ = false

abbrev pub is_candidate : RaftState → Bool
is_candidate candidate = true
is_candidate _ = false

-- `GetState`
unfoldable pub get_state : Raft → ℕ × Bool
get_state rf = (rf.current_term, is_leader rf.state)

-- `Kill`
unfoldable pub kill : Raft → Raft
kill rf = record rf { dead = true }

-- `quorum`
unfoldable pub quorum : Raft → ℕ
quorum rf = length rf.peers / 2 + 1
