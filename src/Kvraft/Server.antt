-- ===== src/Kvraft/Server.antt =====
-- hw3/server/main.go: the handlers of `Server` and its apply loop. `s.rf` is a node of Raft. A Put is
-- two functions, since it lets go of the mutexes between `Start` and the registration of its waiter,
-- and a third for its wait.
pub mod Replay
pub mod Waiters
pub mod Race
use cmsc.Prelude.{
  ℕ, zero, suc, ◌+◌, Bool, true, false, Option, none, some, List, [], ◌∷◌, ◌++◌, Text, codes,
  String, ◌==◌, nat_eq, bytes_eq, ltb, leb, if◌then◌else◌, Outcome, ok, panic, indexed, ◌>>=◌,
  length, get_elem?, set,
}
use cmsc.Prelude.Table
use cmsc.Prelude.Table.{Table}
use cmsc.Raft.Config.{NodeConfig, ClusterConfig}
use cmsc.Raft.Node
use cmsc.Raft.Node.{Raft, ApplyMsg, get_state}
use cmsc.Raft.Vote.{RequestVoteArgs, RequestVoteReply}
use cmsc.Raft.Replicate
use cmsc.Raft.Replicate.{AppendEntriesArgs, AppendEntriesReply}
use cmsc.Kvraft.Store
use cmsc.Kvraft.Store.{Store}
use cmsc.Kvraft.Command.{encode_command, decode_command}

-- `pendingPut`: the term, and whether its channel is closed. The handler and the table share it, so
-- it lives in `puts`, and the table holds its position there.
pub record PendingPut : Type 0 where
  pub term : ℕ
  pub closed : Bool

-- `leader_id` is `none` for -1.
pub record Server : Type 0 where
  pub id : ℕ
  pub cfg : ClusterConfig
  pub rf : Raft
  pub st : Store
  pub pending : Table ℕ ℕ
  pub puts : List PendingPut
  pub leader_id : Option ℕ

-- `newServer`, up to its goroutines
unfoldable pub new_server : ℕ → ClusterConfig → Server
unfolding Node.new_paused Store.new
new_server id cfg = record {
  id = id;
  cfg = cfg;
  rf = Node.new_paused id cfg;
  st = Store.new;
  pending = Table.empty;
  puts = [];
  leader_id = none;
}

-- `cfg.Nodes[id].ClientAddr` for a leader in range
abbrev pub leader_addr : Option ℕ → List NodeConfig → Option String
leader_addr none nodes = none
leader_addr (some id) nodes = elim (get_elem? nodes id) [
  | none ↦ none
  | some n ↦ some n.client_addr
]

-- `currentLeaderAddr`
unfoldable pub current_leader_addr : Server → String
current_leader_addr s = elim (leader_addr s.leader_id s.cfg.nodes) [ none ↦ "" | some a ↦ a ]

pub data PutBegin : Type 0 where
  redirect : String → PutBegin
  submitted : ℕ → ℕ → PutBegin

-- `Put` up to `rf.Start`: a redirection, or the index and the term that it waits for.
unfoldable pub put_submit : Text → Text → Server → Outcome (Server × PutBegin)
unfolding encode_command current_leader_addr
put_submit key value s = do
  (rf, (index, term, leads)) ← Replicate.start (encode_command key value) s.rf
  ok (
    record s { rf = rf },
    if leads then submitted index term else redirect (current_leader_addr s),
  )

-- `s.pending[index] = pp`; the position of `pp` is returned.
unfoldable pub put_register : ℕ → ℕ → Server → Server × ℕ
put_register index term s = (
  record s {
    pending = Table.put s.pending index (length s.puts);
    puts = s.puts ++ record { term = term; closed = false } ∷ [];
  },
  length s.puts,
)

pub data PutResult : Type 0 where
  waiting : PutResult
  put_ok : PutResult
  aborted : PutResult
  deadline_exceeded : PutResult

-- The case of the `select` for `pp.ch`: nothing while it is open.
unfoldable pub put_wake : ℕ → ℕ → Server → PutResult
put_wake pp submitted_term s = elim (get_elem? s.puts pp) [
  | none ↦ waiting
  | some p ↦ if p.closed then if p.term == submitted_term then put_ok else aborted else waiting
]

-- The case of the `select` for the timeout.
unfoldable pub put_timeout : ℕ → Server → Server × PutResult
put_timeout index s = (record s { pending = Table.remove s.pending index }, deadline_exceeded)

-- `Get`: found and value, from the local store
unfoldable pub get : Text → Server → Bool × Text
unfolding Store.get
get key s = elim (Store.get s.st key) [ none ↦ (false, []) | some e ↦ (true, e.value) ]

pub data PrimaryReply : Type 0 where
  primary : ℕ → String → PrimaryReply
  unavailable : PrimaryReply

-- `GetPrimary`
unfoldable pub get_primary : Server → Outcome PrimaryReply
unfolding get_state
get_primary s =
    if (get_state s.rf).1
    then (do n ← indexed (get_elem? s.cfg.nodes s.id); ok (primary s.id n.client_addr))
    else elim s.leader_id [
      | none ↦ ok unavailable
      | some id ↦ elim (get_elem? s.cfg.nodes id) [
        | none ↦ ok unavailable
        | some n ↦ ok (primary id n.client_addr)
      ]
    ]

-- `AppendEntries`, which notes the leader of a term that was accepted
unfoldable pub append_entries :
    ℕ → AppendEntriesArgs → Server → Outcome (Server × AppendEntriesReply)
append_entries draw req s = do
  (rf, reply) ← Replicate.append_entries draw req s.rf
  ok (
    record s {
      rf = rf;
      leader_id = if reply.term == req.term then some req.leader_id else s.leader_id;
    },
    reply,
  )

-- The write of `applyLoop` to the store.
unfoldable pub apply_command : Text → Store → Store
apply_command cmd st =
    let (op, key, value) = decode_command cmd in
    if op == codes "put" then Store.put st key value else st

-- `applyLoop` wakes the Put that waits at the index.
unfoldable pub wake : ApplyMsg → Server → Server
wake msg s = elim (Table.get s.pending msg.index) [
  | none ↦ s
  | some pp ↦ record s {
    puts = set s.puts pp (record { term = msg.term; closed = true });
    pending = Table.remove s.pending msg.index;
  }
]

-- One round of `applyLoop`
unfoldable pub apply : ApplyMsg → Server → Server
apply msg s = wake msg (record s { st = apply_command msg.command s.st })

-- `applyLoop` over the messages that are in the channel
unfoldable pub apply_all : List ApplyMsg → Server → Server
apply_all [] s = s
apply_all (msg ∷ rest) s = apply_all rest (apply msg s)
