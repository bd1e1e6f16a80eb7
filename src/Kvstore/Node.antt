-- ===== src/Kvstore/Node.antt =====
-- hw2/server/main.go: the handlers of a node, and its election. A call that lets go of the mutex
-- around an RPC is two functions. Wall-clock times are nanoseconds.
pub mod Election
pub mod Replication
use cmsc.Prelude.{
  ℕ, zero, suc, ◌+◌, ◌-◌, ◌*◌, Bool, true, false, not, ◌&&◌, ◌||◌, Option, none, some, List, [],
  ◌∷◌, Text, String, ◌==◌, nat_eq, bytes_eq, ltb, leb, if◌then◌else◌,
}
use cmsc.Prelude.Int.{ℤ, pos, ltb_ℤ, beq_ℤ}
use cmsc.Prelude.Table
use cmsc.Prelude.Table.{Table}
use cmsc.Raft.Config.{NodeConfig, ClusterConfig, self}
use cmsc.Kvstore.Clock
use cmsc.Kvstore.Clock.{LamportClock}
use cmsc.Kvstore.Store
use cmsc.Kvstore.Store.{Store}

pub data Role : Type 0 where
  backup primary candidate : Role

abbrev pub is_primary : Role → Bool
is_primary primary = true
is_primary _ = false

abbrev pub is_backup : Role → Bool
is_backup backup = true
is_backup _ = false

abbrev pub is_candidate : Role → Bool
is_candidate candidate = true
is_candidate _ = false

-- `HeartbeatInterval`, `HeartbeatTimeout`
abbrev pub heartbeat_interval : ℕ
heartbeat_interval = 500000000

abbrev pub heartbeat_timeout : ℕ
heartbeat_timeout = 1000000000

-- `peer_conns` are the keys of `peerConns`, in the order in which the map is walked.
pub record Node : Type 0 where
  pub id : ℕ
  pub role : Role
  pub cfg : ClusterConfig
  pub clk : LamportClock
  pub store : Store
  pub peer_conns : List ℕ
  pub last_seen : Table ℕ ℕ
  pub current_primary_id : ℕ
  pub election_ts : ℤ

-- `newNode`
unfoldable pub new_node : ℕ → ClusterConfig → Node
unfolding Clock.new Store.new
new_node id cfg = record {
  id = id;
  role = if id == 0 then primary else backup;
  cfg = cfg;
  clk = Clock.new;
  store = Store.new;
  peer_conns = [];
  last_seen = Table.empty;
  current_primary_id = 0;
  election_ts = pos 0;
}

pub record ReplicateRequest : Type 0 where
  pub key : Text
  pub value : Text
  pub lamport_ts : ℤ
  pub origin_id : ℕ

pub data PutBegin : Type 0 where
  refused : PutBegin
  redirect : String → PutBegin
  fan_out : ReplicateRequest → List ℕ → PutBegin

-- `Put` up to the RPCs: a refusal, a redirection, or the request and the peers that get it.
unfoldable pub put_begin : Text → Text → Node → Node × PutBegin
unfolding Clock.tick self
put_begin key value n =
    if is_primary n.role
    then (let (clk, ts) = Clock.tick n.clk in
        (
          record n { clk = clk },
          fan_out (record { key = key; value = value; lamport_ts = ts; origin_id = n.id })
              n.peer_conns,
        ))
    else (
      n,
      elim (self n.cfg n.current_primary_id) [ none ↦ refused | some p ↦ redirect p.client_addr ],
    )

pub data PutReply : Type 0 where
  put_ok : ℤ → PutReply
  unavailable : PutReply

-- `firstErr == nil`, where each RPC is true if it returned without an error
abbrev pub all_ok : List Bool → Bool
all_ok [] = true
all_ok (b ∷ bs) = b && all_ok bs

-- `Put` behind `wg.Wait()`
unfoldable pub put_finish : ReplicateRequest → List Bool → Node → Node × PutReply
unfolding Store.put
put_finish req results n =
    if all_ok results
    then (
      record n { store = Store.put n.store req.key req.value req.lamport_ts },
      put_ok req.lamport_ts,
    )
    else (n, unavailable)

-- `Get`: the value and the stamp, if the key is found
unfoldable pub get : Text → Node → Option Store.Entry
get key n = Store.get n.store key

-- `GetPrimary`; `none` is its error.
unfoldable pub get_primary : Node → Option (ℕ × String)
unfolding self
get_primary n = elim (self n.cfg n.current_primary_id) [
  | none ↦ none
  | some p ↦ some (n.current_primary_id, p.client_addr)
]

-- `Replicate`: the reply is the updated clock.
unfoldable pub replicate : ReplicateRequest → Node → Node × ℤ
unfolding Clock.update Store.put
replicate req n =
    let (clk, ts) = Clock.update req.lamport_ts n.clk in
    (record n { clk = clk; store = Store.put n.store req.key req.value req.lamport_ts }, ts)

-- `Heartbeat` from a peer, with its stamp, at a time: the reply is the updated clock and the role.
unfoldable pub heartbeat : ℕ → ℕ → ℤ → Node → Node × (ℤ × Role)
unfolding Clock.update
heartbeat time sender ts n =
    let (clk, updated) = Clock.update ts n.clk in
    (record n { clk = clk; last_seen = Table.put n.last_seen sender time }, (updated, n.role))

-- The stamp of a heartbeat that `startHeartbeatLoop` sends.
unfoldable pub send_heartbeat : Node → Node × ℤ
unfolding Clock.tick
send_heartbeat n = let (clk, ts) = Clock.tick n.clk in (record n { clk = clk }, ts)

pub record AnnounceLeaderRequest : Type 0 where
  pub new_primary_id : ℕ
  pub election_lamport : ℤ

-- `localTs`
abbrev pub local_ts : Node → ℤ
local_ts n = if is_candidate n.role then n.election_ts else n.clk.t

-- The test of `AnnounceLeader`
unfoldable pub accepts : AnnounceLeaderRequest → Node → Bool
accepts req n =
    ltb_ℤ (local_ts n) req.election_lamport
    || (beq_ℤ req.election_lamport (local_ts n) && ltb n.id req.new_primary_id)

-- `AnnounceLeader`
unfoldable pub announce_leader : AnnounceLeaderRequest → Node → Node × Bool
unfolding accepts
announce_leader req n = (
  if accepts req n then record n { current_primary_id = req.new_primary_id } else n,
  accepts req n,
)

-- The test of `monitorPeers` for one peer, at a time
unfoldable pub is_silent : ℕ → ℕ → Node → Bool
is_silent time peer n = elim (Table.get n.last_seen peer) [
  | none ↦ false
  | some seen ↦ ltb heartbeat_timeout (time - seen)
]

-- `onPeerDead`: whether it starts an election.
unfoldable pub on_peer_dead : ℕ → Node → Bool
on_peer_dead peer n = peer == n.current_primary_id && is_backup n.role

-- `runElection` up to the RPC: nothing on a node that is no backup, else the node as a candidate.
unfoldable pub election_begin : Node → Option Node
unfolding Clock.tick
election_begin n =
    if is_backup n.role
    then (let (clk, ts) = Clock.tick n.clk in
        some (record n { role = candidate; clk = clk; election_ts = ts }))
    else none

-- The loop of `runElection`: the first peer that is not the dead primary.
unfoldable pub survivor : ℕ → List ℕ → Option ℕ
survivor dead [] = none
survivor dead (id ∷ rest) = if id == dead then survivor dead rest else some id

-- The announcement of the election
abbrev pub claim : Node → AnnounceLeaderRequest
claim n = record { new_primary_id = n.id; election_lamport = n.election_ts }

-- The calls of `AnnounceLeader` that the winner makes, one to each peer; it ignores the answers.
abbrev pub announce_all : AnnounceLeaderRequest → List ℕ → List (ℕ × AnnounceLeaderRequest)
announce_all req [] = []
announce_all req (peer ∷ peers) = (peer, req) ∷ announce_all req peers

-- `runElection` behind the RPC to the peer that `survivor` found among the peers, `none` for no such
-- peer: `some accepted`, or `none` for an error. `peers` are the keys of `peerConnsCopy`, in the order
-- in which the second loop walks them. The node, and the calls that it makes.
unfoldable pub election_end :
    Option ℕ → Option Bool → List ℕ → Node → Node × List (ℕ × AnnounceLeaderRequest)
election_end (some peer) (some true) peers n =
    (record n { role = primary; current_primary_id = n.id }, announce_all (claim n) peers)
election_end (some peer) (some false) peers n =
    (record n { role = backup; current_primary_id = peer }, [])
election_end _ _ peers n = (record n { role = backup }, [])
