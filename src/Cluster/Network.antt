-- ===== src/Cluster/Network.antt =====
-- hw3/raft/raft.go: a cluster whose replication messages are those that its nodes sent.
pub mod Traced
pub mod Effect
pub mod Messages
pub mod Delivery
pub mod Tracks
pub mod Agreement
pub mod Matching
use cmsc.Prelude.{ℕ, ◌≡◌, Bool, List, [], ◌∷◌, ◌++◌, some, ok, length, get_elem?}
use cmsc.Raft.Config.{ClusterConfig}
use cmsc.Raft.Node.{Raft, ApplyMsg}
use cmsc.Raft.Replicate.{
  AppendEntriesArgs, AppendEntriesReply, append_args, append_entries, append_reply,
}
use cmsc.Raft.Commit.{ApplyStep, up_to_date, missing, emit, apply_step}
use cmsc.Raft.Step.{Act, resumes, kills, submits, follows, replies, applies}
use cmsc.Cluster.{set1, Cluster, ClusterStep, act, elect, ask, count, init}

-- A reply on its way to the node that sent the request.
pub record Answer : Type 0 where
  pub peer : ℕ
  pub request : AppendEntriesArgs
  pub reply : AppendEntriesReply

-- The requests of `sendAppendEntries` and the replies are kept for ever, so that one may be delayed,
-- lost, or come in twice. `applied` is what the nodes have sent to their servers.
pub record World : Type 0 where
  pub cluster : Cluster
  pub sent : List AppendEntriesArgs
  pub answers : List Answer
  pub applied : List (ℕ × ApplyMsg)

-- A call on a node that takes no message and sends none.
abbrev pub IsLocal : {rf rf' : Raft} → Act rf rf' → Type 0
IsLocal (resumes draw e) = Unit
IsLocal (kills e) = Unit
IsLocal (submits command result e) = Unit
IsLocal (follows draw req reply e) = ⊥
IsLocal (replies draw peer args reply again e) = ⊥
IsLocal (applies e) = ⊥

abbrev pub emitted : ℕ → ApplyStep → List (ℕ × ApplyMsg)
emitted i (emit msg) = (i, msg) ∷ []
emitted i up_to_date = []
emitted i missing = []

abbrev pub with_node : World → ℕ → Raft → World
with_node w i rf' = record w { cluster = record w.cluster { node = set1 w.cluster.node i rf' } }

-- A step of an election.
abbrev pub IsPoll : {n : ℕ} {c c' : Cluster} → ClusterStep n c c' → Type 0
IsPoll (act i rf' a e) = ⊥
IsPoll (elect i draw args rf' lt run e) = Unit
IsPoll (ask i t v draw draw' args reply rf' lt asks un run e) = Unit
IsPoll (count i t v draw has reply rf' lt got run e) = Unit

pub data WorldStep (n : ℕ) (w w' : World) : Type 0 where
  calls :
      (i : ℕ) (rf' : Raft) (a : Act (w.cluster.node i) rf')
      → IsLocal a
      → w' ≡ with_node w i rf'
      → WorldStep n w w'
  polls :
      (c' : Cluster) (st : ClusterStep n w.cluster c')
      → IsPoll st
      → w' ≡ record w { cluster = c' }
      → WorldStep n w w'
  sends :
      (i peer : ℕ) (args : AppendEntriesArgs)
      → append_args peer (w.cluster.node i) ≡ ok (some args)
      → w' ≡ record w { sent = args ∷ w.sent }
      → WorldStep n w w'
  delivers :
      (i k draw : ℕ) (args : AppendEntriesArgs) (reply : AppendEntriesReply) (rf' : Raft)
      → get_elem? w.sent k ≡ some args
      → append_entries draw args (w.cluster.node i) ≡ ok (rf', reply)
      → w' ≡ record (with_node w i rf') {
        answers = record { peer = i; request = args; reply = reply } ∷ w.answers;
      }
      → WorldStep n w w'
  returns :
      (k draw : ℕ) (a : Answer) (again : Bool) (rf' : Raft)
      → get_elem? w.answers k ≡ some a
      → append_reply draw a.peer a.request (some a.reply) (w.cluster.node a.request.leader_id)
        ≡ ok (rf', again)
      → w' ≡ with_node w a.request.leader_id rf'
      → WorldStep n w w'
  emits :
      (i : ℕ)
      → w' ≡ record (with_node w i (apply_step (w.cluster.node i)).0) {
        applied = emitted i (apply_step (w.cluster.node i)).1 ++ w.applied;
      }
      → WorldStep n w w'

pub data WorldReach (cfg : ClusterConfig) : World → Type 0 where
  begin : WorldReach cfg (record { cluster = init cfg; sent = []; answers = []; applied = [] })
  onward : {w w' : World} → WorldReach cfg w → WorldStep (length cfg.nodes) w w' → WorldReach cfg w'
