-- ===== src/Tests/ClusterRun.antt =====
-- hw3/raft/raft.go: node 0 is elected by nodes 0 and 1.
use cmsc.Prelude.{ℕ, ◌≡◌, refl, arith}
use cmsc.Raft.Node.{leader}
use cmsc.Raft.Node
use cmsc.Raft.Vote.{request_vote, start_election, vote_reply, become_leader}
use cmsc.Raft.Log.{append}
use cmsc.Cluster.{Cluster, elect, ask, count, ClusterReach, start, later}
use cmsc.Cluster.Safety.{election_safety}
use cmsc.Tests.Samples.{three}

elected : (c : Cluster) × ClusterReach three c × ((c.node 0).state ≡ leader)
unfolding Node.new_paused request_vote start_election vote_reply become_leader append
elected = (
  _,
  later
      (later (later start (elect 0 7 _ _ (omega arith) refl refl))
        (ask 0 1 1 8 9 _ _ _ (omega arith) refl refl refl refl))
      (count 0 1 1 10 _ _ _ (omega arith) refl refl refl),
  refl,
)

election_safety_example : ◌≡◌ {A = ℕ} 0 0
election_safety_example = election_safety three elected.0 0 0 elected.1 elected.2 elected.2 refl
