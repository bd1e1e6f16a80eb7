-- ===== src/Tests/NetworkRun.antt =====
-- hw3/raft/raft.go: node 0 is elected, and node 1 gets its first entry.
use cmsc.Prelude.{◌≡◌, refl, some, arith, get_elem?, take}
use cmsc.Raft.Node
use cmsc.Raft.Vote.{request_vote, start_election, vote_reply, become_leader}
use cmsc.Raft.Replicate.{append_args, append_entries, merge, merge_entry}
use cmsc.Raft.Log.{LogEntry, append, range, at}
use cmsc.Cluster.{elect, ask, count}
use cmsc.Cluster.Network.{World, WorldReach, begin, onward, polls, sends, delivers}
use cmsc.Cluster.Network.Matching.{log_matching}
use cmsc.Tests.Samples.{three}

replicated :
    (w : World) × WorldReach three w
    × ((e : LogEntry) × (get_elem? (w.cluster.node 0).log.entries 1 ≡ some e)
        × (get_elem? (w.cluster.node 1).log.entries 1 ≡ some e))
unfolding Node.new_paused request_vote start_election vote_reply become_leader append append_args
    append_entries merge merge_entry range at
replicated = (
  _,
  onward
      (onward
        (onward
          (onward (onward begin (polls _ (elect 0 7 _ _ (omega arith) refl refl) tt refl))
            (polls _ (ask 0 1 1 8 9 _ _ _ (omega arith) refl refl refl refl) tt refl))
          (polls _ (count 0 1 1 10 _ _ _ (omega arith) refl refl refl) tt refl))
        (sends 0 1 _ refl refl))
      (delivers 1 0 11 _ _ _ refl refl refl),
  (_, refl, refl),
)

log_matching_example :
    take 2 (replicated.0.cluster.node 0).log.entries
    ≡ take 2 (replicated.0.cluster.node 1).log.entries
log_matching_example =
    log_matching three replicated.0 0 1 1 replicated.2.0 replicated.2.0 replicated.1 replicated.2.1
      replicated.2.2 refl
