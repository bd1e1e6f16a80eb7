-- ===== src/Tests/ReplicasRun.antt =====
-- hw3/raft/raft.go: node 0 is elected, commits its first entry with node 1, and both hand it out.
use cmsc.Prelude.{◌≡◌, refl, sym, ◌∙◌, some, arith, get_elem?, take}
use cmsc.Raft.Node
use cmsc.Raft.Node.{ApplyMsg, leader, quorum}
use cmsc.Raft.Vote.{request_vote, start_election, vote_reply, become_leader}
use cmsc.Raft.Replicate.{
  append_args, append_entries, append_reply, merge, merge_entry, note_success, note_match,
}
use cmsc.Raft.Commit.{advance_commit_index, scan_commit, count_acks, apply_step, apply_msg}
use cmsc.Raft.Log.{LogEntry, append, range, at}
use cmsc.Kvraft.Server.{new_server, apply_all}
use cmsc.Cluster.{elect, ask, count}
use cmsc.Cluster.Network.{World, WorldReach, begin, onward, polls, sends, delivers, returns, emits}
use cmsc.Cluster.Completeness.Machine.{state_machine_safety, leader_completeness}
use cmsc.Cluster.Completeness.Majority.{IsNumbered}
use cmsc.Cluster.Replicas.{handed_to}
use cmsc.Cluster.Replicas.Stores.{handed_prefix, replicas_agree}
use cmsc.Tests.Samples.{three}

handed_out :
    (w : World) × WorldReach three w
    × ((x : ApplyMsg) × (get_elem? w.applied 1 ≡ some (0, x))
        × (get_elem? w.applied 0 ≡ some (1, x)))
    × ((w.cluster.node 0).state ≡ leader)
    × ((w.cluster.node 1).current_term ≡ 1)
    × ((w.cluster.node 0).current_term ≡ 1)
    × ((w.cluster.node 1).last_applied ≡ 1)
    × ((w.cluster.node 0).last_applied ≡ 1)
unfolding Node.new_paused request_vote start_election vote_reply become_leader append append_args
    append_entries append_reply merge merge_entry range at note_success note_match
    advance_commit_index scan_commit count_acks quorum apply_step
handed_out = (
  _,
  onward
      (onward
        (onward
          (onward
            (onward
              (onward
                (onward
                  (onward
                    (onward (onward begin (polls _ (elect 0 7 _ _ (omega arith) refl refl) tt refl))
                      (polls _ (ask 0 1 1 8 9 _ _ _ (omega arith) refl refl refl refl) tt refl))
                    (polls _ (count 0 1 1 10 _ _ _ (omega arith) refl refl refl) tt refl))
                  (sends 0 1 _ refl refl))
                (delivers 1 0 11 _ _ _ refl refl refl))
              (returns 0 12 _ _ _ refl refl refl))
            (emits 0 refl))
          (sends 0 1 _ refl refl))
        (delivers 1 0 13 _ _ _ refl refl refl))
      (emits 1 refl),
  (_, refl, refl),
  refl,
  refl,
  refl,
  refl,
  refl,
)

three-IsNumbered : IsNumbered 0 three.nodes
three-IsNumbered = (refl, (refl, (refl, tt)))

state_machine_safety_example : handed_out.2.0 ≡ handed_out.2.0
state_machine_safety_example =
    state_machine_safety three handed_out.0 1 0 0 1 handed_out.2.0 handed_out.2.0 three-IsNumbered
      handed_out.1 handed_out.2.1 handed_out.2.2 refl

leader_completeness_example :
    (e : LogEntry) × (get_elem? (handed_out.0.cluster.node 0).log.entries handed_out.2.0.index
      ≡ some e)
    × (handed_out.2.0 ≡ apply_msg e)
leader_completeness_example =
    leader_completeness three handed_out.0 0 1 0 handed_out.2.0 three-IsNumbered handed_out.1
      handed_out.2.2 handed_out.3 (omega (arith, handed_out.4, handed_out.5))

handed_prefix_example :
    handed_to 1 handed_out.0.applied
    ≡ take (handed_out.0.cluster.node 1).last_applied (handed_to 0 handed_out.0.applied)
handed_prefix_example =
    handed_prefix three handed_out.0 1 0 three-IsNumbered handed_out.1
      (omega (arith, handed_out.6, handed_out.7))

replicas_agree_example :
    (apply_all (handed_to 0 handed_out.0.applied) (new_server 0 three)).st
    ≡ (apply_all (handed_to 1 handed_out.0.applied) (new_server 1 three)).st
replicas_agree_example =
    replicas_agree three handed_out.0 0 1 three-IsNumbered handed_out.1
      (handed_out.7 ∙ sym handed_out.6)
