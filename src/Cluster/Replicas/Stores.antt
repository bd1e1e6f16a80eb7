-- ===== src/Cluster/Replicas/Stores.antt =====
-- hw3/raft/raft.go and hw3/server/main.go: servers that have applied equally much hold the same.

use cmsc.Prelude.{
  ℕ, zero, suc, ◌≤◌, ◌<◌, ◌≡◌, refl, sym, ap, ◌∙◌, some, List, [], ◌∷◌, ◌++◌, arith, length, take,
  get_elem?, get_elem?-some, get_elem?_lt, nat_eq,
}
use cmsc.Raft.Config.{ClusterConfig}
use cmsc.Raft.Node.{ApplyMsg, new_paused}
use cmsc.Raft.Step.Sound.{Sound}
use cmsc.Raft.Commit.{apply_step}
use cmsc.Kvraft.Server.{Server, new_server, apply_command, apply, apply_all}
use cmsc.Kvraft.Server.Replay.{apply-st}
use cmsc.Cluster.{Cluster, ClusterStep, act, elect, ask, count}
use cmsc.Cluster.Network.{
  World, WorldStep, WorldReach, begin, onward, calls, polls, sends, delivers, returns, emits,
  IsPoll, emitted,
}
use cmsc.Cluster.Network.Matching.{WorldReach-ClusterReach, ClusterReach-Sound}
use cmsc.Cluster.Completeness.Voters.{set1_each}
use cmsc.Cluster.Completeness.Majority.{IsNumbered}
use cmsc.Cluster.Completeness.Promises.{Backed-reaches}
use cmsc.Cluster.Completeness.Invariant.{WorldReach-Good}
use cmsc.Cluster.Completeness.Machine.{state_machine_safety}
use cmsc.Cluster.Replicas.{handed_to}
use cmsc.Cluster.Replicas.Counts.{
  Act-Rests, request_vote-Rests, start_election-Rests, vote_reply-Rests, append_entries-Rests,
  append_reply-Rests,
}
use cmsc.Cluster.Replicas.Agree.{
  Counted, set1-Counted, next-Counted, others_handed, handed_to-source, prefix_ext,
}

abbrev AllCounted : World → Type 0
AllCounted w = (v : ℕ) → Counted v (w.cluster.node v) w.applied

poll-Counted :
    (n : ℕ) (c c' : Cluster) (applied : List (ℕ × ApplyMsg)) (st : ClusterStep n c c')
    → IsPoll st
    → ((v : ℕ) → Counted v (c.node v) applied)
    → (v : ℕ) → Counted v (c'.node v) applied
poll-Counted n c c' applied (act i rf' a e) p all = absurd p
poll-Counted n c c' applied (elect i draw args rf' lt run e) p all =
    rw e (set1-Counted c.node i rf' applied (start_election-Rests draw args (c.node i) rf' run) all)
poll-Counted n c c' applied (ask i t v d d' args reply rf' lt asks un run e) p all =
    rw e (
      set1-Counted c.node v rf' applied (request_vote-Rests d d' args reply (c.node v) rf' run) all)
poll-Counted n c c' applied (count i t v draw has reply rf' lt got run e) p all = rw e (
    set1-Counted c.node i rf' applied
      (vote_reply-Rests draw t (c.ballot i t).votes has reply (c.node i) rf' run) all)

step-Counted :
    (n : ℕ) {w w' : World}
    → WorldStep n w w'
    → ((i : ℕ) → Sound (w.cluster.node i))
    → ((i : ℕ)
        → (w.cluster.node i).last_applied < (w.cluster.node i).commit_index
        → (w.cluster.node i).commit_index < length (w.cluster.node i).log.entries)
    → AllCounted w
    → AllCounted w'
step-Counted n {w} (calls i rf' a l e) sound inside all =
    rw e (set1-Counted w.cluster.node i rf' w.applied (Act-Rests a l) all)
step-Counted n {w} (polls c' st p e) sound inside all =
    rw e (poll-Counted n w.cluster c' w.applied st p all)
step-Counted n {w} (sends i peer args run e) sound inside all = rw e all
step-Counted n {w} (delivers i k draw args reply rf' there run e) sound inside all = rw e (
    set1-Counted w.cluster.node i rf' w.applied
      (append_entries-Rests draw args reply (w.cluster.node i) rf' run) all)
step-Counted n {w} (returns k draw a again rf' there run e) sound inside all = rw e (
    set1-Counted w.cluster.node a.request.leader_id rf' w.applied
      (append_reply-Rests draw a.peer a.request a.reply again (w.cluster.node a.request.leader_id)
        rf' run)
      all)
step-Counted n {w} (emits i e) sound inside all = rw e (
    set1_each (λ v rf. Counted v rf (emitted i (apply_step (w.cluster.node i)).1 ++ w.applied))
      w.cluster.node i (apply_step (w.cluster.node i)).0
      (next-Counted i (w.cluster.node i) w.applied (sound i).log_wf (inside i) (all i))
      (λ v other.
        let same = others_handed v i (apply_step (w.cluster.node i)).1 w.applied other in
        record {
          size = ap length same ∙ (all v).size;
          indexed = λ p x there.
              (all v).indexed p x (ap (λ (l : List ApplyMsg). get_elem? l p) (sym same) ∙ there);
        }))

WorldReach-Counted :
    (cfg : ClusterConfig) {w : World} → IsNumbered 0 cfg.nodes → WorldReach cfg w → AllCounted w
unfolding new_paused handed_to
WorldReach-Counted cfg num begin = λ v. record { size = refl; indexed = λ p x h. cc }
WorldReach-Counted cfg num (onward {w} r st) =
    let (gh, good) = WorldReach-Good cfg num r in
    step-Counted (length cfg.nodes) st (ClusterReach-Sound cfg (WorldReach-ClusterReach cfg r))
      (λ i lt.
        Backed-reaches (length cfg.nodes) gh (w.cluster.node i).log.entries
          (w.cluster.node i).current_term (w.cluster.node i).commit_index
          ((good.commits.ledgers i).safe (omega (arith, lt))))
      (WorldReach-Counted cfg num r)

-- In a cluster whose configuration lists the nodes by their ids, whatever the interleaving of its
-- steps and however its messages are delayed, lost or doubled: of two nodes, the one that has
-- applied no more than the other has handed its server the first of the entries that the other has
-- handed to its own, in the same order.
pub handed_prefix :
    (cfg : ClusterConfig) (w : World) (i j : ℕ)
    → IsNumbered 0 cfg.nodes
    → WorldReach cfg w
    → (w.cluster.node i).last_applied ≤ (w.cluster.node j).last_applied
    → handed_to i w.applied ≡ take (w.cluster.node i).last_applied (handed_to j w.applied)
handed_prefix cfg w i j num r le =
    let all = WorldReach-Counted cfg num r in
    prefix_ext (handed_to i w.applied) (handed_to j w.applied) (λ p x there.
      let lt = get_elem?_lt (handed_to i w.applied) p there in
      let (y, here) =
        get_elem?-some (handed_to j w.applied) p
          (omega (arith, lt, (all i).size, (all j).size, le)) in
      let (k, mine) = handed_to-source i p w.applied x there in
      let (l, theirs) = handed_to-source j p w.applied y here in
      let same : x ≡ y =
        state_machine_safety cfg w k l i j x y num r mine theirs
          ((all i).indexed p x there ∙ sym ((all j).indexed p y here)) in
      here ∙ ap some (sym same))
    ∙ ap (λ (m : ℕ). take m (handed_to j w.applied)) (all i).size

take_all : (n : ℕ) (xs : List ApplyMsg) → length xs ≤ n → take n xs ≡ xs
take_all zero [] h = refl
take_all zero (x ∷ xs) h = absurd (omega arith)
take_all (suc n) [] h = refl
take_all (suc n) (x ∷ xs) h = ap (λ t. x ∷ t) (take_all n xs (omega arith))

stores_alike :
    (msgs : List ApplyMsg) (s s' : Server)
    → s.st ≡ s'.st
    → (apply_all msgs s).st ≡ (apply_all msgs s').st
unfolding apply_all
stores_alike [] s s' same = same
stores_alike (msg ∷ rest) s s' same =
    stores_alike rest (apply msg s) (apply msg s')
      (apply-st msg s ∙ ap (apply_command msg.command) same ∙ sym (apply-st msg s'))

-- In such a cluster, two new servers that have taken what their nodes have handed to them hold the
-- same store, if the nodes have applied equally much.
pub replicas_agree :
    (cfg : ClusterConfig) (w : World) (i j : ℕ)
    → IsNumbered 0 cfg.nodes
    → WorldReach cfg w
    → (w.cluster.node i).last_applied ≡ (w.cluster.node j).last_applied
    → (apply_all (handed_to i w.applied) (new_server i cfg)).st
      ≡ (apply_all (handed_to j w.applied) (new_server j cfg)).st
unfolding new_server
replicas_agree cfg w i j num r same =
    let all = WorldReach-Counted cfg num r in
    let alike : handed_to i w.applied ≡ handed_to j w.applied =
      handed_prefix cfg w i j num r (omega (arith, same))
      ∙ take_all (w.cluster.node i).last_applied (handed_to j w.applied)
          (omega (arith, same, (all j).size)) in
    ap (λ (l : List ApplyMsg). (apply_all l (new_server i cfg)).st) alike
    ∙ stores_alike (handed_to j w.applied) (new_server i cfg) (new_server j cfg) refl
