-- ===== src/Cluster/Completeness/Machine.antt =====
-- State machine safety, in every reachable state of a cluster with its messages.
use native.Mathlib.Decide.{ℕ_discrete}
use cmsc.Prelude.{
  ℕ, suc, ◌≤◌, ◌<◌, ◌≡◌, sym, ap, ◌∙◌, inl, inr, some, List, [], arith, length, take, ltb,
  get_elem?, nat_eq, Bool-cases,
}
use cmsc.Raft.Log.{LogEntry}
use cmsc.Raft.Config.{NodeConfig, ClusterConfig}
use cmsc.Raft.Node.{ApplyMsg, leader}
use cmsc.Raft.Commit.{apply_msg}
use cmsc.Cluster.Network.{World, WorldReach}
use cmsc.Cluster.Network.Traced.{Leaders}
use cmsc.Cluster.Network.Agreement.{get_elem?-agree}
use cmsc.Cluster.Completeness.{Ghost, Own, Agrees, Committed}
use cmsc.Cluster.Completeness.Prefix.{Own-lt, Agrees-append}
use cmsc.Cluster.Completeness.Leader.{first-Agrees}
use cmsc.Cluster.Completeness.Majority.{IsNumbered, some-injective}
use cmsc.Cluster.Completeness.Promises.{Handed}
use cmsc.Cluster.Completeness.Reaches.{Good}
use cmsc.Cluster.Completeness.Invariant.{WorldReach-Good}

-- What was committed in an earlier term is in the log of the leader of a later one.
Committed-later :
    (n : ℕ) (ps : List NodeConfig) (gh : Ghost) (w : World) (t j u : ℕ)
    → Good n ps gh w
    → Committed n gh t j
    → t < u
    → ¬ (gh.g u ≡ [])
    → Agrees gh.g (gh.g u) t j
Committed-later n ps gh w t j u good c lt real =
    let (s, more) = good.votes.prefix u in
    ap (take (suc j)) more
    ∙ Agrees-append gh.g (gh.first u) s t j (Own-lt gh.g t j c.own)
        (first-Agrees n gh w.cluster.node good.votes.won t j u c lt real)

Own-real : (g : Leaders) (t j : ℕ) → Own g t j → ¬ (g t ≡ [])
Own-real g t j o empty = omega (arith, Own-lt g t j o, ap length empty)

Handed-ordered :
    (n : ℕ) (ps : List NodeConfig) (gh : Ghost) (w : World) (x y : ApplyMsg)
    → Good n ps gh w
    → (a : Handed n gh x) (b : Handed n gh y) → a.t < b.t
    → x.index ≡ y.index
    → x ≡ y
Handed-ordered n ps gh w x y good a b lt same =
    let agrees =
      Committed-later n ps gh w a.t a.j b.t good a.committed lt
        (Own-real gh.g b.t b.j b.committed.own) in
    let there =
      get_elem?-agree x.index (suc a.j) (gh.g b.t) (gh.g a.t) (omega (arith, a.within)) agrees in
    let entries : a.entry ≡ b.entry =
      some-injective (sym a.there ∙ sym there ∙ ap (get_elem? (gh.g b.t)) same ∙ b.there) in
    a.same ∙ ap apply_msg entries ∙ sym b.same

Handed-same :
    (n : ℕ) (ps : List NodeConfig) (gh : Ghost) (w : World) (x y : ApplyMsg)
    → Good n ps gh w
    → Handed n gh x
    → Handed n gh y
    → x.index ≡ y.index
    → x ≡ y
Handed-same n ps gh w x y good a b same = elim (Bool-cases (ltb a.t b.t)) [
  | inl lt ↦ Handed-ordered n ps gh w x y good a b (ground (arith, lt)) same
  | inr ge ↦ elim (Bool-cases (ltb b.t a.t)) [
    | inl lt ↦ sym (Handed-ordered n ps gh w y x good b a (ground (arith, lt)) (sym same))
    | inr le ↦
        let t : a.t ≡ b.t = ground (arith, ge, le) in
        let entries : a.entry ≡ b.entry = some-injective (
          sym a.there
          ∙ ap (λ (u : ℕ). get_elem? (gh.g u) x.index) t
          ∙ ap (get_elem? (gh.g b.t)) same
          ∙ b.there) in
        a.same ∙ ap apply_msg entries ∙ sym b.same
  ]
]

-- State machine safety. In a cluster whose configuration lists the nodes by their ids, that starts
-- with every node paused at its own id, and whose nodes get only requests and replies that a node
-- sent, late, twice or never, after any interleaving of its steps: what two nodes, or one, have
-- handed to their servers for one index is the same entry.
pub state_machine_safety :
    (cfg : ClusterConfig) (w : World) (k l i j : ℕ) (x y : ApplyMsg)
    → IsNumbered 0 cfg.nodes
    → WorldReach cfg w
    → get_elem? w.applied k ≡ some (i, x)
    → get_elem? w.applied l ≡ some (j, y)
    → x.index ≡ y.index
    → x ≡ y
state_machine_safety cfg w k l i j x y num r hx hy same =
    let (gh, good) = WorldReach-Good cfg num r in
    Handed-same (length cfg.nodes) cfg.nodes gh w x y good (good.commits.handed k i x hx).0
      (good.commits.handed l j y hy).0 same

-- Leader completeness. In such a cluster, what a node has handed to its server is in the log of
-- every leader whose term is not behind the term of the node.
pub leader_completeness :
    (cfg : ClusterConfig) (w : World) (k i j : ℕ) (x : ApplyMsg)
    → IsNumbered 0 cfg.nodes
    → WorldReach cfg w
    → get_elem? w.applied k ≡ some (i, x)
    → (w.cluster.node j).state ≡ leader
    → (w.cluster.node i).current_term ≤ (w.cluster.node j).current_term
    → (e : LogEntry) × (get_elem? (w.cluster.node j).log.entries x.index ≡ some e)
      × (x ≡ apply_msg e)
leader_completeness cfg w k i j x num r hx leads le =
    let (gh, good) = WorldReach-Good cfg num r in
    let n = length cfg.nodes in
    let (c, early) = good.commits.handed k i x hx in
    let u = (w.cluster.node j).current_term in
    let (_, headed, own_log) = good.tracks.logs j in
    let own : (w.cluster.node j).log.entries ≡ gh.g u = own_log (ground (arith, leads)) in
    let real : ¬ (gh.g u ≡ []) = λ empty. ground (arith, own, empty, headed) in
    let within : x.index < suc c.j = omega (arith, c.within) in
    let has : Agrees gh.g (gh.g u) c.t c.j = elim (ℕ_discrete c.t u) [
      | yes e ↦ ap (λ (z : ℕ). take (suc c.j) (gh.g z)) (sym e)
      | no other ↦
          Committed-later n cfg.nodes gh w c.t c.j u good c.committed
            (omega (arith, early, le, other)) real
    ] in
    (
      c.entry,
      ap (λ l. get_elem? l x.index) own
          ∙ get_elem?-agree x.index (suc c.j) (gh.g u) (gh.g c.t) within has
          ∙ c.there,
      c.same,
    )
