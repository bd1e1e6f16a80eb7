-- ===== src/Cluster/Network/Matching.antt =====
-- Log matching, in every reachable state of a cluster with its messages.
use mathlib.Core.Path.{subst}
use cmsc.Prelude.{
  ℕ, zero, suc, ◌≡◌, refl, sym, ap, ◌∙◌, ◌⊎◌, inl, inr, List, [], ◌∷◌, some, arith, ok, ◌==◌,
  nat_eq, nat_beq_iff, if◌then◌else◌, Bool-cases, get_elem?, take, length,
}
use cmsc.Raft.Config.{ClusterConfig}
use cmsc.Raft.Log.{Log, LogEntry}
use cmsc.Raft.Log.WellFormed.{IsWf}
use cmsc.Raft.Node.{Raft, new_paused}
use cmsc.Raft.Step.{Step, Reach, acts, follows, replies, applies, votes, elects, counts, here, next}
use cmsc.Raft.Step.Sound.{Sound, Reach-Sound}
use cmsc.Raft.Replicate.{AppendEntriesArgs}
use cmsc.Raft.Commit.{apply_step}
use cmsc.Raft.Vote.{RequestVoteArgs, RequestVoteReply, request_vote}
use cmsc.Cluster.{
  set1, set2, Cluster, ClusterStep, ClusterReach, start, later, act, elect, ask, count, init,
}
use cmsc.Cluster.History.{History, Grows}
use cmsc.Cluster.Nodes.{Nodes, grant-Grows, stand-Grows}
use cmsc.Cluster.Quiet.{request_vote-Granted, start_election-Stands}
use cmsc.Cluster.Safety.{Reach-Inv}
use cmsc.Cluster.Network.{
  World, WorldStep, WorldReach, begin, onward, calls, polls, sends, delivers, returns, emits,
  IsPoll,
}
use cmsc.Cluster.Network.Traced.{Leaders, Traced-meet}
use cmsc.Cluster.Network.Effect.{
  Effect, Act-Effect, request_vote-Effect, start_election-Effect, vote_reply-Effect,
  append_entries-Steady, append_reply-Effect, apply_step-Effect,
}
use cmsc.Cluster.Network.Messages.{GoodMessage, append_args-GoodMessage}
use cmsc.Cluster.Network.Delivery.{kept-Fits, delivery-Fits, Headed-take_one}
use cmsc.Cluster.Network.Tracks.{Tracks, still-Tracks, led-Tracks}

-- A world moves as its cluster does, if that moves at all.
WorldStep-ClusterStep :
    (n : ℕ) {w w' : World}
    → WorldStep n w w'
    → ClusterStep n w.cluster w'.cluster ⊎ (w'.cluster ≡ w.cluster)
WorldStep-ClusterStep n (calls i rf' a l e) = inl (act i rf' a (ap (λ (u : World). u.cluster) e))
WorldStep-ClusterStep n {w} (polls c' st p e) =
    inl (subst (ClusterStep n w.cluster) (sym (ap (λ (u : World). u.cluster) e)) st)
WorldStep-ClusterStep n (sends i peer args run e) = inr (ap (λ (u : World). u.cluster) e)
WorldStep-ClusterStep n (delivers i k draw args reply rf' there run e) =
    inl (act i rf' (follows draw args reply run) (ap (λ (u : World). u.cluster) e))
WorldStep-ClusterStep n (returns k draw a again rf' there run e) = inl (
    act a.request.leader_id rf' (replies draw a.peer a.request (some a.reply) again run)
      (ap (λ (u : World). u.cluster) e))
WorldStep-ClusterStep n {w} (emits i e) =
    inl (act i (apply_step (w.cluster.node i)).0 (applies refl) (ap (λ (u : World). u.cluster) e))

pub WorldReach-ClusterReach :
    (cfg : ClusterConfig) {w : World} → WorldReach cfg w → ClusterReach cfg w.cluster
WorldReach-ClusterReach cfg begin = start
WorldReach-ClusterReach cfg (onward r st) = elim (WorldStep-ClusterStep (length cfg.nodes) st) [
  | inl moved ↦ later (WorldReach-ClusterReach cfg r) moved
  | inr same ↦ subst (ClusterReach cfg) (sym same) (WorldReach-ClusterReach cfg r)
]

set1-Reach :
    (cfg : ClusterConfig) (node : ℕ → Raft) (i : ℕ) (rf' : Raft)
    → Step (node i) rf'
    → ((j : ℕ) → Reach (new_paused j cfg) (node j))
    → (j : ℕ) → Reach (new_paused j cfg) (set1 node i rf' j)
set1-Reach cfg node i rf' st all j = elim (Bool-cases (j == i)) [
  | inl e ↦
      let same : i ≡ j = sym ((nat_beq_iff j i).0 e) in
      rw e (next (all j) (subst (λ (k : ℕ). Step (node k) rf') same st))
  | inr e ↦ rw e (all j)
]

-- Every node of a cluster is reached by calls on it.
ClusterReach-Reach :
    (cfg : ClusterConfig) {c : Cluster}
    → ClusterReach cfg c
    → (i : ℕ) → Reach (new_paused i cfg) (c.node i)
ClusterReach-Reach cfg start i = here
ClusterReach-Reach cfg (later {c} r (act k rf' a e)) i =
    rw e (set1-Reach cfg c.node k rf' (acts a) (ClusterReach-Reach cfg r) i)
ClusterReach-Reach cfg (later {c} r (elect k draw args rf' lt run e)) i =
    rw e (set1-Reach cfg c.node k rf' (elects draw (some args) run) (ClusterReach-Reach cfg r) i)
ClusterReach-Reach cfg (later {c} r (ask k t v d d' args reply rf' lt asks un run e)) i =
    rw e (set1-Reach cfg c.node v rf' (votes d d' args reply run) (ClusterReach-Reach cfg r) i)
ClusterReach-Reach cfg (later {c} r (count k t v draw has reply rf' lt got run e)) i = rw e (
    set1-Reach cfg c.node k rf' (counts draw t (c.ballot k t).votes has (some reply) run)
      (ClusterReach-Reach cfg r) i)

pub ClusterReach-Sound :
    (cfg : ClusterConfig) {c : Cluster} → ClusterReach cfg c → (i : ℕ) → Sound (c.node i)
ClusterReach-Sound cfg r i = Reach-Sound i cfg (ClusterReach-Reach cfg r i)

ClusterReach-IsWf :
    (cfg : ClusterConfig) {c : Cluster} → ClusterReach cfg c → (i : ℕ) → IsWf (c.node i).log
ClusterReach-IsWf cfg r i = (ClusterReach-Sound cfg r i).log_wf

pub Grows-refl : (h : History) → Grows h h
Grows-refl h v t c e = e

-- A call on one node with an effect on its log that is known.
Effect-Tracks :
    (n : ℕ) (g : Leaders) (node : ℕ → Raft) (h h' : History) (sent : List AppendEntriesArgs) (i : ℕ)
    (rf' : Raft)
    → Grows h h'
    → Nodes n (set1 node i rf') h'
    → Effect (node i) rf'
    → Tracks n g node h sent
    → (g' : Leaders) × Tracks n g' (set1 node i rf') h' sent
Effect-Tracks n g node h h' sent i rf' grows after (steady, inl (same, leads)) tr = (
  g,
  still-Tracks n g node h h' sent i rf' grows steady
      (kept-Fits g (node i) rf' (tr.logs i) (ap (λ (l : Log). l.entries) same) leads) tr,
)
Effect-Tracks n g node h h' sent i rf' grows after (steady, inr led) tr =
    (_, led-Tracks n g node h h' sent i rf' grows steady led after tr)

pub ask_Grows :
    (n : ℕ) (c : Cluster) (v d d' : ℕ) (args : RequestVoteArgs) (reply : RequestVoteReply)
    (rf' : Raft)
    → request_vote d d' args (c.node v) ≡ ok (rf', reply)
    → Nodes n c.node c.history
    → Grows c.history (
        if reply.vote_granted
        then set2 c.history v args.term (some args.candidate_id)
        else c.history)
ask_Grows n c v d d' args reply rf' run now = elim (Bool-cases reply.vote_granted) [
  | inr z ↦ rw z (Grows-refl c.history)
  | inl y ↦ rw y (
      grant-Grows n c.node c.history now v rf' args
        (request_vote-Granted d d' args reply (c.node v) rf' run y))
]

poll-Tracks :
    (n : ℕ) (g : Leaders) (c c' : Cluster) (sent : List AppendEntriesArgs) (st : ClusterStep n c c')
    → IsPoll st
    → Nodes n c.node c.history
    → Nodes n c'.node c'.history
    → Tracks n g c.node c.history sent
    → (g' : Leaders) × Tracks n g' c'.node c'.history sent
poll-Tracks n g c c' sent (act i rf' a e) p now after tr = absurd p
poll-Tracks n g c c' sent (elect i draw args rf' lt run e) p now after tr =
    let s = start_election-Stands draw args (c.node i) rf' run in
    rw e (
      Effect-Tracks n g c.node c.history _ sent i rf'
        (stand-Grows n c.node c.history now i rf' args s) (rw e at after)
        (start_election-Effect draw args (c.node i) rf' run) tr)
poll-Tracks n g c c' sent (ask i t v d d' args reply rf' lt asks un run e) p now after tr = rw e (
    Effect-Tracks n g c.node c.history _ sent v rf' (ask_Grows n c v d d' args reply rf' run now)
      (rw e at after) (request_vote-Effect d d' args reply (c.node v) rf' run) tr)
poll-Tracks n g c c' sent (count i t v draw has reply rf' lt got run e) p now after tr = rw e (
    Effect-Tracks n g c.node c.history _ sent i rf' (Grows-refl c.history) (rw e at after)
      (vote_reply-Effect draw t (c.ballot i t).votes has reply (c.node i) rf' run) tr)

Step-Tracks :
    (n : ℕ) (g : Leaders) {w w' : World}
    → WorldStep n w w'
    → ((i : ℕ) → IsWf (w.cluster.node i).log)
    → Nodes n w.cluster.node w.cluster.history
    → Nodes n w'.cluster.node w'.cluster.history
    → Tracks n g w.cluster.node w.cluster.history w.sent
    → (g' : Leaders) × Tracks n g' w'.cluster.node w'.cluster.history w'.sent
Step-Tracks n g {w} (calls i rf' a l e) wf now after tr = rw e (
    Effect-Tracks n g w.cluster.node w.cluster.history w.cluster.history w.sent i rf'
      (Grows-refl w.cluster.history) (rw e at after) (Act-Effect a l) tr)
Step-Tracks n g {w} (polls c' st p e) wf now after tr =
    rw e (poll-Tracks n g w.cluster c' w.sent st p now (rw e at after) tr)
Step-Tracks n g {w} (sends i peer args run e) wf now after tr = rw e (
  g,
  record {
    logs = tr.logs;
    chain = tr.chain;
    tops = tr.tops;
    owner = tr.owner;
    good =
        sent_good (append_args-GoodMessage g peer (w.cluster.node i) args run (wf i) (tr.logs i).2);
  },
)
  where
    sent_good :
        GoodMessage g args
        → (k : ℕ) (m : AppendEntriesArgs) → get_elem? (args ∷ w.sent) k ≡ some m
        → GoodMessage g m
    sent_good fresh zero m there =
        let same : args ≡ m = ground arith in subst (GoodMessage g) same fresh
    sent_good fresh (suc k) m there = tr.good k m there
Step-Tracks n g {w} (delivers i k draw args reply rf' there run e) wf now after tr = rw e (
  g,
  still-Tracks n g w.cluster.node w.cluster.history w.cluster.history w.sent i rf'
      (Grows-refl w.cluster.history)
      (append_entries-Steady draw args reply (w.cluster.node i) rf' run).0
      (delivery-Fits g args draw reply (w.cluster.node i) rf' run (wf i) (tr.good k args there)
        (tr.chain args.term) (tr.tops args.term) (tr.logs i))
      tr,
)
Step-Tracks n g {w} (returns k draw a again rf' there run e) wf now after tr =
    let i = a.request.leader_id in
    rw e (
      Effect-Tracks n g w.cluster.node w.cluster.history w.cluster.history w.sent i rf'
        (Grows-refl w.cluster.history) (rw e at after)
        (append_reply-Effect draw a.peer a.request (some a.reply) again (w.cluster.node i) rf' run)
        tr)
Step-Tracks n g {w} (emits i e) wf now after tr = rw e (
    Effect-Tracks n g w.cluster.node w.cluster.history w.cluster.history w.sent i
      (apply_step (w.cluster.node i)).0 (Grows-refl w.cluster.history) (rw e at after)
      (apply_step-Effect (w.cluster.node i)) tr)

pub init-Tracks :
    (cfg : ClusterConfig)
    → Tracks (length cfg.nodes) (λ _. []) (init cfg).node (init cfg).history []
unfolding new_paused
init-Tracks cfg = record {
  logs = λ i. (λ k e h. ground arith, refl, λ h. cc);
  chain = λ t k e h. cc;
  tops = λ t. inl refl;
  owner = λ t. inl refl;
  good = λ k m h. cc;
}

pub WorldReach-Tracks :
    (cfg : ClusterConfig) {w : World}
    → WorldReach cfg w
    → (g : Leaders) × Tracks (length cfg.nodes) g w.cluster.node w.cluster.history w.sent
WorldReach-Tracks cfg begin = (λ _. [], init-Tracks cfg)
WorldReach-Tracks cfg (onward r st) =
    let before = WorldReach-ClusterReach cfg r in
    let after = WorldReach-ClusterReach cfg (onward r st) in
    let (g, tr) = WorldReach-Tracks cfg r in
    Step-Tracks (length cfg.nodes) g st (ClusterReach-IsWf cfg before) (Reach-Inv cfg before).nodes
      (Reach-Inv cfg after).nodes tr

-- Log matching. In a cluster that starts with every node paused at its own id, and whose nodes get
-- only requests that a node sent, late, twice or never, after any interleaving of its steps: if the
-- logs of two nodes have entries of the same term at an index, the logs are the same up to there.
pub log_matching :
    (cfg : ClusterConfig) (w : World) (i j k : ℕ) (e e' : LogEntry)
    → WorldReach cfg w
    → get_elem? (w.cluster.node i).log.entries k ≡ some e
    → get_elem? (w.cluster.node j).log.entries k ≡ some e'
    → e.term ≡ e'.term
    → take (suc k) (w.cluster.node i).log.entries ≡ take (suc k) (w.cluster.node j).log.entries
log_matching cfg w i j zero e e' r mine theirs same =
    let (g, tr) = WorldReach-Tracks cfg r in
    Headed-take_one (w.cluster.node i).log.entries (tr.logs i).1
    ∙ sym (Headed-take_one (w.cluster.node j).log.entries (tr.logs j).1)
log_matching cfg w i j (suc k) e e' r mine theirs same =
    let (g, tr) = WorldReach-Tracks cfg r in
    Traced-meet g (w.cluster.node i).log.entries (w.cluster.node j).log.entries k e e' (tr.logs i).0
      (tr.logs j).0 mine theirs same
