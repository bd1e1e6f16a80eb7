-- ===== src/Cluster/Safety.antt =====
-- Election safety: a term has at most one leader, in every reachable state of the cluster.
use mathlib.Core.Path.{subst₂}
use cmsc.Prelude.{
  ℕ, ◌<◌, ◌≡◌, refl, true, false, ◌&&◌, ◌⊎◌, inl, inr, arith, Bool-cases, some, ◌==◌, nat_eq,
  if◌then◌else◌, length, ok,
}
use cmsc.Raft.Config.{ClusterConfig}
use cmsc.Raft.Node.{Raft, new_paused, leader}
use cmsc.Raft.Vote.{RequestVoteArgs, RequestVoteReply, request_vote}
use cmsc.Cluster.{
  set1, set2, Cluster, Ballot, init, ClusterStep, act, elect, ask, count, ClusterReach, start,
  later, settled, replied, unasked,
}
use cmsc.Cluster.Quiet.{
  IsQuiet, Act-IsQuiet, request_vote-Granted, request_vote-IsQuiet, start_election-Stands, Counted,
  vote_reply-cases,
}
use cmsc.Cluster.History.{History, majority_unique}
use cmsc.Cluster.Nodes.{
  Nodes, quiet-Nodes, grant-Grows, grant-Nodes, stand-Grows, stand-Nodes, count-Nodes,
}
use cmsc.Cluster.Ballots.{
  GoodBallot, GoodBallot-Grows, votes-le-backers, open-GoodBallot, no_ballot-GoodBallot,
  reply-GoodBallot, drop-GoodBallot, add-GoodBallot,
}

pub record Inv (n : ℕ) (c : Cluster) : Type 0 where
  pub nodes : Nodes n c.node c.history
  pub ballots : (i t : ℕ) → GoodBallot n c.history i t (c.ballot i t)

-- One ballot is replaced.
set2-GoodBallot :
    (n : ℕ) (h : History) (ballot : ℕ → ℕ → Ballot) (i t : ℕ) (b : Ballot)
    → ((j u : ℕ) → GoodBallot n h j u (ballot j u))
    → GoodBallot n h i t b
    → (j u : ℕ) → GoodBallot n h j u (set2 ballot i t b j u)
set2-GoodBallot n h ballot i t b all one j u = elim (Bool-cases (j == i && u == t)) [
  | inr e ↦ rw e (all j u)
  | inl e ↦
      let p : i ≡ j = ground arith in
      let q : t ≡ u = ground arith in rw e (subst₂ (λ a k. GoodBallot n h a k b) p q one)
]

init-Inv : (cfg : ClusterConfig) → Inv (length cfg.nodes) (init cfg)
unfolding new_paused
init-Inv cfg = record {
  nodes = record {
    ids = λ i. refl;
    sizes = λ i. refl;
    fresh = λ v t h. refl;
    agree = λ v. refl;
    leads = λ i h. cc;
  };
  ballots = λ i t. no_ballot-GoodBallot (length cfg.nodes) _ i t;
}

ask-Inv :
    (n : ℕ) (c : Cluster) (i t v d d' : ℕ) (args : RequestVoteArgs) (reply : RequestVoteReply)
    (rf' : Raft)
    → (c.ballot i t).args ≡ some args
    → (c.ballot i t).slot v ≡ unasked
    → request_vote d d' args (c.node v) ≡ ok (rf', reply)
    → Inv n c
    → (reply.vote_granted ≡ true) ⊎ (reply.vote_granted ≡ false)
    → Inv n (record {
      node = set1 c.node v rf';
      ballot =
          set2 c.ballot i t
            (record (c.ballot i t) { slot = set1 (c.ballot i t).slot v (replied reply) });
      history =
          if reply.vote_granted
          then set2 c.history v args.term (some args.candidate_id)
          else c.history;
    })
ask-Inv n c i t v d d' args reply rf' asks un run inv (inl y) =
    let g = request_vote-Granted d d' args reply (c.node v) rf' run y in
    let h' = set2 c.history v args.term (some args.candidate_id) in
    let grows = grant-Grows n c.node c.history inv.nodes v rf' args g in
    let ours = (inv.ballots i t).asks args asks in
    let all =
      λ (j u : ℕ). GoodBallot-Grows n c.history h' j u (c.ballot j u) grows (inv.ballots j u) in
    simp y (record {
      nodes = grant-Nodes n c.node c.history inv.nodes v rf' args g;
      ballots = set2-GoodBallot n h' c.ballot i t _ all (
          reply-GoodBallot n h' i t (c.ballot i t) (all i t) v reply un
            (λ _. ground (arith, ours)));
    })
ask-Inv n c i t v d d' args reply rf' asks un run inv (inr z) = simp z (record {
  nodes =
      quiet-Nodes n c.node c.history inv.nodes v rf'
        (request_vote-IsQuiet d d' args reply (c.node v) rf' run z);
  ballots = set2-GoodBallot n c.history c.ballot i t _ inv.ballots (
      reply-GoodBallot n c.history i t (c.ballot i t) (inv.ballots i t) v reply un
        (λ y. ground arith));
})

count-Inv :
    (n : ℕ) (c : Cluster) (i t v has : ℕ) (reply : RequestVoteReply) (rf' : Raft)
    → v < n
    → (c.ballot i t).slot v ≡ replied reply
    → Inv n c
    → (IsQuiet (c.node i) rf' × (has ≡ (c.ballot i t).votes))
      ⊎ Counted t (c.ballot i t).votes has reply (c.node i) rf'
    → Inv n (record c {
      node = set1 c.node i rf';
      ballot = set2 c.ballot i t (record (c.ballot i t) {
        votes = has;
        slot = set1 (c.ballot i t).slot v (settled (c.ballot i t).votes has);
      });
    })
count-Inv n c i t v has reply rf' lt got inv (inl (quiet, same)) = record {
  nodes = quiet-Nodes n c.node c.history inv.nodes i rf' quiet;
  ballots =
      set2-GoodBallot n c.history c.ballot i t _ inv.ballots
        (drop-GoodBallot n c.history i t (c.ballot i t) (inv.ballots i t) v reply has got same);
}
count-Inv n c i t v has reply rf' lt got inv (inr k) =
    let good =
      add-GoodBallot n c.history i t (c.ballot i t) (inv.ballots i t) v reply has lt got k.granted
        k.more in
    record {
      nodes =
          count-Nodes n c.node c.history inv.nodes i rf' t (c.ballot i t).votes has reply k
            (votes-le-backers n c.history i t _ good);
      ballots = set2-GoodBallot n c.history c.ballot i t _ inv.ballots good;
    }

Step-Inv : (n : ℕ) {c c' : Cluster} → ClusterStep n c c' → Inv n c → Inv n c'
Step-Inv n {c} (act i rf' a e) inv = rw e (record {
  nodes = quiet-Nodes n c.node c.history inv.nodes i rf' (Act-IsQuiet a);
  ballots = inv.ballots;
})
Step-Inv n {c} (elect i draw args rf' lt run e) inv =
    let s = start_election-Stands draw args (c.node i) rf' run in
    let h' = set2 c.history i rf'.current_term (some i) in
    let grows = stand-Grows n c.node c.history inv.nodes i rf' args s in
    rw e (record {
      nodes = stand-Nodes n c.node c.history inv.nodes i rf' args s;
      ballots =
          set2-GoodBallot n h' c.ballot i rf'.current_term _
            (λ j u. GoodBallot-Grows n c.history h' j u (c.ballot j u) grows (inv.ballots j u))
            (open-GoodBallot n h' i rf'.current_term args lt s.args_term
              (ground (arith, s.args_id, inv.nodes.ids i)) (ground arith));
    })
Step-Inv n {c} (ask i t v d d' args reply rf' lt asks un run e) inv =
    rw e (ask-Inv n c i t v d d' args reply rf' asks un run inv (Bool-cases reply.vote_granted))
Step-Inv n {c} (count i t v draw has reply rf' lt got run e) inv = rw e (
    count-Inv n c i t v has reply rf' lt got inv
      (vote_reply-cases draw t (c.ballot i t).votes has reply (c.node i) rf' run))

pub Reach-Inv : (cfg : ClusterConfig) {c : Cluster} → ClusterReach cfg c → Inv (length cfg.nodes) c
Reach-Inv cfg start = init-Inv cfg
Reach-Inv cfg (later r st) = Step-Inv (length cfg.nodes) st (Reach-Inv cfg r)

-- Election safety. In a cluster that starts with every node paused at its own id, after any
-- interleaving of elections, votes, counted replies, and other calls with whatever arguments, two
-- nodes that lead in the same term are the same node.
pub election_safety :
    (cfg : ClusterConfig) (c : Cluster) (i j : ℕ)
    → ClusterReach cfg c
    → (c.node i).state ≡ leader
    → (c.node j).state ≡ leader
    → (c.node i).current_term ≡ (c.node j).current_term
    → i ≡ j
election_safety cfg c i j r li lj same =
    let inv = (Reach-Inv cfg r).nodes in
    majority_unique (length cfg.nodes) c.history (c.node i).current_term i j
      (inv.leads i (ground arith)) (rw same (inv.leads j (ground arith)))
