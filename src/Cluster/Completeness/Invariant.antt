-- ===== src/Cluster/Completeness/Invariant.antt =====
-- hw3/raft/raft.go: all that holds of a cluster with its messages, in every reachable state.

use mathlib.Core.Path.{subst}
use cmsc.Prelude.{
  ℕ, zero, suc, ◌≤◌, ◌≡◌, refl, sym, ap, ◌∙◌, inl, inr, false, some, List, [], ◌∷◌, arith, length,
  get_elem?, ◌==◌, nat_eq, ◌&&◌, Bool-cases,
}
use cmsc.Raft.Log.{LogEntry, sentinel}
use cmsc.Raft.Config.{NodeConfig, ClusterConfig}
use cmsc.Raft.Node.{new_paused}
use cmsc.Raft.Step.Sound.{Sound}
use cmsc.Raft.Commit.{apply_step}
use cmsc.Cluster.{set2, Ballot, Cluster, ClusterStep, act, elect, ask, count, init}
use cmsc.Cluster.Nodes.{stand-Grows}
use cmsc.Cluster.Quiet.{start_election-Stands}
use cmsc.Cluster.Safety.{Inv, Reach-Inv}
use cmsc.Cluster.Network.{
  World, WorldStep, WorldReach, begin, onward, calls, polls, sends, delivers, returns, emits,
  IsPoll,
}
use cmsc.Cluster.Network.Effect.{Act-Effect, vote_reply-Effect, apply_step-Effect}
use cmsc.Cluster.Network.Messages.{append_args-GoodMessage}
use cmsc.Cluster.Network.Matching.{WorldReach-ClusterReach, ClusterReach-Sound, init-Tracks}
use cmsc.Cluster.Completeness.{Ghost}
use cmsc.Cluster.Completeness.Stance.{Act-Modest, vote_reply-Modest, apply_step-Modest}
use cmsc.Cluster.Completeness.Casting.{Stood}
use cmsc.Cluster.Completeness.Majority.{IsNumbered}
use cmsc.Cluster.Completeness.Promises.{append_args-Promise, apply_step-Handed}
use cmsc.Cluster.Completeness.Turns.{Effect-Whole, elect-Whole, ask-Whole}
use cmsc.Cluster.Completeness.Deliveries.{delivers-Whole}
use cmsc.Cluster.Completeness.Reaches.{Good, sends-Good, emits-Good, returns-Good}

-- The ballots' arguments stay where one ballot is filled in.
set2_args :
    (ballot : ℕ → ℕ → Ballot) (i t : ℕ) (b : Ballot)
    → b.args ≡ (ballot i t).args
    → (c u : ℕ) → (set2 ballot i t b c u).args ≡ (ballot c u).args
set2_args ballot i t b same c u = elim (Bool-cases (c == i && u == t)) [
  | inr e ↦ rw e refl
  | inl e ↦
      let p : i ≡ c = ground arith in
      let q : t ≡ u = ground arith in
      rw e (same ∙ ap (λ (z : ℕ). (ballot z t).args) p ∙ ap (λ (z : ℕ). (ballot c z).args) q)
]

module _ (n : ℕ) (ps : List NodeConfig) (gh : Ghost) (w : World) (num : IsNumbered 0 ps)
    (size : length ps ≡ n) (sound : (i : ℕ) → Sound (w.cluster.node i)) (inv : Inv n w.cluster)
    (good : Good n ps gh w) where
  poll-Good :
      (c' : Cluster) (st : ClusterStep n w.cluster c')
      → IsPoll st
      → Inv n c'
      → (gh' : Ghost) × Good n ps gh' (record w { cluster = c' })
  poll-Good c' (act i rf' a e) p after = absurd p
  poll-Good c' (elect i draw args rf' lt run e) p after = rw e (
      elect-Whole n ps gh w.cluster.node w.cluster.history w.cluster.ballot w.sent w.answers
        w.applied i draw 1 _ args rf' lt run inv.nodes (sound i).log_wf
        (stand-Grows n w.cluster.node w.cluster.history inv.nodes i rf' args
          (start_election-Stands draw args (w.cluster.node i) rf' run))
        good)
  poll-Good c' (ask i t v d d' args reply rf' lt asks un run e) p after =
      let (at_t, by_i) = (inv.ballots i t).asks args asks in
      let stood : Stood gh (w.cluster.node args.candidate_id) args.candidate_id args.term args =
        subst (λ (z : ℕ). Stood gh (w.cluster.node z) z args.term args) (sym by_i)
          (subst (λ (u : ℕ). Stood gh (w.cluster.node i) i u args) (sym at_t)
            (good.standing i t args asks)) in
      rw e (
        gh,
        ask-Whole n ps gh w.cluster.node w.cluster.history w.cluster.ballot w.sent w.answers
            w.applied v d d' args reply rf' run inv.nodes (sound v).log_wf stood good _
            (set2_args w.cluster.ballot i t _ refl),
      )
  poll-Good c' (count i t v draw has reply rf' lt got run e) p after = rw e (
      Effect-Whole n ps gh w.cluster.node w.cluster.history w.cluster.ballot _ w.sent w.answers
        w.applied i rf' inv.nodes (rw e at after.nodes) (set2_args w.cluster.ballot i t _ refl)
        (vote_reply-Effect draw t (w.cluster.ballot i t).votes has reply (w.cluster.node i) rf' run)
        (vote_reply-Modest draw t (w.cluster.ballot i t).votes has reply (w.cluster.node i) rf' run)
        good)

  step-Good : {w' : World} → WorldStep n w w' → Inv n w'.cluster → (gh' : Ghost) × Good n ps gh' w'
  step-Good (calls i rf' a l e) after = rw e (
      Effect-Whole n ps gh w.cluster.node w.cluster.history w.cluster.ballot w.cluster.ballot w.sent
        w.answers w.applied i rf' inv.nodes (rw e at after.nodes) (λ c t. refl) (Act-Effect a l)
        (Act-Modest a l) good)
  step-Good (polls c' st p e) after = rw e (poll-Good c' st p (rw e at after))
  step-Good (sends i peer args run e) after =
      let message =
        append_args-GoodMessage gh.g peer (w.cluster.node i) args run (sound i).log_wf
          ((good.tracks.logs i).2) in
      rw e (
        gh,
        sends-Good n ps gh w good args message (
            append_args-Promise n gh peer (w.cluster.node i) args run message
              ((good.tracks.logs i).2) ((good.commits.ledgers i).safe)),
      )
  step-Good (delivers i k draw args reply rf' there run e) after = rw e (
      delivers-Whole n ps gh w.cluster.node w.cluster.history w.cluster.ballot w.sent w.answers
        w.applied i draw args reply rf' run inv.nodes (sound i).log_wf
        (good.tracks.good k args there) (good.commits.messages k args there) good)
  step-Good (returns k draw a again rf' there run e) after = rw e (
      returns-Good n ps gh w draw a again rf' num size run (sound a.request.leader_id) inv.nodes
        (rw e at after.nodes) (good.commits.answered k a there) good)
  step-Good (emits i e) after =
      let rf = w.cluster.node i in
      let handed =
        emits-Good n ps gh w good i (apply_step rf).1 (λ msg h.
          apply_step-Handed n gh rf msg (sound i).log_wf (good.commits.ledgers i).safe h) in
      rw e (
        Effect-Whole n ps gh w.cluster.node w.cluster.history w.cluster.ballot w.cluster.ballot
          w.sent w.answers _ i (apply_step rf).0 inv.nodes (rw e at after.nodes) (λ c t. refl)
          (apply_step-Effect rf) (apply_step-Modest rf) handed)

no_ghost : Ghost
no_ghost = record {
  g = λ _. [];
  first = λ _. [];
  stood = λ _ _. [];
  acked = λ _ _. 0;
  quorum = λ _ _. false;
}

sentinel_bound : (i : ℕ) (x : LogEntry) → get_elem? (sentinel ∷ []) i ≡ some x → x.term ≤ 0
sentinel_bound zero x h = ground (arith, h)
sentinel_bound (suc i) x h = cc

init-Good :
    (cfg : ClusterConfig)
    → Good
        (length cfg.nodes)
        cfg.nodes
        no_ghost
        (record { cluster = init cfg; sent = []; answers = []; applied = [] })
unfolding new_paused no_ghost
init-Good cfg = record {
  tracks = init-Tracks cfg;
  terms = record {
    ascends = λ t i k x y le hx hy. cc;
    top = λ t i x h. cc;
    none_at_zero = refl;
    nodes = λ v. record {
      bound = λ i x h. sentinel_bound i x h;
      stands = λ either. elim either [ inl l ↦ cc | inr c ↦ cc ];
    };
  };
  votes = record {
    prefix = λ t. ([], refl);
    inside = λ v t. omega arith;
    nodes = λ v. record {
      past = λ t pos. absurd (omega (arith, pos));
      has = λ t j lt own. absurd (omega (arith, lt));
      stood_as = λ cand empty. cc;
    };
    voted = λ v t c h. cc;
    votes = λ v u c empty h. cc;
    won = λ u. inl refl;
  };
  standing = λ c t args h. cc;
  commits = record {
    ledgers = λ v. record {
      safe = λ pos. absurd (omega (arith, pos));
      own = λ l. cc;
      matched = λ p x l. cc;
      member = λ either. elim either [ inl l ↦ cc | inr c ↦ cc ];
      peers = refl;
    };
    messages = λ k m h. cc;
    answered = λ k a h. cc;
    handed = λ k i msg h. cc;
  };
}

pub WorldReach-Good :
    (cfg : ClusterConfig) {w : World}
    → IsNumbered 0 cfg.nodes
    → WorldReach cfg w
    → (gh : Ghost) × Good (length cfg.nodes) cfg.nodes gh w
WorldReach-Good cfg num begin = (no_ghost, init-Good cfg)
WorldReach-Good cfg num (onward {w} r st) =
    let before = WorldReach-ClusterReach cfg r in
    let after = WorldReach-ClusterReach cfg (onward r st) in
    let (gh, good) = WorldReach-Good cfg num r in
    step-Good (length cfg.nodes) cfg.nodes gh w num refl (ClusterReach-Sound cfg before)
      (Reach-Inv cfg before) good st (Reach-Inv cfg after)
