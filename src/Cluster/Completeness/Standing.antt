-- ===== src/Cluster/Completeness/Standing.antt =====
-- hw3/raft/raft.go: `startElection` remembers the log with which the candidate stands.
use mathlib.Core.Path.{subst}
use mathlib.Core.List.{append-nil}
use cmsc.Prelude.{
  ℕ, suc, ◌≤◌, ◌<◌, ◌≡◌, refl, sym, ap, ◌∙◌, ◌⊎◌, inl, inr, some, [], arith, ok, ◌&&◌, ◌==◌, nat_eq,
  nat_beq_iff, Bool-cases,
}
use cmsc.Raft.Log.{Log, last_index}
use cmsc.Raft.Log.WellFormed.{IsWf}
use cmsc.Raft.Node.{Raft}
use cmsc.Raft.Vote.{RequestVoteArgs, start_election}
use cmsc.Cluster.{set1, set2, Ballot, Slot}
use cmsc.Cluster.History.{History}
use cmsc.Cluster.Nodes.{Nodes}
use cmsc.Cluster.Network.Traced.{Traced, Headed, Extends}
use cmsc.Cluster.Network.Delivery.{Fits}
use cmsc.Cluster.Completeness.{Ghost, Agrees, Bad}
use cmsc.Cluster.Completeness.Leader.{Ends}
use cmsc.Cluster.Completeness.Voters.{Votes, Holds, Moves, still_has, set1_term}
use cmsc.Cluster.Completeness.Moving.{Moves-Votes, Nodes-cast}
use cmsc.Cluster.Completeness.Casting.{Stood, Standing, Stood-later, last-Ends, vote-Votes}
use cmsc.Cluster.Completeness.Stance.{start_election-args}
use cmsc.Cluster.Completeness.Terms.{Placed}

pub Standing-later :
    (gh gh' : Ghost) (node node' : ℕ → Raft) (ballot ballot' : ℕ → ℕ → Ballot)
    → Extends gh.g gh'.g
    → ((v : ℕ) → (node v).current_term ≤ (node' v).current_term)
    → ((c t : ℕ) (args : RequestVoteArgs)
        → (ballot' c t).args ≡ some args
        → Stood gh' (node' c) c t args
          ⊎ (((ballot c t).args ≡ some args) × (gh'.stood c t ≡ gh.stood c t)))
    → Standing gh node ballot
    → Standing gh' node' ballot'
Standing-later gh gh' node node' ballot ballot' ext later from st c t args e =
    elim (from c t args e) [
      | inl s ↦ s
      | inr (old, same) ↦
          Stood-later gh gh' (node c) (node' c) c t args ext same (later c) (st c t args old)
    ]

-- The ballots' arguments stay.
pub Standing-kept :
    (gh gh' : Ghost) (node : ℕ → Raft) (i : ℕ) (rf' : Raft) (ballot ballot' : ℕ → ℕ → Ballot)
    → Extends gh.g gh'.g
    → (node i).current_term ≤ rf'.current_term
    → ((c t : ℕ) → (ballot' c t).args ≡ (ballot c t).args)
    → ((c t : ℕ) → gh'.stood c t ≡ gh.stood c t)
    → Standing gh node ballot
    → Standing gh' (set1 node i rf') ballot'
Standing-kept gh gh' node i rf' ballot ballot' ext later same stood =
    Standing-later gh gh' node (set1 node i rf') ballot ballot' ext (set1_term node i rf' later)
      (λ c t args e. inr (sym (same c t) ∙ e, stood c t))

module _ (n : ℕ) (gh : Ghost) (node : ℕ → Raft) (h : History) (ballot : ℕ → ℕ → Ballot)
    (i draw votes : ℕ) (slot : ℕ → Slot) (args : RequestVoteArgs) (rf' : Raft)
    (run : start_election draw (node i) ≡ ok (rf', some args)) (now : Nodes n node h)
    (wf : IsWf (node i).log) (placed : Placed (node i)) (fits : Fits gh.g (node i))
    (vs : Votes n gh node h) where
  abbrev term : ℕ
  term = rf'.current_term

  abbrev pub standing_ghost : Ghost
  standing_ghost = record gh { stood = set2 gh.stood i term (node i).log.entries }

  later : (node i).current_term < term
  later = omega (arith, (start_election-args draw args (node i) rf' run).3)

  stands : Moves gh standing_ghost i term
  stands = record {
    grown = record { longer = λ t. ([], sym (append-nil (gh.g t))); firsts = λ t r. refl };
    same_quorum = λ t r. refl;
    same_stood = λ c t e. rw e refl;
    others = λ v t e. refl;
  }

  own_log : standing_ghost.stood i term ≡ (node i).log.entries
  own_log = ground (arith, nat_beq_iff i i, nat_beq_iff term term)

  candidate-Holds : Holds standing_ghost i rf'
  candidate-Holds =
      let (same, _, _, _) = start_election-args draw args (node i) rf' run in
      record {
        past = λ t pos. omega (arith, (vs.nodes i).past t pos, later);
        has = λ t j lt own.
            still_has gh standing_ghost i term stands vs.inside rf'.log.entries t j
              (suc (node i).current_term) (suc term) (omega (arith, lt, vs.inside i t))
              (omega (arith, later))
              (subst
                (λ (l : Log). Agrees gh.g l.entries t j ⊎ Bad gh t j (suc (node i).current_term))
                (sym same) ((vs.nodes i).has t j lt own));
        stood_as = λ cand empty. ap (λ (l : Log). l.entries) same ∙ sym own_log;
      }

  moved : Votes n standing_ghost (set1 node i rf') h
  moved =
      Moves-Votes n gh standing_ghost node h i term rf' stands (Nodes-cast n node h now)
        (omega (arith, later)) (omega (arith, later))
        (λ v u c y. elim (Bool-cases (c == i && u == term)) [
          | inr e ↦ rw e refl
          | inl e ↦ absurd (ground (arith, e, vs.voted v u c y, later))
        ])
        vs.prefix vs.inside candidate-Holds (λ u e. inl e) vs

  first_args : Stood standing_ghost rf' i term args
  first_args =
      let (same, index, last, next) = start_election-args draw args (node i) rf' run in
      let at_end = last-Ends (node i).log args.last_log_term wf last in
      record {
        ends =
            subst (λ l. Ends l args.last_log_index args.last_log_term) (sym own_log)
              (subst (λ (k : ℕ). Ends (node i).log.entries k args.last_log_term) (sym index)
                at_end);
        traced = subst (Traced gh.g) (sym own_log) fits.0;
        headed = subst Headed (sym own_log) fits.1;
        earlier = omega (
          arith,
          placed.bound (last_index (node i).log) at_end.last at_end.there,
          at_end.of_term,
          next,
        );
        reached = omega arith;
      }

  pub elect-Votes : Votes n standing_ghost (set1 node i rf') (set2 h i term (some i))
  elect-Votes =
      vote-Votes n standing_ghost (set1 node i rf') h i term i (ground (arith, nat_beq_iff i i))
        (λ empty t j lt le own.
          subst (λ l. Agrees gh.g l t j ⊎ Bad standing_ghost t j term) (sym own_log)
            (still_has gh standing_ghost i term stands vs.inside (node i).log.entries t j
              (suc (node i).current_term) term (omega (arith, lt, vs.inside i t))
              (omega (arith, later)) ((vs.nodes i).has t j lt own)))
        moved

  pub elect-Standing :
      Standing gh node ballot
      → Standing standing_ghost
          (set1 node i rf')
          (set2 ballot i term (record { args = some args; votes = votes; slot = slot }))
  elect-Standing =
      Standing-later gh standing_ghost node (set1 node i rf') ballot
        (set2 ballot i term (record { args = some args; votes = votes; slot = slot }))
        stands.grown.longer (set1_term node i rf' (omega (arith, later)))
        (λ c t a e. elim (Bool-cases (c == i && t == term)) [
          | inr other ↦ inr (rw other at e, rw other refl)
          | inl here ↦
              let p : i ≡ c = ground arith in
              let q : term ≡ t = ground arith in
              let r : args ≡ a = ground (arith, here, e) in
              let self : set1 node i rf' i ≡ rf' = ground (arith, nat_beq_iff i i) in
              inl (
                subst (λ (z : RequestVoteArgs). Stood standing_ghost (set1 node i rf' c) c t z) r
                  (subst (λ (z : ℕ). Stood standing_ghost (set1 node i rf' c) c z args) q
                    (subst (λ (z : ℕ). Stood standing_ghost (set1 node i rf' z) z term args) p
                      (subst (λ (z : Raft). Stood standing_ghost z i term args) (sym self)
                        first_args))))
        ])
