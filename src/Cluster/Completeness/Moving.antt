-- ===== src/Cluster/Completeness/Moving.antt =====
-- The voters' records when one node moves.
use mathlib.Core.Path.{subst}
use cmsc.Prelude.{
  ℕ, suc, ◌≤◌, ◌≡◌, refl, sym, ap, ◌∙◌, ◌⊎◌, inl, inr, true, some, List, [], ◌++◌, arith, ltb,
  length, take, nat_eq, nat_beq_iff, Bool-cases,
}
use cmsc.Raft.Log.{Log, LogEntry}
use cmsc.Raft.Node.{Raft, is_candidate}
use cmsc.Cluster.{set1}
use cmsc.Cluster.History.{History}
use cmsc.Cluster.Nodes.{Nodes}
use cmsc.Cluster.Completeness.{Ghost}
use cmsc.Cluster.Completeness.Prefix.{Bad-later, Logs-discrete}
use cmsc.Cluster.Completeness.Leader.{Carries, Won}
use cmsc.Cluster.Completeness.Stance.{Calm}
use cmsc.Cluster.Completeness.Voters.{
  Holds, Votes, Moves, Moves-refl, set1_each, set1_term, none_before, Carries-Moves, Holds-Moves,
  Won-Moves,
}

-- One node moves, in the term `at`, which is not behind its own.
pub Moves-Votes :
    (n : ℕ) (gh gh' : Ghost) (node : ℕ → Raft) (h : History) (i at : ℕ) (rf' : Raft)
    → Moves gh gh' i at
    → ((v t c : ℕ) → h v t ≡ some c → t ≤ (node v).current_term)
    → (node i).current_term ≤ rf'.current_term
    → (node i).current_term ≤ at
    → ((v u c : ℕ) → h v u ≡ some c → gh'.stood c u ≡ gh.stood c u)
    → ((t : ℕ) → (s : List LogEntry) × (gh'.g t ≡ gh'.first t ++ s))
    → ((v t : ℕ) → gh'.acked v t ≤ length (gh'.g t))
    → Holds gh' i rf'
    → ((u : ℕ) → gh.g u ≡ [] → (gh'.g u ≡ []) ⊎ Won n gh' (set1 node i rf') u)
    → Votes n gh node h
    → Votes n gh' (set1 node i rf') h
Moves-Votes n gh gh' node h i at rf' mv cast later by spared prefix inside one fresh vs = record {
  prefix = prefix;
  inside = inside;
  nodes =
      set1_each (Holds gh') node i rf' one
        (λ j e. Holds-Moves gh gh' i at mv vs.inside j (node j) e (vs.nodes j));
  voted = λ v t c y. omega (arith, vs.voted v t c y, set1_term node i rf' later c);
  votes = λ v u c empty y.
      subst (λ l. Carries gh' l v u) (sym (spared v u c y))
        (Carries-Moves gh gh' i at mv vs.inside (gh.stood c u) v u
          (λ e. omega (
            arith,
            cast v u c y,
            ap (λ (k : ℕ). (node k).current_term) ((nat_beq_iff v i).0 e),
            by,
          ))
          (vs.votes v u c (none_before gh.g gh'.g u mv.grown.longer empty) y));
  won = λ u. elim (Logs-discrete (gh.g u) []) [
    | yes empty ↦ fresh u empty
    | no real ↦ elim (vs.won u) [
      | inl empty ↦ absurd (real empty)
      | inr w ↦ inr (Won-Moves gh gh' i at mv vs.inside n node rf' u later by real w)
    ]
  ];
}

-- A node moves on and keeps its log, and nothing is to be remembered.
pub kept-Holds :
    (gh : Ghost) (i : ℕ) (rf rf' : Raft)
    → rf'.log ≡ rf.log
    → rf.current_term ≤ rf'.current_term
    → (is_candidate rf'.state ≡ true
        → gh.g rf'.current_term ≡ []
        → rf'.log.entries ≡ gh.stood i rf'.current_term)
    → Holds gh i rf
    → Holds gh i rf'
kept-Holds gh i rf rf' same later stands k = record {
  past = λ t pos. omega (arith, k.past t pos, later);
  has = λ t j lt own. elim (k.has t j lt own) [
    | inl a ↦ inl (ap (λ (l : Log). take (suc j) l.entries) same ∙ a)
    | inr b ↦
        inr (Bad-later gh t j (suc rf.current_term) (suc rf'.current_term) (omega (arith, later)) b)
  ];
  stood_as = stands;
}

pub kept-Votes :
    (n : ℕ) (gh : Ghost) (node : ℕ → Raft) (h : History) (i : ℕ) (rf' : Raft)
    → ((v t c : ℕ) → h v t ≡ some c → t ≤ (node v).current_term)
    → rf'.log ≡ (node i).log
    → (node i).current_term ≤ rf'.current_term
    → (is_candidate rf'.state ≡ true
        → gh.g rf'.current_term ≡ []
        → rf'.log.entries ≡ gh.stood i rf'.current_term)
    → Votes n gh node h
    → Votes n gh (set1 node i rf') h
kept-Votes n gh node h i rf' cast same later stands vs =
    Moves-Votes n gh gh node h i rf'.current_term rf' (Moves-refl gh i rf'.current_term) cast later
      later (λ v u c y. refl) vs.prefix vs.inside
      (kept-Holds gh i (node i) rf' same later stands (vs.nodes i)) (λ u e. inl e) vs

-- Who was a candidate before has stood as before.
pub Calm-stood :
    (gh : Ghost) (i : ℕ) (rf rf' : Raft)
    → rf'.log ≡ rf.log
    → Calm rf rf'
    → Holds gh i rf
    → is_candidate rf'.state ≡ true
    → gh.g rf'.current_term ≡ []
    → rf'.log.entries ≡ gh.stood i rf'.current_term
Calm-stood gh i rf rf' same calm k cand empty =
    let (was, term) = calm cand in
    ap (λ (l : Log). l.entries) same
    ∙ k.stood_as was (ap gh.g (sym term) ∙ empty)
    ∙ ap (gh.stood i) (sym term)

-- A vote is in a term that the voter has reached.
pub Nodes-cast :
    (n : ℕ) (node : ℕ → Raft) (h : History)
    → Nodes n node h
    → (v t c : ℕ) → h v t ≡ some c
    → t ≤ (node v).current_term
Nodes-cast n node h now v t c y = elim (Bool-cases (ltb (node v).current_term t)) [
  | inr e ↦ ground (arith, e)
  | inl e ↦ ground (arith, e, y, now.fresh v t)
]
