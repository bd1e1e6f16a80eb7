-- ===== src/Cluster/Completeness/Voters.antt =====
-- What the voters of a term had confirmed, and that it stays so while one node moves.
use mathlib.Core.Path.{subst}
use mathlib.Core.List.{append-nil}
use cmsc.Prelude.{
  ℕ, suc, ◌+◌, ◌/◌, ◌≤◌, ◌<◌, ◌≡◌, refl, sym, ap, ◌∙◌, ◌⊎◌, inl, inr, true, false, some, List, [],
  ◌∷◌, ◌++◌, arith, Bool, ◌&&◌, length, ◌==◌, nat_eq, nat_beq_iff, Bool-cases,
}
use cmsc.Raft.Log.{LogEntry}
use cmsc.Raft.Node.{Raft, is_candidate}
use cmsc.Cluster.{set1}
use cmsc.Cluster.Tally.{tally}
use cmsc.Cluster.History.{History}
use cmsc.Cluster.Network.Traced.{Leaders, Extends}
use cmsc.Cluster.Completeness.{Ghost, Own, Agrees, Bad}
use cmsc.Cluster.Completeness.Prefix.{Own-back, Agrees-Extends, Grown, Bad-Grown}
use cmsc.Cluster.Completeness.Leader.{Carries, Won}

-- What node `v` has confirmed to leaders, it has, or else a later leader was the first to lack it. A
-- candidate of a term without a leader has the log with which it stood.
pub record Holds (gh : Ghost) (v : ℕ) (rf : Raft) : Type 0 where
  pub past : (t : ℕ) → 0 < gh.acked v t → t ≤ rf.current_term
  pub has :
      (t j : ℕ)
      → j < gh.acked v t
      → Own gh.g t j
      → Agrees gh.g rf.log.entries t j ⊎ Bad gh t j (suc rf.current_term)
  pub stood_as :
      is_candidate rf.state ≡ true
      → gh.g rf.current_term ≡ []
      → rf.log.entries ≡ gh.stood v rf.current_term

pub record Votes (n : ℕ) (gh : Ghost) (node : ℕ → Raft) (h : History) : Type 0 where
  pub prefix : (t : ℕ) → (s : List LogEntry) × (gh.g t ≡ gh.first t ++ s)
  pub inside : (v t : ℕ) → gh.acked v t ≤ length (gh.g t)
  pub nodes : (v : ℕ) → Holds gh v (node v)
  pub voted : (v t c : ℕ) → h v t ≡ some c → t ≤ (node c).current_term
  pub votes : (v u c : ℕ) → gh.g u ≡ [] → h v u ≡ some c → Carries gh (gh.stood c u) v u
  pub won : (u : ℕ) → (gh.g u ≡ []) ⊎ Won n gh node u

-- Node `i` moves in term `at`: the memory grows, and only what it confirmed in that term changes.
pub record Moves (gh gh' : Ghost) (i at : ℕ) : Type 0 where
  pub grown : Grown gh gh'
  pub same_quorum : (t : ℕ) → ¬ (gh.g t ≡ []) → gh'.quorum t ≡ gh.quorum t
  pub same_stood : (c t : ℕ) → (c == i && t == at) ≡ false → gh'.stood c t ≡ gh.stood c t
  pub others : (v t : ℕ) → (v == i && t == at) ≡ false → gh'.acked v t ≡ gh.acked v t

pub Moves-refl : (gh : Ghost) (i at : ℕ) → Moves gh gh i at
Moves-refl gh i at = record {
  grown = record { longer = λ t. ([], sym (append-nil (gh.g t))); firsts = λ t h. refl };
  same_quorum = λ t h. refl;
  same_stood = λ c t e. refl;
  others = λ v t h. refl;
}

-- A property of each node, when one node is replaced.
pub set1_each :
    (P : ℕ → Raft → Type 0) (node : ℕ → Raft) (i : ℕ) (rf' : Raft)
    → P i rf'
    → ((j : ℕ) → (j == i) ≡ false → P j (node j))
    → (j : ℕ) → P j (set1 node i rf' j)
set1_each P node i rf' one others j = elim (Bool-cases (j == i)) [
  | inl e ↦
      let same : i ≡ j = sym ((nat_beq_iff j i).0 e) in rw e (subst (λ (k : ℕ). P k rf') same one)
  | inr e ↦ rw e (others j e)
]

pub set1_term :
    (node : ℕ → Raft) (i : ℕ) (rf' : Raft)
    → (node i).current_term ≤ rf'.current_term
    → (j : ℕ) → (node j).current_term ≤ (set1 node i rf' j).current_term
set1_term node i rf' later =
    set1_each (λ j rf. (node j).current_term ≤ rf.current_term) node i rf' later
      (λ j e. omega arith)

pub none_before : (g g' : Leaders) (t : ℕ) → Extends g g' → g' t ≡ [] → g t ≡ []
none_before g g' t ext e = let (s, grown) = ext t in by_log (g t) s (sym grown ∙ e)
  where
    by_log : (xs s : List LogEntry) → xs ++ s ≡ [] → xs ≡ []
    by_log [] s h = refl
    by_log (x ∷ xs) s h = cc

module _ (gh gh' : Ghost) (i at : ℕ) (mv : Moves gh gh' i at)
    (inside : (v t : ℕ) → gh.acked v t ≤ length (gh.g t)) where
  -- What was confirmed before is still had by one who had it.
  pub still_has :
      (l : List LogEntry) (t j u u' : ℕ)
      → j < length (gh.g t)
      → u ≤ u'
      → Agrees gh.g l t j ⊎ Bad gh t j u
      → Agrees gh'.g l t j ⊎ Bad gh' t j u'
  still_has l t j u u' lt le (inl a) = inl (Agrees-Extends gh.g gh'.g l t j mv.grown.longer lt a)
  still_has l t j u u' lt le (inr b) = inr (Bad-Grown gh gh' t j u u' mv.grown lt le b)

  pub old_Own : (v t j : ℕ) → j < gh.acked v t → Own gh'.g t j → Own gh.g t j
  old_Own v t j lt own = Own-back gh.g gh'.g t j mv.grown.longer (omega (arith, lt, inside v t)) own

  pub Carries-Moves :
      (l : List LogEntry) (v u : ℕ)
      → ((v == i) ≡ true → u ≤ at)
      → Carries gh l v u
      → Carries gh' l v u
  Carries-Moves l v u early c t j lt le own =
      let same : gh'.acked v t ≡ gh.acked v t =
        mv.others v t (ground (arith, early, le, nat_beq_iff t at)) in
      let lt' : j < gh.acked v t = omega (arith, lt, same) in
      still_has l t j u u (omega (arith, lt', inside v t)) (omega arith)
        (c t j lt' le (old_Own v t j lt' own))

  pub Holds-Moves : (v : ℕ) (rf : Raft) → (v == i) ≡ false → Holds gh v rf → Holds gh' v rf
  Holds-Moves v rf other k =
      let same : (t : ℕ) → gh'.acked v t ≡ gh.acked v t =
        λ t. mv.others v t (ground (arith, other)) in
      record {
        past = λ t pos. k.past t (omega (arith, pos, same t));
        has = λ t j lt own.
            let lt' : j < gh.acked v t = omega (arith, lt, same t) in
            still_has rf.log.entries t j (suc rf.current_term) (suc rf.current_term)
              (omega (arith, lt', inside v t)) (omega arith)
              (k.has t j lt' (old_Own v t j lt' own));
        stood_as = λ cand empty.
            k.stood_as cand (none_before gh.g gh'.g rf.current_term mv.grown.longer empty)
            ∙ sym (mv.same_stood v rf.current_term (ground (arith, other)));
      }

  pub Won-Moves :
      (n : ℕ) (node : ℕ → Raft) (rf' : Raft) (u : ℕ)
      → (node i).current_term ≤ rf'.current_term
      → (node i).current_term ≤ at
      → ¬ (gh.g u ≡ [])
      → Won n gh node u
      → Won n gh' (set1 node i rf') u
  Won-Moves n node rf' u later by real w =
      let q = mv.same_quorum u real in
      record {
        majority = subst (λ f. n / 2 + 1 ≤ tally n f) (sym q) w.majority;
        behind = λ v y.
            omega (arith, w.behind v (sym (ap (λ f. f v) q) ∙ y), set1_term node i rf' later v);
        carries = λ v y.
            let y' : gh.quorum u v ≡ true = sym (ap (λ (f : ℕ → Bool). f v) q) ∙ y in
            subst (λ l. Carries gh' l v u) (sym (mv.grown.firsts u real))
              (Carries-Moves (gh.first u) v u
                (λ e. omega (
                  arith,
                  w.behind v y',
                  ap (λ (k : ℕ). (node k).current_term) ((nat_beq_iff v i).0 e),
                  by,
                ))
                (w.carries v y'));
      }
