-- ===== src/Cluster/Completeness/Ledger.antt =====
-- hw3/raft/raft.go: what a node's commit index and a leader's `matchIndex` stand for.
use mathlib.Core.Path.{subst}
use cmsc.Prelude.{
  ℕ, zero, suc, ◌≤◌, ◌<◌, ◌≡◌, sym, ap, ◌∙◌, ◌⊎◌, inl, inr, true, some, List, [], ◌∷◌, ◌++◌, arith,
  length, map, get_elem?, nat_eq,
}
use cmsc.Raft.Log.{Log, LogEntry}
use cmsc.Raft.Config.{NodeConfig}
use cmsc.Raft.Node.{Raft, is_candidate, is_leader}
use cmsc.Cluster.Network.Effect.{Led}
use cmsc.Cluster.Completeness.{Ghost, Agrees, Committed}
use cmsc.Cluster.Completeness.Prefix.{Grown, Own-lt, Agrees-Extends, Agrees-append, Committed-Grown}
use cmsc.Cluster.Completeness.Stance.{Books}

-- A log holds up to `k` what was committed in a term that is not behind `top`.
pub record Backed (n : ℕ) (gh : Ghost) (l : List LogEntry) (top k : ℕ) : Type 0 where
  pub t : ℕ
  pub j : ℕ
  pub committed : Committed n gh t j
  pub within : k ≤ j
  pub early : t ≤ top
  pub agrees : Agrees gh.g l t k

pub Backed-lt :
    (n : ℕ) (gh : Ghost) (l : List LogEntry) (top k : ℕ) (b : Backed n gh l top k)
    → k < length (gh.g b.t)
Backed-lt n gh l top k b = omega (arith, Own-lt gh.g b.t b.j b.committed.own, b.within)

abbrev pub Safe : ℕ → Ghost → List LogEntry → ℕ → ℕ → Type 0
Safe n gh l top k = 0 < k → Backed n gh l top k

pub record Ledger (n : ℕ) (ps : List NodeConfig) (gh : Ghost) (v : ℕ) (rf : Raft) : Type 0 where
  pub safe : Safe n gh rf.log.entries rf.current_term rf.commit_index
  pub own : is_leader rf.state ≡ true → length rf.log.entries ≤ gh.acked v rf.current_term
  pub matched :
      (p x : ℕ)
      → is_leader rf.state ≡ true
      → get_elem? rf.match_index p ≡ some x
      → 0 < x
      → x < gh.acked p rf.current_term
  pub member : (is_leader rf.state ≡ true) ⊎ (is_candidate rf.state ≡ true) → v < n
  pub peers : rf.peers ≡ ps

-- Nothing that was confirmed is taken back.
abbrev pub More : Ghost → Ghost → Type 0
More gh gh' = (v u : ℕ) → gh.acked v u ≤ gh'.acked v u

pub Backed-Grown :
    (n : ℕ) (gh gh' : Ghost) (l : List LogEntry) (top top' k : ℕ)
    → Grown gh gh'
    → More gh gh'
    → top ≤ top'
    → Backed n gh l top k
    → Backed n gh' l top' k
Backed-Grown n gh gh' l top top' k grown more le b = record {
  t = b.t;
  j = b.j;
  committed = Committed-Grown n gh gh' b.t b.j grown more b.committed;
  within = b.within;
  early = omega (arith, b.early, le);
  agrees = Agrees-Extends gh.g gh'.g l b.t k grown.longer (Backed-lt n gh l top k b) b.agrees;
}

pub Backed-append :
    (n : ℕ) (gh : Ghost) (l s : List LogEntry) (top k : ℕ)
    → Backed n gh l top k
    → Backed n gh (l ++ s) top k
Backed-append n gh l s top k b = record {
  t = b.t;
  j = b.j;
  committed = b.committed;
  within = b.within;
  early = b.early;
  agrees = Agrees-append gh.g l s b.t k (Backed-lt n gh l top k b) b.agrees;
}

pub Backed-later :
    (n : ℕ) (gh : Ghost) (l : List LogEntry) (top top' k : ℕ)
    → top ≤ top'
    → Backed n gh l top k
    → Backed n gh l top' k
Backed-later n gh l top top' k le b = record {
  t = b.t;
  j = b.j;
  committed = b.committed;
  within = b.within;
  early = omega (arith, b.early, le);
  agrees = b.agrees;
}

pub Ledger-Grown :
    (n : ℕ) (ps : List NodeConfig) (gh gh' : Ghost) (v : ℕ) (rf : Raft)
    → Grown gh gh'
    → More gh gh'
    → Ledger n ps gh v rf
    → Ledger n ps gh' v rf
Ledger-Grown n ps gh gh' v rf grown more b = record {
  safe = λ pos.
      Backed-Grown n gh gh' rf.log.entries rf.current_term rf.current_term rf.commit_index grown
        more (omega arith) (b.safe pos);
  own = λ leads. omega (arith, b.own leads, more v rf.current_term);
  matched = λ p x leads at pos. omega (arith, b.matched p x leads at pos, more p rf.current_term);
  member = b.member;
  peers = b.peers;
}

map_zeros : (xs : List ℕ) (p x : ℕ) → get_elem? (map (λ (_ : ℕ). 0) xs) p ≡ some x → x ≡ 0
map_zeros [] p x h = absurd (ground arith)
map_zeros (y ∷ ys) zero x h = ground arith
map_zeros (y ∷ ys) (suc p) x h = map_zeros ys p x h

-- The slices of a leader after a call that does not move them, in a term that is not new.
Books-matched :
    (gh : Ghost) (rf rf' : Raft) (p x : ℕ)
    → Books rf rf'
    → ((q y : ℕ)
        → is_leader rf.state ≡ true
        → get_elem? rf.match_index q ≡ some y
        → 0 < y
        → y < gh.acked q rf.current_term)
    → is_leader rf'.state ≡ true
    → get_elem? rf'.match_index p ≡ some x
    → 0 < x
    → x < gh.acked p rf'.current_term
Books-matched gh rf rf' p x (_, _, _, inr zeros) old leads at pos =
    absurd
      (omega (arith, pos, map_zeros rf.match_index p x (ap (λ l. get_elem? l p) (sym zeros) ∙ at)))
Books-matched gh rf rf' p x (_, _, _, inl (same, led)) old leads at pos =
    let (was, term) = led leads in
    subst (λ (u : ℕ). x < gh.acked p u) (sym term)
      (old p x was (ap (λ l. get_elem? l p) (sym same) ∙ at) pos)

-- A node keeps its log.
pub kept-Ledger :
    (n : ℕ) (ps : List NodeConfig) (gh : Ghost) (v : ℕ) (rf rf' : Raft)
    → rf'.log ≡ rf.log
    → rf.current_term ≤ rf'.current_term
    → (is_leader rf'.state ≡ true
        → (is_leader rf.state ≡ true) × (rf'.current_term ≡ rf.current_term))
    → Books rf rf'
    → ((is_leader rf'.state ≡ true) ⊎ (is_candidate rf'.state ≡ true) → v < n)
    → Ledger n ps gh v rf
    → Ledger n ps gh v rf'
kept-Ledger n ps gh v rf rf' same later led books member b = record {
  safe = λ pos.
      subst (λ (l : Log). Backed n gh l.entries rf'.current_term rf'.commit_index) (sym same)
        (subst (Backed n gh rf.log.entries rf'.current_term) (sym books.0) (
          Backed-later n gh rf.log.entries rf.current_term rf'.current_term rf.commit_index later
            (b.safe (omega (arith, pos, books.0)))));
  own = λ leads.
      let (was, term) = led leads in
      subst (λ (u : ℕ). length rf'.log.entries ≤ gh.acked v u) (sym term)
        (subst (λ (l : Log). length l.entries ≤ gh.acked v rf.current_term) (sym same) (b.own was));
  matched = λ p x. Books-matched gh rf rf' p x books b.matched;
  member = member;
  peers = books.1 ∙ b.peers;
}

-- A leader, an old or a new one, appends an entry, and has confirmed its whole log.
pub Led-Ledger :
    (n : ℕ) (ps : List NodeConfig) (gh gh' : Ghost) (v : ℕ) (rf rf' : Raft)
    → Grown gh gh'
    → More gh gh'
    → Led rf rf'
    → Books rf rf'
    → length rf'.log.entries ≤ gh'.acked v rf.current_term
    → Ledger n ps gh v rf
    → Ledger n ps gh' v rf'
Led-Ledger n ps gh gh' v rf rf' grown more led books all b =
    let b' = Ledger-Grown n ps gh gh' v rf grown more b in
    record {
      safe = λ pos.
          subst (λ (l : List LogEntry). Backed n gh' l rf'.current_term rf'.commit_index)
            (sym led.grown)
            (Backed-append n gh' rf.log.entries (led.entry ∷ []) rf'.current_term rf'.commit_index (
              subst (Backed n gh' rf.log.entries rf'.current_term) (sym books.0) (
                Backed-later n gh' rf.log.entries rf.current_term rf'.current_term rf.commit_index
                  (omega (arith, led.term)) (b'.safe (omega (arith, pos, books.0))))));
      own = λ leads. subst (λ (u : ℕ). length rf'.log.entries ≤ gh'.acked v u) (sym led.term) all;
      matched = λ p x. Books-matched gh' rf rf' p x books b'.matched;
      member = λ either. b.member led.before;
      peers = books.1 ∙ b.peers;
    }
