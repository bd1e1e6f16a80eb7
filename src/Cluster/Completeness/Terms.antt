-- ===== src/Cluster/Completeness/Terms.antt =====
-- The terms of entries: they ascend along a log, and none is ahead of its node or its leader.
use mathlib.Core.Path.{subst}
use cmsc.Prelude.{
  ℕ, ◌≤◌, ◌<◌, ◌≡◌, sym, ap, ◌∙◌, ◌⊎◌, inl, inr, true, some, List, [], ◌∷◌, ◌++◌, arith, length,
  get_elem?, ◌==◌, nat_eq, nat_beq_iff, Bool-cases, get_elem?_lt, get_elem?-append_left,
  get_elem?-append_last, length-append,
}
use cmsc.Raft.Log.{Log, LogEntry}
use cmsc.Raft.Node.{Raft, is_leader, is_candidate}
use cmsc.Cluster.{set1}
use cmsc.Cluster.Network.Traced.{Leaders, Traced}
use cmsc.Cluster.Network.Effect.{Led}
use cmsc.Cluster.Network.Tracks.{set1_all}
use cmsc.Cluster.Completeness.Leader.{Ascends, Traced-Ascends}

-- No entry of the node is ahead of its term, and who stands or leads is in a term of its own.
pub record Placed (rf : Raft) : Type 0 where
  pub bound :
      (i : ℕ) (x : LogEntry) → get_elem? rf.log.entries i ≡ some x → x.term ≤ rf.current_term
  pub stands : (is_leader rf.state ≡ true) ⊎ (is_candidate rf.state ≡ true) → 1 ≤ rf.current_term

pub record Terms (g : Leaders) (node : ℕ → Raft) : Type 0 where
  pub ascends : (t : ℕ) → Ascends (g t)
  pub top : (t i : ℕ) (x : LogEntry) → get_elem? (g t) i ≡ some x → x.term ≤ t
  pub none_at_zero : g 0 ≡ []
  pub nodes : (v : ℕ) → Placed (node v)

pub append_last-cases {ℓ} :
    {A : Type ℓ} (xs : List A) (e : A) (i : ℕ) (x : A)
    → get_elem? (xs ++ e ∷ []) i ≡ some x
    → ((i < length xs) × (get_elem? xs i ≡ some x)) ⊎ ((i ≡ length xs) × (x ≡ e))
append_last-cases xs e i x h =
    let lt = get_elem?_lt (xs ++ e ∷ []) i h in
    elim (Bool-cases (i == length xs)) [
      | inl last ↦
          let n : i ≡ length xs = (nat_beq_iff i (length xs)).0 last in
          inr (n, ground (arith, h, n, get_elem?-append_last xs e))
      | inr inner ↦
          let within : i < length xs =
            ground (arith, inner, nat_beq_iff i (length xs), length-append xs (e ∷ []), lt) in
          inl (within, sym (get_elem?-append_left xs (e ∷ []) i within) ∙ h)
    ]

Ascends-append_last :
    (xs : List LogEntry) (e : LogEntry)
    → Ascends xs
    → ((i : ℕ) (x : LogEntry) → get_elem? xs i ≡ some x → x.term ≤ e.term)
    → Ascends (xs ++ e ∷ [])
Ascends-append_last xs e asc bound i k x y le hx hy = elim (append_last-cases xs e k y hy) [
  | inl (kl, hy') ↦
      asc i k x y le (sym (get_elem?-append_left xs (e ∷ []) i (omega (arith, kl, le))) ∙ hx) hy'
  | inr (kl, same) ↦ elim (append_last-cases xs e i x hx) [
    | inl (il, hx') ↦ omega (arith, bound i x hx', ap (λ (z : LogEntry). z.term) same)
    | inr (il, same') ↦
        omega (arith, ap (λ (z : LogEntry). z.term) same, ap (λ (z : LogEntry). z.term) same')
  ]
]

-- A call that leaves the log.
pub kept-Placed :
    (rf rf' : Raft)
    → rf'.log ≡ rf.log
    → rf.current_term ≤ rf'.current_term
    → ((is_leader rf'.state ≡ true) ⊎ (is_candidate rf'.state ≡ true) → 1 ≤ rf'.current_term)
    → Placed rf
    → Placed rf'
kept-Placed rf rf' same later stands p = record {
  bound = λ i x h.
      omega (arith, p.bound i x (ap (λ (l : Log). get_elem? l.entries i) (sym same) ∙ h), later);
  stands = stands;
}

pub still-Terms :
    (g : Leaders) (node : ℕ → Raft) (i : ℕ) (rf' : Raft)
    → Placed rf'
    → Terms g node
    → Terms g (set1 node i rf')
still-Terms g node i rf' p tm = record {
  ascends = tm.ascends;
  top = tm.top;
  none_at_zero = tm.none_at_zero;
  nodes = set1_all Placed node i rf' p tm.nodes;
}

-- An old or a new leader appends an entry.
module _ (g : Leaders) (node : ℕ → Raft) (i : ℕ) (rf' : Raft) (led : Led (node i) rf')
    (traced : Traced g (node i).log.entries) (tm : Terms g node) where
  abbrev term : ℕ
  term = (node i).current_term

  grown_bound : (k : ℕ) (x : LogEntry) → get_elem? rf'.log.entries k ≡ some x → x.term ≤ term
  grown_bound k x h =
      elim (append_last-cases (node i).log.entries led.entry k x
        (ap (λ l. get_elem? l k) (sym led.grown) ∙ h)) [
          | inl (_, old) ↦ (tm.nodes i).bound k x old
          | inr (_, same) ↦ omega (arith, ap (λ (z : LogEntry). z.term) same, led.own)
        ]

  grown-Ascends : Ascends rf'.log.entries
  grown-Ascends = subst Ascends (sym led.grown) (
      Ascends-append_last (node i).log.entries led.entry
        (Traced-Ascends g (node i).log.entries tm.ascends traced)
        (λ k x h. omega (arith, (tm.nodes i).bound k x h, led.own)))

  pub led-Terms : Terms (set1 g term rf'.log.entries) (set1 node i rf')
  led-Terms = record {
    ascends = λ t. elim (Bool-cases (t == term)) [
      | inl e ↦ rw e grown-Ascends
      | inr e ↦ rw e (tm.ascends t)
    ];
    top = λ t k x h. elim (Bool-cases (t == term)) [
      | inl e ↦
          let at : t ≡ term = (nat_beq_iff t term).0 e in
          omega (arith, at, grown_bound k x (rw e at h))
      | inr e ↦ tm.top t k x (rw e at h)
    ];
    none_at_zero =
        let pos : 1 ≤ term = (tm.nodes i).stands led.before in ground (arith, pos, tm.none_at_zero);
    nodes =
        set1_all Placed node i rf'
          (record {
            bound = λ k x h. omega (arith, grown_bound k x h, led.term);
            stands = λ _. omega (arith, (tm.nodes i).stands led.before, led.term);
          })
          tm.nodes;
  }
