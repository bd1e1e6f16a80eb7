-- ===== src/Cluster/Network/Tracks.antt =====
-- What holds of a cluster with its messages between two steps: every log is traced to the logs of
-- the leaders, each of which one node has owned since it won its term.
use mathlib.Core.Path.{subst}
use mathlib.Core.List.{append-nil}
use cmsc.Prelude.{
  ℕ, ◌+◌, ◌/◌, ◌≤◌, ◌≡◌, refl, sym, ap, ◌∙◌, ◌⊎◌, inl, inr, List, [], ◌∷◌, ◌++◌, some, true, false,
  arith, ◌==◌, nat_eq, nat_beq_iff, Bool-cases, get_elem?,
}
use cmsc.Raft.Log.{LogEntry}
use cmsc.Raft.Node.{Raft, is_leader, is_candidate}
use cmsc.Raft.Replicate.{AppendEntriesArgs}
use cmsc.Cluster.{set1}
use cmsc.Cluster.History.{History, backers, Grows, backers_mono, majority_unique}
use cmsc.Cluster.Nodes.{Nodes}
use cmsc.Cluster.Network.Traced.{
  Leaders, Traced, Headed, Extends, Traced-Extends, Traced-append_last,
}
use cmsc.Cluster.Network.Effect.{Steady, Led}
use cmsc.Cluster.Network.Messages.{GoodMessage, GoodMessage-Extends}
use cmsc.Cluster.Network.Delivery.{Fits}

-- The node that won a term: a majority voted for it, and it leads as long as it is in the term.
pub record Owner (n : ℕ) (node : ℕ → Raft) (h : History) (t : ℕ) : Type 0 where
  pub i : ℕ
  pub backed : n / 2 + 1 ≤ backers n h t i
  pub behind : t ≤ (node i).current_term
  pub leads : (node i).current_term ≡ t → is_leader (node i).state ≡ true

pub record Tracks (n : ℕ) (g : Leaders) (node : ℕ → Raft) (h : History)
    (sent : List AppendEntriesArgs) : Type 0 where
  pub logs : (i : ℕ) → Fits g (node i)
  pub chain : (t : ℕ) → Traced g (g t)
  pub tops : (t : ℕ) → (g t ≡ []) ⊎ Headed (g t)
  pub owner : (t : ℕ) → (g t ≡ []) ⊎ Owner n node h t
  pub good : (k : ℕ) (m : AppendEntriesArgs) → get_elem? sent k ≡ some m → GoodMessage g m

-- A property of all nodes, when one node is replaced.
pub set1_all :
    (P : Raft → Type 0) (node : ℕ → Raft) (i : ℕ) (rf' : Raft)
    → P rf'
    → ((j : ℕ) → P (node j))
    → (j : ℕ) → P (set1 node i rf' j)
set1_all P node i rf' one all j = elim (Bool-cases (j == i)) [
  | inl e ↦ rw e one
  | inr e ↦ rw e (all j)
]

pub set1-Steady :
    (node : ℕ → Raft) (i : ℕ) (rf' : Raft)
    → Steady (node i) rf'
    → (j : ℕ) → Steady (node j) (set1 node i rf' j)
set1-Steady node i rf' s j = elim (Bool-cases (j == i)) [
  | inl e ↦ let same : j ≡ i = (nat_beq_iff j i).0 e in rw (e, same) s
  | inr e ↦ rw e (omega arith, λ _ l. l)
]

Owner-Steady :
    (n : ℕ) (node node' : ℕ → Raft) (h h' : History) (t : ℕ)
    → ((j : ℕ) → Steady (node j) (node' j))
    → Grows h h'
    → Owner n node h t
    → Owner n node' h' t
Owner-Steady n node node' h h' t steady grows o =
    let (later, stays) = steady o.i in
    record {
      i = o.i;
      backed = omega (arith, o.backed, backers_mono n h h' t o.i grows);
      behind = omega (arith, o.behind, later);
      leads = λ e.
          let back : (node o.i).current_term ≡ t = omega (arith, e, later, o.behind) in
          stays (e ∙ sym back) (o.leads back);
    }

not_both : (rf : Raft) → is_leader rf.state ≡ true → is_candidate rf.state ≡ true → ⊥
not_both rf l c = ground arith

Headed-append : (xs ys : List LogEntry) → Headed xs → Headed (xs ++ ys)
Headed-append [] ys h = cc
Headed-append (x ∷ xs) ys h = h

-- The log of no leader changes.
pub still-Tracks :
    (n : ℕ) (g : Leaders) (node : ℕ → Raft) (h h' : History) (sent : List AppendEntriesArgs) (i : ℕ)
    (rf' : Raft)
    → Grows h h'
    → Steady (node i) rf'
    → Fits g rf'
    → Tracks n g node h sent
    → Tracks n g (set1 node i rf') h' sent
still-Tracks n g node h h' sent i rf' grows steady fits tr = record {
  logs = set1_all (Fits g) node i rf' fits tr.logs;
  chain = tr.chain;
  tops = tr.tops;
  owner = λ t. elim (tr.owner t) [
    | inl e ↦ inl e
    | inr o ↦ inr (Owner-Steady n node _ h h' t (set1-Steady node i rf' steady) grows o)
  ];
  good = tr.good;
}

module _ (n : ℕ) (g : Leaders) (node : ℕ → Raft) (h h' : History) (sent : List AppendEntriesArgs)
    (i : ℕ) (rf' : Raft) (grows : Grows h h') (steady : Steady (node i) rf')
    (led : Led (node i) rf') (after : Nodes n (set1 node i rf') h')
    (tr : Tracks n g node h sent) where
  abbrev term : ℕ
  term = (node i).current_term

  self : set1 node i rf' i ≡ rf'
  self = ground (arith, nat_beq_iff i i)

  pub majority : n / 2 + 1 ≤ backers n h' term i
  majority =
      let m = after.leads i (ap (λ (r : Raft). is_leader r.state) self ∙ led.leads) in
      subst (λ (t : ℕ). n / 2 + 1 ≤ backers n h' t i)
        (ap (λ (r : Raft). r.current_term) self ∙ led.term) m

  -- The leader's log before: its own, or none where the node was a candidate.
  pub before : (g term ≡ (node i).log.entries) ⊎ (g term ≡ [])
  before = elim led.before [
    | inl leads ↦ inl (sym ((tr.logs i).2 leads))
    | inr stood ↦ elim (tr.owner term) [
      | inl e ↦ inr e
      | inr o ↦
          let same : o.i ≡ i =
            majority_unique n h' term o.i i
              (omega (arith, o.backed, backers_mono n h h' term o.i grows)) majority in
          let leads : is_leader (node i).state ≡ true =
            subst (λ (j : ℕ). (node j).current_term ≡ term → is_leader (node j).state ≡ true) same
              o.leads refl in
          absurd (not_both (node i) leads stood)
    ]
  ]

  abbrev pub grown : Leaders
  grown = set1 g term rf'.log.entries

  pub at_term : grown term ≡ rf'.log.entries
  at_term = ground (arith, nat_beq_iff term term)

  pub elsewhere : (t : ℕ) → (t == term) ≡ false → grown t ≡ g t
  elsewhere t e = rw e refl

  pub grown-Extends : Extends g grown
  grown-Extends t = elim (Bool-cases (t == term)) [
    | inr e ↦ ([], elsewhere t e ∙ sym (append-nil (g t)))
    | inl e ↦
        let same : t ≡ term = (nat_beq_iff t term).0 e in
        let here : grown t ≡ rf'.log.entries = ap grown same ∙ at_term in
        elim before [
          | inl own ↦ (
            led.entry ∷ [],
            here ∙ led.grown ∙ ap (λ l. l ++ led.entry ∷ []) (sym own ∙ sym (ap g same)),
          )
          | inr new ↦
              (rf'.log.entries, here ∙ ap (λ l. l ++ rf'.log.entries) (sym new ∙ sym (ap g same)))
        ]
  ]

  own_Traced : Traced grown rf'.log.entries
  own_Traced = subst (Traced grown) (sym led.grown) (
      Traced-append_last grown (node i).log.entries led.entry
        (Traced-Extends g grown (node i).log.entries grown-Extends (tr.logs i).0)
        (ap grown led.own ∙ at_term ∙ led.grown))

  own_Headed : Headed rf'.log.entries
  own_Headed =
      subst Headed (sym led.grown)
        (Headed-append (node i).log.entries (led.entry ∷ []) (tr.logs i).1)

  own_Fits : Fits grown rf'
  own_Fits = (own_Traced, own_Headed, λ _. sym (ap grown led.term ∙ at_term))

  winner : Owner n (set1 node i rf') h' term
  winner = record {
    i = i;
    backed = majority;
    behind = omega (arith, ap (λ (r : Raft). r.current_term) self, led.term);
    leads = λ _. ap (λ (r : Raft). is_leader r.state) self ∙ led.leads;
  }

  -- No other node leads in the term.
  other_Fits : (j : ℕ) → (j == i) ≡ false → Fits grown (node j)
  other_Fits j e =
      let (t, h, o) = tr.logs j in
      (
        Traced-Extends g grown (node j).log.entries grown-Extends t,
        h,
        λ leads. elim (Bool-cases ((node j).current_term == term)) [
          | inr apart ↦ o leads ∙ sym (elsewhere (node j).current_term apart)
          | inl e' ↦
              let same : (node j).current_term ≡ term =
                (nat_beq_iff (node j).current_term term).0 e' in
              let there : set1 node i rf' j ≡ node j = rw e refl in
              let backed : n / 2 + 1 ≤ backers n h' term j =
                subst (λ (u : ℕ). n / 2 + 1 ≤ backers n h' u j)
                  (ap (λ (r : Raft). r.current_term) there ∙ same)
                  (after.leads j (ap (λ (r : Raft). is_leader r.state) there ∙ leads)) in
              let clash : j ≡ i = majority_unique n h' term j i backed majority in
              ground (arith, e, clash, nat_beq_iff j i)
        ],
      )

  pub led-Tracks : Tracks n grown (set1 node i rf') h' sent
  led-Tracks = record {
    logs =
        λ j. elim (Bool-cases (j == i)) [ inl e ↦ rw e own_Fits | inr e ↦ rw e (other_Fits j e) ];
    chain = λ t. elim (Bool-cases (t == term)) [
      | inl e ↦
          subst (Traced grown) (sym (ap grown ((nat_beq_iff t term).0 e) ∙ at_term)) own_Traced
      | inr e ↦
          subst (Traced grown) (sym (elsewhere t e))
            (Traced-Extends g grown (g t) grown-Extends (tr.chain t))
    ];
    tops = λ t. elim (Bool-cases (t == term)) [
      | inl e ↦ inr (subst Headed (sym (ap grown ((nat_beq_iff t term).0 e) ∙ at_term)) own_Headed)
      | inr e ↦ subst (λ (l : List LogEntry). (l ≡ []) ⊎ Headed l) (sym (elsewhere t e)) (tr.tops t)
    ];
    owner = λ t. elim (Bool-cases (t == term)) [
      | inl e ↦ inr (subst (Owner n (set1 node i rf') h') (sym ((nat_beq_iff t term).0 e)) winner)
      | inr e ↦ elim (tr.owner t) [
        | inl none_yet ↦ inl (elsewhere t e ∙ none_yet)
        | inr o ↦ inr (Owner-Steady n node _ h h' t (set1-Steady node i rf' steady) grows o)
      ]
    ];
    good = λ k m e. GoodMessage-Extends g grown m grown-Extends (tr.good k m e);
  }
