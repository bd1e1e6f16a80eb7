-- ===== src/Cluster/Completeness/Leading.antt =====
-- What is remembered when a leader, an old or a new one, appends an entry.
use mathlib.Core.Path.{subst}
use cmsc.Prelude.{
  ℕ, suc, ◌≤◌, ◌<◌, ◌≡◌, refl, sym, ap, ◌∙◌, ◌⊎◌, inl, inr, true, List, [], ◌∷◌, ◌++◌, arith, Bool,
  length, take, ◌==◌, nat_eq, nat_beq_iff, Bool-cases, length-append,
}
use cmsc.Raft.Log.{LogEntry}
use cmsc.Raft.Node.{Raft, is_candidate, is_leader}
use cmsc.Raft.Replicate.{AppendEntriesArgs}
use cmsc.Cluster.{set1, set2}
use cmsc.Cluster.History.{History, Grows}
use cmsc.Cluster.Nodes.{Nodes}
use cmsc.Cluster.Network.Traced.{Leaders, Extends}
use cmsc.Cluster.Network.Effect.{Steady, Led}
use cmsc.Cluster.Network.Tracks.{Tracks, grown-Extends}
use cmsc.Cluster.Completeness.{Ghost, Agrees, Bad}
use cmsc.Cluster.Completeness.Prefix.{Own-lt, Agrees-append}
use cmsc.Cluster.Completeness.Leader.{Carries, Won}
use cmsc.Cluster.Completeness.Voters.{Votes, Holds, Moves, still_has, old_Own}
use cmsc.Cluster.Completeness.Moving.{Moves-Votes, Nodes-cast}

pub Carries-append :
    (gh : Ghost) (l s : List LogEntry) (v u : ℕ) → Carries gh l v u → Carries gh (l ++ s) v u
Carries-append gh l s v u c t j lt le own = elim (c t j lt le own) [
  | inl a ↦ inl (Agrees-append gh.g l s t j (Own-lt gh.g t j own) a)
  | inr b ↦ inr b
]

not_two : (rf : Raft) → is_leader rf.state ≡ true → is_candidate rf.state ≡ true → ⊥
not_two rf l c = ground arith

module _ (n : ℕ) (gh : Ghost) (node : ℕ → Raft) (h : History) (sent : List AppendEntriesArgs)
    (i : ℕ) (rf' : Raft) (grows : Grows h h) (steady : Steady (node i) rf') (led : Led (node i) rf')
    (now : Nodes n node h) (after : Nodes n (set1 node i rf') h) (tr : Tracks n gh.g node h sent)
    (vs : Votes n gh node h) where
  abbrev term : ℕ
  term = (node i).current_term

  -- `first` and `quorum` are new where the term is.
  abbrev pub led_ghost : Leaders → (ℕ → ℕ → Bool) → Ghost
  led_ghost first quorum = record {
    g = set1 gh.g term rf'.log.entries;
    first = first;
    stood = gh.stood;
    acked = set2 gh.acked i term (length rf'.log.entries);
    quorum = quorum;
  }

  pub longer : Extends gh.g (set1 gh.g term rf'.log.entries)
  longer = grown-Extends n gh.g node h h sent i rf' grows steady led after tr

  pub at_term : set1 gh.g term rf'.log.entries term ≡ rf'.log.entries
  at_term = ground (arith, nat_beq_iff term term)

  module _ (first : Leaders) (quorum : ℕ → ℕ → Bool)
      (firsts : (t : ℕ) → ¬ (gh.g t ≡ []) → first t ≡ gh.first t)
      (quorums : (t : ℕ) → ¬ (gh.g t ≡ []) → quorum t ≡ gh.quorum t) where
    pub leads : Moves gh (led_ghost first quorum) i term
    leads = record {
      grown = record { longer = longer; firsts = firsts };
      same_quorum = quorums;
      same_stood = λ c t e. refl;
      others = λ v t e. rw e refl;
    }

    leader-Holds : Holds (led_ghost first quorum) i rf'
    leader-Holds = record {
      past = λ t pos. elim (Bool-cases (t == term)) [
        | inl e ↦ omega (arith, (nat_beq_iff t term).0 e, led.term)
        | inr e ↦ omega (arith, (vs.nodes i).past t (ground (arith, e, pos)), led.term)
      ];
      has = λ t j lt own. elim (Bool-cases (t == term)) [
        | inl e ↦ inl (
            ap (take (suc j))
              (sym (ap (set1 gh.g term rf'.log.entries) ((nat_beq_iff t term).0 e) ∙ at_term)))
        | inr e ↦
            let lt' : j < gh.acked i t = ground (arith, e, lt) in
            let old : Agrees (set1 gh.g term rf'.log.entries) (node i).log.entries t j
                ⊎ Bad (led_ghost first quorum) t j (suc rf'.current_term) =
              still_has gh (led_ghost first quorum) i term leads vs.inside (node i).log.entries t j
                (suc term) (suc rf'.current_term) (omega (arith, lt', vs.inside i t))
                (omega (arith, led.term))
                ((vs.nodes i).has t j lt'
                  (old_Own gh (led_ghost first quorum) i term leads vs.inside i t j lt' own)) in
            elim old [
              | inr b ↦ inr b
              | inl a ↦ inl (
                  subst (λ l. Agrees (set1 gh.g term rf'.log.entries) l t j) (sym led.grown)
                    (Agrees-append (set1 gh.g term rf'.log.entries) (node i).log.entries
                      (led.entry ∷ []) t j (Own-lt (set1 gh.g term rf'.log.entries) t j own) a))
            ]
      ];
      stood_as = λ cand empty. absurd (not_two rf' led.leads cand);
    }

    led_inside :
        (v t : ℕ)
        → set2 gh.acked i term (length rf'.log.entries) v t
          ≤ length (set1 gh.g term rf'.log.entries t)
    led_inside v t = elim (Bool-cases (t == term)) [
      | inr e ↦ ground (arith, e, vs.inside v t)
      | inl e ↦ elim (Bool-cases (v == i)) [
        | inl e' ↦ ground (arith, e, e')
        | inr e' ↦
            let (s, more) = longer t in
            ground (arith, e', vs.inside v t, more, length-append (gh.g t) s)
      ]
    ]

    pub led_moves :
        ((t : ℕ) → (s : List LogEntry) × (set1 gh.g term rf'.log.entries t ≡ first t ++ s))
        → ((u : ℕ)
            → gh.g u ≡ []
            → (set1 gh.g term rf'.log.entries u ≡ [])
              ⊎ Won n (led_ghost first quorum) (set1 node i rf') u)
        → Votes n (led_ghost first quorum) (set1 node i rf') h
    led_moves prefix fresh =
        Moves-Votes n gh (led_ghost first quorum) node h i term rf' leads (Nodes-cast n node h now)
          (omega (arith, led.term)) (omega arith) (λ v u c y. refl) prefix led_inside leader-Holds
          fresh vs
