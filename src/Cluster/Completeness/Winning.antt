-- ===== src/Cluster/Completeness/Winning.antt =====
-- What is remembered when a node wins a term, and while it leads it.
use mathlib.Core.Path.{subst}
use mathlib.Core.List.{append-nil, append_assoc}
use cmsc.Prelude.{
  ℕ, ◌+◌, ◌/◌, ◌≤◌, ◌≡◌, refl, sym, ap, ◌∙◌, ◌⊎◌, inl, inr, true, none, some, List, [], ◌∷◌, ◌++◌,
  arith, Option, Bool, ◌&&◌, length, ◌==◌, nat_eq, nat_beq_iff, Bool-cases, length-append,
}
use cmsc.Raft.Log.{LogEntry}
use cmsc.Raft.Node.{Raft, is_candidate}
use cmsc.Raft.Replicate.{AppendEntriesArgs}
use cmsc.Cluster.{set1, set2}
use cmsc.Cluster.Tally.{tally}
use cmsc.Cluster.History.{History, Grows, backers, voted}
use cmsc.Cluster.Nodes.{Nodes}
use cmsc.Cluster.Network.Traced.{Leaders}
use cmsc.Cluster.Network.Effect.{Steady, Led}
use cmsc.Cluster.Network.Tracks.{Tracks, majority, before}
use cmsc.Cluster.Completeness.{Ghost}
use cmsc.Cluster.Completeness.Leader.{Carries, Won}
use cmsc.Cluster.Completeness.Voters.{Votes, Carries-Moves, set1_term}
use cmsc.Cluster.Completeness.Moving.{Nodes-cast}
use cmsc.Cluster.Completeness.Leading.{led_ghost, longer, at_term, leads, led_moves, Carries-append}

module _ (n : ℕ) (gh : Ghost) (node : ℕ → Raft) (h : History) (sent : List AppendEntriesArgs)
    (i : ℕ) (rf' : Raft) (grows : Grows h h) (steady : Steady (node i) rf') (led : Led (node i) rf')
    (now : Nodes n node h) (after : Nodes n (set1 node i rf') h) (tr : Tracks n gh.g node h sent)
    (vs : Votes n gh node h) where
  abbrev term : ℕ
  term = (node i).current_term

  -- The memory of firsts stays where there was a leader.
  abbrev pub Spares : Leaders → (ℕ → ℕ → Bool) → Type 0
  Spares first quorum =
      ((t : ℕ) → ¬ (gh.g t ≡ []) → first t ≡ gh.first t)
      × ((t : ℕ) → ¬ (gh.g t ≡ []) → quorum t ≡ gh.quorum t)

  continues :
      gh.g term ≡ (node i).log.entries
      → ¬ (gh.g term ≡ [])
      → Votes n
          (led_ghost n gh node h sent i rf' grows steady led now after tr vs gh.first gh.quorum)
          (set1 node i rf')
          h
  continues own real =
      led_moves n gh node h sent i rf' grows steady led now after tr vs gh.first gh.quorum
        (λ t r. refl) (λ t r. refl) prefix fresh
    where
      prefix : (t : ℕ) → (s : List LogEntry) × (set1 gh.g term rf'.log.entries t ≡ gh.first t ++ s)
      prefix t = elim (Bool-cases (t == term)) [
        | inr e ↦ let (s, p) = vs.prefix t in (s, ground (arith, e, p))
        | inl e ↦
            let (s, p) = vs.prefix term in
            let same : t ≡ term = (nat_beq_iff t term).0 e in
            (
              s ++ led.entry ∷ [],
              ap (set1 gh.g term rf'.log.entries) same
                  ∙ at_term n gh node h sent i rf' grows steady led now after tr vs
                  ∙ led.grown
                  ∙ ap (λ (l : List LogEntry). l ++ led.entry ∷ []) (sym own ∙ p)
                  ∙ append_assoc (gh.first term) s (led.entry ∷ [])
                  ∙ ap (λ (u : ℕ). gh.first u ++ (s ++ led.entry ∷ [])) (sym same),
            )
      ]

      fresh :
          (u : ℕ)
          → gh.g u ≡ []
          → (set1 gh.g term rf'.log.entries u ≡ [])
            ⊎ Won n
                (led_ghost n gh node h sent i rf' grows steady led now after tr vs gh.first
                  gh.quorum)
                (set1 node i rf')
                u
      fresh u empty = elim (Bool-cases (u == term)) [
        | inl e ↦ absurd (real (ap gh.g (sym ((nat_beq_iff u term).0 e)) ∙ empty))
        | inr e ↦ inl (rw e empty)
      ]

  -- The votes by which the node has won.
  abbrev winners : ℕ → Bool
  winners v = voted (h v term) i

  abbrev firsts_won : Leaders
  firsts_won = set1 gh.first term rf'.log.entries

  abbrev quorums_won : ℕ → ℕ → Bool
  quorums_won = set1 gh.quorum term winners

  module _ (empty : gh.g term ≡ []) (cand : is_candidate (node i).state ≡ true) where
    firsts_spared : (t : ℕ) → ¬ (gh.g t ≡ []) → firsts_won t ≡ gh.first t
    firsts_spared t real = elim (Bool-cases (t == term)) [
      | inl e ↦ absurd (real (ap gh.g ((nat_beq_iff t term).0 e) ∙ empty))
      | inr e ↦ rw e refl
    ]

    quorums_spared : (t : ℕ) → ¬ (gh.g t ≡ []) → quorums_won t ≡ gh.quorum t
    quorums_spared t real = elim (Bool-cases (t == term)) [
      | inl e ↦ absurd (real (ap gh.g ((nat_beq_iff t term).0 e) ∙ empty))
      | inr e ↦ rw e refl
    ]

    voted_for : (v : ℕ) → winners v ≡ true → h v term ≡ some i
    voted_for v y = by_vote (h v term) y
      where
        by_vote : (o : Option ℕ) → voted o i ≡ true → o ≡ some i
        by_vote none y = cc
        by_vote (some c) y = ground (arith, y, nat_beq_iff c i)

    winner_Carries :
        (v : ℕ)
        → winners v ≡ true
        → Carries
            (led_ghost n gh node h sent i rf' grows steady led now after tr vs firsts_won
              quorums_won)
            rf'.log.entries
            v
            term
    winner_Carries v y =
        subst
          (λ l.
            Carries
              (led_ghost n gh node h sent i rf' grows steady led now after tr vs firsts_won
                quorums_won)
              l v term)
          (sym led.grown)
          (Carries-append
            (led_ghost n gh node h sent i rf' grows steady led now after tr vs firsts_won
              quorums_won)
            (node i).log.entries (led.entry ∷ []) v term
            (Carries-Moves gh
              (led_ghost n gh node h sent i rf' grows steady led now after tr vs firsts_won
                quorums_won)
              i term
              (leads n gh node h sent i rf' grows steady led now after tr vs firsts_won quorums_won
                firsts_spared quorums_spared)
              vs.inside (node i).log.entries v term (λ e. omega arith)
              (subst (λ l. Carries gh l v term) (sym ((vs.nodes i).stood_as cand empty))
                (vs.votes v term i empty (voted_for v y)))))

    winner_Won :
        Won n
          (led_ghost n gh node h sent i rf' grows steady led now after tr vs firsts_won quorums_won)
          (set1 node i rf')
          term
    winner_Won =
        let q : quorums_won term ≡ winners = ground (arith, nat_beq_iff term term) in
        let f : firsts_won term ≡ rf'.log.entries = ground (arith, nat_beq_iff term term) in
        record {
          majority =
              subst (λ p. n / 2 + 1 ≤ tally n p) (sym q)
                (unfold backers in majority n gh.g node h h sent i rf' grows steady led after tr);
          behind = λ v y.
              let y' : winners v ≡ true = sym (ap (λ (p : ℕ → Bool). p v) q) ∙ y in
              omega (
                arith,
                Nodes-cast n node h now v term i (voted_for v y'),
                set1_term node i rf' (omega (arith, led.term)) v,
              );
          carries = λ v y.
              let y' : winners v ≡ true = sym (ap (λ (p : ℕ → Bool). p v) q) ∙ y in
              subst
                (λ l.
                  Carries
                    (led_ghost n gh node h sent i rf' grows steady led now after tr vs firsts_won
                      quorums_won)
                    l v term)
                (sym f) (winner_Carries v y');
        }

    wins :
        Votes n
          (led_ghost n gh node h sent i rf' grows steady led now after tr vs firsts_won quorums_won)
          (set1 node i rf')
          h
    wins =
        led_moves n gh node h sent i rf' grows steady led now after tr vs firsts_won quorums_won
          firsts_spared quorums_spared prefix fresh
      where
        prefix :
            (t : ℕ) → (s : List LogEntry) × (set1 gh.g term rf'.log.entries t ≡ firsts_won t ++ s)
        prefix t = elim (Bool-cases (t == term)) [
          | inr e ↦ let (s, p) = vs.prefix t in (s, ground (arith, e, p))
          | inl e ↦ ([], rw e (sym (append-nil rf'.log.entries)))
        ]

        fresh :
            (u : ℕ)
            → gh.g u ≡ []
            → (set1 gh.g term rf'.log.entries u ≡ [])
              ⊎ Won n
                  (led_ghost n gh node h sent i rf' grows steady led now after tr vs firsts_won
                    quorums_won)
                  (set1 node i rf')
                  u
        fresh u none_yet = elim (Bool-cases (u == term)) [
          | inr e ↦ inl (rw e none_yet)
          | inl e ↦ inr (
              subst
                (Won n
                  (led_ghost n gh node h sent i rf' grows steady led now after tr vs firsts_won
                    quorums_won)
                  (set1 node i rf'))
                (sym ((nat_beq_iff u term).0 e)) winner_Won)
        ]

  own_real : gh.g term ≡ (node i).log.entries → ¬ (gh.g term ≡ [])
  own_real own empty = ground (arith, own, empty, (tr.logs i).1)

  pub led-Votes :
      (first : Leaders) × (quorum : ℕ → ℕ → Bool) × Spares first quorum
      × Votes n
          (led_ghost n gh node h sent i rf' grows steady led now after tr vs first quorum)
          (set1 node i rf')
          h
  led-Votes = elim (before n gh.g node h h sent i rf' grows steady led after tr) [
    | inl own ↦ (gh.first, gh.quorum, (λ t r. refl, λ t r. refl), continues own (own_real own))
    | inr empty ↦ elim led.before [
      | inl leading ↦ absurd (own_real (sym ((tr.logs i).2 leading)) empty)
      | inr cand ↦ (
        firsts_won,
        quorums_won,
        (firsts_spared empty cand, quorums_spared empty cand),
        wins empty cand,
      )
    ]
  ]

  pub led-More : (v u : ℕ) → gh.acked v u ≤ set2 gh.acked i term (length rf'.log.entries) v u
  led-More v u = elim (Bool-cases (v == i && u == term)) [
    | inr e ↦ rw e (omega arith)
    | inl e ↦
        let (s, more) = longer n gh node h sent i rf' grows steady led now after tr vs term in
        let size =
          ap length (sym (at_term n gh node h sent i rf' grows steady led now after tr vs) ∙ more)
          ∙ length-append (gh.g term) s in
        let p : i ≡ v = ground arith in
        let q : term ≡ u = ground arith in
        rw e (
          subst (λ (z : ℕ). gh.acked v z ≤ length rf'.log.entries) q
            (subst (λ (z : ℕ). gh.acked z term ≤ length rf'.log.entries) p
              (omega (arith, vs.inside i term, size))))
  ]
