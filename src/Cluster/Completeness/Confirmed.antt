-- ===== src/Cluster/Completeness/Confirmed.antt =====
-- hw3/raft/raft.go: what a follower confirms when `AppendEntries` succeeds.
use mathlib.Core.Path.{subst}
use mathlib.Core.List.{append-nil}
use native.Mathlib.Decide.{ℕ_discrete}
use cmsc.Prelude.{
  ℕ, zero, suc, ◌+◌, ◌≤◌, ◌<◌, ◌≡◌, refl, sym, ap, ◌∙◌, ◌⊎◌, inl, inr, true, List, [], arith, ◌&&◌,
  length, take, ltb, ◌==◌, nat_eq, nat_beq_iff, if◌then◌else◌, Bool-cases, get_elem?-some,
}
use cmsc.Raft.Log.{Log}
use cmsc.Raft.Log.WellFormed.{IsWf}
use cmsc.Raft.Node.{Raft}
use cmsc.Raft.Replicate.{AppendEntriesArgs, consistent}
use cmsc.Raft.Replicate.Follower.{consistent-lt}
use cmsc.Cluster.{set1, set2}
use cmsc.Cluster.History.{History}
use cmsc.Cluster.Nodes.{Nodes}
use cmsc.Cluster.Network.Traced.{Leaders, Traced, take_reaches}
use cmsc.Cluster.Network.Delivery.{consistent-term}
use cmsc.Cluster.Network.Messages.{Piece, IsBlank}
use cmsc.Cluster.Network.Agreement.{
  take_shorter, merged, merged_agrees, merged_reaches, merged-fits,
}
use cmsc.Cluster.Network.Tracks.{Tracks}
use cmsc.Cluster.Completeness.{Ghost, Own, Agrees, Bad}
use cmsc.Cluster.Completeness.Ledger.{More}
use cmsc.Cluster.Completeness.Prefix.{Own-lt, Agrees-Dec, Agrees-append, Agrees-reaches, Bad-later}
use cmsc.Cluster.Completeness.Voters.{Votes, Holds, Moves, still_has}
use cmsc.Cluster.Completeness.Moving.{Moves-Votes, Nodes-cast}

-- No log is consistent with a request that names an index behind the end of the leader's.
pub blank_refused :
    (g : Leaders) (m : AppendEntriesArgs) (l : Log)
    → g 0 ≡ []
    → Traced g l.entries
    → IsWf l
    → IsBlank m
    → consistent m l ≡ true
    → ⊥
blank_refused g m l empty traced w (_, behind, none_named) c = by_index m.prev_log_index refl
  where
    by_index : (k : ℕ) → m.prev_log_index ≡ k → ⊥
    by_index zero e = omega (arith, behind, e)
    by_index (suc k) e =
        let (x, here) =
          get_elem?-some l.entries (suc k) (omega (arith, consistent-lt m l w c, e)) in
        let zero_term : x.term ≡ 0 =
          consistent-term m l k x e here (omega (arith, consistent-lt m l w c, e)) c ∙ none_named in
        let long =
          take_reaches (suc k) l.entries (g x.term) (omega (arith, consistent-lt m l w c, e))
            (traced k x here) in
        omega (arith, long, ap length (ap g zero_term ∙ empty))

module _ (n : ℕ) (gh : Ghost) (node : ℕ → Raft) (h : History) (sent : List AppendEntriesArgs)
    (i : ℕ) (m : AppendEntriesArgs) (rf' : Raft) (w : IsWf (node i).log)
    (c : consistent m (node i).log ≡ true) (p : Piece gh.g m) (now : Nodes n node h)
    (tr : Tracks n gh.g node h sent) (vs : Votes n gh node h)
    (late : (node i).current_term ≤ m.term) (term : rf'.current_term ≡ m.term)
    (left : rf'.log.entries
      ≡ merged gh.g m
          (node i).log
          w
          c
          p
          (tr.logs i).0
          (tr.logs i).1
          (tr.chain m.term)
          (tr.tops m.term)) where
  abbrev pub reached : ℕ
  reached = suc m.prev_log_index + length m.entries

  abbrev confirmed_value : ℕ
  confirmed_value = if ltb (gh.acked i m.term) reached then reached else gh.acked i m.term

  -- The follower has confirmed the entries up to the last of the request.
  abbrev pub confirmed_ghost : Ghost
  confirmed_ghost = record gh { acked = set2 gh.acked i m.term confirmed_value }

  pub confirms : Moves gh confirmed_ghost i m.term
  confirms = record {
    grown = record { longer = λ t. ([], sym (append-nil (gh.g t))); firsts = λ t r. refl };
    same_quorum = λ t r. refl;
    same_stood = λ d t e. refl;
    others = λ v t e. rw e refl;
  }

  fits_leader : reached ≤ length (gh.g m.term)
  fits_leader =
      merged-fits gh.g m (node i).log w c p (tr.logs i).0 (tr.logs i).1 (tr.chain m.term)
        (tr.tops m.term)

  pub leader_real : ¬ (gh.g m.term ≡ [])
  leader_real empty = omega (arith, fits_leader, ap length empty)

  keeps :
      (k : ℕ)
      → k ≤ length (node i).log.entries
      → take k (node i).log.entries ≡ take k (gh.g m.term)
      → take k rf'.log.entries ≡ take k (gh.g m.term)
  keeps k le same =
      ap (take k) left
      ∙ merged_agrees gh.g m (node i).log w c p (tr.logs i).0 (tr.logs i).1 (tr.chain m.term)
          (tr.tops m.term) k le same

  pub reaches : take reached rf'.log.entries ≡ take reached (gh.g m.term)
  reaches =
      ap (take reached) left
      ∙ merged_reaches gh.g m (node i).log w c p (tr.logs i).0 (tr.logs i).1 (tr.chain m.term)
          (tr.tops m.term)

  -- What agrees with an earlier leader stays, if the leader of the request has it too.
  pub keeps_agreement :
      (t j : ℕ)
      → j < length (gh.g t)
      → Agrees gh.g (gh.g m.term) t j
      → Agrees gh.g (node i).log.entries t j
      → Agrees gh.g rf'.log.entries t j
  keeps_agreement t j inside theirs ours =
      keeps (suc j) (Agrees-reaches gh.g (node i).log.entries t j inside ours) (ours ∙ sym theirs)
      ∙ theirs

  old_has :
      (t j : ℕ)
      → t ≤ m.term
      → Own gh.g t j
      → Agrees gh.g (node i).log.entries t j ⊎ Bad gh t j (suc (node i).current_term)
      → Agrees gh.g rf'.log.entries t j ⊎ Bad gh t j (suc m.term)
  old_has t j le own (inr b) =
      inr (Bad-later gh t j (suc (node i).current_term) (suc m.term) (omega (arith, late)) b)
  old_has t j le own (inl a) = elim (ℕ_discrete t m.term) [
    | yes e ↦ inl (
        keeps_agreement t j (Own-lt gh.g t j own) (ap (λ (u : ℕ). take (suc j) (gh.g u)) (sym e)) a)
    | no other ↦ elim (Agrees-Dec gh.g (gh.first m.term) t j) [
      | no lacks ↦ inr (record {
        at = m.term;
        after = omega (arith, le, other);
        before = omega arith;
        won = leader_real;
        lacks = lacks;
      })
      | yes has ↦
          let (s, more) = vs.prefix m.term in
          inl (
            keeps_agreement t j (Own-lt gh.g t j own)
              (ap (take (suc j)) more
                ∙ Agrees-append gh.g (gh.first m.term) s t j (Own-lt gh.g t j own) has)
              a)
    ]
  ]

  new_has :
      (t j : ℕ)
      → j < confirmed_ghost.acked i t
      → Own gh.g t j
      → Agrees gh.g rf'.log.entries t j ⊎ Bad gh t j (suc m.term)
  new_has t j lt own = elim (Bool-cases (ltb j (gh.acked i t))) [
    | inl before ↦
        let lt' : j < gh.acked i t = ground (arith, before) in
        old_has t j (omega (arith, (vs.nodes i).past t (omega (arith, lt')), late)) own
          ((vs.nodes i).has t j lt' own)
    | inr fresh ↦
        let here : t ≡ m.term = ground (arith, fresh, lt, nat_beq_iff t m.term) in
        let within : j < reached = ground (arith, fresh, lt, here) in
        inl (
          take_shorter (suc j) reached rf'.log.entries (gh.g m.term) within reaches
          ∙ ap (λ (u : ℕ). take (suc j) (gh.g u)) (sym here))
  ]

  follower-Holds : Holds confirmed_ghost i rf'
  follower-Holds = record {
    past = λ t pos. elim (Bool-cases (t == m.term)) [
      | inl e ↦ omega (arith, (nat_beq_iff t m.term).0 e, term)
      | inr e ↦ omega (arith, (vs.nodes i).past t (ground (arith, e, pos)), late, term)
    ];
    has = λ t j lt own.
        let own' : Own gh.g t j = record {
          entry = own.entry;
          behind = own.behind;
          there = own.there;
          term = own.term;
        } in
        still_has gh confirmed_ghost i m.term confirms vs.inside rf'.log.entries t j (suc m.term)
          (suc rf'.current_term) (Own-lt gh.g t j own') (omega (arith, term)) (new_has t j lt own');
    stood_as = λ cand empty. absurd (leader_real (ap gh.g (sym term) ∙ empty));
  }

  pub confirm-Votes : Votes n confirmed_ghost (set1 node i rf') h
  confirm-Votes =
      Moves-Votes n gh confirmed_ghost node h i m.term rf' confirms (Nodes-cast n node h now)
        (omega (arith, late, term)) late (λ v u d y. refl) vs.prefix
        (λ v t. elim (Bool-cases (v == i && t == m.term)) [
          | inr e ↦ rw e (vs.inside v t)
          | inl e ↦ ground (arith, e, vs.inside i m.term, fits_leader, nat_beq_iff t m.term)
        ])
        follower-Holds (λ u e. inl e) vs

  pub confirmed-More : More gh confirmed_ghost
  confirmed-More v u = elim (Bool-cases (v == i && u == m.term)) [
    | inr e ↦ rw e (omega arith)
    | inl e ↦
        let p : i ≡ v = ground arith in
        let q : m.term ≡ u = ground arith in
        rw e (
          subst (λ (z : ℕ). gh.acked v z ≤ confirmed_value) q
            (subst (λ (z : ℕ). gh.acked z m.term ≤ confirmed_value) p (ground arith)))
  ]

  pub confirmed_reached : reached ≤ confirmed_ghost.acked i m.term
  confirmed_reached = ground (arith, nat_beq_iff i i, nat_beq_iff m.term m.term)
