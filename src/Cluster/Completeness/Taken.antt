-- ===== src/Cluster/Completeness/Taken.antt =====
-- hw3/raft/raft.go: what a follower takes for committed when `AppendEntries` succeeds.
use mathlib.Core.Path.{subst}
use native.Mathlib.Decide.{ℕ_discrete}
use cmsc.Prelude.{
  ℕ, suc, ◌+◌, ◌≤◌, ◌≡◌, sym, ap, ◌∙◌, ◌⊎◌, inl, inr, true, List, arith, length, take, get_elem?,
  nat_eq,
}
use cmsc.Raft.Log.{last_index}
use cmsc.Raft.Config.{NodeConfig}
use cmsc.Raft.Log.WellFormed.{IsWf}
use cmsc.Raft.Node.{Raft, is_leader}
use cmsc.Raft.Replicate.{AppendEntriesArgs, consistent, follow_commit}
use cmsc.Cluster.History.{History}
use cmsc.Cluster.Nodes.{Nodes}
use cmsc.Cluster.Network.Delivery.{Fits}
use cmsc.Cluster.Network.Messages.{Piece}
use cmsc.Cluster.Network.Agreement.{take_shorter, merged}
use cmsc.Cluster.Network.Tracks.{Tracks}
use cmsc.Cluster.Completeness.{Ghost, Agrees, Committed}
use cmsc.Cluster.Completeness.Leader.{first-Agrees}
use cmsc.Cluster.Completeness.Stance.{Calm}
use cmsc.Cluster.Completeness.Ledger.{Backed, Backed-lt, Safe, Ledger, Ledger-Grown}
use cmsc.Cluster.Completeness.Prefix.{Own-lt, Agrees-append}
use cmsc.Cluster.Completeness.Voters.{Votes}
use cmsc.Cluster.Completeness.Confirmed.{
  confirmed_ghost, confirms, confirmed-More, leader_real, keeps_agreement, reaches,
}

follow_commit-cases :
    (leader_commit last commit : ℕ)
    → (follow_commit leader_commit last commit ≡ commit)
      ⊎ (follow_commit leader_commit last commit ≤ leader_commit)
unfolding follow_commit
follow_commit-cases leader_commit last commit = ground arith

module _ (n : ℕ) (gh : Ghost) (node : ℕ → Raft) (h : History) (sent : List AppendEntriesArgs)
    (i : ℕ) (m : AppendEntriesArgs) (rf' : Raft) (w : IsWf (node i).log)
    (c : consistent m (node i).log ≡ true) (p : Piece gh.g m) (now : Nodes n node h)
    (tr : Tracks n gh.g node h sent) (vs : Votes n gh node h)
    (late : (node i).current_term ≤ m.term) (term : rf'.current_term ≡ m.term)
    (left : rf'.log.entries
      ≡ merged gh.g m
          (node i).log
          w
          c
          p
          (tr.logs i).0
          (tr.logs i).1
          (tr.chain m.term)
          (tr.tops m.term)) where
  -- The leader of the request has what was committed before.
  leader_has : (t j : ℕ) → Committed n gh t j → t ≤ m.term → Agrees gh.g (gh.g m.term) t j
  leader_has t j held le = elim (ℕ_discrete t m.term) [
    | yes e ↦ ap (λ (u : ℕ). take (suc j) (gh.g u)) (sym e)
    | no other ↦
        let (s, more) = vs.prefix m.term in
        ap (take (suc j)) more
        ∙ Agrees-append gh.g (gh.first m.term) s t j (Own-lt gh.g t j held.own) (
            first-Agrees n gh node vs.won t j m.term held (omega (arith, le, other))
              (leader_real n gh node h sent i m rf' w c p now tr vs late term left))
  ]

  still-Backed :
      (k : ℕ)
      → Backed n gh (node i).log.entries (node i).current_term k
      → Backed n gh rf'.log.entries rf'.current_term k
  still-Backed k b = record {
    t = b.t;
    j = b.j;
    committed = b.committed;
    within = b.within;
    early = omega (arith, b.early, late, term);
    agrees =
        keeps_agreement n gh node h sent i m rf' w c p now tr vs late term left b.t k
          (Backed-lt n gh (node i).log.entries (node i).current_term k b)
          (take_shorter (suc k) (suc b.j) (gh.g m.term) (gh.g b.t) (omega (arith, b.within))
            (leader_has b.t b.j b.committed (omega (arith, b.early, late))))
          b.agrees;
  }

  newly-Backed :
      (k : ℕ)
      → k ≤ m.leader_commit
      → m.leader_commit ≤ m.prev_log_index + length m.entries
      → Backed n gh (gh.g m.term) m.term m.leader_commit
      → Backed n gh rf'.log.entries rf'.current_term k
  newly-Backed k le within b = record {
    t = b.t;
    j = b.j;
    committed = b.committed;
    within = omega (arith, b.within, le);
    early = omega (arith, b.early, term);
    agrees =
        take_shorter (suc k) (suc m.prev_log_index + length m.entries) rf'.log.entries (gh.g m.term)
          (omega (arith, le, within))
          (reaches n gh node h sent i m rf' w c p now tr vs late term left)
        ∙ take_shorter (suc k) (suc m.leader_commit) (gh.g m.term) (gh.g b.t) (omega (arith, le))
            b.agrees;
  }

  confirm-Safe :
      rf'.commit_index ≡ follow_commit m.leader_commit (last_index rf'.log) (node i).commit_index
      → m.leader_commit ≤ m.prev_log_index + length m.entries
      → Safe n gh (gh.g m.term) m.term m.leader_commit
      → Safe n gh (node i).log.entries (node i).current_term (node i).commit_index
      → Safe n gh rf'.log.entries rf'.current_term rf'.commit_index
  confirm-Safe moved within theirs ours pos =
      elim (follow_commit-cases m.leader_commit (last_index rf'.log) (node i).commit_index) [
        | inl same ↦
            subst (Backed n gh rf'.log.entries rf'.current_term) (sym (moved ∙ same))
              (still-Backed (node i).commit_index (ours (omega (arith, pos, moved, same))))
        | inr le ↦
            newly-Backed rf'.commit_index (omega (arith, le, moved)) within
              (theirs (omega (arith, pos, le, moved)))
      ]

  pub confirm-Ledger :
      (ps : List NodeConfig)
      → rf'.commit_index ≡ follow_commit m.leader_commit (last_index rf'.log) (node i).commit_index
      → m.leader_commit ≤ m.prev_log_index + length m.entries
      → Safe n gh (gh.g m.term) m.term m.leader_commit
      → Fits gh.g rf'
      → (is_leader rf'.state ≡ true
          → (is_leader (node i).state ≡ true) × (rf'.current_term ≡ (node i).current_term))
      → Calm (node i) rf'
      → rf'.match_index ≡ (node i).match_index
      → rf'.peers ≡ (node i).peers
      → Ledger n ps gh i (node i)
      → Ledger n ps (confirmed_ghost n gh node h sent i m rf' w c p now tr vs late term left) i rf'
  confirm-Ledger ps moved within theirs fits leads calm same peers b =
      Ledger-Grown n ps gh (confirmed_ghost n gh node h sent i m rf' w c p now tr vs late term left)
        i rf' (confirms n gh node h sent i m rf' w c p now tr vs late term left).grown
        (confirmed-More n gh node h sent i m rf' w c p now tr vs late term left)
        (record {
          safe = confirm-Safe moved within theirs b.safe;
          own = λ led.
              let (was, stays) = leads led in
              let log : rf'.log.entries ≡ (node i).log.entries =
                fits.2 led ∙ ap gh.g stays ∙ sym ((tr.logs i).2 was) in
              omega (arith, b.own was, ap length log, ap (gh.acked i) stays);
          matched = λ q x led there pos.
              let (was, stays) = leads led in
              omega (
                arith,
                b.matched q x was (ap (λ l. get_elem? l q) (sym same) ∙ there) pos,
                ap (gh.acked q) stays,
              );
          member = λ either.
              b.member (elim either [ inl led ↦ inl (leads led).0 | inr cand ↦ inr (calm cand).0 ]);
          peers = peers ∙ b.peers;
        })
