-- ===== src/Cluster/Completeness/Deliveries.antt =====
-- hw3/raft/raft.go: what a delivery of `AppendEntries` keeps of what holds of the cluster.
use mathlib.Core.Path.{subst}
use cmsc.Prelude.{
  ℕ, zero, suc, ◌+◌, ◌≤◌, ◌≡◌, refl, sym, ap, ◌∙◌, inl, inr, true, false, some, List, ◌∷◌, ◌++◌,
  arith, ok, ok-injective, take, drop, get_elem?, nat_eq,
}
use cmsc.Raft.Log.{last_index}
use cmsc.Raft.Log.WellFormed.{IsWf, IsIndexed}
use cmsc.Raft.Config.{NodeConfig}
use cmsc.Raft.Node.{Raft, ApplyMsg}
use cmsc.Raft.Replicate.{
  AppendEntriesArgs, AppendEntriesReply, append_entries, consistent, follow_commit,
}
use cmsc.Raft.Replicate.Merge.{reconcile}
use cmsc.Raft.Replicate.Follower.{Handled, stale, rejected, accepted, append_entries-Handled}
use cmsc.Cluster.{set1, Ballot}
use cmsc.Cluster.History.{History}
use cmsc.Cluster.Nodes.{Nodes}
use cmsc.Cluster.Network.{Answer}
use cmsc.Cluster.Network.Effect.{append_entries-Steady}
use cmsc.Cluster.Network.Messages.{Piece, GoodMessage}
use cmsc.Cluster.Network.Agreement.{merged, merged_source}
use cmsc.Cluster.Network.Delivery.{Fits, delivery-Fits}
use cmsc.Cluster.Network.Tracks.{still-Tracks}
use cmsc.Cluster.Network.Matching.{Grows-refl}
use cmsc.Cluster.Completeness.{Ghost}
use cmsc.Cluster.Completeness.Stance.{append_entries-Calm, append_entries-match}
use cmsc.Cluster.Completeness.Terms.{Placed, still-Terms}
use cmsc.Cluster.Completeness.Standing.{Standing-kept}
use cmsc.Cluster.Completeness.Confirmed.{
  blank_refused, confirmed_ghost, confirms, confirmed-More, confirmed_reached, confirm-Votes,
}
use cmsc.Cluster.Completeness.Taken.{confirm-Ledger}
use cmsc.Cluster.Completeness.Promises.{Promise, Confirms}
use cmsc.Cluster.Completeness.Whole.{Whole, moved-Commits, kept-Whole, Calm-Votes}

delivery-Handled :
    (draw : ℕ) (m : AppendEntriesArgs) (reply : AppendEntriesReply) (rf rf' : Raft)
    → append_entries draw m rf ≡ ok (rf', reply)
    → IsWf rf.log
    → IsIndexed (suc m.prev_log_index) m.entries
    → Handled m rf rf' reply
delivery-Handled draw m reply rf rf' run w indexed =
    let e : m.prev_log_index + 1 ≡ suc m.prev_log_index = omega arith in
    let (rf'', reply'', run'', answer) = append_entries-Handled draw m rf w (rw e indexed) in
    let both : Path (Raft × AppendEntriesReply) (rf'', reply'') (rf', reply) =
      ok-injective (sym run'' ∙ run) in
    subst (λ (r : Raft × AppendEntriesReply). Handled m rf r.0 r.1) both answer

answer-Whole :
    (n : ℕ) (ps : List NodeConfig) (gh : Ghost) (node : ℕ → Raft) (h : History)
    (ballot : ℕ → ℕ → Ballot) (sent : List AppendEntriesArgs) (answers : List Answer)
    (applied : List (ℕ × ApplyMsg)) (a : Answer)
    → Confirms gh a
    → Whole n ps gh node h ballot sent answers applied
    → Whole n ps gh node h ballot sent (a ∷ answers) applied
answer-Whole n ps gh node h ballot sent answers applied a fresh whole = record {
  tracks = whole.tracks;
  terms = whole.terms;
  votes = whole.votes;
  standing = whole.standing;
  commits = record {
    ledgers = whole.commits.ledgers;
    messages = whole.commits.messages;
    answered = all;
    handed = whole.commits.handed;
  };
}
  where
    all : (k : ℕ) (b : Answer) → get_elem? (a ∷ answers) k ≡ some b → Confirms gh b
    all zero b there = let same : a ≡ b = ground arith in subst (Confirms gh) same fresh
    all (suc k) b there = whole.commits.answered k b there

module _ (n : ℕ) (ps : List NodeConfig) (gh : Ghost) (node : ℕ → Raft) (h : History)
    (ballot : ℕ → ℕ → Ballot) (sent : List AppendEntriesArgs) (answers : List Answer)
    (applied : List (ℕ × ApplyMsg)) (i draw : ℕ) (m : AppendEntriesArgs)
    (reply : AppendEntriesReply) (rf' : Raft)
    (run : append_entries draw m (node i) ≡ ok (rf', reply)) (now : Nodes n node h)
    (w : IsWf (node i).log) (good : GoodMessage gh.g m) (promise : Promise n gh m)
    (whole : Whole n ps gh node h ballot sent answers applied) where
  abbrev answer : Answer
  answer = record { peer = i; request = m; reply = reply }

  abbrev Delivered : Type 0
  Delivered =
      (gh' : Ghost) × Whole n ps gh' (set1 node i rf') h ballot sent (answer ∷ answers) applied

  refused :
      rf'.log ≡ (node i).log
      → rf'.commit_index ≡ (node i).commit_index
      → reply.success ≡ false
      → Delivered
  refused same commit fails =
      let (steady, leads) = append_entries-Steady draw m reply (node i) rf' run in
      let calm = append_entries-Calm draw m reply (node i) rf' run in
      let (match, peers, id) = append_entries-match draw m reply (node i) rf' run in
      (
        gh,
        answer-Whole n ps gh (set1 node i rf') h ballot sent answers applied answer
            (λ y. absurd (ground (arith, y, fails)))
            (kept-Whole n ps gh node h h ballot ballot sent answers applied i rf' (Grows-refl h)
              steady (λ c t. refl) whole same leads calm (commit, peers, id, inl (match, leads))
              (Calm-Votes n gh node h i rf' now same steady.0 calm whole.votes)),
      )

  module _ (c : consistent m (node i).log ≡ true) (p : Piece gh.g m)
      (late : (node i).current_term ≤ m.term) (term : rf'.current_term ≡ m.term)
      (left : rf'.log.entries
        ≡ merged gh.g m
            (node i).log
            w
            c
            p
            (whole.tracks.logs i).0
            (whole.tracks.logs i).1
            (whole.tracks.chain m.term)
            (whole.tracks.tops m.term)) where
    placed : Placed rf'
    placed = record {
      bound = λ k x here.
          elim (merged_source gh.g m (node i).log w c p (whole.tracks.logs i).0
            (whole.tracks.logs i).1 (whole.tracks.chain m.term) (whole.tracks.tops m.term) k x
            (ap (λ l. get_elem? l k) (sym left) ∙ here)) [
              | inl old ↦ omega (arith, (whole.terms.nodes i).bound k x old, late, term)
              | inr new ↦ omega (arith, whole.terms.top m.term k x new, term)
            ];
      stands = λ either. omega (
        arith,
        late,
        term,
        (whole.terms.nodes i).stands (elim either [
          | inl led ↦ inl ((append_entries-Steady draw m reply (node i) rf' run).1 led).0
          | inr cand ↦ inr (append_entries-Calm draw m reply (node i) rf' run cand).0
        ]),
      );
    }

    taken :
        rf'.commit_index ≡ follow_commit m.leader_commit (last_index rf'.log) (node i).commit_index
        → Delivered
    taken commit = elim promise [
      | inl blank ↦ absurd (
          blank_refused gh.g m (node i).log whole.terms.none_at_zero (whole.tracks.logs i).0 w blank
            c)
      | inr (within, theirs) ↦
          let tr = whole.tracks in
          let vs = whole.votes in
          let (steady, leads) = append_entries-Steady draw m reply (node i) rf' run in
          let calm = append_entries-Calm draw m reply (node i) rf' run in
          let (match, peers, id) = append_entries-match draw m reply (node i) rf' run in
          let fits : Fits gh.g rf' =
            delivery-Fits gh.g m draw reply (node i) rf' run w good (tr.chain m.term)
              (tr.tops m.term) (tr.logs i) in
          let gh' = confirmed_ghost n gh node h sent i m rf' w c p now tr vs late term left in
          let grown = (confirms n gh node h sent i m rf' w c p now tr vs late term left).grown in
          (
            gh',
            answer-Whole n ps gh' (set1 node i rf') h ballot sent answers applied answer
                (λ y. omega (
                  arith,
                  confirmed_reached n gh node h sent i m rf' w c p now tr vs late term left,
                ))
                (record {
                  tracks = still-Tracks n gh.g node h h sent i rf' (Grows-refl h) steady fits tr;
                  terms = still-Terms gh.g node i rf' placed whole.terms;
                  votes = confirm-Votes n gh node h sent i m rf' w c p now tr vs late term left;
                  standing =
                      Standing-kept gh gh' node i rf' ballot ballot grown.longer steady.0
                        (λ d t. refl) (λ d t. refl) whole.standing;
                  commits =
                      moved-Commits n ps gh gh' node sent answers applied i rf' grown
                        (confirmed-More n gh node h sent i m rf' w c p now tr vs late term left)
                        steady.0
                        (confirm-Ledger n gh node h sent i m rf' w c p now tr vs late term left ps
                          commit within theirs fits leads calm match peers
                          (whole.commits.ledgers i))
                        whole.commits;
                }),
          )
    ]

  accept :
      consistent m (node i).log ≡ true
      → (node i).current_term ≤ m.term
      → rf'.current_term ≡ m.term
      → rf'.log.entries
        ≡ take (suc m.prev_log_index) (node i).log.entries
          ++ reconcile (drop (suc m.prev_log_index) (node i).log.entries) m.entries
      → rf'.commit_index ≡ follow_commit m.leader_commit (last_index rf'.log) (node i).commit_index
      → Delivered
  accept c late term left commit = elim good.origin [
    | inl blank ↦ absurd (
        blank_refused gh.g m (node i).log whole.terms.none_at_zero (whole.tracks.logs i).0 w blank
          c)
    | inr p ↦ taken c p late term left commit
  ]

  pub delivers-Whole : Delivered
  delivers-Whole = elim (delivery-Handled draw m reply (node i) rf' run w good.indexed) [
    | stale _ e r ↦
        refused (ap (λ (x : Raft). x.log) e) (ap (λ (x : Raft). x.commit_index) e)
          (ap (λ (x : AppendEntriesReply). x.success) r)
    | rejected _ _ _ log commit r ↦
        refused log commit (ap (λ (x : AppendEntriesReply). x.success) r)
    | accepted late c term left commit _ ↦
        let e : m.prev_log_index + 1 ≡ suc m.prev_log_index = omega arith in
        accept c late term
          (left
            ∙ ap
                (λ (k : ℕ).
                  take k (node i).log.entries ++ reconcile (drop k (node i).log.entries) m.entries)
                e)
          commit
  ]
