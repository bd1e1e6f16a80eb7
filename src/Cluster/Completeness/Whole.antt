-- ===== src/Cluster/Completeness/Whole.antt =====
-- All that holds of a cluster with its messages between two steps, and what a call keeps of it that
-- leaves the log of its node.

use mathlib.Core.List.{append-nil}
use cmsc.Prelude.{
  ℕ, ◌≤◌, ◌≡◌, refl, sym, ap, ◌∙◌, inl, inr, true, some, List, [], arith, get_elem?, nat_eq,
}
use cmsc.Raft.Log.{Log}
use cmsc.Raft.Config.{NodeConfig}
use cmsc.Raft.Node.{Raft, ApplyMsg, is_leader}
use cmsc.Raft.Replicate.{AppendEntriesArgs}
use cmsc.Cluster.{set1, Ballot}
use cmsc.Cluster.History.{History, Grows}
use cmsc.Cluster.Nodes.{Nodes}
use cmsc.Cluster.Network.{Answer}
use cmsc.Cluster.Network.Traced.{Leaders}
use cmsc.Cluster.Network.Effect.{Steady}
use cmsc.Cluster.Network.Delivery.{kept-Fits}
use cmsc.Cluster.Network.Tracks.{Tracks, still-Tracks}
use cmsc.Cluster.Completeness.{Ghost}
use cmsc.Cluster.Completeness.Prefix.{Grown}
use cmsc.Cluster.Completeness.Stance.{Calm, Books}
use cmsc.Cluster.Completeness.Terms.{Terms, kept-Placed, still-Terms}
use cmsc.Cluster.Completeness.Voters.{Votes, set1_each, set1_term}
use cmsc.Cluster.Completeness.Moving.{kept-Votes, Calm-stood, Nodes-cast}
use cmsc.Cluster.Completeness.Casting.{Standing}
use cmsc.Cluster.Completeness.Standing.{Standing-kept}
use cmsc.Cluster.Completeness.Ledger.{Ledger, More, Ledger-Grown, kept-Ledger}
use cmsc.Cluster.Completeness.Promises.{Promise, Confirms, Handed, Promise-Grown, Handed-Grown}

-- The ledgers of the nodes, and what was sent, answered and applied.
pub record Commits (n : ℕ) (ps : List NodeConfig) (gh : Ghost) (node : ℕ → Raft)
    (sent : List AppendEntriesArgs) (answers : List Answer) (applied : List (ℕ × ApplyMsg))
    : Type 0 where
  pub ledgers : (v : ℕ) → Ledger n ps gh v (node v)
  pub messages : (k : ℕ) (m : AppendEntriesArgs) → get_elem? sent k ≡ some m → Promise n gh m
  pub answered : (k : ℕ) (a : Answer) → get_elem? answers k ≡ some a → Confirms gh a
  pub handed :
      (k i : ℕ) (msg : ApplyMsg)
      → get_elem? applied k ≡ some (i, msg)
      → (c : Handed n gh msg) × (c.t ≤ (node i).current_term)

pub record Whole (n : ℕ) (ps : List NodeConfig) (gh : Ghost) (node : ℕ → Raft) (h : History)
    (ballot : ℕ → ℕ → Ballot) (sent : List AppendEntriesArgs) (answers : List Answer)
    (applied : List (ℕ × ApplyMsg)) : Type 0 where
  pub tracks : Tracks n gh.g node h sent
  pub terms : Terms gh.g node
  pub votes : Votes n gh node h
  pub standing : Standing gh node ballot
  pub commits : Commits n ps gh node sent answers applied

pub moved-Commits :
    (n : ℕ) (ps : List NodeConfig) (gh gh' : Ghost) (node : ℕ → Raft)
    (sent : List AppendEntriesArgs) (answers : List Answer) (applied : List (ℕ × ApplyMsg)) (i : ℕ)
    (rf' : Raft)
    → Grown gh gh'
    → More gh gh'
    → (node i).current_term ≤ rf'.current_term
    → Ledger n ps gh' i rf'
    → Commits n ps gh node sent answers applied
    → Commits n ps gh' (set1 node i rf') sent answers applied
moved-Commits n ps gh gh' node sent answers applied i rf' grown more later one cs = record {
  ledgers =
      set1_each (Ledger n ps gh') node i rf' one
        (λ j e. Ledger-Grown n ps gh gh' j (node j) grown more (cs.ledgers j));
  messages = λ k m e. Promise-Grown n gh gh' m grown more (cs.messages k m e);
  answered = λ k a e y. omega (arith, cs.answered k a e y, more a.peer a.request.term);
  handed = λ k j msg e.
      Handed-Grown n gh gh' msg (node j).current_term (set1 node i rf' j).current_term grown more
        (set1_term node i rf' later j) (cs.handed k j msg e);
}

pub Grown-refl : (gh gh' : Ghost) → gh'.g ≡ gh.g → gh'.first ≡ gh.first → Grown gh gh'
Grown-refl gh gh' same first = record {
  longer = λ t. ([], ap (λ (g : Leaders). g t) same ∙ sym (append-nil (gh.g t)));
  firsts = λ t r. ap (λ (g : Leaders). g t) first;
}

module _ (n : ℕ) (ps : List NodeConfig) (gh : Ghost) (node : ℕ → Raft) (h h' : History)
    (ballot ballot' : ℕ → ℕ → Ballot) (sent : List AppendEntriesArgs) (answers : List Answer)
    (applied : List (ℕ × ApplyMsg)) (i : ℕ) (rf' : Raft) (grows : Grows h h')
    (steady : Steady (node i) rf') (args_kept : (c t : ℕ) → (ballot' c t).args ≡ (ballot c t).args)
    (whole : Whole n ps gh node h ballot sent answers applied) where
  -- The node keeps its log; its ledger and the votes are given.
  pub Ledger-Whole :
      rf'.log ≡ (node i).log
      → (is_leader rf'.state ≡ true
          → (is_leader (node i).state ≡ true) × (rf'.current_term ≡ (node i).current_term))
      → Calm (node i) rf'
      → Ledger n ps gh i rf'
      → Votes n gh (set1 node i rf') h'
      → Whole n ps gh (set1 node i rf') h' ballot' sent answers applied
  Ledger-Whole same leads calm ledger votes = record {
    tracks =
        still-Tracks n gh.g node h h' sent i rf' grows steady
          (kept-Fits gh.g (node i) rf' (whole.tracks.logs i) (ap (λ (l : Log). l.entries) same)
            leads)
          whole.tracks;
    terms =
        still-Terms gh.g node i rf'
          (kept-Placed (node i) rf' same steady.0
            (λ either. omega (
              arith,
              steady.0,
              (whole.terms.nodes i).stands
                  (elim either [ inl led ↦ inl (leads led).0 | inr cand ↦ inr (calm cand).0 ]),
            ))
            (whole.terms.nodes i))
          whole.terms;
    votes = votes;
    standing =
        Standing-kept gh gh node i rf' ballot ballot' (Grown-refl gh gh refl refl).longer steady.0
          args_kept (λ c t. refl) whole.standing;
    commits =
        moved-Commits n ps gh gh node sent answers applied i rf' (Grown-refl gh gh refl refl)
          (λ v u. omega arith) steady.0 ledger whole.commits;
  }

  pub kept-Whole :
      rf'.log ≡ (node i).log
      → (is_leader rf'.state ≡ true
          → (is_leader (node i).state ≡ true) × (rf'.current_term ≡ (node i).current_term))
      → Calm (node i) rf'
      → Books (node i) rf'
      → Votes n gh (set1 node i rf') h'
      → Whole n ps gh (set1 node i rf') h' ballot' sent answers applied
  kept-Whole same leads calm books votes =
      Ledger-Whole same leads calm
        (kept-Ledger n ps gh i (node i) rf' same steady.0 leads books
          (λ either.
            (whole.commits.ledgers i).member
              (elim either [ inl led ↦ inl (leads led).0 | inr cand ↦ inr (calm cand).0 ]))
          (whole.commits.ledgers i))
        votes

-- The votes stay when a node keeps its log and nobody votes.
pub Calm-Votes :
    (n : ℕ) (gh : Ghost) (node : ℕ → Raft) (h : History) (i : ℕ) (rf' : Raft)
    → Nodes n node h
    → rf'.log ≡ (node i).log
    → (node i).current_term ≤ rf'.current_term
    → Calm (node i) rf'
    → Votes n gh node h
    → Votes n gh (set1 node i rf') h
Calm-Votes n gh node h i rf' now same later calm vs =
    kept-Votes n gh node h i rf' (Nodes-cast n node h now) same later
      (Calm-stood gh i (node i) rf' same calm (vs.nodes i)) vs
