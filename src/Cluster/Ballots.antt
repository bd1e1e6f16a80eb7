-- ===== src/Cluster/Ballots.antt =====
-- What holds of the ballots of a cluster between two steps, and how each step keeps it.
use cmsc.Prelude.{
  ℕ, suc, ◌≤◌, ◌<◌, ◌≡◌, refl, sym, ◌∙◌, Bool, true, false, arith, some, ◌==◌, nat_eq,
  if◌then◌else◌,
}
use cmsc.Raft.Vote.{RequestVoteArgs, RequestVoteReply}
use cmsc.Cluster.{set1, Slot, unasked, replied, counted, Ballot, no_ballot, settled}
use cmsc.Cluster.Tally.{tally, tally_add, tally_cong, tally_none}
use cmsc.Cluster.History.{History, backers, Grows, tally-le-backers}

abbrev pub is_counted : Slot → Bool
is_counted counted = true
is_counted _ = false

-- How many of the `n` slots are counted votes.
pub counted_votes : ℕ → (ℕ → Slot) → ℕ
counted_votes n slot = tally n (λ v. is_counted (slot v))

-- The ballot of candidate `i` in term `t`.
pub record GoodBallot (n : ℕ) (h : History) (i t : ℕ) (b : Ballot) : Type 0 where
  pub asks : (a : RequestVoteArgs) → b.args ≡ some a → (a.term ≡ t) × (a.candidate_id ≡ i)
  pub promised :
      (v : ℕ) (r : RequestVoteReply) → b.slot v ≡ replied r → r.vote_granted ≡ true → h v t ≡ some i
  pub backed : (v : ℕ) → b.slot v ≡ counted → h v t ≡ some i
  pub total : b.votes ≡ counted_votes n b.slot

pub GoodBallot-Grows :
    (n : ℕ) (h h' : History) (i t : ℕ) (b : Ballot)
    → Grows h h'
    → GoodBallot n h i t b
    → GoodBallot n h' i t b
GoodBallot-Grows n h h' i t b g k = record {
  asks = k.asks;
  promised = λ v r e y. g v t i (k.promised v r e y);
  backed = λ v e. g v t i (k.backed v e);
  total = k.total;
}

-- The counted votes of a ballot are backers.
pub votes-le-backers :
    (n : ℕ) (h : History) (i t : ℕ) (b : Ballot) → GoodBallot n h i t b → b.votes ≤ backers n h t i
unfolding counted_votes
votes-le-backers n h i t b k = omega (
  arith,
  k.total,
  tally-le-backers n h t i (λ v. is_counted (b.slot v)) λ v y. k.backed v (ground arith),
)

-- A new ballot holds the candidate's own vote.
pub open-GoodBallot :
    (n : ℕ) (h : History) (i t : ℕ) (args : RequestVoteArgs)
    → i < n
    → args.term ≡ t
    → args.candidate_id ≡ i
    → h i t ≡ some i
    → GoodBallot n h i t
        (record { args = some args; votes = 1; slot = λ v. if v == i then counted else unasked })
unfolding counted_votes
open-GoodBallot n h i t args lt p q own = record {
  asks = λ a e. ground arith;
  promised = λ v r e y. ground arith;
  backed = λ v e. ground arith;
  total = omega (
    arith,
    tally_none n,
    tally_add n i (λ _. false) (λ v. is_counted (if v == i then counted else unasked)) lt
        (λ v e. ground arith) refl (ground arith),
  );
}

pub no_ballot-GoodBallot : (n : ℕ) (h : History) (i t : ℕ) → GoodBallot n h i t no_ballot
unfolding counted_votes
no_ballot-GoodBallot n h i t = record {
  asks = λ a e. ground arith;
  promised = λ v r e y. ground arith;
  backed = λ v e. ground arith;
  total = sym (tally_none n);
}

module _ (n : ℕ) (h : History) (i t : ℕ) (b : Ballot) (k : GoodBallot n h i t b) (v : ℕ) where
  -- A reply comes in: its vote, if it was given, is remembered.
  pub reply-GoodBallot :
      (r : RequestVoteReply)
      → b.slot v ≡ unasked
      → (r.vote_granted ≡ true → h v t ≡ some i)
      → GoodBallot n h i t (record b { slot = set1 b.slot v (replied r) })
  unfolding counted_votes
  reply-GoodBallot r e g = record {
    asks = k.asks;
    promised = λ w q p y. ground (arith, k.promised w q, g);
    backed = λ w p. ground (arith, k.backed w);
    total =
        k.total
        ∙ tally_cong n (λ w. is_counted (b.slot w)) (λ w. is_counted (set1 b.slot v (replied r) w))
            (λ w. ground arith);
  }

  -- A reply is settled without a vote, or with one that was given.
  pub drop-GoodBallot :
      (r : RequestVoteReply) (has : ℕ)
      → b.slot v ≡ replied r
      → has ≡ b.votes
      → GoodBallot n h i t (record b { votes = has; slot = set1 b.slot v (settled b.votes has) })
  unfolding counted_votes
  drop-GoodBallot r has e same = record {
    asks = k.asks;
    promised = λ w q p y. ground (arith, k.promised w q);
    backed = λ w p. ground (arith, k.backed w);
    total =
        same
        ∙ k.total
        ∙ tally_cong n (λ w. is_counted (b.slot w))
            (λ w. is_counted (set1 b.slot v (settled b.votes has) w)) (λ w. ground arith);
  }

  pub add-GoodBallot :
      (r : RequestVoteReply) (has : ℕ)
      → v < n
      → b.slot v ≡ replied r
      → r.vote_granted ≡ true
      → has ≡ suc b.votes
      → GoodBallot n h i t (record b { votes = has; slot = set1 b.slot v (settled b.votes has) })
  unfolding counted_votes
  add-GoodBallot r has lt e y more = record {
    asks = k.asks;
    promised = λ w q p g. ground (arith, k.promised w q);
    backed = λ w p. ground (arith, k.backed w, k.promised v r e y);
    total = omega (
      arith,
      k.total,
      tally_add n v (λ w. is_counted (b.slot w))
          (λ w. is_counted (set1 b.slot v (settled b.votes has) w)) lt (λ w d. ground arith)
          (ground arith) (ground arith),
    );
  }
