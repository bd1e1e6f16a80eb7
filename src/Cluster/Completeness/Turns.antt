-- ===== src/Cluster/Completeness/Turns.antt =====
-- What the calls on one node keep of what holds of the cluster.

use cmsc.Prelude.{
  ℕ, ◌≤◌, ◌<◌, ◌≡◌, refl, ap, inl, inr, true, false, some, List, arith, ok, nat_eq, nat_beq_iff,
  if◌then◌else◌, Bool-cases,
}
use cmsc.Raft.Log.{Log}
use cmsc.Raft.Log.WellFormed.{IsWf}
use cmsc.Raft.Config.{NodeConfig}
use cmsc.Raft.Node.{Raft, ApplyMsg, is_leader}
use cmsc.Raft.Vote.{RequestVoteArgs, RequestVoteReply, request_vote, start_election}
use cmsc.Raft.Replicate.{AppendEntriesArgs}
use cmsc.Cluster.{set1, set2, Ballot, Slot}
use cmsc.Cluster.History.{History, Grows}
use cmsc.Cluster.Nodes.{Nodes}
use cmsc.Cluster.Quiet.{start_election-Stands, request_vote-Granted}
use cmsc.Cluster.Network.{Answer}
use cmsc.Cluster.Network.Effect.{Effect, request_vote-Effect, start_election-Effect}
use cmsc.Cluster.Network.Delivery.{kept-Fits}
use cmsc.Cluster.Network.Tracks.{still-Tracks, led-Tracks, grown-Extends}
use cmsc.Cluster.Network.Matching.{Grows-refl, ask_Grows}
use cmsc.Cluster.Completeness.{Ghost}
use cmsc.Cluster.Completeness.Prefix.{Grown}
use cmsc.Cluster.Completeness.Stance.{
  Modest, request_vote-Modest, request_vote-Kept, start_election-Books, start_election-args,
}
use cmsc.Cluster.Completeness.Terms.{kept-Placed, still-Terms, led-Terms}
use cmsc.Cluster.Completeness.Voters.{Votes, set1_term}
use cmsc.Cluster.Completeness.Moving.{kept-Holds, Calm-stood}
use cmsc.Cluster.Completeness.Casting.{
  Stood, last-Ends, last_term-ok, request_vote-log_ok, voter-Carries, vote-Votes,
}
use cmsc.Cluster.Completeness.Standing.{Standing-kept, standing_ghost, elect-Votes, elect-Standing}
use cmsc.Cluster.Completeness.Leading.{led_ghost}
use cmsc.Cluster.Completeness.Winning.{led-Votes, led-More}
use cmsc.Cluster.Completeness.Ledger.{More, Ledger-Grown, kept-Ledger, Led-Ledger}
use cmsc.Cluster.Completeness.Whole.{Whole, moved-Commits, Grown-refl, kept-Whole, Calm-Votes}

-- A call without a vote, whose effect on the log is known.
pub Effect-Whole :
    (n : ℕ) (ps : List NodeConfig) (gh : Ghost) (node : ℕ → Raft) (h : History)
    (ballot ballot' : ℕ → ℕ → Ballot) (sent : List AppendEntriesArgs) (answers : List Answer)
    (applied : List (ℕ × ApplyMsg)) (i : ℕ) (rf' : Raft)
    → Nodes n node h
    → Nodes n (set1 node i rf') h
    → ((c t : ℕ) → (ballot' c t).args ≡ (ballot c t).args)
    → Effect (node i) rf'
    → Modest (node i) rf'
    → Whole n ps gh node h ballot sent answers applied
    → (gh' : Ghost) × Whole n ps gh' (set1 node i rf') h ballot' sent answers applied
Effect-Whole n ps gh node h ballot ballot' sent answers applied i rf' now after args
      (steady, inl (same, leads)) (calm, books) whole =
    (
      gh,
      kept-Whole n ps gh node h h ballot ballot' sent answers applied i rf' (Grows-refl h) steady
          args whole same leads calm books
          (Calm-Votes n gh node h i rf' now same steady.0 calm whole.votes),
    )
Effect-Whole n ps gh node h ballot ballot' sent answers applied i rf' now after args
      (steady, inr led) (calm, books) whole =
    let tr = whole.tracks in
    let (first, quorum, spares, votes) =
      led-Votes n gh node h sent i rf' (Grows-refl h) steady led now after tr whole.votes in
    let gh' =
      led_ghost n gh node h sent i rf' (Grows-refl h) steady led now after tr whole.votes first
        quorum in
    let grown : Grown gh gh' = record {
      longer = grown-Extends n gh.g node h h sent i rf' (Grows-refl h) steady led after tr;
      firsts = spares.0;
    } in
    let more : More gh gh' =
      led-More n gh node h sent i rf' (Grows-refl h) steady led now after tr whole.votes in
    (
      gh',
      record {
        tracks = led-Tracks n gh.g node h h sent i rf' (Grows-refl h) steady led after tr;
        terms = led-Terms gh.g node i rf' led (tr.logs i).0 whole.terms;
        votes = votes;
        standing =
            Standing-kept gh gh' node i rf' ballot ballot' grown.longer steady.0 args (λ c t. refl)
              whole.standing;
        commits =
            moved-Commits n ps gh gh' node sent answers applied i rf' grown more steady.0
              (Led-Ledger n ps gh gh' i (node i) rf' grown more led books
                (ground
                  (arith, nat_beq_iff i i, nat_beq_iff (node i).current_term (node i).current_term))
                (whole.commits.ledgers i))
              whole.commits;
      },
    )

-- A node stands in an election.
pub elect-Whole :
    (n : ℕ) (ps : List NodeConfig) (gh : Ghost) (node : ℕ → Raft) (h : History)
    (ballot : ℕ → ℕ → Ballot) (sent : List AppendEntriesArgs) (answers : List Answer)
    (applied : List (ℕ × ApplyMsg)) (i draw votes : ℕ) (slot : ℕ → Slot) (args : RequestVoteArgs)
    (rf' : Raft)
    → i < n
    → start_election draw (node i) ≡ ok (rf', some args)
    → Nodes n node h
    → IsWf (node i).log
    → Grows h (set2 h i rf'.current_term (some i))
    → Whole n ps gh node h ballot sent answers applied
    → (gh' : Ghost) × Whole n ps gh'
        (set1 node i rf')
        (set2 h i rf'.current_term (some i))
        (set2 ballot i rf'.current_term (record { args = some args; votes = votes; slot = slot }))
        sent
        answers
        applied
elect-Whole n ps gh node h ballot sent answers applied i draw votes slot args rf' lt run now wf
      grows whole =
    let (same, _, _, next) = start_election-args draw args (node i) rf' run in
    let later : (node i).current_term ≤ rf'.current_term = omega (arith, next) in
    let quits : is_leader rf'.state ≡ false =
      (start_election-Stands draw args (node i) rf' run).no_leader in
    let (steady, _) = start_election-Effect draw args (node i) rf' run in
    let books = start_election-Books draw args (node i) rf' run in
    let placed = whole.terms.nodes i in
    let fits = whole.tracks.logs i in
    let gh' =
      standing_ghost n gh node h ballot i draw votes slot args rf' run now wf placed fits
        whole.votes in
    let leads : is_leader rf'.state ≡ true
        → (is_leader (node i).state ≡ true) × (rf'.current_term ≡ (node i).current_term) =
      λ l. absurd (ground (arith, l, quits)) in
    let grown = Grown-refl gh gh' refl refl in
    (
      gh',
      record {
        tracks =
            still-Tracks n gh.g node h (set2 h i rf'.current_term (some i)) sent i rf' grows steady
              (kept-Fits gh.g (node i) rf' fits (ap (λ (l : Log). l.entries) same) leads)
              whole.tracks;
        terms =
            still-Terms gh.g node i rf'
              (kept-Placed (node i) rf' same later (λ either. omega (arith, next)) placed)
              whole.terms;
        votes =
            elect-Votes n gh node h ballot i draw votes slot args rf' run now wf placed fits
              whole.votes;
        standing =
            elect-Standing n gh node h ballot i draw votes slot args rf' run now wf placed fits
              whole.votes whole.standing;
        commits =
            moved-Commits n ps gh gh' node sent answers applied i rf' grown (λ v u. omega arith)
              later
              (Ledger-Grown n ps gh gh' i rf' grown (λ v u. omega arith)
                (kept-Ledger n ps gh i (node i) rf' same later leads books (λ either. lt)
                  (whole.commits.ledgers i)))
              whole.commits;
      },
    )

module _ (n : ℕ) (ps : List NodeConfig) (gh : Ghost) (node : ℕ → Raft) (h : History)
    (ballot : ℕ → ℕ → Ballot) (sent : List AppendEntriesArgs) (answers : List Answer)
    (applied : List (ℕ × ApplyMsg)) (v d d' : ℕ) (args : RequestVoteArgs) (reply : RequestVoteReply)
    (rf' : Raft) (run : request_vote d d' args (node v) ≡ ok (rf', reply)) (now : Nodes n node h)
    (wf : IsWf (node v).log)
    (stood : Stood gh (node args.candidate_id) args.candidate_id args.term args)
    (whole : Whole n ps gh node h ballot sent answers applied) where
  voter_Votes :
      Votes n gh
        (set1 node v rf')
        (if reply.vote_granted then set2 h v args.term (some args.candidate_id) else h)
  voter_Votes =
      let (voter_log, _) = request_vote-Kept d d' args reply (node v) rf' run in
      let (calm, _) = request_vote-Modest d d' args reply (node v) rf' run in
      let (later, _) = (request_vote-Effect d d' args reply (node v) rf' run).0 in
      let moved = Calm-Votes n gh node h v rf' now voter_log later calm whole.votes in
      elim (Bool-cases reply.vote_granted) [
        | inr no_vote ↦ rw no_vote moved
        | inl vote ↦
            let (q, last) = last_term-ok (node v).log wf in
            let (_, fresh) = request_vote-log_ok d d' q args reply (node v) rf' run vote last in
            let g = request_vote-Granted d d' args reply (node v) rf' run vote in
            rw vote (
              vote-Votes n gh (set1 node v rf') h v args.term args.candidate_id
                (omega (arith, stood.reached, set1_term node v rf' later args.candidate_id))
                (λ empty.
                  voter-Carries gh node v args.candidate_id args (node v) rf' q whole.terms
                    whole.votes.prefix (whole.tracks.logs v).0 (last-Ends (node v).log q wf last)
                    voter_log fresh g.term empty
                    (kept-Holds gh v (node v) rf' voter_log later
                      (Calm-stood gh v (node v) rf' voter_log calm (whole.votes.nodes v))
                      (whole.votes.nodes v))
                    stood)
                moved)
      ]

  pub ask-Whole :
      (ballot' : ℕ → ℕ → Ballot)
      → ((c t : ℕ) → (ballot' c t).args ≡ (ballot c t).args)
      → Whole n ps gh
          (set1 node v rf')
          (if reply.vote_granted then set2 h v args.term (some args.candidate_id) else h)
          ballot'
          sent
          answers
          applied
  ask-Whole ballot' same =
      let (voter_log, voter_leads) = request_vote-Kept d d' args reply (node v) rf' run in
      let (calm, books) = request_vote-Modest d d' args reply (node v) rf' run in
      kept-Whole n ps gh node h
        (if reply.vote_granted then set2 h v args.term (some args.candidate_id) else h) ballot
        ballot' sent answers applied v rf'
        (ask_Grows n (record { node = node; ballot = ballot; history = h }) v d d' args reply rf'
          run now)
        (request_vote-Effect d d' args reply (node v) rf' run).0 same whole voter_log voter_leads
        calm books voter_Votes
