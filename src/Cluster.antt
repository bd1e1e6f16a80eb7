-- ===== src/Cluster.antt =====
-- hw3/raft/raft.go: the elections of a whole cluster, as interleavings of the calls on its nodes.
pub mod Tally
pub mod Quiet
pub mod History
pub mod Nodes
pub mod Ballots
pub mod Safety
pub mod Network
pub mod Completeness
pub mod Replicas
use cmsc.Prelude.{
  ℕ, ◌+◌, ◌≤◌, ◌<◌, ◌≡◌, Bool, true, false, ◌&&◌, Option, none, some, ◌==◌, nat_eq, if◌then◌else◌,
  ok, length,
}
use cmsc.Raft.Config.{ClusterConfig}
use cmsc.Raft.Node.{Raft, new_paused}
use cmsc.Raft.Vote.{RequestVoteArgs, RequestVoteReply, request_vote, start_election, vote_reply}
use cmsc.Raft.Step.{Act}

abbrev pub set1 {ℓ} : {A : Type ℓ} → (ℕ → A) → ℕ → A → ℕ → A
set1 f i x j = if j == i then x else f j

abbrev pub set2 {ℓ} : {A : Type ℓ} → (ℕ → ℕ → A) → ℕ → ℕ → A → ℕ → ℕ → A
set2 f i t x j u = if j == i && u == t then x else f j u

-- Where the goroutine of `startElection` for one peer stands: before the RPC, holding the reply,
-- or done, with a vote that it counted or without.
pub data Slot : Type 0 where
  unasked : Slot
  replied : RequestVoteReply → Slot
  counted : Slot
  dropped : Slot

-- One call of `startElection`: its `args`, its variable `votes`, and its goroutines by peer. The
-- slot of the candidate itself is its own vote.
pub record Ballot : Type 0 where
  pub args : Option RequestVoteArgs
  pub votes : ℕ
  pub slot : ℕ → Slot

-- A node starts at most one election in a term, so ballots are kept by candidate and term.
-- `history` is no state of the program: it remembers the vote of each node in each term.
pub record Cluster : Type 0 where
  pub node : ℕ → Raft
  pub ballot : ℕ → ℕ → Ballot
  pub history : ℕ → ℕ → Option ℕ

abbrev pub no_ballot : Ballot
no_ballot = record { args = none; votes = 0; slot = λ _. unasked }

-- Node `i` is `NewPaused` with the id `i`.
abbrev pub init : ClusterConfig → Cluster
init cfg = record { node = λ i. new_paused i cfg; ballot = λ _ _. no_ballot; history = λ _ _. none }

-- The slot of a peer whose reply took the count from `had` to `has`.
abbrev pub settled : ℕ → ℕ → Slot
settled had has = if has == had then dropped else counted

-- One step of a cluster of `n` nodes. Messages of replication are arbitrary: `Act` leaves them open.
pub data ClusterStep (n : ℕ) (c c' : Cluster) : Type 0 where
  act :
      (i : ℕ) (rf' : Raft)
      → Act (c.node i) rf'
      → c' ≡ record c { node = set1 c.node i rf' }
      → ClusterStep n c c'
  elect :
      (i draw : ℕ) (args : RequestVoteArgs) (rf' : Raft)
      → i < n
      → start_election draw (c.node i) ≡ ok (rf', some args)
      → c' ≡ record {
        node = set1 c.node i rf';
        ballot = set2 c.ballot i rf'.current_term (record {
          args = some args;
          votes = 1;
          slot = λ v. if v == i then counted else unasked;
        });
        history = set2 c.history i rf'.current_term (some i);
      }
      → ClusterStep n c c'
  ask :
      (i t v draw draw' : ℕ) (args : RequestVoteArgs) (reply : RequestVoteReply) (rf' : Raft)
      → v < n
      → (c.ballot i t).args ≡ some args
      → (c.ballot i t).slot v ≡ unasked
      → request_vote draw draw' args (c.node v) ≡ ok (rf', reply)
      → c' ≡ record {
        node = set1 c.node v rf';
        ballot =
            set2 c.ballot i t
              (record (c.ballot i t) { slot = set1 (c.ballot i t).slot v (replied reply) });
        history =
            if reply.vote_granted
            then set2 c.history v args.term (some args.candidate_id)
            else c.history;
      }
      → ClusterStep n c c'
  count :
      (i t v draw has : ℕ) (reply : RequestVoteReply) (rf' : Raft)
      → v < n
      → (c.ballot i t).slot v ≡ replied reply
      → vote_reply draw t (c.ballot i t).votes (some reply) (c.node i) ≡ ok (rf', has)
      → c' ≡ record c {
        node = set1 c.node i rf';
        ballot = set2 c.ballot i t (record (c.ballot i t) {
          votes = has;
          slot = set1 (c.ballot i t).slot v (settled (c.ballot i t).votes has);
        });
      }
      → ClusterStep n c c'

pub data ClusterReach (cfg : ClusterConfig) : Cluster → Type 0 where
  start : ClusterReach cfg (init cfg)
  later :
      {c c' : Cluster}
      → ClusterReach cfg c
      → ClusterStep (length cfg.nodes) c c'
      → ClusterReach cfg c'
