-- ===== src/Cluster/Completeness.antt =====
-- hw3/raft/raft.go: what a majority holds, every later leader holds.
pub mod Prefix
pub mod Leader
pub mod Stance
pub mod Terms
pub mod Voters
pub mod Moving
pub mod Casting
pub mod Standing
pub mod Leading
pub mod Winning
pub mod Confirmed
pub mod Ledger
pub mod Taken
pub mod Majority
pub mod Promises
pub mod Whole
pub mod Turns
pub mod Deliveries
pub mod Reaches
pub mod Invariant
pub mod Machine
use cmsc.Prelude.{
  ℕ, suc, ◌+◌, ◌/◌, ◌<◌, ◌≤◌, ◌≡◌, ◌⊎◌, Bool, true, List, [], some, get_elem?, take, ltb, length,
}
use cmsc.Raft.Log.{LogEntry}
use cmsc.Cluster.Tally.{tally}
use cmsc.Cluster.Network.Traced.{Leaders}

-- What is remembered beside the state of the program. `g` is the log of the leader of a term as it
-- last was, `first` as it was when the term was won. `stood c t` is the log of candidate `c` in the
-- election of term `t`. `acked v t` is how many entries of the leader's log of term `t` node `v` has
-- confirmed. `quorum t` are the voters by whom term `t` was won.
pub record Ghost : Type 0 where
  pub g : Leaders
  pub first : Leaders
  pub stood : ℕ → ℕ → List LogEntry
  pub acked : ℕ → ℕ → ℕ
  pub quorum : ℕ → ℕ → Bool

-- The leader of `t` has an entry of its own term at `j`, behind the sentinel.
pub record Own (g : Leaders) (t j : ℕ) : Type 0 where
  pub entry : LogEntry
  pub behind : 0 < j
  pub there : get_elem? (g t) j ≡ some entry
  pub term : entry.term ≡ t

-- A log is the leader's of term `t` up to the index `j`.
abbrev pub Agrees : Leaders → List LogEntry → ℕ → ℕ → Type 0
Agrees g l t j = take (suc j) l ≡ take (suc j) (g t)

-- A term between was won by a node that did not have it.
pub record Bad (gh : Ghost) (t j u : ℕ) : Type 0 where
  pub at : ℕ
  pub after : t < at
  pub before : at < u
  pub won : ¬ (gh.g at ≡ [])
  pub lacks : ¬ Agrees gh.g (gh.first at) t j

-- The index `j` of the leader's log of term `t` is held by a majority, in that term.
pub record Committed (n : ℕ) (gh : Ghost) (t j : ℕ) : Type 0 where
  pub own : Own gh.g t j
  pub majority : n / 2 + 1 ≤ tally n (λ v. ltb j (gh.acked v t))
