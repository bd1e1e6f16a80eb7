-- ===== src/Kvstore/Node/Election.antt =====
-- hw2/server/main.go: of two backups that both stand, the claim of exactly one is accepted.
use cmsc.Prelude.{◌<◌, ◌≡◌, ◌≢◌, true, not, nat_eq, arith}
use cmsc.Prelude.Int.{◌<ℤ◌}
use cmsc.Kvstore.Node.{Node, candidate, accepts, claim}

-- Between two candidates with different ids exactly one accepts the claim of the other: the one with
-- the smaller stamp, and at equal stamps the one with the smaller id.
pub one_winner :
    (a b : Node)
    → a.role ≡ candidate
    → b.role ≡ candidate
    → a.id ≢ b.id
    → (accepts (claim a) b ≡ not (accepts (claim b) a))
      × (a.election_ts <ℤ b.election_ts → accepts (claim b) a ≡ true)
      × (a.election_ts ≡ b.election_ts → a.id < b.id → accepts (claim b) a ≡ true)
unfolding accepts
one_winner a b ca cb apart = (ground arith, ground arith, ground arith)
