-- ===== src/Cluster/Replicas.antt =====
-- hw3/raft/raft.go and hw3/server/main.go: what each node of a cluster hands to its server.
pub mod Counts
pub mod Agree
pub mod Stores
use cmsc.Prelude.{ℕ, List, [], ◌∷◌, ◌++◌, ◌==◌, nat_eq, if◌then◌else◌}
use cmsc.Raft.Node.{ApplyMsg}

-- The messages that node `i` has sent to its server, in the order in which it sent them. The newest
-- stands first in `applied`.
unfoldable pub handed_to : ℕ → List (ℕ × ApplyMsg) → List ApplyMsg
handed_to i [] = []
handed_to i ((j, msg) ∷ rest) = handed_to i rest ++ (if j == i then msg ∷ [] else [])
