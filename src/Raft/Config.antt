-- ===== src/Raft/Config.antt =====
-- hw3/config/config.go (hw2/config/config.go is the same file): the nodes of a cluster.
use cmsc.Prelude.{ℕ, Option, none, some, List, [], ◌∷◌, ◌==◌, nat_eq, if◌then◌else◌, String}

pub record NodeConfig : Type 0 where
  pub id : ℕ
  pub client_addr : String
  pub peer_addr : String

pub record ClusterConfig : Type 0 where
  pub nodes : List NodeConfig

-- The loop of `Self`; `none` is its error.
unfoldable pub find_node : List NodeConfig → ℕ → Option NodeConfig
find_node [] id = none
find_node (n ∷ rest) id = if n.id == id then some n else find_node rest id

unfoldable pub self : ClusterConfig → ℕ → Option NodeConfig
unfolding find_node
self c id = find_node c.nodes id

-- The loop of `Peers`.
unfoldable pub others : List NodeConfig → ℕ → List NodeConfig
others [] id = []
others (n ∷ rest) id = let tail = others rest id in if n.id == id then tail else n ∷ tail

unfoldable pub peers : ClusterConfig → ℕ → List NodeConfig
unfolding others
peers c id = others c.nodes id
