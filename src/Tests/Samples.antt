-- ===== src/Tests/Samples.antt =====
-- A cluster of three nodes, as in hw3/nodeconfig.json, and entries of its log.
use cmsc.Prelude.{ℕ, [], ◌∷◌, codes, some, none, false}
use cmsc.Raft.Config.{ClusterConfig}
use cmsc.Raft.Log.{Log, LogEntry, sentinel}
use cmsc.Raft.Node.{Raft, follower, leader}

abbrev pub three : ClusterConfig
three = record {
  nodes =
      record { id = 0; client_addr = "localhost:7000"; peer_addr = "localhost:7100" }
      ∷ record { id = 1; client_addr = "localhost:7001"; peer_addr = "localhost:7101" }
      ∷ record { id = 2; client_addr = "localhost:7002"; peer_addr = "localhost:7102" }
      ∷ [];
}

abbrev pub entry : ℕ → ℕ → LogEntry
entry i t = record { index = i; term = t; command = codes "put:a:1" }

abbrev pub two_entries : Log
two_entries = record { entries = sentinel ∷ entry 1 1 ∷ entry 2 1 ∷ [] }

-- A follower in term 1 with two entries, one of them committed.
abbrev pub behind : Raft
behind = record {
  current_term = 1;
  voted_for = some 0;
  log = two_entries;
  commit_index = 1;
  last_applied = 0;
  next_index = 0 ∷ 0 ∷ 0 ∷ [];
  match_index = 0 ∷ 0 ∷ 0 ∷ [];
  id = 1;
  peers = three.nodes;
  state = follower;
  election_timer = none;
  dead = false;
}

-- A leader of term 1 whose second entry is held by node 2.
abbrev pub leading : Raft
leading = record behind {
  state = leader;
  id = 0;
  next_index = 3 ∷ 1 ∷ 3 ∷ [];
  match_index = 0 ∷ 0 ∷ 2 ∷ [];
}
