-- ===== src/Raft.antt =====
-- One Raft node: hw3/raft/raft.go over hw3/internal/log/log.go and hw3/config/config.go.
pub mod Log
pub mod Config
pub mod Node
pub mod Vote
pub mod Replicate
pub mod Commit
pub mod Step
