-- ===== src/Kvraft.antt =====
-- hw3/server/main.go: the replicated store behind Raft, and hw3/internal/store/store.go.
pub mod Command
pub mod Store
pub mod Server
