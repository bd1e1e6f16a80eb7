-- ===== src/Kvstore.antt =====
-- hw2: the primary-backup store. hw2/internal/clock/clock.go, hw2/internal/store/store.go and
-- hw2/server/main.go.
pub mod Clock
pub mod Store
pub mod Node
