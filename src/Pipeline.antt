-- ===== src/Pipeline.antt =====
-- hw4: the embedding pipeline. hw4/broker/main.go, the point ids of hw4/worker/main.go, and the
-- chunks of hw4/producer/main.go.
pub mod Broker
pub mod Hash
pub mod Producer
