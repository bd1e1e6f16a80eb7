-- ===== src/Tests.antt =====
-- Runs of the model at concrete inputs, and the theorems at inputs that meet their hypotheses.
mod Samples
mod ClusterRun
mod RaftRun
mod KvraftRun
mod KvstoreRun
mod BrokerRun
mod ConnectmRun
mod SessionRun
mod NetworkRun
mod ProducerRun
mod ReplicasRun
