-- ===== src/Connectm.antt =====
-- hw1: the game of Connect-M.
pub mod Board
pub mod Session
