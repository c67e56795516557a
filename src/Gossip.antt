-- ===== src/Gossip.antt =====
-- The gossip protocol of src/cluster/.
pub mod Message
pub mod Bootstrap
pub mod UpdateQueue
pub mod Engine
pub mod FailureDetector
