-- ===== src/Gossip.antt =====
-- pkg/gossip: the cache of messages and the engine that spreads them.
pub mod Message
pub mod Bloom
pub mod Cache
pub mod Peers
pub mod Engine
