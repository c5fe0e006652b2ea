-- ===== src/Consensus.antt =====
-- pkg/consensus: the messages, the quorums and the PBFT node.
pub mod Types
pub mod Quorum
pub mod Messages
pub mod Pbft
