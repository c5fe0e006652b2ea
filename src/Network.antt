-- ===== src/Network.antt =====
-- pkg/network: of the network layer, the router of incoming messages.
pub mod Router
