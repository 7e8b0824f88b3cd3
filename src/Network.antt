-- ===== src/Network.antt =====
-- src/network: the streams to the peers.
pub mod Streams
