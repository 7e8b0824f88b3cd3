-- ===== src/Media.antt =====
-- src/services/media: transfers of media frames to peers.
pub mod Payload
pub mod Scheduler
