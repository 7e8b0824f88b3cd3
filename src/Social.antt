-- ===== src/Social.antt =====
-- src/services/social: what peers publish, and how two versions of it are reconciled.
pub mod Conflict
