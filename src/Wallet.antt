-- ===== src/Wallet.antt =====
-- src/economy/Wallet: the canonical transaction pipeline.
pub mod Transaction
pub mod StateMachine
pub mod Create
pub mod ReplayProtector
pub mod State
pub mod Service
