-- ===== src/Tests.antt =====
-- Runs of the models at concrete inputs, and each headline theorem applied to one.
mod Wallet
mod Service
mod Security
mod Consensus
mod Media
mod Social
mod Ledger
mod Offline
mod Round
mod Witnesses
mod Engine
mod Streams
mod Rewards
