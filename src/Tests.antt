-- ===== src/Tests.antt =====
-- Concrete runs of the code that the other modules model.
mod Proofs
mod Wallet
mod Selection
mod Safebox
mod Signing
mod Payout
mod Deposits
mod Events
mod Sync
