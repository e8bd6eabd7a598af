-- ===== src/Examples.antt =====
-- Concrete runs: the hypotheses of the theorems hold at them, on the platform `ascii`.
mod Data
mod Wire
mod Queries
mod Negotiations
mod Logins
mod Choices
mod Proofs
mod Adapter
mod Runs
mod Client
mod Preferences
