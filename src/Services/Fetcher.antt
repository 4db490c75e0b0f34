-- ===== src/Services/Fetcher.antt =====
-- services/rabbit.rs: the transactions that the blockchains report, received from a queue.
pub mod Confirmations
pub mod Violations
pub mod Settling
pub mod Depositing
pub mod Handling
pub mod Approval
pub mod Messages
pub mod Rules
pub mod Rounds
pub mod Once
pub mod Again
pub mod Deposits
pub mod Settled
pub mod Broken
pub mod Finishing
