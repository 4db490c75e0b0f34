-- ===== src/Services.antt =====
-- The services (services/*.rs).
pub mod Ledger
pub mod Classifier
pub mod System
pub mod Converter
pub mod Transfers
pub mod Clients
pub mod Blockchain
pub mod Withdrawals
pub mod Auth
pub mod Accounts
pub mod Fetcher
pub mod Payments
pub mod Groups
pub mod Fee
pub mod Users
