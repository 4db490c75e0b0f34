-- ===== src/Repos.antt =====
-- The repositories (repos/*.rs) over a database that is a record of tables.
mod Tables
pub mod Accounts
pub mod Transactions
pub mod Balances
pub mod Withdrawal
pub mod Users
pub mod Blockchain
pub mod Nonces
pub mod Seen
pub mod Listing
pub use Tables.*
