-- ===== src/Models.antt =====
-- The data model (models/*.rs). Identifiers, addresses and hashes, which the program only compares
-- and sorts, are natural numbers; a `Uuid` is its 128 bits read as a number, big-endian.
mod Enums
pub mod Ids
pub mod Normalization
pub mod Records
pub mod Sending
pub use Enums.*
unfoldable pub use Ids.*
