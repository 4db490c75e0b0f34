-- ===== src/Models/Ids.antt =====
-- The identifiers of models/transaction_id.rs and models/account_id.rs. The last of the sixteen
-- bytes of a `Uuid` is its remainder by 256.
pub mod Wrapping
use transactions.Prelude.{ℕ, ◌+◌, ◌-◌, ◌%◌}

abbrev pub UserId : Type 0
UserId = ℕ

abbrev pub AccountId : Type 0
AccountId = ℕ

abbrev pub TransactionId : Type 0
TransactionId = ℕ

abbrev pub ExchangeId : Type 0
ExchangeId = ℕ

abbrev pub BlockchainAddress : Type 0
BlockchainAddress = ℕ

abbrev pub BlockchainTransactionId : Type 0
BlockchainTransactionId = ℕ

abbrev pub AuthenticationToken : Type 0
AuthenticationToken = ℕ

abbrev pub Recepient : Type 0
Recepient = ℕ

-- `TransactionId::next`: the last byte plus one, wrapping.
unfoldable pub next : TransactionId → TransactionId
next id = id - id % 256 + (id % 256 + 1) % 256

-- `TransactionId::prev`: the last byte minus one, wrapping.
unfoldable pub prev : TransactionId → TransactionId
prev id = id - id % 256 + (id % 256 + 256 - 1) % 256

-- `TransactionId::last_byte`
unfoldable pub last_byte : TransactionId → ℕ
last_byte id = id % 256

-- `AccountId::derive_system_dr_id`: the last byte set to 1.
unfoldable pub derive_system_dr_id : AccountId → AccountId
derive_system_dr_id id = id - id % 256 + 1
