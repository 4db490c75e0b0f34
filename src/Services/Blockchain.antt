-- ===== src/Services/Blockchain.antt =====
-- The trait `BlockchainService` of services/transactions/blockchain.rs, which withdrawals use: its
-- operations, and the law that they leave the ledger alone.
pub mod Nonces
pub mod Order
pub mod Sending
pub mod Fees
pub mod Implementation
pub mod Recording
use transactions.Prelude.{◌≡◌}
use transactions.Exec.{Exec}
use transactions.Float.{Floats}
use transactions.Models.{BlockchainAddress, BlockchainTransactionId, Currency}
use transactions.Models.Records.{Amount}
use transactions.Repos.{Db}

pub record FeeEstimate (F64 : Type 0) : Type 0 where
  pub gross_fee : Amount
  pub fee_price : F64
  pub currency : Currency

pub record BlockchainService (f : Floats) : Type 0 where
  pub create_bitcoin_tx :
      BlockchainAddress → BlockchainAddress → Amount → f.F64 → Exec Db BlockchainTransactionId
  pub create_ethereum_tx :
      BlockchainAddress
      → BlockchainAddress
      → Amount
      → f.F64
      → Currency
      → Exec Db BlockchainTransactionId
  pub estimate_withdrawal_fee : Amount → Currency → Currency → Exec Db (FeeEstimate f.F64)

-- The accounts and the rows are the same before and after.
abbrev pub SameLedger : Db → Db → Type 0
SameLedger db db' = (db'.accounts ≡ db.accounts) × (db'.transactions ≡ db.transactions)

pub record LeavesLedger (f : Floats) (service : BlockchainService f) : Type 0 where
  pub bitcoin_leaves :
      (from to : BlockchainAddress) (value : Amount) (price : f.F64) (db : Db)
      → SameLedger db (service.create_bitcoin_tx from to value price db).1
  pub ethereum_leaves :
      (from to : BlockchainAddress) (value : Amount) (price : f.F64) (currency : Currency) (db : Db)
      → SameLedger db (service.create_ethereum_tx from to value price currency db).1
  pub estimate_leaves :
      (fee : Amount) (fee_currency currency : Currency) (db : Db)
      → SameLedger db (service.estimate_withdrawal_fee fee fee_currency currency db).1
