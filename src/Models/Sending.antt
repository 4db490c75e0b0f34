-- ===== src/Models/Sending.antt =====
-- What is sent to the clients that sign and post transactions (models/transaction.rs,
-- models/approve.rs, models/role.rs), and the pending rows that are kept of it
-- (models/pending_blockchain_transaction.rs). A hash is its text read as a number, base 256.
use transactions.Prelude.{ℕ, ◌+◌, ◌*◌, Option, none, some, List}
use transactions.Models.{
  BlockchainAddress, BlockchainTransactionId, Currency, ExchangeId, TransactionId,
  Erc20OperationKind,
}
use transactions.Models.Records.{Amount, PendingBlockchainTransaction}

pub data Role : Type 0 where
  system user : Role

pub record BitcoinUtxos : Type 0 where
  pub tx_hash : BlockchainTransactionId
  pub index : ℕ
  pub value : Amount

pub record CreateBlockchainTx (F64 : Type 0) : Type 0 where
  pub id : TransactionId
  pub from : BlockchainAddress
  pub to : BlockchainAddress
  pub currency : Currency
  pub value : Amount
  pub fee_price : F64
  pub nonce : Option ℕ
  pub utxos : Option (List BitcoinUtxos)

pub record ApproveInput (F64 : Type 0) : Type 0 where
  pub id : TransactionId
  pub address : BlockchainAddress
  pub approve_address : BlockchainAddress
  pub currency : Currency
  pub value : Amount
  pub fee_price : F64
  pub nonce : ℕ

pub record RateInput : Type 0 where
  pub id : ExchangeId
  pub from : Currency
  pub to : Currency
  pub amount : Amount
  pub amount_currency : Currency

-- `format!("{}:0", hash)`: the hash with the number of a log entry.
unfoldable pub with_log_number : BlockchainTransactionId → BlockchainTransactionId
with_log_number hash = (hash * 256 + b':') * 256 + b'0'

-- `From<(CreateBlockchainTx, BlockchainTransactionId)> for NewPendingBlockchainTransactionDB`
unfoldable pub new_pending :
    {F64 : Type 0} → CreateBlockchainTx F64 → BlockchainTransactionId → PendingBlockchainTransaction
new_pending tx hash = record {
  hash = hash;
  from = tx.from;
  to = tx.to;
  currency = tx.currency;
  value = tx.value;
  fee = 0;
  erc20_operation_kind = none;
}

-- `From<(ApproveInput, BlockchainTransactionId)> for NewPendingBlockchainTransactionDB`
unfoldable pub new_pending_approve :
    {F64 : Type 0} → ApproveInput F64 → BlockchainTransactionId → PendingBlockchainTransaction
new_pending_approve tx hash = record {
  hash = hash;
  from = tx.address;
  to = tx.approve_address;
  currency = tx.currency;
  value = tx.value;
  fee = 0;
  erc20_operation_kind = some Erc20OperationKind.approve;
}
