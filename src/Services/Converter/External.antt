-- ===== src/Services/Converter/External.antt =====
-- services/transactions/converter.rs: groups of rows of withdrawals, and of their reversals.
use transactions.Prelude.{
  Bool, not, ◌||◌, Option, none, some, List, [], ◌∷◌, ◌++◌, ◌==◌, nat_eq, if◌then◌else◌, find,
  filter, all, min, max,
}
use transactions.Exec.{Exec, pure, ok_or, as_internal, ◌>>=◌, balance_overflow, ErrorKind}
use transactions.Models.{
  BlockchainAddress, BlockchainTransactionId, TransactionKind, kind_eq, TransactionStatus,
  status_eq, done, pending,
}
use transactions.Models.Records.{
  Amount, Time, Account, Transaction, TransactionOut, TransactionAddressInfo, BlockchainTransaction,
  BlockchainTransactionEntryTo, PendingBlockchainTransaction, from_pending,
}
use transactions.Amount.{checked_sum}
use transactions.Repos.{Db}
use transactions.Repos.Accounts
use transactions.Repos.Balances.{value_of}
use transactions.Repos.Blockchain.{get_blockchain, get_pending}
use transactions.Services.Converter.Internal.{
  require, of_kind, hash_list, outside, inside, normalize, convert_internal_multi_transaction,
}

-- `min` and `max` of an iterator.
unfoldable pub least : (Transaction → Time) → List Transaction → Option Time
least f [] = none
least f (t ∷ ts) = elim (least f ts) [ none ↦ some (f t) | some m ↦ some (min (f t) m) ]

unfoldable pub greatest : (Transaction → Time) → List Transaction → Option Time
greatest f [] = none
greatest f (t ∷ ts) = elim (greatest f ts) [ none ↦ some (f t) | some m ↦ some (max (f t) m) ]

-- `flat_map(|tx| tx.blockchain_tx_id)`
unfoldable pub hashes_of : List Transaction → List BlockchainTransactionId
hashes_of [] = []
hashes_of (t ∷ ts) = hash_list t.blockchain_tx_id ++ hashes_of ts

-- `.to.get(0)`
abbrev pub first_address : List BlockchainTransactionEntryTo → Option BlockchainAddress
first_address [] = none
first_address (e ∷ es) = some e.address

-- `.or(..)`
abbrev pub or_pending :
    Option BlockchainTransaction
    → Option PendingBlockchainTransaction
    → Option BlockchainTransaction
or_pending (some t) p = some t
or_pending none none = none
or_pending none (some p) = some (from_pending p)

-- `Pending` until every withdrawal of the group is done.
unfoldable pub group_status : List Transaction → TransactionStatus
group_status txs = if all (λ (t : Transaction). t.status == done) txs then done else pending

-- The fields that a group of withdrawals adds up to.
pub record Aggregates : Type 0 where
  pub created_at : Time
  pub updated_at : Time
  pub value : Amount
  pub blockchain_tx_ids : List BlockchainTransactionId

unfoldable pub aggregates : List Transaction → Exec Db Aggregates
aggregates withdrawal_txs = do
  created ← require (least (λ (t : Transaction). t.created_at) withdrawal_txs)
  updated ← require (greatest (λ (t : Transaction). t.updated_at) withdrawal_txs)
  total ← ok_or balance_overflow ErrorKind.internal (checked_sum value_of withdrawal_txs)
  pure (record {
    created_at = created;
    updated_at = updated;
    value = total;
    blockchain_tx_ids = hashes_of withdrawal_txs;
  })

unfoldable pub external_out :
    Transaction
    → Transaction
    → Account
    → List TransactionAddressInfo
    → TransactionAddressInfo
    → TransactionStatus
    → Aggregates
    → TransactionOut
external_out fee_tx withdrawal_tx withdrawal_account from to status sums = record {
  id = withdrawal_tx.gid;
  user_id = withdrawal_account.user_id;
  from = from;
  to = to;
  from_value = sums.value;
  from_currency = withdrawal_tx.currency;
  to_value = sums.value;
  to_currency = withdrawal_tx.currency;
  fee = fee_tx.value;
  status = status;
  blockchain_tx_ids = sums.blockchain_tx_ids;
  created_at = sums.created_at;
  updated_at = sums.updated_at;
}

unfoldable pub convert_reversal_transaction : List Transaction → Exec Db TransactionOut
convert_reversal_transaction transactions = do
  fee_tx ← require (find (of_kind TransactionKind.fee) transactions)
  withdrawal_tx ← require (find (of_kind TransactionKind.withdrawal) transactions)
  found_account ← Accounts.get withdrawal_tx.cr_account_id
  withdrawal_account ← require found_account
  blockchain_tx_hash ← require withdrawal_tx.blockchain_tx_id
  found ← as_internal (get_blockchain blockchain_tx_hash)
  raw_tx ← require found
  blockchain_tx ← normalize raw_tx
  to_address ← require (first_address blockchain_tx.to)
  sums ← aggregates (filter (of_kind TransactionKind.withdrawal) transactions)
  pure (
      external_out fee_tx withdrawal_tx withdrawal_account (outside to_address ∷ [])
        (inside withdrawal_account) done sums)

unfoldable pub convert_external_transaction : List Transaction → Exec Db TransactionOut
convert_external_transaction transactions = do
  fee_tx ← require (find (of_kind TransactionKind.fee) transactions)
  withdrawal_tx ← require (find (of_kind TransactionKind.withdrawal) transactions)
  blockchain_tx_hash ← require withdrawal_tx.blockchain_tx_id
  found_account ← Accounts.get withdrawal_tx.dr_account_id
  withdrawal_account ← require found_account
  found ← as_internal (get_blockchain blockchain_tx_hash)
  found_pending ← as_internal (get_pending blockchain_tx_hash)
  raw_tx ← require (or_pending found found_pending)
  blockchain_tx ← normalize raw_tx
  to_address ← require (first_address blockchain_tx.to)
  let withdrawal_txs = filter (of_kind TransactionKind.withdrawal) transactions
  sums ← aggregates withdrawal_txs
  pure (
      external_out fee_tx withdrawal_tx withdrawal_account (inside withdrawal_account ∷ [])
        (outside to_address) (group_status withdrawal_txs) sums)

abbrev pub is_exchange : Transaction → Bool
is_exchange t = of_kind TransactionKind.multi_from t || of_kind TransactionKind.multi_to t

unfoldable pub external_multi_out : TransactionOut → TransactionOut → TransactionOut
external_multi_out currency_tx_out withdrawal_tx_out = record {
  id = currency_tx_out.id;
  user_id = withdrawal_tx_out.user_id;
  from = currency_tx_out.from;
  to = withdrawal_tx_out.to;
  from_value = currency_tx_out.from_value;
  from_currency = currency_tx_out.from_currency;
  to_value = currency_tx_out.to_value;
  to_currency = currency_tx_out.to_currency;
  fee = withdrawal_tx_out.fee;
  status = withdrawal_tx_out.status;
  blockchain_tx_ids = withdrawal_tx_out.blockchain_tx_ids;
  created_at = withdrawal_tx_out.created_at;
  updated_at = withdrawal_tx_out.updated_at;
}

unfoldable pub convert_external_multi_transaction : List Transaction → Exec Db TransactionOut
convert_external_multi_transaction transactions = do
  currency_tx_out ← convert_internal_multi_transaction (filter is_exchange transactions)
  withdrawal_tx_out ← convert_external_transaction (filter (λ t. not (is_exchange t)) transactions)
  pure (external_multi_out currency_tx_out withdrawal_tx_out)
