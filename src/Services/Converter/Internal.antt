-- ===== src/Services/Converter/Internal.antt =====
-- services/transactions/converter.rs: groups of rows of deposits and of payments between accounts.
use transactions.Prelude.{
  Bool, not, Option, none, some, List, [], ◌∷◌, map, ◌==◌, nat_eq, find, length,
}
use transactions.Exec.{
  Exec, pure, raise_if, ok_or, as_internal, ◌>>=◌, ◌>>◌, invalid_transaction_structure,
  balance_overflow, no_account, ErrorKind,
}
use transactions.Models.{
  AccountId, BlockchainAddress, BlockchainTransactionId, TransactionKind, kind_eq, done,
}
use transactions.Models.Records.{
  Account, Transaction, TransactionOut, TransactionAddressInfo, BlockchainTransaction,
}
use transactions.Models.Normalization.{normalized}
use transactions.Repos.{Db}
use transactions.Repos.Accounts
use transactions.Repos.Blockchain.{get_blockchain}

-- `.ok_or(InvalidTransactionStructure)`
abbrev pub require : {A : Type 0} → Option A → Exec Db A
require = ok_or invalid_transaction_structure ErrorKind.internal

abbrev pub require_that : Bool → Exec Db Unit
require_that b = raise_if (not b) invalid_transaction_structure ErrorKind.internal

-- `transactions[0]` of a list of one.
abbrev pub single : List Transaction → Option Transaction
single [] = none
single (t ∷ []) = some t
single (t ∷ u ∷ rest) = none

abbrev pub of_kind : TransactionKind → Transaction → Bool
of_kind kind t = t.kind == kind

abbrev pub hash_list : Option BlockchainTransactionId → List BlockchainTransactionId
hash_list none = []
hash_list (some h) = h ∷ []

abbrev pub outside : BlockchainAddress → TransactionAddressInfo
outside address = record { account_id = none; blockchain_address = address }

abbrev pub inside : Account → TransactionAddressInfo
inside account = record { account_id = some account.id; blockchain_address = account.address }

-- `.normalized()`, whose overflow is an error.
abbrev pub normalize : BlockchainTransaction → Exec Db BlockchainTransaction
normalize t = ok_or balance_overflow ErrorKind.internal (normalized t)

unfoldable pub get_known_account : AccountId → Exec Db Account
get_known_account id = do
  found ← as_internal (Accounts.get id)
  ok_or no_account ErrorKind.internal found

unfoldable pub deposit_out : Transaction → Account → BlockchainTransaction → TransactionOut
deposit_out tx to_account blockchain_tx = record {
  id = tx.gid;
  user_id = to_account.user_id;
  from = map outside blockchain_tx.from;
  to = record { account_id = some tx.cr_account_id; blockchain_address = to_account.address };
  from_value = tx.value;
  from_currency = tx.currency;
  to_value = tx.value;
  to_currency = tx.currency;
  fee = 0;
  status = tx.status;
  blockchain_tx_ids = hash_list tx.blockchain_tx_id;
  created_at = tx.created_at;
  updated_at = tx.updated_at;
}

unfoldable pub convert_deposit_transaction : List Transaction → Exec Db TransactionOut
convert_deposit_transaction transactions = do
  tx ← require (single transactions)
  require_that (of_kind TransactionKind.deposit tx)
  blockchain_tx_id ← require tx.blockchain_tx_id
  found ← as_internal (get_blockchain blockchain_tx_id)
  raw_tx ← require found
  blockchain_tx ← normalize raw_tx
  found_account ← as_internal (Accounts.get tx.cr_account_id)
  to_account ← require found_account
  pure (deposit_out tx to_account blockchain_tx)

unfoldable pub internal_out : Transaction → Account → Account → TransactionOut
internal_out tx from_account to_account = record {
  id = tx.gid;
  user_id = to_account.user_id;
  from = inside from_account ∷ [];
  to = inside to_account;
  from_value = tx.value;
  from_currency = tx.currency;
  to_value = tx.value;
  to_currency = tx.currency;
  fee = 0;
  status = tx.status;
  blockchain_tx_ids = hash_list tx.blockchain_tx_id;
  created_at = tx.created_at;
  updated_at = tx.updated_at;
}

unfoldable pub convert_internal_transaction : List Transaction → Exec Db TransactionOut
convert_internal_transaction transactions = do
  tx ← require (single transactions)
  require_that (of_kind TransactionKind.internal tx)
  from_account ← get_known_account tx.dr_account_id
  to_account ← get_known_account tx.cr_account_id
  pure (internal_out tx from_account to_account)

unfoldable pub internal_multi_out : Transaction → Transaction → Account → Account → TransactionOut
internal_multi_out from_tx to_tx from_account to_account = record {
  id = from_tx.gid;
  user_id = to_account.user_id;
  from = inside from_account ∷ [];
  to = inside to_account;
  from_value = from_tx.value;
  from_currency = from_tx.currency;
  to_value = to_tx.value;
  to_currency = to_tx.currency;
  fee = 0;
  status = done;
  blockchain_tx_ids = [];
  created_at = from_tx.created_at;
  updated_at = from_tx.updated_at;
}

unfoldable pub convert_internal_multi_transaction : List Transaction → Exec Db TransactionOut
convert_internal_multi_transaction transactions = do
  require_that (length transactions == 2)
  from_tx ← require (find (of_kind TransactionKind.multi_from) transactions)
  to_tx ← require (find (of_kind TransactionKind.multi_to) transactions)
  from_account ← get_known_account from_tx.dr_account_id
  to_account ← get_known_account to_tx.cr_account_id
  pure (internal_multi_out from_tx to_tx from_account to_account)
