-- ===== src/Services/Fetcher/Handling.antt =====
-- `handle_transaction` of services/rabbit.rs, the closure of its database transaction: what a
-- blockchain transaction means for the ledger. It gives the rows of a deposit, and the accounts that
-- are to be approved.
use transactions.Prelude.{Option, none, some, nat_eq, if◌then◌else◌}
use transactions.Exec.{Exec, ok_or, ◌>>=◌, internal, balance_overflow}
use transactions.Float.{Floats}
use transactions.Models.{AccountId, TransactionId, currency_eq, erc20_eq}
use transactions.Models.Normalization.{normalized}
use transactions.Models.Records.{BlockchainTransaction, SeenHash, Transaction}
use transactions.Repos.{Db}
use transactions.Repos.Seen.{get_seen}
use transactions.Repos.Transactions
use transactions.Services.System.{SystemAccounts}
use transactions.Services.Fetcher.Settling.{
  Handled, nothing, approval_of, handle_approval, handle_withdrawal,
}
use transactions.Services.Fetcher.Depositing.{handle_deposit}

module _ (system : SystemAccounts) (generated : AccountId → TransactionId) where
  unfoldable pub handle_known :
      Floats → BlockchainTransaction → BlockchainTransaction → Option Transaction → Exec Db Handled
  handle_known f blockchain_tx normalized_tx (some tx) =
      handle_withdrawal system generated f blockchain_tx normalized_tx tx
  handle_known f blockchain_tx normalized_tx none =
      handle_deposit generated blockchain_tx normalized_tx

  unfoldable pub handle_unseen :
      Floats → BlockchainTransaction → BlockchainTransaction → Option SeenHash → Exec Db Handled
  handle_unseen f blockchain_tx normalized_tx (some seen) = nothing
  handle_unseen f blockchain_tx normalized_tx none =
      if approval_of blockchain_tx.erc20_operation_kind then handle_approval blockchain_tx else (do
        found ← Transactions.get_by_blockchain_tx normalized_tx.hash
        handle_known f blockchain_tx normalized_tx found)

  unfoldable pub handle_in_transaction : Floats → BlockchainTransaction → Exec Db Handled
  handle_in_transaction f blockchain_tx = do
    normalized_tx ← ok_or balance_overflow internal (normalized blockchain_tx)
    seen ← get_seen normalized_tx.hash normalized_tx.currency
    handle_unseen f blockchain_tx normalized_tx seen
