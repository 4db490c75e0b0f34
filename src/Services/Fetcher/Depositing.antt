-- ===== src/Services/Fetcher/Depositing.antt =====
-- `handle_transaction` of services/rabbit.rs on a transaction that others sent: a row for each of our
-- accounts that it pays to.
use transactions.Prelude.{
  Bool, true, false, not, ◌&&◌, Option, none, some, List, [], ◌∷◌, map, ◌==◌, nat_eq, if◌then◌else◌,
  leb, find,
}
use transactions.Exec.{
  Exec, pure, ok_or, ◌>>=◌, ◌>>◌, internal, panicked, no_account, missing_address_in_tx,
}
use transactions.Models.{
  AccountId, TransactionId, BlockchainAddress, stq, currency_eq, AccountKind, TransactionStatus,
  TransactionKind, TransactionGroupKind, erc20_eq,
}
use transactions.Models.Records.{
  Account, Amount, BlockchainTransaction, BlockchainTransactionEntryTo, NewTransaction, Transaction,
  seen_of,
}
use transactions.Repos.{Db}
use transactions.Repos.Accounts
use transactions.Repos.Balances.{get_accounts_balance}
use transactions.Repos.Blockchain.{create_blockchain}
use transactions.Repos.Seen.{create_seen}
use transactions.Repos.Transactions
use transactions.Services.Fetcher.Violations.{
  InvariantViolation, front, handle_violation, verify_deposit_tx,
}
use transactions.Services.Fetcher.Settling.{Handled, nothing}

abbrev stq_balance_threshold : Amount
stq_balance_threshold = 1

-- `if idx == 0`
unfoldable pub record_once : Bool → BlockchainTransaction → Exec Db (Unit {0})
record_once false blockchain_tx = pure tt
record_once true blockchain_tx = do
  create_blockchain blockchain_tx
  create_seen (seen_of blockchain_tx)
  pure tt

unfoldable pub needs_approval : Account → Exec Db Bool
needs_approval to_dr_account =
    if to_dr_account.currency == stq && not to_dr_account.erc20_approved
    then (do
      balances ← get_accounts_balance to_dr_account.user_id (to_dr_account ∷ [])
      first ← ok_or panicked internal (front balances)
      pure (leb stq_balance_threshold first.balance))
    else pure false

abbrev add_handled : Transaction → Account → Bool → Handled → Handled
add_handled t a need (rows, accounts) = (t ∷ rows, if need then a ∷ accounts else accounts)

-- `blockchain_tx.to.iter().find(|entry| entry.address == to_dr_address)`
abbrev pub entry_for :
    BlockchainAddress → BlockchainTransaction → Option BlockchainTransactionEntryTo
entry_for address blockchain_tx = find (λ e. e.address == address) blockchain_tx.to

module _ (generated : AccountId → TransactionId) where
  unfoldable pub deposit_tx :
      BlockchainTransaction → BlockchainTransactionEntryTo → Account → Account → NewTransaction
  deposit_tx blockchain_tx to_entry to_dr_account to_cr_account = record {
    id = generated to_dr_account.id;
    gid = generated to_dr_account.id;
    user_id = to_dr_account.user_id;
    dr_account_id = to_dr_account.id;
    cr_account_id = to_cr_account.id;
    currency = to_dr_account.currency;
    value = to_entry.value;
    status = TransactionStatus.done;
    blockchain_tx_id = some blockchain_tx.hash;
    kind = TransactionKind.deposit;
    group_kind = TransactionGroupKind.deposit;
    related_tx = none;
    meta = none;
  }

  -- One round of the loop, but for the approval.
  unfoldable pub deposit_to : Bool → BlockchainTransaction → Account → Exec Db Transaction
  deposit_to first blockchain_tx to_dr_account = do
    to_entry ← ok_or missing_address_in_tx internal (entry_for to_dr_account.address blockchain_tx)
    found ← Accounts.get_by_address to_dr_account.address to_dr_account.currency AccountKind.cr
    to_cr_account ← ok_or no_account internal found
    dr_transaction ←
        Transactions.create (deposit_tx blockchain_tx to_entry to_dr_account to_cr_account)
    record_once first blockchain_tx
    pure dr_transaction

  unfoldable pub deposit_loop : Bool → BlockchainTransaction → List Account → Exec Db Handled
  deposit_loop first blockchain_tx [] = nothing
  deposit_loop first blockchain_tx (to_dr_account ∷ rest) = do
    dr_transaction ← deposit_to first blockchain_tx to_dr_account
    need ← needs_approval to_dr_account
    later ← deposit_loop false blockchain_tx rest
    pure (add_handled dr_transaction to_dr_account need later)

  unfoldable pub deposit_unless :
      BlockchainTransaction → List Account → Option InvariantViolation → Exec Db Handled
  deposit_unless blockchain_tx matched (some violation) =
      handle_violation violation blockchain_tx >> nothing
  deposit_unless blockchain_tx matched none = deposit_loop true blockchain_tx matched

  unfoldable pub handle_matched :
      BlockchainTransaction → BlockchainTransaction → List Account → Exec Db Handled
  handle_matched blockchain_tx normalized_tx [] = create_seen (seen_of blockchain_tx) >> nothing
  handle_matched blockchain_tx normalized_tx (a ∷ rest) = do
    violation ← verify_deposit_tx normalized_tx
    deposit_unless blockchain_tx (a ∷ rest) violation

  abbrev pub address_of : BlockchainTransactionEntryTo → BlockchainAddress
  address_of e = e.address

  unfoldable pub handle_deposit : BlockchainTransaction → BlockchainTransaction → Exec Db Handled
  handle_deposit blockchain_tx normalized_tx = do
    matched_dr_accounts ←
        Accounts.get_by_addresses (map address_of normalized_tx.to) blockchain_tx.currency
          AccountKind.dr
    handle_matched blockchain_tx normalized_tx matched_dr_accounts
