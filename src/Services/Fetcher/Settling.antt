-- ===== src/Services/Fetcher/Settling.antt =====
-- `handle_transaction` of services/rabbit.rs on a transaction that we sent: an approval of the
-- transfer of tokens, or a withdrawal. The identifiers that are generated are a parameter, one for
-- each account.
use transactions.Prelude.{
  ℕ, Bool, true, false, not, Option, none, some, List, [], ◌==◌, nat_eq, if◌then◌else◌, ltb,
}
use transactions.Exec.{
  Exec, pure, raise_if, ok_or, ◌>>=◌, ◌>>◌, internal, balance_overflow, no_account,
  invalid_currency, invalid_blockchain_transaction_structure,
}
use transactions.Float.{Floats}
use transactions.Models.{
  AccountId, TransactionId, Currency, btc, eth, stq, currency_eq, AccountKind, TransactionStatus,
  TransactionKind, erc20_eq, Erc20OperationKind,
}
use transactions.Models.Normalization.{value}
use transactions.Models.Records.{
  Account, BlockchainTransaction, NewTransaction, Transaction, UpdateAccount, seen_of,
}
use transactions.Repos.{Db}
use transactions.Repos.Accounts
use transactions.Repos.Blockchain.{create_blockchain, delete_pending}
use transactions.Repos.Seen.{create_seen}
use transactions.Repos.Transactions
use transactions.Services.Fetcher.Confirmations.{required_confirmations}
use transactions.Services.Fetcher.Violations.{
  InvariantViolation, front, handle_violation, verify_withdrawal_tx,
}
use transactions.Services.System.{
  SystemAccounts, get_system_fees_account, get_system_fees_account_dr,
}

-- The rows that were written, and the accounts to approve.
abbrev pub Handled : Type 0
Handled = List Transaction × List Account

abbrev pub nothing : Exec Db Handled
nothing = pure ([], [])

abbrev pub approval_of : Option Erc20OperationKind → Bool
approval_of none = false
approval_of (some op) = op == Erc20OperationKind.approve

abbrev pub approved : UpdateAccount
approved = record { name = none; erc20_approved = some true }

-- `if let Some(account) = ..`: an account that is not yet approved is now.
unfoldable pub mark_approved : BlockchainTransaction → Option Account → Exec Db Handled
mark_approved blockchain_tx none = nothing
mark_approved blockchain_tx (some account) = if account.erc20_approved then nothing else (do
  Accounts.update account.id approved
  create_blockchain blockchain_tx
  delete_pending blockchain_tx.hash
  create_seen (seen_of blockchain_tx)
  nothing)

-- An approval of the transfer of tokens.
unfoldable pub handle_approval : BlockchainTransaction → Exec Db Handled
handle_approval blockchain_tx = do
  raise_if (not (blockchain_tx.currency == stq)) invalid_currency internal
  from ← ok_or invalid_blockchain_transaction_structure internal (front blockchain_tx.from)
  found ← Accounts.get_by_address from stq AccountKind.dr
  mark_approved blockchain_tx found

unfoldable pub fees_currency : Currency → Currency
fees_currency btc = btc
fees_currency eth = eth
fees_currency stq = eth

module _ (system : SystemAccounts) (generated : AccountId → TransactionId) where
  -- The account that bore the fee of the blockchain.
  unfoldable pub get_fees_account_dr : Currency → Transaction → Exec Db Account
  get_fees_account_dr stq tx = get_system_fees_account_dr system (fees_currency stq)
  get_fees_account_dr btc tx = do
    found ← Accounts.get tx.cr_account_id
    ok_or no_account internal found
  get_fees_account_dr eth tx = do
    found ← Accounts.get tx.cr_account_id
    ok_or no_account internal found

  unfoldable pub blockchain_fee_tx :
      BlockchainTransaction → Transaction → Account → Account → NewTransaction
  blockchain_fee_tx blockchain_tx tx fees_account_cr fees_account_dr = record {
    id = generated fees_account_dr.id;
    gid = tx.gid;
    user_id = tx.user_id;
    dr_account_id = fees_account_cr.id;
    cr_account_id = fees_account_dr.id;
    currency = fees_currency blockchain_tx.currency;
    value = blockchain_tx.fee;
    status = TransactionStatus.done;
    blockchain_tx_id = none;
    kind = TransactionKind.blockchain_fee;
    group_kind = tx.group_kind;
    related_tx = none;
    meta = none;
  }

  -- The withdrawal is done: its rows are, and the fee of the blockchain is written.
  unfoldable pub finish_withdrawal : BlockchainTransaction → Transaction → Exec Db Handled
  finish_withdrawal blockchain_tx tx = do
    fees_account_dr ← get_fees_account_dr blockchain_tx.currency tx
    fees_account_cr ← get_system_fees_account system (fees_currency blockchain_tx.currency)
    create_blockchain blockchain_tx
    delete_pending blockchain_tx.hash
    Transactions.update_status blockchain_tx.hash TransactionStatus.done
    Transactions.create (blockchain_fee_tx blockchain_tx tx fees_account_cr fees_account_dr)
    create_seen (seen_of blockchain_tx)
    nothing

  unfoldable pub settle_withdrawal :
      BlockchainTransaction → Transaction → Option InvariantViolation → Exec Db Handled
  settle_withdrawal blockchain_tx tx (some violation) =
      handle_violation violation blockchain_tx >> nothing
  settle_withdrawal blockchain_tx tx none = finish_withdrawal blockchain_tx tx

  -- A transaction that we sent: it waits for its confirmations.
  unfoldable pub handle_withdrawal :
      Floats → BlockchainTransaction → BlockchainTransaction → Transaction → Exec Db Handled
  handle_withdrawal f blockchain_tx normalized_tx tx = do
    total_tx_value ← ok_or balance_overflow internal (value normalized_tx)
    let required : ℕ = required_confirmations f normalized_tx.currency total_tx_value
    if ltb normalized_tx.confirmations required then nothing else (do
      violation ← verify_withdrawal_tx tx normalized_tx
      settle_withdrawal blockchain_tx tx violation)
