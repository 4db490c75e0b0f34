-- ===== src/Services/Withdrawals.antt =====
-- `create_external_mono_currency_tx` of services/transactions/mod.rs: payments to a blockchain.
pub mod Steps
pub mod Solvency
pub mod Sums
pub mod Sends
pub mod Amounts
use transactions.Prelude.{
  ℕ, Bool, not, Option, none, some, List, [], ◌∷◌, ◌==◌, nat_eq, if◌then◌else◌, ltb,
}
use transactions.Exec.{
  Exec, Result, ok, err, pure, raise, raise_if, ok_or, execute_transaction, as_internal, ◌>>=◌,
  ◌>>◌, ErrorContext, ErrorKind, internal, invalid_input, invalid_currency, invalid_value,
  not_enough_funds, balance_overflow,
}
use transactions.Float.{Floats}
use transactions.Models.{
  AccountId, BlockchainAddress, BlockchainTransactionId, Currency, btc, eth, stq, currency_eq,
  TransactionId, next, AccountKind, TransactionKind, TransactionGroupKind, TransactionStatus, done,
  pending,
}
use transactions.Models.Records.{
  Account, AccountWithBalance, Amount, Transaction, NewTransaction, CreateTransactionInput,
}
use transactions.Amount.{checked_add}
use transactions.Repos.{Db}
use transactions.Repos.Balances.{get_account_balance}
use transactions.Repos.Withdrawal.{get_accounts_for_withdrawal}
use transactions.Services.Blockchain.{BlockchainService, FeeEstimate}
use transactions.Services.Ledger.{create_base_tx}
use transactions.Services.System.{SystemAccounts, get_system_fees_account}

-- A row to write, with the accounts that it debits and credits.
pub record Entry : Type 0 where
  pub tx : NewTransaction
  pub dr_account : Account
  pub cr_account : Account

-- What the fold over the paying accounts ends with: the rows of the transactions that were sent,
-- and the error that stopped it.
pub record Sent : Type 0 where
  pub new_db_transactions : List Entry
  pub failure : Option (ErrorContext × ErrorKind)

-- The optional parameters of the function.
pub record Overrides : Type 0 where
  pub gid : Option TransactionId
  pub tx_kind : Option TransactionKind
  pub tx_group_kind : Option TransactionGroupKind
  pub fee_currency : Option Currency
  pub fee_payer_account_id : Option AccountId

-- `unwrap_or`
abbrev pub unwrap_or : {A : Type 0} → Option A → A → A
unwrap_or none d = d
unwrap_or (some a) d = a

-- The double check: every balance covers its payment, and the payments are added up.
unfoldable pub check_payers : Amount → List AccountWithBalance → Exec Db Amount
check_payers total_value [] = pure total_value
check_payers total_value (payer ∷ rest) = do
  balance ← get_account_balance payer.account.id AccountKind.dr
  raise_if (ltb balance payer.balance) not_enough_funds invalid_input
  total ← ok_or balance_overflow ErrorKind.internal (checked_add total_value payer.balance)
  check_payers total rest

module _ (f : Floats) (system : SystemAccounts) (system_fees_accounts_ids : List AccountId)
    (service : BlockchainService f) (input : CreateTransactionInput f.F64) (from_account : Account)
    (to_blockchain_address : BlockchainAddress) (to_currency : Currency)
    (overrides : Overrides) where
  -- The first database transaction: who pays, and the account of the fees.
  unfoldable pub choose_payers : FeeEstimate f.F64 → Exec Db (Account × List AccountWithBalance)
  choose_payers estimate = do
    payers ←
        get_accounts_for_withdrawal system_fees_accounts_ids input.value to_currency
          estimate.gross_fee
    total_value ← check_payers 0 payers
    raise_if (not (total_value == input.value)) invalid_value ErrorKind.internal
    fees_account ← as_internal (get_system_fees_account system to_currency)
    pure (fees_account, payers)

  unfoldable pub send : Currency → f.F64 → AccountWithBalance → Exec Db BlockchainTransactionId
  send eth fee_price payer = as_internal (
      service.create_ethereum_tx payer.account.address to_blockchain_address payer.balance fee_price
        eth)
  send stq fee_price payer = as_internal (
      service.create_ethereum_tx payer.account.address to_blockchain_address payer.balance fee_price
        stq)
  send btc fee_price payer = as_internal (
      service.create_bitcoin_tx payer.account.address to_blockchain_address payer.balance fee_price)

  unfoldable pub withdrawal_entry :
      TransactionId → AccountWithBalance → BlockchainTransactionId → Entry
  withdrawal_entry id payer hash = record {
    tx = record {
      id = id;
      gid = unwrap_or overrides.gid input.id;
      user_id = input.user_id;
      dr_account_id = from_account.id;
      cr_account_id = payer.account.id;
      currency = to_currency;
      value = payer.balance;
      status = pending;
      blockchain_tx_id = some hash;
      kind = unwrap_or overrides.tx_kind TransactionKind.withdrawal;
      group_kind = unwrap_or overrides.tx_group_kind TransactionGroupKind.withdrawal;
      related_tx = none;
      meta = none;
    };
    dr_account = from_account;
    cr_account = payer.account;
  }

  abbrev add_sent : Entry → Sent × Db → Sent × Db
  add_sent e (sent, db) = (record sent { new_db_transactions = e ∷ sent.new_db_transactions }, db)

  -- One step of the fold: the sent transaction's row is kept, an error stops the fold.
  abbrev pub after_send :
      TransactionId
      → AccountWithBalance
      → Result BlockchainTransactionId × Db
      → (Db → Sent × Db)
      → Sent × Db
  after_send id payer (ok hash, db) rest = add_sent (withdrawal_entry id payer hash) (rest db)
  after_send id payer (err c k, db) rest =
      (record { new_db_transactions = []; failure = some (c, k) }, db)

  -- The fold over the payers. The identifier moves on before each row.
  unfoldable pub send_all : f.F64 → TransactionId → List AccountWithBalance → Db → Sent × Db
  send_all fee_price id [] db = (record { new_db_transactions = []; failure = none }, db)
  send_all fee_price id (payer ∷ rest) db =
      after_send (next id) payer (send to_currency fee_price payer db)
        (send_all fee_price (next id) rest)

  unfoldable pub fee_tx : Account → NewTransaction
  fee_tx fees_account = record {
    id = input.id;
    gid = unwrap_or overrides.gid input.id;
    user_id = input.user_id;
    dr_account_id = unwrap_or overrides.fee_payer_account_id from_account.id;
    cr_account_id = fees_account.id;
    currency = unwrap_or overrides.fee_currency from_account.currency;
    value = input.fee;
    status = done;
    blockchain_tx_id = none;
    kind = TransactionKind.fee;
    group_kind = unwrap_or overrides.tx_group_kind TransactionGroupKind.withdrawal;
    related_tx = none;
    meta = none;
  }

  -- The loop that writes the rows of the transactions sent.
  unfoldable pub write_entries : List Entry → Exec Db (List Transaction)
  write_entries [] = pure []
  write_entries (e ∷ rest) = do
    t ← create_base_tx e.tx e.dr_account e.cr_account
    later ← write_entries rest
    pure (t ∷ later)

  -- The second database transaction: the fee, then the rows of the transactions sent.
  unfoldable pub write_withdrawal : Account → List Entry → Exec Db (List Transaction)
  write_withdrawal fees_account entries = do
    t ← create_base_tx (fee_tx fees_account) from_account fees_account
    later ← write_entries entries
    pure (t ∷ later)

  -- After the fold: what was sent is written, also where an error stopped it; if nothing was sent,
  -- that error is returned.
  abbrev pub conclude :
      Account → Option (ErrorContext × ErrorKind) → List Entry → Exec Db (List Transaction)
  conclude fees_account none es = execute_transaction (write_withdrawal fees_account es)
  conclude fees_account (some (c, k)) [] = raise c k
  conclude fees_account (some (c, k)) (e ∷ es) =
      execute_transaction (write_withdrawal fees_account (e ∷ es))

  abbrev pub pay :
      FeeEstimate f.F64 → Account × List AccountWithBalance → Exec Db (List Transaction)
  pay estimate (fees_account, payers) db =
      let r = send_all estimate.fee_price input.id payers db in
      conclude fees_account r.0.failure r.0.new_db_transactions r.1

  unfoldable pub create_external_mono_currency_tx : Exec Db (List Transaction)
  create_external_mono_currency_tx = do
    raise_if (not (from_account.currency == to_currency)) invalid_currency ErrorKind.internal
    estimate ← as_internal (
        service.estimate_withdrawal_fee input.fee
          (unwrap_or overrides.fee_currency from_account.currency) to_currency)
    chosen ← execute_transaction (choose_payers estimate)
    pay estimate chosen
