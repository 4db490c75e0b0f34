-- ===== src/Services/Transfers.antt =====
-- Payments between accounts of the system: `create_internal_mono_currency_tx` and
-- `create_internal_multi_currency_tx` of services/transactions/mod.rs.
pub mod Exchanges
pub mod Views
use transactions.Prelude.{Option, none, some, List, [], ◌∷◌, ◌==◌, if◌then◌else◌}
use transactions.Exec.{
  Exec, Result, pure, ok_or, execute_transaction, as_internal, ◌>>=◌, ◌>>◌, invalid_currency,
  internal,
}
use transactions.Float.{Floats}
use transactions.Models.{
  Currency, currency_eq, ExchangeId, TransactionId, AccountId, next, TransactionKind,
  TransactionGroupKind, done,
}
use transactions.Models.Records.{
  Account, Amount, Transaction, NewTransaction, CreateTransactionInput,
}
use transactions.Amount.Conversion.{convert}
use transactions.Repos.{Db}
use transactions.Services.Ledger.{create_base_tx}
use transactions.Services.System.{SystemAccounts, get_system_liquidity_account}

-- models/exchange.rs
pub record ExchangeInput (F64 : Type 0) : Type 0 where
  pub id : ExchangeId
  pub from : Currency
  pub to : Currency
  pub rate : F64
  pub actual_amount : Amount
  pub amount_currency : Currency

module _ (f : Floats) where
  open f use {F64, literal, over}

  -- The row of a payment in one currency.
  unfoldable pub internal_tx : CreateTransactionInput F64 → Account → Account → NewTransaction
  internal_tx input dr_account cr_account = record {
    id = input.id;
    gid = input.id;
    user_id = input.user_id;
    dr_account_id = dr_account.id;
    cr_account_id = cr_account.id;
    currency = dr_account.currency;
    value = input.value;
    status = done;
    blockchain_tx_id = none;
    kind = TransactionKind.internal;
    group_kind = TransactionGroupKind.internal;
    related_tx = none;
    meta = none;
  }

  unfoldable pub create_internal_mono_currency_tx :
      CreateTransactionInput F64 → Account → Account → Exec Db Transaction
  create_internal_mono_currency_tx input dr_account cr_account =
      execute_transaction
        (create_base_tx (internal_tx input dr_account cr_account) dr_account cr_account)

  -- What leaves the one account and what enters the other.
  unfoldable pub exchange_values :
      CreateTransactionInput F64 → Currency → Currency → F64 → Option (Amount × Amount)
  exchange_values input from to exchange_rate =
      if from == input.value_currency
      then some (input.value, convert f input.value from to exchange_rate)
      else if to == input.value_currency
      then some (convert f input.value to from (over (literal 1 0) exchange_rate), input.value)
      else none

  -- One of the two rows of a payment with an exchange.
  unfoldable pub exchange_tx :
      CreateTransactionInput F64
      → TransactionId
      → TransactionKind
      → Account
      → Account
      → Currency
      → Amount
      → NewTransaction
  exchange_tx input id kind dr_account cr_account currency value = record {
    id = id;
    gid = input.id;
    user_id = input.user_id;
    dr_account_id = dr_account.id;
    cr_account_id = cr_account.id;
    currency = currency;
    value = value;
    status = done;
    blockchain_tx_id = none;
    kind = kind;
    group_kind = TransactionGroupKind.internal_multi;
    related_tx = none;
    meta = none;
  }

  -- The exchange client is a parameter: it says whether the other service made the exchange.
  module _ (system : SystemAccounts) (exchange : ExchangeInput F64 → Result (Unit {0})) where
    abbrev pub ask_exchange : ExchangeInput F64 → Exec Db Unit
    ask_exchange exchange_input db = (exchange exchange_input, db)

    -- The database transaction after the exchange.
    unfoldable pub write_exchange :
        CreateTransactionInput F64 → Account → Account → F64 → Exec Db (List Transaction)
    write_exchange input from_account to_account exchange_rate = do
      values ←
          ok_or invalid_currency internal
            (exchange_values input from_account.currency to_account.currency exchange_rate)
      from_counterpart_acc ← as_internal (get_system_liquidity_account system from_account.currency)
      first ←
          create_base_tx
            (exchange_tx input input.id TransactionKind.multi_from from_account from_counterpart_acc
              from_account.currency values.0)
            from_account from_counterpart_acc
      to_counterpart_acc ← as_internal (get_system_liquidity_account system to_account.currency)
      second ←
          create_base_tx
            (exchange_tx input (next input.id) TransactionKind.multi_to to_counterpart_acc
              to_account to_account.currency values.1)
            to_counterpart_acc to_account
      pure (first ∷ second ∷ [])

    unfoldable pub create_internal_multi_currency_tx :
        CreateTransactionInput F64
        → Account
        → Account
        → ExchangeId
        → F64
        → Exec Db (List Transaction)
    create_internal_multi_currency_tx input from_account to_account exchange_id exchange_rate = do
      ask_exchange (record {
        id = exchange_id;
        from = from_account.currency;
        to = to_account.currency;
        rate = exchange_rate;
        actual_amount = input.value;
        amount_currency = input.value_currency;
      })
      execute_transaction (write_exchange input from_account to_account exchange_rate)
