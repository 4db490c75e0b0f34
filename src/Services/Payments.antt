-- ===== src/Services/Payments.antt =====
-- `create_transaction` of services/transactions/mod.rs: a payment that a client asks for is
-- classified, made, and shown.
pub mod Solvency
pub mod Making
pub mod Answers
use transactions.Services.Converter.{convert_transaction}
use transactions.Services.Auth.{authenticate}
use transactions.Repos.{Db}
use transactions.Services.Transfers.{
  ExchangeInput, create_internal_mono_currency_tx, create_internal_multi_currency_tx,
}
use transactions.Services.Blockchain.{BlockchainService}
use transactions.Services.System.{SystemAccounts}
use transactions.Models.{Recepient, AccountId, AuthenticationToken}
use transactions.Models.Records.{TransactionOut, Transaction, CreateTransactionInput, User}
use transactions.Services.Classifier.{
  internal_exchange, withdrawal, withdrawal_exchange, TransactionType, Limits,
  validate_and_classify_transaction,
}
use transactions.Float.{Floats}
use transactions.Services.Withdrawals.{Overrides, create_external_mono_currency_tx}
use transactions.Exec.{
  ◌>>=◌, Exec, Result, execute_transaction, pure, raise, not_supported, malformed_input,
}
use transactions.Prelude.{Option, none, some, List, [], ◌∷◌}

abbrev pub as_group : {S : Type 0} → Exec S Transaction → Exec S (List Transaction)
as_group m = do tx ← m; pure (tx ∷ [])

-- `create_external_mono_currency_tx(.., None, None, None, None, None)`
abbrev pub no_overrides : Overrides
no_overrides = record {
  gid = none;
  tx_kind = none;
  tx_group_kind = none;
  fee_currency = none;
  fee_payer_account_id = none;
}

-- What the publisher is given: payments between accounts, which no blockchain reports. An error of
-- the publisher is logged and dropped.
unfoldable pub to_publish :
    {F64 : Type 0} → TransactionType F64 → TransactionOut → Option TransactionOut
to_publish (TransactionType.internal from to) tx = some tx
to_publish (internal_exchange from to id rate) tx = none
to_publish (withdrawal from address currency) tx = none
to_publish (withdrawal_exchange from address currency id rate) tx = none

-- The crate uuid, the service of the blockchains and the exchange client are parameters.
module _ (f : Floats) (parse_account_id : Recepient → Option AccountId) (limits : Limits)
    (system : SystemAccounts) (ids : List AccountId) (service : BlockchainService f)
    (exchange : ExchangeInput f.F64 → Result (Unit {0})) where
  open f use {F64}

  -- The branch for each kind of payment.
  unfoldable pub make_payment :
      CreateTransactionInput F64 → TransactionType F64 → Exec Db (List Transaction)
  make_payment input (TransactionType.internal from_account to_account) =
      as_group (create_internal_mono_currency_tx f input from_account to_account)
  make_payment input (withdrawal from_account to_blockchain_address currency) =
      create_external_mono_currency_tx f system ids service input from_account to_blockchain_address
        currency no_overrides
  make_payment input (internal_exchange from to exchange_id rate) =
      create_internal_multi_currency_tx f system exchange input from to exchange_id rate
  make_payment input (withdrawal_exchange from address currency exchange_id rate) =
      raise not_supported malformed_input

  -- The classifier is given the input with the id of the authenticated user, the payment is made
  -- with the input as it was asked for.
  unfoldable pub classify : CreateTransactionInput F64 → User → Exec Db (TransactionType F64)
  classify input user = execute_transaction (
      validate_and_classify_transaction f parse_account_id limits
        (record input { user_id = user.id }))

  -- What is written by now stays, also where it cannot be shown.
  unfoldable pub show_payment :
      TransactionType F64 → List Transaction → Exec Db (TransactionOut × Option TransactionOut)
  show_payment tx_type tx_group = do
    tx ← execute_transaction (convert_transaction tx_group)
    pure (tx, to_publish tx_type tx)

  unfoldable pub create_transaction :
      AuthenticationToken
      → CreateTransactionInput F64
      → Exec Db (TransactionOut × Option TransactionOut)
  create_transaction token input = do
    user ← authenticate token
    tx_type ← classify input user
    tx_group ← make_payment input tx_type
    show_payment tx_type tx_group
