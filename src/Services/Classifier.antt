-- ===== src/Services/Classifier.antt =====
-- services/transactions/classifier.rs, with the validation of its input (models/transaction.rs).
pub mod Steps
pub mod Soundness
use transactions.Prelude.{
  ℕ, ◌*◌, ◌/◌, ◌%◌, ◌<◌, Bool, true, false, ◌&&◌, not, Option, none, some, List, [], ◌∷◌, ◌==◌,
  nat_eq, if◌then◌else◌, ltb, length,
}
use transactions.Exec.{
  Exec, Result, ok, err, pure, raise, ok_or, raise_if, as_internal, ◌>>=◌, ◌>>◌, invalid_currency,
  missing_exchange_rate, balance_overflow, limit_exceeded, no_account, invalid_uuid, validation,
  ErrorKind, invalid_input, malformed_input, not_found,
}
use transactions.Float.{Floats}
use transactions.Models.{
  AccountId, BlockchainAddress, ExchangeId, Recepient, Currency, btc, eth, stq, currency_eq,
  AccountKind, DailyLimitType, daily_limit_type_eq, RecepientType,
}
use transactions.Models.Records.{Account, Amount, Time, CreateTransactionInput}
use transactions.Amount.{checked_add, u128_mod}
use transactions.Amount.Conversion.{convert}
use transactions.Repos.{Db}
use transactions.Repos.Accounts
use transactions.Repos.Balances.{get_account_spending}

pub data TransactionType (F64 : Type 0) : Type 0 where
  internal : Account → Account → TransactionType F64
  withdrawal : Account → BlockchainAddress → Currency → TransactionType F64
  internal_exchange : Account → Account → ExchangeId → F64 → TransactionType F64
  withdrawal_exchange :
      Account → BlockchainAddress → Currency → ExchangeId → F64 → TransactionType F64

-- `ClassifierServiceImpl`: the limits in the smallest units, and the period.
pub record Limits : Type 0 where
  pub stq_wei_limit : Amount
  pub eth_wei_limit : Amount
  pub btc_satoshi_limit : Amount
  pub limit_period : Time

unfoldable pub limit_of : Limits → Currency → Amount
limit_of limits btc = limits.btc_satoshi_limit
limit_of limits eth = limits.eth_wei_limit
limit_of limits stq = limits.stq_wei_limit

-- `Uuid::parse_str` of the crate uuid, on the recepient's text.
module _ (f : Floats) (parse_account_id : Recepient → Option AccountId) (limits : Limits) where
  open f use {F64, literal, lt, over}

  -- `ClassifierServiceImpl::new`, from `config.limits`.
  unfoldable pub new_limits : F64 → F64 → F64 → ℕ → Limits
  new_limits stq_limit eth_limit btc_limit period_secs = record {
    stq_wei_limit = f.to_u128 stq_limit * 1_000_000_000_000_000_000 % u128_mod;
    eth_wei_limit =
        f.to_u128 (f.times eth_limit (literal 1000 0))
        * 1_000_000_000_000_000_000
        % u128_mod
        / 1000;
    btc_satoshi_limit =
        f.to_u128 (f.times btc_limit (literal 1000 0)) * 100_000_000 % u128_mod / 1000;
    limit_period = period_secs;
  }

  -- `valid_rate`, on a rate that is there.
  unfoldable pub valid_rate : Option F64 → Bool
  valid_rate none = true
  valid_rate (some rate) = lt (literal 0 0) rate

  -- `valid_exchange`: an id and a rate, or neither.
  unfoldable pub valid_exchange : Option ExchangeId → Option F64 → Bool
  valid_exchange (some id) (some rate) = true
  valid_exchange (some id) none = false
  valid_exchange none (some rate) = false
  valid_exchange none none = true

  unfoldable pub validate : CreateTransactionInput F64 → Exec Db Unit
  unfolding valid_rate valid_exchange
  validate input =
      raise_if
        (not
          (valid_rate input.exchange_rate && valid_exchange input.exchange_id input.exchange_rate))
        validation invalid_input

  -- The value in the currency of the account.
  unfoldable pub from_value : CreateTransactionInput F64 → Account → Exec Db Amount
  from_value input account =
      if input.value_currency == account.currency
      then pure input.value
      else if input.value_currency == input.to_currency
      then elim input.exchange_rate [
        | some rate ↦
            pure
              (convert f input.value input.to_currency account.currency (over (literal 1 0) rate))
        | none ↦ raise missing_exchange_rate malformed_input
      ]
      else raise invalid_currency malformed_input

  unfoldable pub check_account_daily_limit : CreateTransactionInput F64 → Account → Exec Db Unit
  check_account_daily_limit input account = do
    spending ← as_internal (get_account_spending account.id account.kind limits.limit_period)
    value ← from_value input account
    total ← ok_or balance_overflow ErrorKind.internal (checked_add spending value)
    raise_if
        (account.daily_limit_type == DailyLimitType.default_limit
          && ltb (limit_of limits account.currency) total)
        limit_exceeded invalid_input

  unfoldable pub get_from_account : CreateTransactionInput F64 → Exec Db Account
  get_from_account input = do found ← Accounts.get input.from; ok_or no_account not_found found

  unfoldable pub get_to_account : CreateTransactionInput F64 → Exec Db (Option Account)
  get_to_account input = elim input.to_type [
    | RecepientType.account ↦ do
      to_account_id ← ok_or invalid_uuid malformed_input (parse_account_id input.to)
      found ← Accounts.get to_account_id
      to_account ← ok_or no_account not_found found
      raise_if (not (to_account.currency == input.to_currency)) invalid_currency malformed_input
      pure (some to_account)
    | RecepientType.address ↦ Accounts.get_by_address input.to input.to_currency AccountKind.cr
  ]

  -- `(input.exchange_id, input.exchange_rate)`, both there.
  unfoldable pub exchange_of : CreateTransactionInput F64 → Exec Db (ExchangeId × F64)
  exchange_of input = elim input.exchange_id [
    | some exchange_id ↦ elim input.exchange_rate [
      | some rate ↦ pure (exchange_id, rate)
      | none ↦ raise missing_exchange_rate malformed_input
    ]
    | none ↦ raise missing_exchange_rate malformed_input
  ]

  -- The rest of the case of an address that is not ours.
  unfoldable pub withdrawal_type :
      CreateTransactionInput F64 → Account → Exec Db (TransactionType F64)
  withdrawal_type input from_account =
      if not (from_account.currency == input.to_currency)
      then (do
        e ← exchange_of input
        pure (withdrawal_exchange from_account input.to input.to_currency e.0 e.1))
      else pure (withdrawal from_account input.to input.to_currency)

  unfoldable pub get_transaction_type :
      CreateTransactionInput F64 → Account → Option Account → Exec Db (TransactionType F64)
  get_transaction_type input from_account (some to_account) =
      if not (from_account.currency == to_account.currency)
      then (do e ← exchange_of input; pure (internal_exchange from_account to_account e.0 e.1))
      else pure (TransactionType.internal from_account to_account)
  get_transaction_type input from_account none = do
    accounts ← Accounts.filter_by_address input.to
    raise_if (not (length accounts == 0)) invalid_currency malformed_input
    withdrawal_type input from_account

  unfoldable pub validate_and_classify_transaction :
      CreateTransactionInput F64 → Exec Db (TransactionType F64)
  validate_and_classify_transaction input = do
    validate input
    from_account ← get_from_account input
    check_account_daily_limit input from_account
    to_account ← get_to_account input
    get_transaction_type input from_account to_account
