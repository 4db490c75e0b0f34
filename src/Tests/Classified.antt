-- ===== src/Tests/Classified.antt =====
-- Payments of the small bank, classified.
use transactions.Prelude.{◌≡◌, refl, none, some, ℕ}
use transactions.Exec.{ok}
use transactions.Models.{btc, RecepientType}
use transactions.Models.Records.{CreateTransactionInput}
use transactions.Repos.Accounts.{get, with_id}
use transactions.Repos.Balances.{get_account_spending}
use transactions.Amount.{checked_sum, checked_sum_from, add_to, checked_add}
use transactions.Repos.Transactions.{transaction_row}
use transactions.Services.Classifier.{
  TransactionType, Limits, limit_of, validate, valid_rate, valid_exchange, from_value,
  check_account_daily_limit, get_from_account, get_to_account, get_transaction_type,
  validate_and_classify_transaction,
}
use transactions.Services.Classifier.Soundness.{
  IsClassified, validate_and_classify_transaction-IsClassified,
}
use transactions.Tests.{numbers, alice, bob, funded}

abbrev pub limits : Limits
limits = record {
  stq_wei_limit = 0;
  eth_wei_limit = 0;
  btc_satoshi_limit = 4_000_000;
  limit_period = 86400;
}

abbrev input : CreateTransactionInput ℕ
input = record {
  id = 600;
  user_id = 7;
  from = 10;
  to = 20;
  to_type = RecepientType.account;
  to_currency = btc;
  value = 3_000_000;
  value_currency = btc;
  fee = 0;
  exchange_id = none;
  exchange_rate = none;
}

test_classified :
    validate_and_classify_transaction numbers some limits input funded
    ≡ (ok (TransactionType.internal alice bob), funded)
unfolding validate_and_classify_transaction validate valid_rate valid_exchange from_value
    check_account_daily_limit get_from_account get_to_account get_transaction_type limit_of get
    with_id get_account_spending checked_sum checked_sum_from add_to checked_add transaction_row
test_classified = refl

validate_and_classify_transaction-IsClassified_example :
    (funded ≡ funded)
    × IsClassified numbers some limits input funded (TransactionType.internal alice bob)
validate_and_classify_transaction-IsClassified_example =
    validate_and_classify_transaction-IsClassified numbers some limits input funded
      (TransactionType.internal alice bob) funded test_classified
