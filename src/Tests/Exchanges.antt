-- ===== src/Tests/Exchanges.antt =====
-- A payment of the small bank from BTC to ETH.
use transactions.Prelude.{
  find, ℕ, ◌+◌, ◌≡◌, refl, some, [], ◌∷◌, ◌++◌, inl, inr, arith, if◌then◌else◌, ◌==◌, nat_eq,
}
use transactions.Exec.{Result, ok}
use transactions.Models.{next, btc, eth, AccountKind, RecepientType, TransactionKind, AccountId}
use transactions.Models.Records.{Account, Transaction, CreateTransactionInput}
use transactions.Amount.{checked_sub, checked_sum, checked_sum_from, add_to, checked_add}
use transactions.Amount.Conversion.{convert, divisor, satoshi_wei_factor}
use transactions.Repos.{Db}
use transactions.Repos.Accounts.{get, with_id}
use transactions.Repos.Balances.{
  get_accounts_balance, balances_of, balance_of, grouped, group_row, push_row, rows_of,
}
use transactions.Repos.Balances.Sums.{credited, debited}
use transactions.Repos.Transactions.{transaction_row, create, id_taken, references_exist}
use transactions.Services.Ledger.{create_base_tx}
use transactions.Services.Ledger.Solvency.{IsSolvent}
use transactions.Services.System.{
  SystemAccounts, liquidity_account_id, get_system_account, get_system_liquidity_account,
}
use transactions.Services.Converter.{convert_transaction}
use transactions.Services.Transfers.Views.{
  paid_view, create_internal_multi_currency_tx_view, create_internal_mono_currency_tx_view,
}
use transactions.Services.Transfers.{
  internal_tx, create_internal_mono_currency_tx, ExchangeInput, exchange_values, exchange_tx,
  write_exchange, create_internal_multi_currency_tx,
}
use transactions.Services.Transfers.Exchanges.{
  Exchanged, ExchangeOutcome, IsLiquidity, create_internal_multi_currency_tx-ExchangeOutcome,
  create_internal_multi_currency_tx-IsSolvent, create_internal_multi_currency_tx_sums,
}
use transactions.Tests.{numbers, account_of, payment, empty, alice, pool}

abbrev carol : Account
carol = account_of 30 eth 300 AccountKind.cr

abbrev btc_liquidity : Account
btc_liquidity = account_of 40 btc 400 AccountKind.cr

abbrev eth_liquidity : Account
eth_liquidity = account_of 50 eth 500 AccountKind.cr

abbrev pub system : SystemAccounts
system = record {
  btc_transfer_account_id = 0;
  eth_transfer_account_id = 0;
  stq_transfer_account_id = 0;
  btc_liquidity_account_id = 40;
  eth_liquidity_account_id = 50;
  stq_liquidity_account_id = 0;
  btc_fees_account_id = 0;
  eth_fees_account_id = 0;
  stq_fees_account_id = 0;
}

-- The two accounts that pay are funded.
abbrev pub market : Db
market = record empty {
  accounts = alice ∷ carol ∷ btc_liquidity ∷ eth_liquidity ∷ pool ∷ [];
  transactions =
      transaction_row empty (payment 512 11 10 5_000_000)
      ∷ transaction_row empty (payment 513 11 50 90_000_000_000_000_000)
      ∷ [];
}

abbrev pub input : CreateTransactionInput ℕ
input = record {
  id = 1024;
  user_id = 7;
  from = 10;
  to = 30;
  to_type = RecepientType.account;
  to_currency = eth;
  value = 3_000_000;
  value_currency = btc;
  fee = 0;
  exchange_id = some 9;
  exchange_rate = some 1;
}

abbrev pub agreed : ExchangeInput ℕ → Result (Unit {0})
agreed e = ok tt

abbrev first_row : Transaction
first_row =
    transaction_row market
      (exchange_tx numbers input 1024 TransactionKind.multi_from alice btc_liquidity btc 3_000_000)

abbrev second_row : Transaction
second_row = transaction_row market (
    exchange_tx numbers input 1025 TransactionKind.multi_to eth_liquidity carol eth
      30_000_000_000_000_000)

abbrev exchanged : Db
exchanged = record market { transactions = market.transactions ++ first_row ∷ second_row ∷ [] }

test_exchanged :
    create_internal_multi_currency_tx numbers system agreed input alice carol 9 1 market
    ≡ (ok (first_row ∷ second_row ∷ []), exchanged)
unfolding create_internal_multi_currency_tx write_exchange exchange_values exchange_tx convert
    divisor satoshi_wei_factor get_system_liquidity_account get_system_account liquidity_account_id
    get with_id create_base_tx get_accounts_balance balances_of balance_of grouped group_row
    push_row rows_of checked_sub checked_sum checked_sum_from add_to checked_add transaction_row
    create id_taken references_exist next
test_exchanged = refl

create_internal_multi_currency_tx-ExchangeOutcome_example :
    ExchangeOutcome numbers system agreed input alice carol 1 market
      (create_internal_multi_currency_tx numbers system agreed input alice carol 9 1 market)
create_internal_multi_currency_tx-ExchangeOutcome_example =
    create_internal_multi_currency_tx-ExchangeOutcome numbers system agreed input alice carol 1 9
      market

create_internal_multi_currency_tx_sums_example :
    (x : Exchanged numbers system agreed input alice carol 1 market
      (first_row ∷ second_row ∷ [])
      exchanged)
    × ((id : AccountId)
        → (credited id exchanged.transactions
            ≡ credited id market.transactions
              + (if x.from_counterpart.id == id then x.from_value else 0)
              + (if 30 == id then x.to_value else 0))
          × (debited id exchanged.transactions
              ≡ debited id market.transactions
                + (if 10 == id then x.from_value else 0)
                + (if x.to_counterpart.id == id then x.to_value else 0)))
create_internal_multi_currency_tx_sums_example =
    create_internal_multi_currency_tx_sums numbers system agreed input alice carol 1 9 market
      (first_row ∷ second_row ∷ []) exchanged test_exchanged

pub market-IsSolvent : IsSolvent market
unfolding transaction_row
market-IsSolvent = record {
  holds = λ a m c. elim m [
    | inl e ↦ ground arith
    | inr (inl e) ↦ ground arith
    | inr (inr (inl e)) ↦ ground arith
    | inr (inr (inr (inl e))) ↦ ground arith
    | inr (inr (inr (inr (inl e)))) ↦ ground arith
    | inr (inr (inr (inr (inr x)))) ↦ elim x [ ]
  ];
}

liquidity_is_credit : (a : Account) → IsLiquidity system market eth a → a.kind ≡ AccountKind.cr
unfolding liquidity_account_id with_id
liquidity_is_credit a h = ground arith

create_internal_multi_currency_tx-IsSolvent_example :
    IsSolvent
      (create_internal_multi_currency_tx numbers system agreed input alice carol 9 1 market).1
create_internal_multi_currency_tx-IsSolvent_example =
    create_internal_multi_currency_tx-IsSolvent numbers system agreed input alice carol 1 9 market
      refl liquidity_is_credit market-IsSolvent

has_alice : find (with_id 10) market.accounts ≡ some alice
unfolding with_id
has_alice = refl

has_carol : find (with_id 30) market.accounts ≡ some carol
unfolding with_id
has_carol = refl

create_internal_multi_currency_tx_view_example :
    (x : Exchanged numbers system agreed input alice carol 1 market
      (first_row ∷ second_row ∷ [])
      exchanged)
    × (convert_transaction (first_row ∷ second_row ∷ []) exchanged
        ≡ (ok (paid_view numbers input alice carol x.from_value x.to_value eth 1000), exchanged))
create_internal_multi_currency_tx_view_example =
    create_internal_multi_currency_tx_view numbers input alice carol system agreed 1 9 market
      (first_row ∷ second_row ∷ []) exchanged has_alice has_carol test_exchanged

has_liquidity : find (with_id 40) market.accounts ≡ some btc_liquidity
unfolding with_id
has_liquidity = refl

abbrev mono_row : Transaction
mono_row = transaction_row market (internal_tx numbers input alice btc_liquidity)

abbrev paid : Db
paid = record market { transactions = market.transactions ++ mono_row ∷ [] }

test_paid :
    create_internal_mono_currency_tx numbers input alice btc_liquidity market ≡ (ok mono_row, paid)
unfolding create_internal_mono_currency_tx internal_tx with_id create_base_tx get_accounts_balance
    balances_of balance_of grouped group_row push_row rows_of checked_sub checked_sum
    checked_sum_from add_to checked_add transaction_row create id_taken references_exist
test_paid = refl

create_internal_mono_currency_tx_view_example :
    convert_transaction (mono_row ∷ []) paid
    ≡ (ok (paid_view numbers input alice btc_liquidity 3_000_000 3_000_000 btc 1000), paid)
create_internal_mono_currency_tx_view_example =
    create_internal_mono_currency_tx_view numbers input alice btc_liquidity market mono_row paid
      has_alice has_liquidity test_paid
