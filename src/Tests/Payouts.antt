-- ===== src/Tests/Payouts.antt =====
-- A withdrawal of the small bank, sent to a blockchain.
use transactions.Prelude.{ℕ, ◌≡◌, refl, none, [], ◌∷◌, ◌++◌, inl, inr, arith}
use transactions.Exec.{ok}
use transactions.Models.{btc, next, AccountKind, RecepientType}
use transactions.Models.Records.{Account, AccountWithBalance, Transaction, CreateTransactionInput}
use transactions.Amount.{checked_sub, checked_sum, checked_sum_from, add_to, checked_add}
use transactions.Repos.{Db}
use transactions.Repos.Accounts.{get, with_id}
use transactions.Repos.Balances.{
  get_account_balance, by_kind, get_accounts_balance, balances_of, balance_of, grouped, group_row,
  push_row, rows_of,
}
use transactions.Repos.Transactions.{transaction_row, create, id_taken, references_exist}
use transactions.Repos.Withdrawal.{
  minimum_balance, fee_of, add_sum, group_sums, read_sums, or_zero, subtract_sum, subtract_sums,
  remove_sum, remove_pending, sum_of, is_key, addresses_of, eligible, with_balances, above,
  res_accounts, available, take_accounts, get_accounts_for_withdrawal,
}
use transactions.Services.Blockchain.{BlockchainService, LeavesLedger}
use transactions.Services.Ledger.{create_base_tx}
use transactions.Services.Ledger.Solvency.{IsSolvent}
use transactions.Services.System.{
  SystemAccounts, fees_account_id, get_system_account, get_system_fees_account,
}
use transactions.Services.Withdrawals.{
  Entry, Overrides, check_payers, choose_payers, send, withdrawal_entry, send_all, fee_tx,
  write_entries, write_withdrawal, create_external_mono_currency_tx,
}
use transactions.Services.Withdrawals.Solvency.{create_external_mono_currency_tx-IsSolvent}
use transactions.Services.Withdrawals.Amounts.{
  Withdrawn, create_external_mono_currency_tx-Withdrawn,
}
use transactions.Tests.{numbers, account_of, payment, empty, alice, pool}

abbrev pub fees : Account
fees = account_of 60 btc 600 AccountKind.cr

abbrev pub vault : Db
vault = record empty {
  accounts = alice ∷ pool ∷ fees ∷ [];
  transactions = transaction_row empty (payment 512 11 10 5_000_000) ∷ [];
}

abbrev pub system : SystemAccounts
system = record {
  btc_transfer_account_id = 0;
  eth_transfer_account_id = 0;
  stq_transfer_account_id = 0;
  btc_liquidity_account_id = 0;
  eth_liquidity_account_id = 0;
  stq_liquidity_account_id = 0;
  btc_fees_account_id = 60;
  eth_fees_account_id = 0;
  stq_fees_account_id = 0;
}

-- A service that sends every transaction, under one hash.
abbrev pub sender : BlockchainService numbers
sender = record {
  create_bitcoin_tx = λ from to value price db. (ok 900, db);
  create_ethereum_tx = λ from to value price currency db. (ok 901, db);
  estimate_withdrawal_fee = λ fee fee_currency currency db.
      (ok (record { gross_fee = 1000; fee_price = 3; currency = currency }), db);
}

pub sender_leaves : LeavesLedger numbers sender
sender_leaves = record {
  bitcoin_leaves = λ from to value price db. (refl, refl);
  ethereum_leaves = λ from to value price currency db. (refl, refl);
  estimate_leaves = λ fee fee_currency currency db. (refl, refl);
}

abbrev input : CreateTransactionInput ℕ
input = record {
  id = 1024;
  user_id = 7;
  from = 10;
  to = 999;
  to_type = RecepientType.address;
  to_currency = btc;
  value = 3_000_000;
  value_currency = btc;
  fee = 2_000;
  exchange_id = none;
  exchange_rate = none;
}

abbrev defaults : Overrides
defaults = record {
  gid = none;
  tx_kind = none;
  tx_group_kind = none;
  fee_currency = none;
  fee_payer_account_id = none;
}

abbrev fee_row : Transaction
fee_row = transaction_row vault (fee_tx numbers system [] sender input alice 999 btc defaults fees)

abbrev payer : AccountWithBalance
payer = record { account = pool; balance = 3_000_000 }

abbrev entry : Entry
entry = withdrawal_entry numbers system [] sender input alice 999 btc defaults 1025 payer 900

abbrev sent_row : Transaction
sent_row = transaction_row vault entry.tx

abbrev emptied : Db
emptied = record vault { transactions = vault.transactions ++ fee_row ∷ sent_row ∷ [] }

test_withdrawn :
    create_external_mono_currency_tx numbers system [] sender input alice 999 btc defaults vault
    ≡ (ok (fee_row ∷ sent_row ∷ []), emptied)
unfolding create_external_mono_currency_tx check_payers choose_payers send withdrawal_entry send_all
    fee_tx write_entries write_withdrawal fees_account_id get_system_account get_system_fees_account
    get with_id get_account_balance by_kind create_base_tx get_accounts_balance balances_of
    balance_of grouped group_row push_row rows_of checked_sub checked_sum checked_sum_from add_to
    checked_add transaction_row create id_taken references_exist get_accounts_for_withdrawal
    res_accounts minimum_balance fee_of add_sum group_sums read_sums or_zero subtract_sum
    subtract_sums remove_sum remove_pending sum_of is_key addresses_of eligible with_balances above
    available take_accounts next
test_withdrawn = refl

vault-IsSolvent : IsSolvent vault
unfolding transaction_row
vault-IsSolvent = record {
  holds = λ a m c. elim m [
    | inl e ↦ ground arith
    | inr (inl e) ↦ ground arith
    | inr (inr (inl e)) ↦ ground arith
    | inr (inr (inr x)) ↦ elim x [ ]
  ];
}

create_external_mono_currency_tx-IsSolvent_example :
    IsSolvent
      (create_external_mono_currency_tx numbers system [] sender input alice 999 btc defaults
        vault).1
create_external_mono_currency_tx-IsSolvent_example =
    create_external_mono_currency_tx-IsSolvent numbers system [] sender input alice 999 btc defaults
      sender_leaves vault refl vault-IsSolvent

create_external_mono_currency_tx-Withdrawn_example :
    Withdrawn numbers system [] sender input alice 999 btc defaults vault
      (fee_row ∷ sent_row ∷ [])
      emptied
create_external_mono_currency_tx-Withdrawn_example =
    create_external_mono_currency_tx-Withdrawn numbers system [] sender input alice 999 btc defaults
      sender_leaves vault (fee_row ∷ sent_row ∷ []) emptied test_withdrawn
