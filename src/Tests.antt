-- ===== src/Tests.antt =====
-- A small bank and the theorems on it: a user with a credit account, the account's address, and the
-- rows that paid into it.
pub mod Exchanges
pub mod Keys
pub mod Payouts
pub mod Withdrawals
pub mod Classified
pub mod Sending
pub mod Fetched
pub mod Paid
pub mod Grouped
pub mod Quoted
pub mod Digits
use transactions.Prelude.{
  ℕ, true, ◌+◌, ◌*◌, ◌/◌, ◌%◌, ◌^◌, ◌≤◌, ◌<◌, ◌≡◌, refl, Option, none, some, List, [], ◌∷◌, ◌++◌,
  arith, inl, inr, ltb, Among,
}
use transactions.Exec.{Result, ok, err}
use transactions.Float.{Floats}
use transactions.Models.{
  Currency, btc, eth, stq, AccountKind, DailyLimitType, TransactionStatus, TransactionKind,
  TransactionGroupKind, RecepientType,
}
use transactions.Models.Records.{
  Account, AccountWithBalance, NewTransaction, Transaction, CreateTransactionInput,
}
use transactions.Amount.{u128_mod, checked_sub, checked_sum, checked_sum_from, add_to, checked_add}
use transactions.Amount.Numeric.{u128_to_pg_decimal, pg_decimal_to_u128, decoded}
use transactions.Amount.RoundTrip.{pg_decimal_to_u128-u128_to_pg_decimal}
use transactions.Repos.{Db}
use transactions.Repos.Balances.{
  get_account_balance, get_accounts_balance, balances_of, balance_of, grouped, group_row, push_row,
  rows_of,
}
use transactions.Repos.Balances.Agreement.{one_balance, get_accounts_balance-eq-get_account_balance}
use transactions.Repos.Transactions.{transaction_row, create, id_taken, references_exist}
use transactions.Services.Ledger.{create_base_tx}
use transactions.Services.Ledger.Posting.{Outcome, create_base_tx-Outcome}
use transactions.Services.Ledger.Solvency.{IsSolvent, create_base_tx-IsSolvent, create_base_tx_sums}
use transactions.Repos.Balances.Sums.{credited, debited}

-- Natural numbers in place of the `f64`.
abbrev pub numbers : Floats
numbers = record {
  F64 = ℕ;
  of_u128 = λ n. n;
  to_u128 = λ n. n;
  times = λ m n. m * n;
  over = λ m n. m / n;
  lt = ltb;
  powi10 = λ n. 10 ^ n;
  powi10_neg = λ n. 0;
  literal = λ n places. n / 10 ^ places;
}

abbrev pub account_of : ℕ → Currency → ℕ → AccountKind → Account
account_of id currency address kind = record {
  id = id;
  user_id = 7;
  currency = currency;
  address = address;
  name = none;
  kind = kind;
  created_at = 0;
  updated_at = 0;
  erc20_approved = true;
  daily_limit_type = DailyLimitType.default_limit;
}

abbrev pub alice : Account
alice = account_of 10 btc 100 AccountKind.cr

abbrev pub bob : Account
bob = account_of 20 btc 200 AccountKind.cr

abbrev pub pool : Account
pool = account_of 11 btc 100 AccountKind.dr

abbrev pub payment : ℕ → ℕ → ℕ → ℕ → NewTransaction
payment id from to value = record {
  id = id;
  gid = id;
  user_id = 7;
  dr_account_id = from;
  cr_account_id = to;
  currency = btc;
  value = value;
  status = TransactionStatus.done;
  blockchain_tx_id = none;
  kind = TransactionKind.internal;
  group_kind = TransactionGroupKind.internal;
  related_tx = none;
  meta = none;
}

abbrev pub empty : Db
empty = record {
  users =
      record { id = 7; name = "u"; authentication_token = 1; created_at = 0; updated_at = 0 } ∷ [];
  accounts = alice ∷ bob ∷ pool ∷ [];
  transactions = [];
  blockchain_transactions = [];
  pending_blockchain_transactions = [];
  strange_blockchain_transactions = [];
  seen_hashes = [];
  nonces = [];
  now = 1000;
}

-- 5,000,000 were paid in to the account `alice`.
abbrev pub funded : Db
funded = record empty { transactions = transaction_row empty (payment 512 11 10 5_000_000) ∷ [] }

abbrev to_bob : NewTransaction
to_bob = payment 600 10 20 3_000_000

abbrev paid : Db
paid = record funded { transactions = funded.transactions ++ transaction_row funded to_bob ∷ [] }

-- Its row is written, with the balance down to 2,000,000.
test_paid : create_base_tx to_bob alice bob funded ≡ (ok (transaction_row funded to_bob), paid)
unfolding create_base_tx get_accounts_balance balances_of balance_of grouped group_row push_row
    rows_of checked_sub checked_sum checked_sum_from add_to checked_add transaction_row create
    id_taken references_exist
test_paid = refl

create_base_tx-Outcome_example :
    Outcome to_bob alice bob funded (create_base_tx to_bob alice bob funded)
create_base_tx-Outcome_example = create_base_tx-Outcome to_bob alice bob funded

funded-IsSolvent : IsSolvent funded
unfolding transaction_row
funded-IsSolvent = record {
  holds = λ a m c. elim m [ inl e ↦ ground arith | inr m' ↦ ground arith ];
}

create_base_tx-IsSolvent_example : IsSolvent (create_base_tx to_bob alice bob funded).1
create_base_tx-IsSolvent_example =
    create_base_tx-IsSolvent to_bob alice bob funded refl funded-IsSolvent

create_base_tx_sums_example :
    (credited 20 paid.transactions ≡ credited 20 funded.transactions + 3_000_000)
    × (debited 20 paid.transactions ≡ debited 20 funded.transactions + 0)
create_base_tx_sums_example =
    create_base_tx_sums to_bob alice bob funded (transaction_row funded to_bob) paid test_paid 20

small : credited 10 funded.transactions + debited 10 funded.transactions < u128_mod
unfolding transaction_row
small = omega arith

get_accounts_balance-eq-get_account_balance_example : get_accounts_balance 7 (alice ∷ []) funded ≡ (
  one_balance alice (get_account_balance 10 AccountKind.cr funded).0,
  (get_account_balance 10 AccountKind.cr funded).1,
)
get_accounts_balance-eq-get_account_balance_example =
    get_accounts_balance-eq-get_account_balance 7 alice funded small

pg_decimal_to_u128-u128_to_pg_decimal_example :
    pg_decimal_to_u128 (u128_to_pg_decimal 100_020_003) ≡ decoded 100_020_003
pg_decimal_to_u128-u128_to_pg_decimal_example =
    pg_decimal_to_u128-u128_to_pg_decimal 100_020_003 (omega arith)
