-- ===== src/Tests/Withdrawals.antt =====
-- A withdrawal from the system's account of the small bank.
use transactions.Prelude.{◌⊎◌, arith, ℕ, ◌≡◌, refl, List, [], ◌∷◌, All, sum_by, ◌≤◌, ◌<◌}
use transactions.Exec.{ok, err, insufficient_withdrawal_funds, internal}
use transactions.Models.{btc}
use transactions.Models.Records.{Account, AccountWithBalance, Amount}
use transactions.Amount.{checked_sub}
use transactions.Repos.Transactions.{transaction_row}
use transactions.Repos.Withdrawal.{
  minimum_balance, fee_of, add_sum, group_sums, read_sums, or_zero, subtract_sum, subtract_sums,
  remove_sum, remove_pending, sum_of, is_key, addresses_of, eligible, with_balances, above,
  res_accounts, available, take_accounts, get_accounts_for_withdrawal,
}
use transactions.Repos.Withdrawal.Take.{CoveredBy, available_total, balance_value}
use transactions.Repos.Withdrawal.Payers.{IsPayer, payers, dr_of, cr_of}
use transactions.Repos.Withdrawal.Sums.{keyed}
use transactions.Amount.{u128_mod}
use transactions.Repos.Withdrawal.Choice.{
  get_accounts_for_withdrawal_sound, get_accounts_for_withdrawal_complete,
}
use transactions.Tests.{pool, funded}

abbrev one_payment : List AccountWithBalance
one_payment = record { account = pool; balance = 1_000_000 } ∷ []

test_withdrawal :
    get_accounts_for_withdrawal [] 1_000_000 btc 1000 funded ≡ (ok one_payment, funded)
unfolding get_accounts_for_withdrawal res_accounts minimum_balance fee_of add_sum group_sums
    read_sums or_zero subtract_sum subtract_sums remove_sum remove_pending sum_of is_key
    addresses_of eligible with_balances above available take_accounts checked_sub transaction_row
test_withdrawal = refl

get_accounts_for_withdrawal_sound_example :
    (offers : List (Account × Amount)) × All
      (λ (e : Account × Amount). IsPayer [] btc funded e.0 e.1)
      offers
    × CoveredBy (fee_of btc 1000) one_payment offers
    × (sum_by balance_value one_payment ≡ 1_000_000)
    × (funded ≡ funded)
get_accounts_for_withdrawal_sound_example =
    get_accounts_for_withdrawal_sound [] btc funded 1_000_000 1000 one_payment funded
      test_withdrawal

debits_fit : (id : ℕ) → keyed dr_of btc id funded.transactions < u128_mod
unfolding transaction_row
debits_fit id = ground arith

credits_fit : (id : ℕ) → keyed cr_of btc id funded.transactions < u128_mod
unfolding transaction_row
credits_fit id = ground arith

get_accounts_for_withdrawal_complete_example :
    ((1_000_000 ≤ available_total (fee_of btc 1000) (payers [] btc funded))
      × (taken : List AccountWithBalance) × (get_accounts_for_withdrawal [] 1_000_000 btc 1000
            funded
          ≡ (ok taken, funded)))
    ⊎ ((available_total (fee_of btc 1000) (payers [] btc funded) < 1_000_000)
        × (get_accounts_for_withdrawal [] 1_000_000 btc 1000 funded
            ≡ (err insufficient_withdrawal_funds internal, funded)))
get_accounts_for_withdrawal_complete_example =
    get_accounts_for_withdrawal_complete [] btc funded 1_000_000 1000 debits_fit credits_fit
