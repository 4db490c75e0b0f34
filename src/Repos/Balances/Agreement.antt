-- ===== src/Repos/Balances/Agreement.antt =====
-- The two balance queries of repos/transactions.rs compared.
use transactions.Prelude.{◌+◌, ◌<◌, ◌≡◌, List, [], ◌∷◌, arith}
use transactions.Exec.{Result, ok, err}
use transactions.Models.{UserId}
use transactions.Models.Records.{Account, AccountWithBalance, Amount}
use transactions.Amount.{u128_mod}
use transactions.Repos.{Db}
use transactions.Repos.Balances.{get_account_balance, get_accounts_balance}
use transactions.Repos.Balances.Sums.{credited, debited, circled-le, get_accounts_balance_lem}

-- The answer to one account's balance, as the list that `get_accounts_balance` returns.
abbrev pub one_balance : Account → Result Amount → Result (List AccountWithBalance)
one_balance a (ok b) = ok (record { account = a; balance = b } ∷ [])
one_balance a (err c k) = err c k

-- For an account whose rows' credits and debits together stay below 2 ^ 128, `get_accounts_balance`
-- by grouping the rows and `get_account_balance` by SQL sums return the same balance or the same
-- error, and both leave the database as it is.
pub get_accounts_balance-eq-get_account_balance :
    (u : UserId) (a : Account) (db : Db)
    → credited a.id db.transactions + debited a.id db.transactions < u128_mod
    → get_accounts_balance u (a ∷ []) db ≡ (
      one_balance a (get_account_balance a.id a.kind db).0,
      (get_account_balance a.id a.kind db).1,
    )
unfolding get_account_balance
get_accounts_balance-eq-get_account_balance u a db h =
    ground (arith, get_accounts_balance_lem u a db, circled-le a.id db.transactions)
