-- ===== src/Repos/Balances.antt =====
-- repos/transactions.rs: the balances of accounts, by SQL sums and by folding over the rows.
pub mod Sums
pub mod Agreement
use transactions.Prelude.{
  ◌-◌, Bool, ◌&&◌, ◌||◌, Option, none, some, List, [], ◌∷◌, ◌++◌, map, ◌==◌, nat_eq, if◌then◌else◌,
  leb, filter, any, sum_by,
}
use mathlib.Core.List.{foldl}
use transactions.Exec.{Exec, pure, ok_or, ◌>>=◌, balance_overflow, panicked, internal}
use transactions.Models.{AccountId, UserId, AccountKind, cr, dr}
use transactions.Models.Records.{Account, AccountWithBalance, Transaction, Amount, Time}
use transactions.Amount.{checked_sub, checked_sum}
use transactions.Repos.{Db, read_numeric}

abbrev pub value_of : Transaction → Amount
value_of t = t.value

abbrev pub credits : AccountId → Transaction → Bool
credits id t = t.cr_account_id == id

abbrev pub debits : AccountId → Transaction → Bool
debits id t = t.dr_account_id == id

-- The difference by the account's kind.
unfoldable pub by_kind : AccountKind → Amount → Amount → Option Amount
unfolding checked_sub
by_kind cr cr_sum dr_sum = checked_sub cr_sum dr_sum
by_kind dr cr_sum dr_sum = checked_sub dr_sum cr_sum

-- `get_account_balance`: two SQL sums, each read as an `Amount`.
unfoldable pub get_account_balance : AccountId → AccountKind → Exec Db Amount
unfolding by_kind
get_account_balance id kind db =
    (do
      cr_sum ← read_numeric (sum_by value_of (filter (credits id) db.transactions))
      dr_sum ← read_numeric (sum_by value_of (filter (debits id) db.transactions))
      ok_or balance_overflow internal (by_kind kind cr_sum dr_sum))
      db

-- The rows that an account of a kind spends by.
abbrev pub spends : AccountId → AccountKind → Transaction → Bool
spends id dr t = credits id t
spends id cr t = debits id t

-- `get_account_spending` over the rows since `now - period`.
unfoldable pub get_account_spending : AccountId → AccountKind → Time → Exec Db Amount
get_account_spending id kind period db =
    let recent = λ (t : Transaction). spends id kind t && leb (db.now - period) t.created_at in
    ok_or balance_overflow internal (checked_sum value_of (filter recent db.transactions)) db

-- The `HashMap` from an account to its rows.
abbrev pub Groups : Type 0
Groups = List (AccountId × List Transaction)

-- `entry(id).and_modify(|txs| txs.push(tx))`: an account that is not there is left out.
unfoldable pub push_row : AccountId → Transaction → Groups → Groups
push_row id t [] = []
push_row id t ((k, rows) ∷ groups) =
    if k == id then (k, rows ++ t ∷ []) ∷ groups else (k, rows) ∷ push_row id t groups

unfoldable pub group_row : Groups → Transaction → Groups
group_row groups t = push_row t.cr_account_id t (push_row t.dr_account_id t groups)

unfoldable pub rows_of : AccountId → Groups → Option (List Transaction)
rows_of id [] = none
rows_of id ((k, rows) ∷ groups) = if k == id then some rows else rows_of id groups

abbrev account_id_of : Account → AccountId
account_id_of a = a.id

unfoldable pub grouped : List Account → List Transaction → Groups
grouped accounts txs =
    let ids = map account_id_of accounts in
    foldl group_row (map (λ (a : Account). (a.id, [])) accounts)
      (filter (λ t. any (λ id. debits id t) ids || any (λ id. credits id t) ids) txs)

-- The rows that raise and that lower a balance, by the account's kind.
abbrev pub raises : Account → Transaction → Bool
raises a t = elim a.kind [ cr ↦ credits a.id t | dr ↦ debits a.id t ]

abbrev pub lowers : Account → Transaction → Bool
lowers a t = elim a.kind [ cr ↦ debits a.id t | dr ↦ credits a.id t ]

-- The closure of the last loop of `get_accounts_balance`.
unfoldable pub balance_of : Groups → Account → Exec Db AccountWithBalance
balance_of groups a = do
  rows ← ok_or panicked internal (rows_of a.id groups)
  plus ← ok_or balance_overflow internal (checked_sum value_of (filter (raises a) rows))
  minus ← ok_or balance_overflow internal (checked_sum value_of (filter (lowers a) rows))
  balance ← ok_or balance_overflow internal (checked_sub plus minus)
  pure (record { account = a; balance = balance })

unfoldable pub balances_of : Groups → List Account → Exec Db (List AccountWithBalance)
balances_of groups [] = pure []
balances_of groups (a ∷ rest) = do
  x ← balance_of groups a
  xs ← balances_of groups rest
  pure (x ∷ xs)

-- `get_accounts_balance`. The user's id is only logged.
unfoldable pub get_accounts_balance : UserId → List Account → Exec Db (List AccountWithBalance)
get_accounts_balance auth_user_id accounts db =
    balances_of (grouped accounts db.transactions) accounts db
