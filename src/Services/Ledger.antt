-- ===== src/Services/Ledger.antt =====
-- The rows that a service writes: `create_base_tx` of services/transactions/mod.rs.
pub mod Posting
pub mod Solvency
use transactions.Prelude.{
  ℕ, Bool, ◌&&◌, ◌||◌, not, Option, none, some, List, [], ◌∷◌, ◌==◌, nat_eq, if◌then◌else◌, leb,
}
use transactions.Exec.{
  Exec, raise, ok_or, raise_if, ◌>>=◌, ◌>>◌, invalid_currency, invalid_transaction,
  not_enough_funds, panicked, internal, invalid_input,
}
use transactions.Models.{currency_eq}
use transactions.Models.Records.{Account, AccountWithBalance, Transaction, NewTransaction}
use transactions.Repos.{Db}
use transactions.Repos.Balances.{get_accounts_balance}
use transactions.Repos.Transactions.{create}

-- `accounts[0]`
abbrev pub first : List AccountWithBalance → Option AccountWithBalance
first [] = none
first (x ∷ xs) = some x

unfoldable pub create_base_tx : NewTransaction → Account → Account → Exec Db Transaction
create_base_tx tx dr_account cr_account = do
  raise_if (not (dr_account.currency == cr_account.currency)) invalid_currency internal
  raise_if (not (tx.dr_account_id == dr_account.id) || not (tx.cr_account_id == cr_account.id))
      invalid_transaction internal
  accounts ← get_accounts_balance tx.user_id (dr_account ∷ [])
  account ← ok_or panicked internal (first accounts)
  if leb tx.value account.balance then create tx else raise not_enough_funds invalid_input
