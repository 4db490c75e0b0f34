-- ===== src/Services/Accounts.antt =====
-- services/accounts.rs: accounts on behalf of the user of a token.
pub mod Ownership
pub mod Opening
use Prim.Native.String.{String}
use transactions.Prelude.{ℕ, Bool, true, ◌&&◌, not, Option, none, some, ◌==◌, nat_eq, leb}
use transactions.Exec.{
  Exec, Result, pure, raise_if, ok_or, execute_transaction, as_internal, ◌>>=◌, ◌>>◌, invalid_token,
  unauthorized, no_account, not_found, validation, invalid_input, panicked, internal,
}
use transactions.Models.{AuthenticationToken, AccountId, BlockchainAddress}
use transactions.Models.Records.{
  User, Account, UpdateAccount, CreateAccount, AccountWithBalance, new_account, create_debit,
}
use transactions.Repos.{Db}
use transactions.Repos.Accounts
use transactions.Repos.Balances.{get_accounts_balance}
use transactions.Services.Auth.{authenticate}
use transactions.Services.Ledger.{first}
use mathlib.Core.List.{[], ◌∷◌}

-- The length of a name as the crate validator counts it.
module _ (length : String → ℕ) where
  -- `length(min = "1", max = "40")`
  unfoldable pub valid_name : String → Bool
  valid_name name = leb 1 (length name) && leb (length name) 40

  unfoldable pub valid_update : UpdateAccount → Bool
  valid_update payload = elim payload.name [ none ↦ true | some name ↦ valid_name name ]

  -- The keys client is a parameter, and the id generated for the debit account an argument.
  module _ (create_account_address : CreateAccount → Result BlockchainAddress) where
    abbrev ask_address : CreateAccount → Exec Db BlockchainAddress
    ask_address input db = (create_account_address input, db)

    -- The database transaction: the user's account and the wallet behind it.
    unfoldable pub create_accounts : AccountId → CreateAccount → BlockchainAddress → Exec Db Account
    create_accounts debit_id input address = do
      users_account ← as_internal (Accounts.create (new_account input address))
      as_internal (Accounts.create (create_debit debit_id (new_account input address)))
      pure users_account

    unfoldable pub create_account :
        AuthenticationToken → AccountId → CreateAccount → Exec Db Account
    create_account token debit_id input = do
      user ← authenticate token
      raise_if (not (input.user_id == user.id)) invalid_token unauthorized
      raise_if (not (valid_name input.name)) validation invalid_input
      address ← ask_address input
      execute_transaction (create_accounts debit_id input address)

  -- The database transaction: the update is undone where the account is another user's.
  unfoldable pub update_own : AccountId → UpdateAccount → User → Exec Db Account
  update_own account_id payload user = do
    account ← Accounts.update account_id payload
    raise_if (not (account.user_id == user.id)) invalid_token unauthorized
    pure account

  unfoldable pub update_account : AuthenticationToken → AccountId → UpdateAccount → Exec Db Account
  update_account token account_id payload = do
    raise_if (not (valid_update payload)) validation invalid_input
    user ← authenticate token
    execute_transaction (update_own account_id payload user)

-- `if let Some(ref account) = account`
unfoldable pub check_owner : User → Option Account → Exec Db (Option Account)
check_owner user none = pure none
check_owner user (some account) = do
  raise_if (not (account.user_id == user.id)) invalid_token unauthorized
  pure (some account)

unfoldable pub get_account : AuthenticationToken → AccountId → Exec Db (Option Account)
get_account token account_id = do
  user ← authenticate token
  account ← Accounts.get account_id
  check_owner user account

unfoldable pub delete_own : AccountId → User → Exec Db Account
delete_own account_id user = do
  account ← Accounts.delete account_id
  raise_if (not (account.user_id == user.id)) invalid_token unauthorized
  pure account

unfoldable pub delete_account : AuthenticationToken → AccountId → Exec Db Account
delete_account token account_id = do
  user ← authenticate token
  execute_transaction (delete_own account_id user)

-- `get_account_balance` of services/transactions/mod.rs.
unfoldable pub get_account_balance : AuthenticationToken → AccountId → Exec Db AccountWithBalance
get_account_balance token account_id = do
  user ← authenticate token
  found ← Accounts.get account_id
  account ← ok_or no_account not_found found
  raise_if (not (account.user_id == user.id)) invalid_token unauthorized
  accounts ← get_accounts_balance user.id (account ∷ [])
  ok_or panicked internal (first accounts)
