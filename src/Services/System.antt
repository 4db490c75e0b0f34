-- ===== src/Services/System.antt =====
-- services/system.rs: the accounts of the system, by the ids of `config.system`.
use transactions.Exec.{Exec, ok_or, as_internal, ◌>>=◌, no_account, not_found}
use transactions.Models.{AccountId, Currency, btc, eth, stq, derive_system_dr_id}
use transactions.Models.Records.{Account}
use transactions.Repos.{Db}
use transactions.Repos.Accounts

-- The part of `config.system` that names accounts.
pub record SystemAccounts : Type 0 where
  pub btc_transfer_account_id : AccountId
  pub eth_transfer_account_id : AccountId
  pub stq_transfer_account_id : AccountId
  pub btc_liquidity_account_id : AccountId
  pub eth_liquidity_account_id : AccountId
  pub stq_liquidity_account_id : AccountId
  pub btc_fees_account_id : AccountId
  pub eth_fees_account_id : AccountId
  pub stq_fees_account_id : AccountId

module _ (system : SystemAccounts) where
  unfoldable pub transfer_account_id : Currency → AccountId
  transfer_account_id btc = system.btc_transfer_account_id
  transfer_account_id eth = system.eth_transfer_account_id
  transfer_account_id stq = system.stq_transfer_account_id

  unfoldable pub liquidity_account_id : Currency → AccountId
  liquidity_account_id btc = system.btc_liquidity_account_id
  liquidity_account_id eth = system.eth_liquidity_account_id
  liquidity_account_id stq = system.stq_liquidity_account_id

  unfoldable pub fees_account_id : Currency → AccountId
  fees_account_id btc = system.btc_fees_account_id
  fees_account_id eth = system.eth_fees_account_id
  fees_account_id stq = system.stq_fees_account_id

  -- `accounts_repo.get(id)`, which must be there.
  unfoldable pub get_system_account : AccountId → Exec Db Account
  get_system_account id = do found ← as_internal (Accounts.get id); ok_or no_account not_found found

  unfoldable pub get_system_transfer_account : Currency → Exec Db Account
  get_system_transfer_account currency = get_system_account (transfer_account_id currency)

  unfoldable pub get_system_liquidity_account : Currency → Exec Db Account
  get_system_liquidity_account currency = get_system_account (liquidity_account_id currency)

  unfoldable pub get_system_fees_account : Currency → Exec Db Account
  get_system_fees_account currency = get_system_account (fees_account_id currency)

  -- The debit account of the fees, by the id derived from the credit account's.
  unfoldable pub get_system_fees_account_dr : Currency → Exec Db Account
  get_system_fees_account_dr currency =
      get_system_account (derive_system_dr_id (fees_account_id currency))
