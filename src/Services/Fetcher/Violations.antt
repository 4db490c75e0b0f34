-- ===== src/Services/Fetcher/Violations.antt =====
-- The invariants that a blockchain transaction is held to, and what is kept of one that breaks them
-- (services/rabbit.rs).
use Prim.Native.String.{String}
use transactions.Prelude.{
  not, ◌||◌, Option, none, some, List, [], ◌∷◌, ◌==◌, nat_eq, if◌then◌else◌, length,
}
use transactions.Exec.{Exec, pure, ok_or, ◌>>=◌, ◌>>◌, panicked, internal}
use transactions.Models.{TransactionStatus, AccountKind, Currency, status_eq, BlockchainAddress}
use transactions.Models.Records.{Account, Transaction, BlockchainTransaction, seen_of, strange_of}
use transactions.Repos.{Db}
use transactions.Repos.Accounts
use transactions.Repos.Blockchain.{get_pending}
use transactions.Repos.Seen.{create_seen, create_strange}

pub data InvariantViolation : Type 0 where
  withdrawal_adresses_count withdrawal_adresses_not_found not_existing_account : InvariantViolation
  withdrawal_adresses_internal withdrawal_not_pending_address withdrawal_no_pending_tx :
      InvariantViolation
  withdrawal_value deposit_address_internal : InvariantViolation

-- `Display`
unfoldable pub message_of : InvariantViolation → String
message_of withdrawal_adresses_count =
    "blockchain transaction invariant violation - unexpected number of addresses"
message_of withdrawal_adresses_not_found =
    "blockchain transaction invariant violation - address of transaction not found in our database"
message_of not_existing_account =
    "blockchain transaction invariant violation - transaction referred to non-existing account"
message_of withdrawal_adresses_internal =
    "blockchain transaction invariant violation - withdrawal happened to internal account, which shouldn't be the case"
message_of withdrawal_not_pending_address =
    "blockchain transaction invariant violation - withdrawal transaction should be in pending state when blockchain tx arrives"
message_of withdrawal_no_pending_tx =
    "blockchain transaction invariant violation - withdrawal blockchain tx doesn't have corresponding pending part"
message_of withdrawal_value =
    "blockchain transaction invariant violation - withdrawal blockchain tx value is not equal to pending tx value"
message_of deposit_address_internal =
    "blockchain transaction invariant violation - deposit arrived from internal address"

unfoldable pub handle_violation : InvariantViolation → BlockchainTransaction → Exec Db (Unit {0})
handle_violation violation blockchain_tx = do
  create_strange (strange_of blockchain_tx (message_of violation))
  create_seen (seen_of blockchain_tx)
  pure tt

abbrev internal_address : List Account → Option InvariantViolation
internal_address [] = none
internal_address (a ∷ rest) = some deposit_address_internal

unfoldable pub verify_deposit_tx : BlockchainTransaction → Exec Db (Option InvariantViolation)
verify_deposit_tx blockchain_tx = do
  from_accounts ← Accounts.get_by_addresses blockchain_tx.from blockchain_tx.currency AccountKind.dr
  pure (internal_address from_accounts)

-- `list[0]`
abbrev pub front : {A : Type 0} → List A → Option A
front [] = none
front (a ∷ rest) = some a

-- The address is external: no account of the currency has it.
unfoldable pub verify_external : BlockchainAddress → Currency → Exec Db (Option InvariantViolation)
verify_external to_address currency = do
  dr_account ← Accounts.get_by_address to_address currency AccountKind.dr
  elim dr_account [
    | some a ↦ pure (some withdrawal_adresses_internal)
    | none ↦ do
      cr_account ← Accounts.get_by_address to_address currency AccountKind.cr
      pure (elim cr_account [ some a ↦ some withdrawal_adresses_internal | none ↦ none ])
  ]

-- The account of the row, if it is there, has the address that the transaction came from.
unfoldable pub verify_managed :
    BlockchainAddress
    → BlockchainAddress
    → Currency
    → Option Account
    → Exec Db (Option InvariantViolation)
verify_managed from_address to_address currency none = pure (some not_existing_account)
verify_managed from_address to_address currency (some managed_address) =
    if not (managed_address.address == from_address)
    then pure (some withdrawal_adresses_not_found)
    else verify_external to_address currency

unfoldable pub verify_addresses :
    Transaction → BlockchainTransaction → Exec Db (Option InvariantViolation)
verify_addresses tx blockchain_tx = do
  from_address ← ok_or panicked internal (front blockchain_tx.from)
  to_entry ← ok_or panicked internal (front blockchain_tx.to)
  found ← Accounts.get tx.cr_account_id
  verify_managed from_address to_entry.address blockchain_tx.currency found

unfoldable pub verify_withdrawal_tx :
    Transaction → BlockchainTransaction → Exec Db (Option InvariantViolation)
verify_withdrawal_tx tx blockchain_tx =
    if not (length blockchain_tx.from == 1) || not (length blockchain_tx.to == 1)
    then pure (some withdrawal_adresses_count)
    else if not (tx.status == TransactionStatus.pending)
    then pure (some withdrawal_not_pending_address)
    else (do
      found ← get_pending blockchain_tx.hash
      elim found [
        | none ↦ pure (some withdrawal_no_pending_tx)
        | some p ↦ verify_addresses tx blockchain_tx
      ])
