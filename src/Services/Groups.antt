-- ===== src/Services/Groups.antt =====
-- services/transactions/mod.rs: the rows of a payment, read as one.
pub mod Order
pub mod Partition
pub mod Pages
use transactions.Repos.Listing.{
  list_groups_for_account_skip_approval, list_groups_for_user_skip_approval,
}
use transactions.Services.Converter.{convert_transaction}
use transactions.Services.Auth.{authenticate}
use transactions.Repos.{Db}
use transactions.Models.{AuthenticationToken, TransactionId, AccountId, UserId}
use transactions.Models.Records.{TransactionOut, Transaction, User}
use transactions.Prelude.{
  ℕ, Bool, not, Option, none, some, List, [], ◌∷◌, ◌++◌, if◌then◌else◌, leb, ◌==◌, nat_eq, reverse,
  sort_by,
}
use transactions.Exec.{
  ◌>>=◌, ◌>>◌, Exec, pure, ok_or, raise_if, no_account, invalid_token, unauthorized, not_found,
}
use transactions.Repos.Transactions
use transactions.Repos.Accounts

-- `res.entry(tx.gid).and_modify(..).or_insert(..)`
unfoldable pub add_to_group :
    Transaction → List (TransactionId × List Transaction) → List (TransactionId × List Transaction)
add_to_group tx [] = (tx.gid, tx ∷ []) ∷ []
add_to_group tx ((gid, txs) ∷ rest) =
    let others = add_to_group tx rest in
    if gid == tx.gid then (gid, txs ++ tx ∷ []) ∷ rest else (gid, txs) ∷ others

-- The loop over the rows.
unfoldable pub groups_from :
    List (TransactionId × List Transaction)
    → List Transaction
    → List (TransactionId × List Transaction)
groups_from res [] = res
groups_from res (tx ∷ txs) = groups_from (add_to_group tx res) txs

abbrev pub values : List (TransactionId × List Transaction) → List (List Transaction)
values [] = []
values ((gid, txs) ∷ rest) = txs ∷ values rest

-- `res.sort_by_key(|tx| tx.created_at)`, then `.rev()`
unfoldable pub newest_first : List TransactionOut → List TransactionOut
newest_first res = reverse (sort_by (λ a b. leb a.created_at b.created_at) res)

-- `.map(convert_transaction).collect()`, which stops at the first error.
unfoldable pub convert_groups : List (List Transaction) → Exec Db (List TransactionOut)
convert_groups [] = pure []
convert_groups (tx_group ∷ rest) = do
  tx ← convert_transaction tx_group
  txs ← convert_groups rest
  pure (tx ∷ txs)

-- The payment of a row, if there is one, for its user.
unfoldable pub show_row : User → Option Transaction → Exec Db (Option TransactionOut)
show_row user none = pure none
show_row user (some transaction) = do
  raise_if (not (transaction.user_id == user.id)) invalid_token unauthorized
  tx_group ← Transactions.get_by_gid transaction.gid
  tx_out ← convert_transaction tx_group
  pure (some tx_out)

unfoldable pub get_transaction :
    AuthenticationToken → TransactionId → Exec Db (Option TransactionOut)
get_transaction token transaction_id = do
  user ← authenticate token
  transaction ← Transactions.get transaction_id
  show_row user transaction

-- The order in which a `HashMap` gives its entries is a parameter.
module _
    (hash_order : List (TransactionId × List Transaction)
      → List (TransactionId × List Transaction)) where
  unfoldable pub group_transactions : List Transaction → List (List Transaction)
  group_transactions transactions = values (hash_order (groups_from [] transactions))

  unfoldable pub show_groups : List Transaction → Exec Db (List TransactionOut)
  show_groups txs = do res ← convert_groups (group_transactions txs); pure (newest_first res)

  unfoldable pub get_transactions_for_user :
      AuthenticationToken → UserId → ℕ → ℕ → Exec Db (List TransactionOut)
  get_transactions_for_user token user_id offset limit = do
    user ← authenticate token
    raise_if (not (user_id == user.id)) invalid_token unauthorized
    txs ← list_groups_for_user_skip_approval user_id offset limit
    show_groups txs

  unfoldable pub get_account_transactions :
      AuthenticationToken → AccountId → ℕ → ℕ → Exec Db (List TransactionOut)
  get_account_transactions token account_id offset limit = do
    user ← authenticate token
    found ← Accounts.get account_id
    account ← ok_or no_account not_found found
    raise_if (not (account.user_id == user.id)) invalid_token unauthorized
    txs ← list_groups_for_account_skip_approval account_id offset limit
    show_groups txs
