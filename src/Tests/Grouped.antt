-- ===== src/Tests/Grouped.antt =====
-- The payments of the small bank, grouped and shown.
use transactions.Repos.Users.{find_user_by_authentication_token}
use transactions.Services.Auth.{authenticate}
use transactions.Repos.Accounts.{with_id}
use transactions.Services.Transfers.{internal_tx}
use transactions.Services.Converter.{convert_transaction, convert_group}
use transactions.Repos.Transactions.{transaction_row}
use transactions.Models.{RecepientType, btc}
use transactions.Services.Converter.Internal.{
  internal_out, convert_internal_transaction, get_known_account,
}
use transactions.Repos.Listing.{
  list_groups_for_account_skip_approval, list_groups_for_user_skip_approval, list_groups,
  group_gids, add_gid,
}
use transactions.Repos.{Db}
use transactions.Services.Groups.Partition.{
  HasDistinctKeys, group_of, rows_with_gid, groups_from_partition, IsOrderOfEntries,
}
use transactions.Models.Records.{TransactionOut, CreateTransactionInput, Transaction}
use transactions.Services.Groups.Pages.{
  ShownRow, ShownToUser, ShownToOwner, get_transactions_for_user-Shown,
  get_account_transactions-Shown, get_transaction-ShownRow,
}
use transactions.Services.Groups.{
  get_transactions_for_user, get_transaction, get_account_transactions, groups_from, show_row,
  show_groups, group_transactions, add_to_group, newest_first, convert_groups,
}
use transactions.Prelude.{ℕ, ◌≡◌, refl, some, none, [], ◌∷◌, List}
use transactions.Exec.{ok}
use transactions.Repos.Transactions
use transactions.Repos.Accounts
use transactions.Tests.{numbers, alice, bob, empty}

abbrev transfer : ℕ → ℕ → CreateTransactionInput ℕ
transfer id value = record {
  id = id;
  user_id = 7;
  from = 10;
  to = 20;
  to_type = RecepientType.account;
  to_currency = btc;
  value = value;
  value_currency = btc;
  fee = 0;
  exchange_id = none;
  exchange_rate = none;
}

abbrev first_row : Transaction
first_row = transaction_row empty (internal_tx numbers (transfer 512 70) alice bob)

abbrev second_row : Transaction
second_row =
    transaction_row (record empty { now = 2000 }) (internal_tx numbers (transfer 1024 30) alice bob)

abbrev history : Db
history = record empty { transactions = first_row ∷ second_row ∷ [] }

abbrev as_they_are : List (ℕ × List Transaction) → List (ℕ × List Transaction)
as_they_are groups = groups

in_order : IsOrderOfEntries as_they_are
in_order res h = (h, λ gid. refl)

abbrev shown : List TransactionOut
shown = internal_out second_row alice bob ∷ internal_out first_row alice bob ∷ []

groups_from_partition_example :
    HasDistinctKeys (groups_from [] history.transactions)
    × ((gid : ℕ)
        → group_of gid (groups_from [] history.transactions)
          ≡ rows_with_gid gid history.transactions)
groups_from_partition_example = groups_from_partition history.transactions

test_shown_to_user : get_transactions_for_user as_they_are 1 7 0 10 history ≡ (ok shown, history)
unfolding get_transactions_for_user list_groups_for_user_skip_approval list_groups group_gids
    add_gid show_groups group_transactions groups_from add_to_group newest_first convert_groups
    convert_transaction convert_group convert_internal_transaction get_known_account Accounts.get
    with_id internal_out internal_tx transaction_row authenticate find_user_by_authentication_token
test_shown_to_user = refl

get_transactions_for_user-Shown_example : (history ≡ history) × ShownToUser 1 7 0 10 history shown
get_transactions_for_user-Shown_example =
    get_transactions_for_user-Shown as_they_are in_order 1 7 0 10 history shown history
      test_shown_to_user

test_shown_to_owner : get_account_transactions as_they_are 1 10 0 10 history ≡ (ok shown, history)
unfolding get_account_transactions list_groups_for_account_skip_approval list_groups group_gids
    add_gid show_groups group_transactions groups_from add_to_group newest_first convert_groups
    convert_transaction convert_group convert_internal_transaction get_known_account Accounts.get
    with_id internal_out internal_tx transaction_row authenticate find_user_by_authentication_token
test_shown_to_owner = refl

get_account_transactions-Shown_example : (history ≡ history) × ShownToOwner 1 10 0 10 history shown
get_account_transactions-Shown_example =
    get_account_transactions-Shown as_they_are in_order 1 10 0 10 history shown history
      test_shown_to_owner

test_shown_row :
    get_transaction 1 512 history ≡ (ok (some (internal_out first_row alice bob)), history)
unfolding get_transaction show_row Transactions.get Transactions.get_by_gid convert_transaction
    convert_group convert_internal_transaction get_known_account Accounts.get with_id internal_out
    internal_tx transaction_row authenticate find_user_by_authentication_token
test_shown_row = refl

get_transaction-ShownRow_example :
    (history ≡ history) × ShownRow 1 512 history (some (internal_out first_row alice bob))
get_transaction-ShownRow_example =
    get_transaction-ShownRow 1 512 history (some (internal_out first_row alice bob)) history
      test_shown_row
