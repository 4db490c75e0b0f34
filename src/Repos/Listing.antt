-- ===== src/Repos/Listing.antt =====
-- repos/transactions.rs and repos/accounts.rs: the queries that list rows, a page at a time. An offset
-- or a limit below 0 is an error of the database: here they are natural numbers. Rows that `ORDER BY`
-- does not tell apart keep their order.
pub mod Contents
use transactions.Repos.{Db}
use transactions.Exec.{Exec, ok}
use transactions.Models.Records.{Transaction, Time, Account}
use transactions.Models.{
  AccountId, UserId, TransactionId, TransactionGroupKind, group_kind_eq, AccountKind,
  account_kind_eq,
}
use transactions.Prelude.{
  ℕ, Bool, ◌&&◌, ◌||◌, not, List, [], ◌∷◌, if◌then◌else◌, leb, min, ◌==◌, nat_eq, filter, any, take,
  skip, sort_by,
}

abbrev pub page : {A : Type 0} → ℕ → ℕ → List A → List A
page offset limit xs = take limit (skip offset xs)

-- A row of `SELECT gid, min(created_at) AS created_at .. GROUP BY gid`.
pub record GidQuery : Type 0 where
  pub gid : TransactionId
  pub created_at : Time

unfoldable pub add_gid : Transaction → List GidQuery → List GidQuery
add_gid t [] = record { gid = t.gid; created_at = t.created_at } ∷ []
add_gid t (q ∷ qs) =
    let rest = add_gid t qs in
    if q.gid == t.gid
    then record { gid = q.gid; created_at = min q.created_at t.created_at } ∷ qs
    else q ∷ rest

unfoldable pub group_gids : List Transaction → List GidQuery
group_gids [] = []
group_gids (t ∷ ts) = add_gid t (group_gids ts)

-- `ORDER BY created_at DESC`
abbrev pub later_query : GidQuery → GidQuery → Bool
later_query a b = leb b.created_at a.created_at

abbrev pub later_row : Transaction → Transaction → Bool
later_row a b = leb b.created_at a.created_at

-- The two queries: the page of groups with a row that is chosen, then every row of those groups.
unfoldable pub list_groups : (Transaction → Bool) → ℕ → ℕ → Exec Db (List Transaction)
list_groups chosen offset limit db =
    let gids =
      page offset limit (sort_by later_query (group_gids (filter chosen db.transactions))) in
    (
      ok (
          sort_by later_row (
            filter (λ (t : Transaction). any (λ (q : GidQuery). q.gid == t.gid) gids)
              db.transactions)),
      db,
    )

abbrev pub is_approval : Transaction → Bool
is_approval t = t.group_kind == TransactionGroupKind.approval

abbrev touches : AccountId → Transaction → Bool
touches account_id t = t.dr_account_id == account_id || t.cr_account_id == account_id

unfoldable pub list_groups_for_account_skip_approval :
    AccountId → ℕ → ℕ → Exec Db (List Transaction)
list_groups_for_account_skip_approval account_id =
    list_groups (λ t. not (is_approval t) && touches account_id t)

unfoldable pub list_groups_for_user_skip_approval : UserId → ℕ → ℕ → Exec Db (List Transaction)
list_groups_for_user_skip_approval user_id =
    list_groups (λ t. not (is_approval t) && t.user_id == user_id)

-- `ORDER BY id`
unfoldable pub list_for_user : UserId → ℕ → ℕ → Exec Db (List Transaction)
list_for_user user_id offset limit db =
    let rows = filter (λ (t : Transaction). t.user_id == user_id) db.transactions in
    (ok (page offset limit (sort_by (λ a b. leb a.id b.id) rows)), db)

unfoldable pub list_for_account : AccountId → ℕ → ℕ → Exec Db (List Transaction)
list_for_account account_id offset limit db =
    (ok (page offset limit (sort_by later_row (filter (touches account_id) db.transactions))), db)

-- The user's accounts, without the wallets behind them (`list_for_user` of repos/accounts.rs).
unfoldable pub accounts_for_user : UserId → ℕ → ℕ → Exec Db (List Account)
accounts_for_user user_id offset limit db =
    let rows =
      filter (λ (a : Account). a.user_id == user_id && a.kind == AccountKind.cr) db.accounts in
    (ok (page offset limit (sort_by (λ a b. leb a.id b.id) rows)), db)
