-- ===== src/Repos/Accounts.antt =====
-- repos/accounts.rs: the queries on the table of accounts.
use Prim.Native.String.{String}
use text.Mathlib.Text.{◌==◌ as str_eq}
use transactions.Prelude.{
  Bool, true, false, ◌&&◌, ◌||◌, not, Option, none, some, List, [], ◌∷◌, ◌++◌, ◌==◌, nat_eq,
  if◌then◌else◌, filter, find, any,
}
use transactions.Exec.{Exec, Result, ok, err, database, internal, invalid_input}
use transactions.Models.{
  AccountId, BlockchainAddress, Currency, AccountKind, currency_eq, account_kind_eq, DailyLimitType,
}
use transactions.Models.Records.{Time, Account, NewAccount, UpdateAccount}
use transactions.Repos.{Db}

unfoldable pub with_id : AccountId → Account → Bool
with_id id a = a.id == id

-- A column that is null in the insert takes its default.
abbrev or_default : Option DailyLimitType → DailyLimitType
or_default none = DailyLimitType.default_limit
or_default (some t) = t

unfoldable pub account_row : Db → NewAccount → Account
account_row db a = record {
  id = a.id;
  user_id = a.user_id;
  currency = a.currency;
  address = a.address;
  name = a.name;
  kind = a.kind;
  created_at = db.now;
  updated_at = db.now;
  erc20_approved = false;
  daily_limit_type = or_default a.daily_limit_type;
}

-- `create`: the primary key is unique, and the user exists.
unfoldable pub create : NewAccount → Exec Db Account
unfolding account_row with_id
create payload db =
    if any (with_id payload.id) db.accounts
    then (err database invalid_input, db)
    else if any (λ u. u.id == payload.user_id) db.users
    then (
      ok (account_row db payload),
      record db { accounts = db.accounts ++ account_row db payload ∷ [] },
    )
    else (err database internal, db)

unfoldable pub get : AccountId → Exec Db (Option Account)
unfolding with_id
get id db = (ok (find (with_id id) db.accounts), db)

-- Whether a changeset changes a row.
abbrev other_name : Option String → Option String → Bool
other_name none old = false
other_name (some n) none = true
other_name (some n) (some m) = not (str_eq n m)

abbrev other_flag : Option Bool → Bool → Bool
other_flag none old = false
other_flag (some true) old = not old
other_flag (some false) old = old

-- The columns that a changeset names; the trigger sets `updated_at` where the row has changed.
unfoldable pub apply_changes : Time → UpdateAccount → Account → Account
apply_changes now payload a = record a {
  name = elim payload.name [ none ↦ a.name | some n ↦ some n ];
  erc20_approved = elim payload.erc20_approved [ none ↦ a.erc20_approved | some b ↦ b ];
  updated_at =
      if other_name payload.name a.name || other_flag payload.erc20_approved a.erc20_approved
      then now
      else a.updated_at;
}

unfoldable pub update_rows : Time → AccountId → UpdateAccount → List Account → List Account
unfolding with_id apply_changes
update_rows now id payload [] = []
update_rows now id payload (a ∷ rest) =
    (if with_id id a then apply_changes now payload a else a) ∷ update_rows now id payload rest

abbrev pub found : Option Account → Db → Db → Result Account × Db
found none db' db = (err database internal, db)
found (some a) db' db = (ok a, db')

abbrev pub has_changes : UpdateAccount → Bool
has_changes payload = elim payload.name [
  | none ↦ elim payload.erc20_approved [ none ↦ false | some b ↦ true ]
  | some n ↦ true
]

-- An `UPDATE` with no column, and one that meets no row, are errors.
unfoldable pub update : AccountId → UpdateAccount → Exec Db Account
unfolding update_rows with_id
update id payload db =
    let rows = update_rows db.now id payload db.accounts in
    if has_changes payload
    then found (find (with_id id) rows) (record db { accounts = rows }) db
    else (err database internal, db)

-- `delete` returns the row that it removes. A transaction that refers to it forbids that.
unfoldable pub delete : AccountId → Exec Db Account
unfolding with_id
delete id db =
    if any (λ t. t.dr_account_id == id || t.cr_account_id == id) db.transactions
    then (err database internal, db)
    else found (find (with_id id) db.accounts)
        (record db { accounts = filter (λ a. not (with_id id a)) db.accounts }) db

unfoldable pub get_by_address :
    BlockchainAddress → Currency → AccountKind → Exec Db (Option Account)
get_by_address address currency kind db = (
  ok (find (λ a. a.address == address && a.kind == kind && a.currency == currency) db.accounts),
  db,
)

unfoldable pub filter_by_address : BlockchainAddress → Exec Db (List Account)
filter_by_address address db = (ok (filter (λ a. a.address == address) db.accounts), db)

unfoldable pub get_by_addresses :
    List BlockchainAddress → Currency → AccountKind → Exec Db (List Account)
get_by_addresses addresses currency kind db = (
  ok (
      filter (λ a. any (λ x. a.address == x) addresses && a.kind == kind && a.currency == currency)
        db.accounts),
  db,
)
