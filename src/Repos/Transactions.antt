-- ===== src/Repos/Transactions.antt =====
-- repos/transactions.rs: inserting, finding and updating rows of the table of transactions.
use transactions.Prelude.{
  Bool, false, ◌&&◌, Option, none, some, List, [], ◌∷◌, ◌++◌, ◌==◌, nat_eq, if◌then◌else◌, filter,
  find, any,
}
use transactions.Exec.{Exec, Result, ok, err, database, internal, invalid_input}
use transactions.Models.{status_eq, TransactionId, BlockchainTransactionId, TransactionStatus}
use transactions.Models.Records.{Time, Transaction, NewTransaction, Json}
use transactions.Repos.{Db}
use transactions.Repos.Accounts.{with_id}

-- The column `meta` is `'{}'` by default.
abbrev empty_object : Json
empty_object = 0

unfoldable pub transaction_row : Db → NewTransaction → Transaction
transaction_row db t = record {
  id = t.id;
  user_id = t.user_id;
  dr_account_id = t.dr_account_id;
  cr_account_id = t.cr_account_id;
  currency = t.currency;
  value = t.value;
  status = t.status;
  blockchain_tx_id = t.blockchain_tx_id;
  created_at = db.now;
  updated_at = db.now;
  gid = t.gid;
  kind = t.kind;
  group_kind = t.group_kind;
  related_tx = t.related_tx;
  meta = elim t.meta [ none ↦ empty_object | some m ↦ m ];
}

-- The foreign keys of the table: the user and both accounts exist.
unfoldable pub references_exist : Db → NewTransaction → Bool
unfolding with_id
references_exist db t =
    any (λ u. u.id == t.user_id) db.users
    && any (with_id t.dr_account_id) db.accounts
    && any (with_id t.cr_account_id) db.accounts

unfoldable pub id_taken : Db → TransactionId → Bool
id_taken db id = any (λ (t : Transaction). t.id == id) db.transactions

-- `create`: the primary key is unique, and the foreign keys hold.
unfoldable pub create : NewTransaction → Exec Db Transaction
create payload db =
    if id_taken db payload.id
    then (err database invalid_input, db)
    else if references_exist db payload
    then (
      ok (transaction_row db payload),
      record db { transactions = db.transactions ++ transaction_row db payload ∷ [] },
    )
    else (err database internal, db)

unfoldable pub get : TransactionId → Exec Db (Option Transaction)
get id db = (ok (find (λ (t : Transaction). t.id == id) db.transactions), db)

unfoldable pub get_by_gid : TransactionId → Exec Db (List Transaction)
get_by_gid gid db = (ok (filter (λ (t : Transaction). t.gid == gid) db.transactions), db)

unfoldable pub has_blockchain_tx : BlockchainTransactionId → Transaction → Bool
has_blockchain_tx hash t = elim t.blockchain_tx_id [ none ↦ false | some h ↦ h == hash ]

unfoldable pub get_by_blockchain_tx : BlockchainTransactionId → Exec Db (Option Transaction)
unfolding has_blockchain_tx
get_by_blockchain_tx hash db = (ok (find (has_blockchain_tx hash) db.transactions), db)

-- The trigger on `updated_at` sets it where a row has changed.
unfoldable pub with_status : Time → TransactionStatus → Transaction → Transaction
with_status now status t = record t {
  status = status;
  updated_at = if t.status == status then t.updated_at else now;
}

unfoldable pub set_status :
    Time → BlockchainTransactionId → TransactionStatus → List Transaction → List Transaction
unfolding has_blockchain_tx with_status
set_status now hash status [] = []
set_status now hash status (t ∷ rest) =
    (if has_blockchain_tx hash t then with_status now status t else t)
    ∷ set_status now hash status rest

abbrev first_or_missing : Option Transaction → Db → Db → Result Transaction × Db
first_or_missing none db' db = (err database internal, db)
first_or_missing (some t) db' db = (ok t, db')

-- `update_status` writes every row of the hash and returns one; no row is an error.
unfoldable pub update_status : BlockchainTransactionId → TransactionStatus → Exec Db Transaction
unfolding set_status has_blockchain_tx
update_status hash status db =
    let rows = set_status db.now hash status db.transactions in
    first_or_missing (find (has_blockchain_tx hash) rows) (record db { transactions = rows }) db
