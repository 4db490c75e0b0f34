-- ===== src/Services/Ledger/Posting.antt =====
-- What `create_base_tx` (services/transactions/mod.rs) does on every branch.
use mathlib.Core.Path.{subst}
use transactions.Prelude.{◌+◌, ◌≤◌, ◌≡◌, false, [], ◌∷◌, ◌++◌, arith, nat_eq}
use transactions.Exec.{Result, ok, err}
use transactions.Models.{currency_eq}
use transactions.Models.Records.{Account, Transaction, NewTransaction}
use transactions.Repos.{Db}
use transactions.Repos.Balances.Sums.{raised, lowered, get_accounts_balance_lem}
use transactions.Repos.Transactions.{create, id_taken, transaction_row}
use transactions.Services.Ledger.{create_base_tx}

-- A row was added, and the account that it debits could pay for it.
pub record Posted (tx : NewTransaction) (dr_account cr_account : Account) (db : Db)
    (t : Transaction) (db' : Db) : Type 0 where
  pub row : t ≡ transaction_row db tx
  pub rows : db' ≡ record db { transactions = db.transactions ++ transaction_row db tx ∷ [] }
  pub one_currency : dr_account.currency ≡ cr_account.currency
  pub debits_account : tx.dr_account_id ≡ dr_account.id
  pub credits_account : tx.cr_account_id ≡ cr_account.id
  pub fresh : id_taken db tx.id ≡ false
  pub covered : tx.value + lowered dr_account db.transactions ≤ raised dr_account db.transactions

abbrev pub Outcome : NewTransaction → Account → Account → Db → Result Transaction × Db → Type 0
Outcome tx dr_account cr_account db (ok t, db') = Posted tx dr_account cr_account db t db'
Outcome tx dr_account cr_account db (err c k, db') = db' ≡ db

-- `create_base_tx` either fails and leaves the database as it is, or adds exactly the row asked for,
-- under an id not used before, between two accounts of one currency, the debited of which held at
-- least the value.
pub create_base_tx-Outcome :
    (tx : NewTransaction) (dr_account cr_account : Account) (db : Db)
    → Outcome tx dr_account cr_account db (create_base_tx tx dr_account cr_account db)
unfolding create_base_tx create
create_base_tx-Outcome tx dr_account cr_account db =
    ground (arith, get_accounts_balance_lem tx.user_id dr_account db)

pub create_base_tx-Posted :
    (tx : NewTransaction) (dr_account cr_account : Account) (db : Db) (t : Transaction) (db' : Db)
    → create_base_tx tx dr_account cr_account db ≡ (ok t, db')
    → Posted tx dr_account cr_account db t db'
create_base_tx-Posted tx dr_account cr_account db t db' h =
    subst (Outcome tx dr_account cr_account db) h
      (create_base_tx-Outcome tx dr_account cr_account db)
