-- ===== src/Services/Ledger/Solvency.antt =====
-- No credit account is overdrawn by `create_base_tx` (services/transactions/mod.rs), and the two
-- balances that it changes.
use mathlib.Core.Path.{subst, sym}
use transactions.Prelude.{
  ◌+◌, ◌≤◌, ◌≡◌, ap, ◌∙◌, List, [], ◌∷◌, ◌++◌, arith, ◌==◌, nat_eq, if◌then◌else◌, filter,
  filter-append, sum_by, sum_by-append, Among,
}
use transactions.Exec.{Result, ok, err}
use transactions.Models.{AccountId, AccountKind}
use transactions.Models.Records.{Account, Transaction, NewTransaction}
use transactions.Repos.{Db}
use transactions.Repos.Balances.{value_of, credits, debits}
use transactions.Repos.Balances.Sums.{credited, debited}
use transactions.Repos.Transactions.{transaction_row}
use transactions.Services.Ledger.{create_base_tx}
use transactions.Services.Ledger.Posting.{
  Posted, Outcome, create_base_tx-Outcome, create_base_tx-Posted,
}

-- One more row in the sums.
pub credited-append :
    (id : AccountId) (txs : List Transaction) (t : Transaction)
    → credited id (txs ++ t ∷ []) ≡ credited id txs + (if t.cr_account_id == id then t.value else 0)
credited-append id txs t =
    ap (sum_by value_of) (filter-append (credits id) txs (t ∷ []))
    ∙ ground
        (arith, sum_by-append value_of (filter (credits id) txs) (filter (credits id) (t ∷ [])))

pub debited-append :
    (id : AccountId) (txs : List Transaction) (t : Transaction)
    → debited id (txs ++ t ∷ []) ≡ debited id txs + (if t.dr_account_id == id then t.value else 0)
debited-append id txs t =
    ap (sum_by value_of) (filter-append (debits id) txs (t ∷ []))
    ∙ ground (arith, sum_by-append value_of (filter (debits id) txs) (filter (debits id) (t ∷ [])))

-- No account of a user has paid out more than was paid in.
pub record IsSolvent (db : Db) : Type 0 where
  pub holds :
      (a : Account)
      → Among a db.accounts
      → a.kind ≡ AccountKind.cr
      → debited a.id db.transactions ≤ credited a.id db.transactions

covered_after :
    (tx : NewTransaction) (dr_account cr_account : Account) (db : Db) (t : Transaction) (db' : Db)
    → Posted tx dr_account cr_account db t db'
    → dr_account.kind ≡ AccountKind.cr
    → (id : AccountId) → debited id db.transactions ≤ credited id db.transactions
    → debited id db'.transactions ≤ credited id db'.transactions
unfolding transaction_row
covered_after tx dr_account cr_account db t db' p k id h = ground (
  arith,
  p.rows,
  p.covered,
  p.debits_account,
  credited-append id db.transactions (transaction_row db tx),
  debited-append id db.transactions (transaction_row db tx),
)

pub posted-IsSolvent :
    (tx : NewTransaction) (dr_account cr_account : Account) (db : Db) (t : Transaction) (db' : Db)
    → Posted tx dr_account cr_account db t db'
    → dr_account.kind ≡ AccountKind.cr
    → IsSolvent db
    → IsSolvent db'
posted-IsSolvent tx dr_account cr_account db t db' p k s = record {
  holds = λ a m c.
      covered_after tx dr_account cr_account db t db' p k a.id
        (s.holds a (subst (Among a) (ap (λ (d : Db). d.accounts) p.rows) m) c);
}

kept :
    (tx : NewTransaction) (dr_account cr_account : Account) (db : Db) (r : Result Transaction × Db)
    → Outcome tx dr_account cr_account db r
    → dr_account.kind ≡ AccountKind.cr
    → IsSolvent db
    → IsSolvent r.1
kept tx dr_account cr_account db (ok t, db') p k s =
    posted-IsSolvent tx dr_account cr_account db t db' p k s
kept tx dr_account cr_account db (err c k', db') p k s = subst IsSolvent (sym p) s

-- From a database where no credit account is overdrawn, `create_base_tx` that debits a credit account
-- leads to such a database, whether it succeeds or fails.
pub create_base_tx-IsSolvent :
    (tx : NewTransaction) (dr_account cr_account : Account) (db : Db)
    → dr_account.kind ≡ AccountKind.cr
    → IsSolvent db
    → IsSolvent (create_base_tx tx dr_account cr_account db).1
create_base_tx-IsSolvent tx dr_account cr_account db k s =
    kept tx dr_account cr_account db (create_base_tx tx dr_account cr_account db)
      (create_base_tx-Outcome tx dr_account cr_account db) k s

pub posted_sums :
    (tx : NewTransaction) (dr_account cr_account : Account) (db : Db) (t : Transaction) (db' : Db)
    → Posted tx dr_account cr_account db t db'
    → (id : AccountId)
    → (credited id db'.transactions
        ≡ credited id db.transactions + (if cr_account.id == id then tx.value else 0))
      × (debited id db'.transactions
          ≡ debited id db.transactions + (if dr_account.id == id then tx.value else 0))
posted_sums tx dr_account cr_account db t db' p id =
    unfold transaction_row in
    ground (
      arith,
      p.rows,
      p.debits_account,
      p.credits_account,
      credited-append id db.transactions (transaction_row db tx),
      debited-append id db.transactions (transaction_row db tx),
    )

-- When `create_base_tx` succeeds, what it adds to an account's credits and to an account's debits is
-- the value where the account is the one credited, or debited, and nothing where it is another.
pub create_base_tx_sums :
    (tx : NewTransaction) (dr_account cr_account : Account) (db : Db) (t : Transaction) (db' : Db)
    → create_base_tx tx dr_account cr_account db ≡ (ok t, db')
    → (id : AccountId)
    → (credited id db'.transactions
        ≡ credited id db.transactions + (if cr_account.id == id then tx.value else 0))
      × (debited id db'.transactions
          ≡ debited id db.transactions + (if dr_account.id == id then tx.value else 0))
create_base_tx_sums tx dr_account cr_account db t db' h id =
    posted_sums tx dr_account cr_account db t db'
      (create_base_tx-Posted tx dr_account cr_account db t db' h) id
