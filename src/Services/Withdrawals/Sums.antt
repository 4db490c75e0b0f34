-- ===== src/Services/Withdrawals/Sums.antt =====
-- The sums of the steps of a withdrawal (services/transactions/mod.rs).
use mathlib.Core.Path.{sym}
use transactions.Prelude.{
  ℕ, suc, ◌+◌, ◌≡◌, refl, ap, ◌∙◌, not, Option, none, some, List, [], ◌∷◌, arith, sum_by, length,
  ◌==◌, nat_eq, if◌then◌else◌,
}
use transactions.Exec.{
  Exec, Result, ok, err, raise_if, rollback, execute_transaction, as_internal, >>=-eq-ok,
  pure-eq-ok, ErrorContext, ErrorKind, invalid_value,
}
use transactions.Float.{Floats}
use transactions.Models.{AccountId, BlockchainAddress, Currency, currency_eq}
use transactions.Models.Records.{
  Account, AccountWithBalance, Amount, Transaction, CreateTransactionInput,
}
use transactions.Repos.{Db}
use transactions.Repos.Balances.Sums.{debited}
use transactions.Repos.Withdrawal.{get_accounts_for_withdrawal}
use transactions.Repos.Withdrawal.Take.{balance_value}
use transactions.Repos.Withdrawal.Choice.{get_accounts_for_withdrawal_sound}
use transactions.Services.Blockchain.{BlockchainService, FeeEstimate}
use transactions.Services.Ledger.{create_base_tx}
use transactions.Services.Ledger.Posting.{create_base_tx-Posted}
use transactions.Services.Ledger.Solvency.{posted_sums}
use transactions.Services.System.{SystemAccounts, get_system_fees_account}
use transactions.Services.Withdrawals.{
  Entry, Overrides, check_payers, choose_payers, fee_tx, write_entries, write_withdrawal, conclude,
}
use transactions.Services.Withdrawals.Steps.{AllFrom}

abbrev pub entry_value : Entry → Amount
entry_value e = e.tx.value

-- Two rows that debit one account, added up.
add_rows :
    (from a id : AccountId) (x y z v w : ℕ)
    → a ≡ from
    → y ≡ x + (if a == id then v else 0)
    → z ≡ y + (if from == id then w else 0)
    → z ≡ x + (if from == id then v + w else 0)
add_rows from a id x y z v w e h k = ground arith

no_rows : (from id : AccountId) (x : ℕ) → x ≡ x + (if from == id then 0 else 0)
no_rows from id x = ground arith

-- A database transaction that succeeds has left what its steps left.
pub committed :
    {A : Type 0} (m : Exec Db A) (db : Db) (a : A) (db' : Db)
    → execute_transaction m db ≡ (ok a, db')
    → m db ≡ (ok a, db')
committed {A = A} m db a db' h = by_result (m db) h
  where
    by_result : (r : Result A × Db) → rollback db r ≡ (ok a, db') → r ≡ (ok a, db')
    by_result (ok x, d) k = k
    by_result (err c i, d) k = cc k

module _ (f : Floats) (system : SystemAccounts) (ids : List AccountId)
    (service : BlockchainService f) (input : CreateTransactionInput f.F64) (from_account : Account)
    (address : BlockchainAddress) (currency : Currency) (overrides : Overrides) where
  pub choose_payers_sum :
      (estimate : FeeEstimate f.F64) (db : Db) (r : Account × List AccountWithBalance) (db' : Db)
      → choose_payers f system ids service input from_account address currency overrides estimate db
        ≡ (ok r, db')
      → sum_by balance_value r.1 ≡ input.value
  unfolding choose_payers
  choose_payers_sum estimate db r db' h =
      let (payers, d, e, h1) =
        >>=-eq-ok (get_accounts_for_withdrawal ids input.value currency estimate.gross_fee) _ db
          h in
      let sound =
        get_accounts_for_withdrawal_sound ids currency db input.value estimate.gross_fee payers d
          e in
      let (total, d2, e2, h2) = >>=-eq-ok (check_payers 0 payers) _ d h1 in
      let (u, d3, e3, h3) =
        >>=-eq-ok (raise_if (not (total == input.value)) invalid_value ErrorKind.internal) _ d2
          h2 in
      let (fees, d4, e4, h4) =
        >>=-eq-ok (as_internal (get_system_fees_account system currency)) _ d3 h3 in
      ap (λ (x : Account × List AccountWithBalance). sum_by balance_value x.1)
        (sym (pure-eq-ok h4).0)
      ∙ sound.3

  write_entries_sums :
      (es : List Entry) (db : Db) (rows : List Transaction) (db' : Db)
      → write_entries f system ids service input from_account address currency overrides es db
        ≡ (ok rows, db')
      → AllFrom f system ids service input from_account address currency overrides es
      → (id : AccountId)
      → (debited id db'.transactions
          ≡ debited id db.transactions
            + (if from_account.id == id then sum_by entry_value es else 0))
        × (length rows ≡ length es)
  unfolding write_entries
  write_entries_sums [] db rows db' h a id = (
    ap (λ (d : Db). debited id d.transactions) (sym (pure-eq-ok h).1)
        ∙ no_rows from_account.id id _,
    ap length (sym (pure-eq-ok h).0),
  )
  write_entries_sums (e ∷ es) db rows db' h (a, others) id =
      let (t, d, h1, h2) = >>=-eq-ok (create_base_tx e.tx e.dr_account e.cr_account) _ db h in
      let (later, d', h3, h4) =
        >>=-eq-ok
          (write_entries f system ids service input from_account address currency overrides es) _ d
          h2 in
      let (sums, count) = write_entries_sums es d later d' h3 others id in
      let one =
        (posted_sums e.tx e.dr_account e.cr_account db t d
          (create_base_tx-Posted e.tx e.dr_account e.cr_account db t d h1) id).1 in
      (
        ap (λ (d : Db). debited id d.transactions) (sym (pure-eq-ok h4).1)
            ∙ add_rows from_account.id e.dr_account.id id (debited id db.transactions)
                (debited id d.transactions) (debited id d'.transactions) e.tx.value
                (sum_by entry_value es) (ap (λ (x : Account). x.id) a) one sums,
        ap length (sym (pure-eq-ok h4).0) ∙ ap suc count,
      )

  -- The second database transaction: the fee and the rows of what was sent.
  write_withdrawal_sums :
      (fees_account : Account) (es : List Entry) (db : Db) (rows : List Transaction) (db' : Db)
      → write_withdrawal f system ids service input from_account address currency overrides
          fees_account es db
        ≡ (ok rows, db')
      → AllFrom f system ids service input from_account address currency overrides es
      → (id : AccountId)
      → (debited id db'.transactions
          ≡ debited id db.transactions
            + (if from_account.id == id then input.fee + sum_by entry_value es else 0))
        × (length rows ≡ suc (length es))
  unfolding write_withdrawal fee_tx
  write_withdrawal_sums fees_account es db rows db' h a id =
      let tx =
        fee_tx f system ids service input from_account address currency overrides fees_account in
      let (t, d, h1, h2) = >>=-eq-ok (create_base_tx tx from_account fees_account) _ db h in
      let (later, d', h3, h4) =
        >>=-eq-ok
          (write_entries f system ids service input from_account address currency overrides es) _ d
          h2 in
      let (sums, count) = write_entries_sums es d later d' h3 a id in
      let one =
        (posted_sums tx from_account fees_account db t d
          (create_base_tx-Posted tx from_account fees_account db t d h1) id).1 in
      (
        ap (λ (d : Db). debited id d.transactions) (sym (pure-eq-ok h4).1)
            ∙ add_rows from_account.id from_account.id id (debited id db.transactions)
                (debited id d.transactions) (debited id d'.transactions) input.fee
                (sum_by entry_value es) refl one sums,
        ap length (sym (pure-eq-ok h4).0) ∙ ap suc count,
      )

  pub conclude_sums :
      (fees_account : Account) (failure : Option (ErrorContext × ErrorKind)) (es : List Entry)
      (db : Db) (rows : List Transaction) (db' : Db)
      → conclude f system ids service input from_account address currency overrides fees_account
          failure es db
        ≡ (ok rows, db')
      → AllFrom f system ids service input from_account address currency overrides es
      → (id : AccountId)
      → (debited id db'.transactions
          ≡ debited id db.transactions
            + (if from_account.id == id then input.fee + sum_by entry_value es else 0))
        × (length rows ≡ suc (length es))
  conclude_sums fees_account none es db rows db' h a id =
      write_withdrawal_sums fees_account es db rows db'
        (committed
          (write_withdrawal f system ids service input from_account address currency overrides
            fees_account es)
          db rows db' h)
        a id
  conclude_sums fees_account (some (c, k)) [] db rows db' h a id = cc h
  conclude_sums fees_account (some (c, k)) (e ∷ es) db rows db' h a id =
      write_withdrawal_sums fees_account (e ∷ es) db rows db'
        (committed
          (write_withdrawal f system ids service input from_account address currency overrides
            fees_account (e ∷ es))
          db rows db' h)
        a id
