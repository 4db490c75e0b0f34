-- ===== src/Services/Transfers/Views.antt =====
-- What the client is shown of a payment that was made: `convert_transaction`
-- (services/transactions/converter.rs) on the rows that services/transactions/mod.rs writes.
use mathlib.Core.Path.{subst}
use transactions.Prelude.{◌≡◌, refl, ap, ◌∙◌, some, List, [], ◌∷◌, arith, find, nat_eq}
use transactions.Exec.{Result, ok, err, rollback}
use transactions.Float.{Floats}
use transactions.Models.{Currency, ExchangeId, TransactionKind, TransactionGroupKind, done, kind_eq}
use transactions.Models.Records.{
  Amount, Time, Account, Transaction, TransactionOut, CreateTransactionInput,
}
use transactions.Repos.{Db}
use transactions.Repos.Accounts
use transactions.Repos.Accounts.{with_id}
use transactions.Repos.Transactions.{transaction_row}
use transactions.Services.Converter.{convert_group, convert_transaction}
use transactions.Services.Converter.Internal.{
  inside, get_known_account, internal_multi_out, convert_internal_multi_transaction, internal_out,
  convert_internal_transaction,
}
use transactions.Services.Ledger.{create_base_tx}
use transactions.Services.Ledger.Posting.{create_base_tx-Posted}
use transactions.Services.System.{SystemAccounts}
use transactions.Services.Transfers.{
  ExchangeInput, exchange_tx, internal_tx, create_internal_mono_currency_tx,
  create_internal_multi_currency_tx,
}
use transactions.Services.Transfers.Exchanges.{
  Exchanged, ExchangeOutcome, create_internal_multi_currency_tx-ExchangeOutcome,
}

module _ (f : Floats) (input : CreateTransactionInput f.F64)
    (from_account to_account : Account) where
  -- A finished payment between the two accounts, written at a time.
  abbrev pub paid_view : Amount → Amount → Currency → Time → TransactionOut
  paid_view from_value to_value to_currency now = record {
    id = input.id;
    user_id = to_account.user_id;
    from = inside from_account ∷ [];
    to = inside to_account;
    from_value = from_value;
    from_currency = from_account.currency;
    to_value = to_value;
    to_currency = to_currency;
    fee = 0;
    status = done;
    blockchain_tx_ids = [];
    created_at = now;
    updated_at = now;
  }

  -- The rows of an exchange, read back.
  multi_rows_view :
      (a b : Transaction) (db : Db)
      → find (with_id from_account.id) db.accounts ≡ some from_account
      → find (with_id to_account.id) db.accounts ≡ some to_account
      → (a.gid ≡ input.id) × (b.gid ≡ input.id)
      → (a.kind ≡ TransactionKind.multi_from) × (b.kind ≡ TransactionKind.multi_to)
      → a.group_kind ≡ TransactionGroupKind.internal_multi
      → (a.dr_account_id ≡ from_account.id) × (b.cr_account_id ≡ to_account.id)
      → convert_transaction (a ∷ b ∷ []) db
        ≡ (ok (internal_multi_out a b from_account to_account), db)
  unfolding convert_transaction convert_group convert_internal_multi_transaction get_known_account
      Accounts.get
  multi_rows_view a b db h h' g k gk ids = ground arith

  -- The row of a payment in one currency, read back.
  mono_row_view :
      (a : Transaction) (db : Db)
      → find (with_id from_account.id) db.accounts ≡ some from_account
      → find (with_id to_account.id) db.accounts ≡ some to_account
      → a.kind ≡ TransactionKind.internal
      → a.group_kind ≡ TransactionGroupKind.internal
      → (a.dr_account_id ≡ from_account.id) × (a.cr_account_id ≡ to_account.id)
      → convert_transaction (a ∷ []) db ≡ (ok (internal_out a from_account to_account), db)
  unfolding convert_transaction convert_group convert_internal_transaction get_known_account
      Accounts.get
  mono_row_view a db h h' k gk ids = ground arith

  -- A database transaction that succeeds has left what its steps left.
  committed :
      (db : Db) (t : Transaction) (db' : Db)
      → create_internal_mono_currency_tx f input from_account to_account db ≡ (ok t, db')
      → create_base_tx (internal_tx f input from_account to_account) from_account to_account db
        ≡ (ok t, db')
  unfolding create_internal_mono_currency_tx
  committed db t db' e =
      by_result
        (create_base_tx (internal_tx f input from_account to_account) from_account to_account db) e
    where
      by_result : (r : Result Transaction × Db) → rollback db r ≡ (ok t, db') → r ≡ (ok t, db')
      by_result (ok t', d) k = k
      by_result (err c i, d) k = cc k

  -- When a payment in one currency between two accounts of the database succeeds, its row is read
  -- back, without a change, as a finished transaction under the id of the request, without a fee,
  -- from the one account to the other, of the value asked for on both sides.
  pub create_internal_mono_currency_tx_view :
      (db : Db) (t : Transaction) (db' : Db)
      → find (with_id from_account.id) db.accounts ≡ some from_account
      → find (with_id to_account.id) db.accounts ≡ some to_account
      → create_internal_mono_currency_tx f input from_account to_account db ≡ (ok t, db')
      → convert_transaction (t ∷ []) db'
        ≡ (ok (paid_view input.value input.value from_account.currency db.now), db')
  unfolding transaction_row internal_tx internal_out
  create_internal_mono_currency_tx_view db t db' h h' e =
      let p =
        create_base_tx-Posted (internal_tx f input from_account to_account) from_account to_account
          db t db' (committed db t db' e) in
      mono_row_view t db' (ground (arith, p.rows, h)) (ground (arith, p.rows, h'))
        (ap (λ (t : Transaction). t.kind) p.row) (ap (λ (t : Transaction). t.group_kind) p.row)
        (
          ap (λ (t : Transaction). t.dr_account_id) p.row,
          ap (λ (t : Transaction). t.cr_account_id) p.row,
        )
      ∙ ap (λ o. (ok o, db')) (rw p.row refl)

  -- When a payment with an exchange between two accounts of the database succeeds, its two rows are
  -- read back, without a change, as one finished transaction under the id of the request, without a
  -- fee, from the one account to the other, of the values and the currencies exchanged.
  pub create_internal_multi_currency_tx_view :
      (system : SystemAccounts) (exchange : ExchangeInput f.F64 → Result (Unit {0}))
      (exchange_rate : f.F64) (exchange_id : ExchangeId) (db : Db) (rows : List Transaction)
      (db' : Db)
      → find (with_id from_account.id) db.accounts ≡ some from_account
      → find (with_id to_account.id) db.accounts ≡ some to_account
      → create_internal_multi_currency_tx f system exchange input from_account to_account
          exchange_id exchange_rate db
        ≡ (ok rows, db')
      → (x : Exchanged f system exchange input from_account to_account exchange_rate db rows db')
        × (convert_transaction rows db'
            ≡ (ok (paid_view x.from_value x.to_value to_account.currency db.now), db'))
  unfolding transaction_row exchange_tx internal_multi_out
  create_internal_multi_currency_tx_view system exchange exchange_rate exchange_id db rows db' h h'
        e =
      let x =
        subst (ExchangeOutcome f system exchange input from_account to_account exchange_rate db) e (
          create_internal_multi_currency_tx-ExchangeOutcome f system exchange input from_account
            to_account exchange_rate exchange_id db) in
      (x, shown x)
    where
      shown :
          (x : Exchanged f system exchange input from_account to_account exchange_rate db rows db')
          → convert_transaction rows db'
            ≡ (ok (paid_view x.from_value x.to_value to_account.currency db.now), db')
      shown x = rw x.both (
          multi_rows_view x.first x.second db' (ground (arith, x.paid.rows, x.received.rows, h))
            (ground (arith, x.paid.rows, x.received.rows, h'))
            (
              ap (λ (t : Transaction). t.gid) x.paid.row,
              ap (λ (t : Transaction). t.gid) x.received.row,
            )
            (
              ap (λ (t : Transaction). t.kind) x.paid.row,
              ap (λ (t : Transaction). t.kind) x.received.row,
            )
            (ap (λ (t : Transaction). t.group_kind) x.paid.row)
            (
              ap (λ (t : Transaction). t.dr_account_id) x.paid.row,
              ap (λ (t : Transaction). t.cr_account_id) x.received.row,
            )
          ∙ ap (λ o. (ok o, db')) (rw (x.paid.row, x.received.row) refl))
