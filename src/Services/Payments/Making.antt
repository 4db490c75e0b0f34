-- ===== src/Services/Payments/Making.antt =====
-- `create_transaction` of services/transactions/mod.rs: what each kind of payment writes, and that one
-- that fails writes nothing.
use transactions.Services.Blockchain.Implementation.{SameLedger-trans}
use transactions.Services.Withdrawals.Steps.{choose_payers_kept, send_all_leaves}
use transactions.Exec.Reading.{execute_transaction-eq-ok}
use transactions.Services.Withdrawals.{
  Overrides, create_external_mono_currency_tx, unwrap_or, Entry, conclude, choose_payers, send_all,
  write_withdrawal,
}
use transactions.Services.Transfers.Exchanges.{
  ExchangeOutcome, Exchanged, create_internal_multi_currency_tx-ExchangeOutcome,
}
use transactions.Repos.Transactions.{transaction_row}
use transactions.Services.Ledger.{create_base_tx}
use transactions.Services.Withdrawals.Amounts.{
  Withdrawn, create_external_mono_currency_tx-Withdrawn,
}
use transactions.Services.Ledger.Posting.{Posted, create_base_tx-Posted}
use transactions.Services.Payments.{make_payment, no_overrides, as_group}
use transactions.Services.Transfers.{
  ExchangeInput, create_internal_mono_currency_tx, internal_tx, create_internal_multi_currency_tx,
}
use transactions.Models.Records.{CreateTransactionInput, Transaction, Account}
use transactions.Services.Blockchain.{SameLedger, BlockchainService, LeavesLedger}
use transactions.Services.System.{SystemAccounts}
use transactions.Float.{Floats}
use transactions.Repos.{Db}
use mathlib.Core.Path.{subst, sym}
use transactions.Prelude.{◌≡◌, refl, ap, Option, some, none, List, [], ◌∷◌, not, ◌==◌}
use transactions.Exec.{
  ok, err, Result, Exec, >>=-eq-ok, execute_transaction, >>=-ends, raise_if, rollback, continue,
  ErrorContext, pure-eq-ok, pure, ErrorKind, invalid_currency, raise_if_state, as_internal,
  as_internal_state, execute_transaction_keeps,
}
use transactions.Models.{done, Recepient, AccountId, BlockchainAddress, Currency, currency_eq}
use transactions.Services.Classifier.{
  TransactionType, internal_exchange, withdrawal, withdrawal_exchange, Limits,
}

-- After an error the accounts and the rows are as they were.
abbrev pub KeptOnError : {A : Type 0} → Db → Result A × Db → Type 0
KeptOnError db (ok a, d) = Unit
KeptOnError db (err c k, d) = SameLedger db d

rolled_back :
    {A : Type 0} (m : Exec Db A) (db d : Db)
    → SameLedger db d
    → KeptOnError db (execute_transaction m d)
rolled_back {A = A} m db d h = go (m d)
  where
    go : (r : Result A × Db) → KeptOnError db (rollback d r)
    go (ok a, s) = tt
    go (err c k, s) = h

module _ (f : Floats) (system : SystemAccounts) (ids : List AccountId)
    (service : BlockchainService f) (input : CreateTransactionInput f.F64) (from_account : Account)
    (address : BlockchainAddress) (currency : Currency) (overrides : Overrides) where
  conclude-KeptOnError :
      (fees_account : Account) (failure : Option (ErrorContext × ErrorKind)) (es : List Entry)
      (db d : Db)
      → SameLedger db d
      → KeptOnError db (
          conclude f system ids service input from_account address currency overrides fees_account
            failure es d)
  conclude-KeptOnError fees_account none es db d h =
      rolled_back
        (write_withdrawal f system ids service input from_account address currency overrides
          fees_account es)
        db d h
  conclude-KeptOnError fees_account (some (c, k)) [] db d h = h
  conclude-KeptOnError fees_account (some (c, k)) (e ∷ es) db d h =
      rolled_back
        (write_withdrawal f system ids service input from_account address currency overrides
          fees_account (e ∷ es))
        db d h

  -- A withdrawal that fails leaves the accounts and the rows alone, also where something was sent.
  create_external_mono_currency_tx-KeptOnError :
      (l : LeavesLedger f service) (db : Db)
      → KeptOnError db (
          create_external_mono_currency_tx f system ids service input from_account address currency
            overrides db)
  unfolding create_external_mono_currency_tx
  create_external_mono_currency_tx-KeptOnError l db =
      let guard =
        raise_if (not (from_account.currency == currency)) invalid_currency ErrorKind.internal in
      let fee_currency = unwrap_or overrides.fee_currency from_account.currency in
      let ask = service.estimate_withdrawal_fee input.fee fee_currency currency in
      let kept =
        λ (d d' : Db) (same : d' ≡ d) (h : SameLedger db d). subst (SameLedger db) (sym same) h in
      >>=-ends (KeptOnError db) (SameLedger db) guard _ db
        (kept db (guard db).1 (raise_if_state _ _ _ db) (refl, refl)) (λ c k d h. h)
        (λ u d e h.
          >>=-ends (KeptOnError db) (SameLedger db) (as_internal ask) _ d
            (kept (ask d).1 (as_internal ask d).1 (as_internal_state ask d) (
              SameLedger-trans db d (ask d).1 h
                (l.estimate_leaves input.fee fee_currency currency d)))
            (λ c k d2 h2. h2)
            (λ estimate d2 e2 h2.
              let choose =
                choose_payers f system ids service input from_account address currency overrides
                  estimate in
              >>=-ends (KeptOnError db) (SameLedger db) (execute_transaction choose) _ d2
                (execute_transaction_keeps (SameLedger db) choose d2 h2 (λ r d3 e3.
                  kept d2 d3
                    (choose_payers_kept f system ids service input from_account address currency
                      overrides estimate d2 r d3 e3)
                    h2))
                (λ c k d3 h3. h3)
                (λ r d3 e3 h3.
                  let fold =
                    send_all f system ids service input from_account address currency overrides
                      estimate.fee_price input.id r.1 d3 in
                  conclude-KeptOnError r.0 fold.0.failure fold.0.new_db_transactions db fold.1 (
                    SameLedger-trans db d3 fold.1 h3
                      (send_all_leaves f system ids service input from_account address currency
                        overrides l estimate.fee_price input.id r.1 d3).0))))

module _ (f : Floats) (parse_account_id : Recepient → Option AccountId) (limits : Limits)
    (system : SystemAccounts) (ids : List AccountId) (service : BlockchainService f)
    (exchange : ExchangeInput f.F64 → Result (Unit {0})) where
  open f use {F64}

  abbrev pub payment : CreateTransactionInput F64 → TransactionType F64 → Exec Db (List Transaction)
  payment = make_payment f parse_account_id limits system ids service exchange

  -- One row of the value asked for moves it from the account that pays to the one that is paid.
  pub record Moved (input : CreateTransactionInput F64) (from to : Account) (db : Db)
      (rows : List Transaction) (db' : Db) : Type 0 where
    pub row : Transaction
    pub only : rows ≡ row ∷ []
    pub posted : Posted (internal_tx f input from to) from to db row db'
    pub id : row.id ≡ input.id
    pub gid : row.gid ≡ input.id
    pub value : row.value ≡ input.value
    pub debits : row.dr_account_id ≡ from.id
    pub credits : row.cr_account_id ≡ to.id
    pub is_done : row.status ≡ done

  -- What a payment of each kind writes.
  abbrev pub Made :
      CreateTransactionInput F64 → TransactionType F64 → Db → List Transaction → Db → Type 0
  Made input (TransactionType.internal from to) db rows db' = Moved input from to db rows db'
  Made input (withdrawal from address currency) db rows db' =
      Withdrawn f system ids service input from address currency no_overrides db rows db'
  Made input (internal_exchange from to id rate) db rows db' =
      Exchanged f system exchange input from to rate db rows db'
  Made input (withdrawal_exchange from address currency id rate) db rows db' = ⊥

  internal-Moved :
      (input : CreateTransactionInput F64) (from to : Account) (db : Db) (rows : List Transaction)
      (db' : Db)
      → as_group (create_internal_mono_currency_tx f input from to) db ≡ (ok rows, db')
      → Moved input from to db rows db'
  unfolding create_internal_mono_currency_tx internal_tx transaction_row
  internal-Moved input from to db rows db' h =
      let tx = internal_tx f input from to in
      let write = create_base_tx tx from to in
      let (t, d, e, h1) = >>=-eq-ok (execute_transaction write) _ db h in
      let (is_rows, same) = pure-eq-ok h1 in
      let p = create_base_tx-Posted tx from to db t d (execute_transaction-eq-ok write db e) in
      record {
        row = t;
        only = sym is_rows;
        posted = subst (Posted tx from to db t) same p;
        id = ap (λ (x : Transaction). x.id) p.row;
        gid = ap (λ (x : Transaction). x.gid) p.row;
        value = ap (λ (x : Transaction). x.value) p.row;
        debits = ap (λ (x : Transaction). x.dr_account_id) p.row;
        credits = ap (λ (x : Transaction). x.cr_account_id) p.row;
        is_done = ap (λ (x : Transaction). x.status) p.row;
      }

  pub make_payment-Made :
      (l : LeavesLedger f service) (input : CreateTransactionInput F64) (ty : TransactionType F64)
      (db : Db) (rows : List Transaction) (db' : Db)
      → payment input ty db ≡ (ok rows, db')
      → Made input ty db rows db'
  unfolding make_payment
  make_payment-Made l input (TransactionType.internal from to) db rows db' h =
      internal-Moved input from to db rows db' h
  make_payment-Made l input (withdrawal from address currency) db rows db' h =
      create_external_mono_currency_tx-Withdrawn f system ids service input from address currency
        no_overrides l db rows db' h
  make_payment-Made l input (internal_exchange from to id rate) db rows db' h =
      subst (ExchangeOutcome f system exchange input from to rate db) h (
        create_internal_multi_currency_tx-ExchangeOutcome f system exchange input from to rate id
          db)
  make_payment-Made l input (withdrawal_exchange from address currency id rate) db rows db' h = cc h

  -- What did not fail has nothing to keep, and a payment that fails leaves the ledger alone.
  pub make_payment-KeptOnError :
      (l : LeavesLedger f service) (input : CreateTransactionInput F64) (ty : TransactionType F64)
      (db : Db)
      → KeptOnError db (payment input ty db)
  unfolding make_payment create_internal_mono_currency_tx
  make_payment-KeptOnError l input (TransactionType.internal from to) db =
      by_group (execute_transaction write db) (rolled_back write db db (refl, refl))
    where
      write : Exec Db Transaction
      write = create_base_tx (internal_tx f input from to) from to

      by_group :
          (r : Result Transaction × Db)
          → KeptOnError db r
          → KeptOnError db (continue (λ t. pure (t ∷ [])) r)
      by_group (ok t, d) h = tt
      by_group (err c k, d) h = h
  make_payment-KeptOnError l input (withdrawal from address currency) db =
      create_external_mono_currency_tx-KeptOnError f system ids service input from address currency
        no_overrides l db
  make_payment-KeptOnError l input (internal_exchange from to id rate) db =
      by_outcome (create_internal_multi_currency_tx f system exchange input from to id rate db) (
        create_internal_multi_currency_tx-ExchangeOutcome f system exchange input from to rate id
          db)
    where
      by_outcome :
          (r : Result (List Transaction) × Db)
          → ExchangeOutcome f system exchange input from to rate db r
          → KeptOnError db r
      by_outcome (ok rows, d) h = tt
      by_outcome (err c k, d) h = (ap (λ (x : Db). x.accounts) h, ap (λ (x : Db). x.transactions) h)
  make_payment-KeptOnError l input (withdrawal_exchange from address currency id rate) db =
      (refl, refl)
