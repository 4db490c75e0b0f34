-- ===== src/Services/Payments/Answers.antt =====
-- `create_transaction` of services/transactions/mod.rs: what its answer means.
use transactions.Services.Payments.Making.{
  Made, KeptOnError, make_payment-Made, make_payment-KeptOnError,
}
use transactions.Services.Auth.{authenticate}
use transactions.Exec.Reading.{execute_transaction-eq-ok}
use transactions.Services.Classifier.Soundness.{IsClassified}
use transactions.Services.Converter.{convert_transaction}
use transactions.Services.Payments.Solvency.{
  show_payment_kept, authenticate-ReadsOnly, classify-ReadsOnly, authenticate-eq-ok,
  classify-IsClassified,
}
use transactions.Repos.{Db}
use transactions.Models.Records.{CreateTransactionInput, Transaction, TransactionOut, User}
use transactions.Services.Payments.{
  show_payment, make_payment, to_publish, create_transaction, classify,
}
use transactions.Services.Transfers.{ExchangeInput}
use transactions.Services.Blockchain.{BlockchainService, SameLedger, LeavesLedger}
use transactions.Services.System.{SystemAccounts}
use transactions.Models.{Recepient, AccountId, AuthenticationToken}
use transactions.Float.{Floats}
use mathlib.Core.Path.{subst, sym}
use transactions.Prelude.{
  none, ◌≡◌, ◌⊎◌, inl, inr, refl, Option, some, find, List, ◌==◌, ◌==◌, nat_eq,
}
use transactions.Exec.{
  ok, err, ◌>>=◌, Result, Exec, >>=-eq-ok, execute_transaction, >>=-ends, continue,
}
use transactions.Services.Classifier.{
  internal_exchange, withdrawal, withdrawal_exchange, TransactionType, Limits,
}

module _ (f : Floats) (parse_account_id : Recepient → Option AccountId) (limits : Limits)
    (system : SystemAccounts) (ids : List AccountId) (service : BlockchainService f)
    (exchange : ExchangeInput f.F64 → Result (Unit {0})) where
  open f use {F64}

  -- A payment that was let through: by whom, and as what.
  pub record Admitted (token : AuthenticationToken) (input : CreateTransactionInput F64) (db : Db)
      : Type 0 where
    pub user : User
    pub authenticated : find (λ (u : User). u.authentication_token == token) db.users ≡ some user
    pub tx_type : TransactionType F64
    pub classified :
        IsClassified f parse_account_id limits (record input { user_id = user.id }) db tx_type

  -- Payments between accounts in one currency, and no others, are published.
  abbrev pub Told : TransactionType F64 → TransactionOut → Option TransactionOut → Type 0
  Told (TransactionType.internal from to) tx published = published ≡ some tx
  Told (withdrawal from address currency) tx published = published ≡ none
  Told (internal_exchange from to id rate) tx published = published ≡ none
  Told (withdrawal_exchange from address currency id rate) tx published = published ≡ none

  abbrev IsMade :
      CreateTransactionInput F64 → TransactionType F64 → Db → List Transaction → Db → Type 0
  IsMade = Made f parse_account_id limits system ids service exchange

  -- The answer shows the rows that were written.
  pub record Paid (token : AuthenticationToken) (input : CreateTransactionInput F64) (db : Db)
      (tx : TransactionOut) (published : Option TransactionOut) (db' : Db) : Type 0 where
    pub admitted : Admitted token input db
    pub tx_group : List Transaction
    pub written : IsMade input admitted.tx_type db tx_group db'
    pub shown : convert_transaction tx_group db' ≡ (ok tx, db')
    pub told : Told admitted.tx_type tx published

  abbrev pub Answered :
      AuthenticationToken
      → CreateTransactionInput F64
      → Db
      → Result (TransactionOut × Option TransactionOut) × Db
      → Type 0
  Answered token input db (ok (tx, published), db') = Paid token input db tx published db'
  Answered token input db (err c k, db') =
      SameLedger db db'
      ⊎ ((a : Admitted token input db) × (rows : List Transaction) × IsMade input a.tx_type db rows
            db')

  to_publish-Told : (ty : TransactionType F64) (tx : TransactionOut) → Told ty tx (to_publish ty tx)
  unfolding to_publish
  to_publish-Told (TransactionType.internal from to) tx = refl
  to_publish-Told (withdrawal from address currency) tx = refl
  to_publish-Told (internal_exchange from to id rate) tx = refl
  to_publish-Told (withdrawal_exchange from address currency id rate) tx = refl

  shown_lem :
      (ty : TransactionType F64) (rows : List Transaction) (d : Db) (tx : TransactionOut)
      (p : Option TransactionOut) (d' : Db)
      → show_payment f parse_account_id limits system ids service exchange ty rows d
        ≡ (ok (tx, p), d')
      → (convert_transaction rows d ≡ (ok tx, d')) × (p ≡ to_publish ty tx)
  unfolding show_payment
  shown_lem ty rows d tx p d' h =
      let (t, d1, e, h1) = >>=-eq-ok (execute_transaction (convert_transaction rows)) _ d h in
      let e' = execute_transaction-eq-ok (convert_transaction rows) d e in (cc (e', h1), cc h1)

  show_payment-Answered :
      (token : AuthenticationToken) (input : CreateTransactionInput F64) (db : Db)
      (a : Admitted token input db) (rows : List Transaction) (d : Db)
      → IsMade input a.tx_type db rows d
      → (r : Result (TransactionOut × Option TransactionOut) × Db)
      → show_payment f parse_account_id limits system ids service exchange a.tx_type rows d ≡ r
      → Answered token input db r
  show_payment-Answered token input db a rows d e (ok (tx, p), d') h =
      let (shown, told) = shown_lem a.tx_type rows d tx p d' h in
      let same : d ≡ d' = cc (
        show_payment_kept f parse_account_id limits system ids service exchange a.tx_type rows d,
        h,
      ) in
      record {
        admitted = a;
        tx_group = rows;
        written = subst (IsMade input a.tx_type db rows) same e;
        shown = cc (shown, same);
        told = subst (Told a.tx_type tx) (sym told) (to_publish-Told a.tx_type tx);
      }
  show_payment-Answered token input db a rows d e (err c k, d') h =
      let same : d ≡ d' = cc (
        show_payment_kept f parse_account_id limits system ids service exchange a.tx_type rows d,
        h,
      ) in
      inr (a, rows, subst (IsMade input a.tx_type db rows) same e)

  abbrev pay : CreateTransactionInput F64 → TransactionType F64 → Exec Db (List Transaction)
  pay = make_payment f parse_account_id limits system ids service exchange

  payment-Answered :
      (l : LeavesLedger f service) (token : AuthenticationToken)
      (input : CreateTransactionInput F64) (db : Db) (a : Admitted token input db)
      → Answered token input db (
          (pay input a.tx_type
              >>= show_payment f parse_account_id limits system ids service exchange a.tx_type)
            db)
  payment-Answered l token input db a =
      by_payment (pay input a.tx_type db)
        (λ rows d e.
          make_payment-Made f parse_account_id limits system ids service exchange l input a.tx_type
            db rows d e)
        (make_payment-KeptOnError f parse_account_id limits system ids service exchange l input
          a.tx_type db)
    where
      by_payment :
          (r : Result (List Transaction) × Db)
          → ((rows : List Transaction) (d : Db)
              → r ≡ (ok rows, d)
              → IsMade input a.tx_type db rows d)
          → KeptOnError db r
          → Answered token input db (
              continue
                (show_payment f parse_account_id limits system ids service exchange a.tx_type)
                r)
      by_payment (ok rows, d) m k =
          show_payment-Answered token input db a rows d (m rows d refl)
            (show_payment f parse_account_id limits system ids service exchange a.tx_type rows d)
            refl
      by_payment (err c i, d) m k = inl k

  -- When a payment is answered, it was let through by the classifier for the user of the token, and the
  -- rows of its kind are written: one row of the value asked for, from the one account to the other;
  -- the rows of a withdrawal, one for each transaction sent; or the two rows of an exchange, at the
  -- rate of the input. The answer is what the converter shows of the rows, and the publisher is given
  -- it for a payment between accounts in one currency, and nothing for any other. When a payment fails,
  -- either no account and no row has changed, or it was let through, its rows are written in full, and
  -- only the answer could not be made. This holds for a blockchain service that leaves the ledger alone.
  pub create_transaction-Answered :
      (l : LeavesLedger f service) (token : AuthenticationToken)
      (input : CreateTransactionInput F64) (db : Db)
      → Answered token input db
          (create_transaction f parse_account_id limits system ids service exchange token input db)
  unfolding create_transaction
  create_transaction-Answered l token input db =
      let ask = classify f parse_account_id limits system ids service exchange input in
      let go = λ (ty : TransactionType F64).
        pay input ty >>= show_payment f parse_account_id limits system ids service exchange ty in
      let unchanged = λ (d : Db) (e : d ≡ db). subst (SameLedger db) (sym e) (refl, refl) in
      >>=-ends (Answered token input db) (λ d. d ≡ db) (authenticate token)
        (λ user. ask user >>= go) db (authenticate-ReadsOnly token db)
        (λ c k d e. inl (unchanged d e))
        (λ user d e same.
          subst (λ x. Answered token input db ((ask user >>= go) x)) (sym same)
            (>>=-ends (Answered token input db) (λ d. d ≡ db) (ask user) go db
              (classify-ReadsOnly f parse_account_id limits system ids service exchange input user
                db)
              (λ c k d e. inl (unchanged d e))
              (λ ty d1 e1 same1.
                subst (λ x. Answered token input db (go ty x)) (sym same1)
                  (payment-Answered l token input db (record {
                    user = user;
                    authenticated = authenticate-eq-ok token db user d e;
                    tx_type = ty;
                    classified =
                        (classify-IsClassified f parse_account_id limits system ids service exchange
                          input user db ty d1 e1).1;
                  })))))
