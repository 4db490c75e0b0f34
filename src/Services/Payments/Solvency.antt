-- ===== src/Services/Payments/Solvency.antt =====
-- `create_transaction` of services/transactions/mod.rs: what a payment of any kind leaves behind.
use transactions.Services.Withdrawals.Solvency.{create_external_mono_currency_tx-IsSolvent}
use transactions.Services.Converter.Reading.{convert_transaction-ReadsOnly}
use transactions.Services.Ledger.{create_base_tx}
use transactions.Services.Converter.{convert_transaction}
use transactions.Repos.Accounts.{with_id}
use transactions.Services.Classifier.Soundness.{
  IsClassified, validate_and_classify_transaction-IsClassified,
}
use transactions.Services.Ledger.Solvency.{IsSolvent, create_base_tx-IsSolvent}
use transactions.Services.Transfers.Exchanges.{
  IsLiquidity, create_internal_multi_currency_tx-IsSolvent,
}
use transactions.Repos.{Db}
use transactions.Services.Payments.{
  make_payment, create_transaction, show_payment, classify, no_overrides, as_group,
}
use transactions.Services.Transfers.{ExchangeInput, create_internal_mono_currency_tx, internal_tx}
use transactions.Services.Blockchain.{BlockchainService, LeavesLedger}
use transactions.Services.System.{SystemAccounts}
use transactions.Services.Classifier.{Limits, validate_and_classify_transaction}
use transactions.Exec.Reading.{
  ReadsOnly, >>=-ReadsOnly, >>=-keeps_read, execute_transaction-eq-ok,
  execute_transaction-ReadsOnly,
}
use transactions.Models.Records.{Transaction, CreateTransactionInput, Account, User}
use transactions.Repos.Users.{find_user_by_authentication_token}
use transactions.Models.{Recepient, AuthenticationToken, AccountId, Currency, UserId, AccountKind}
use transactions.Services.Auth.{authenticate}
use transactions.Float.{Floats}
use transactions.Exec.{
  Exec, Result, execute_transaction, execute_transaction_keeps, >>=-keeps, ok_or-eq-ok,
  invalid_token, unauthorized,
}
use mathlib.Core.Path.{subst, sym}
use transactions.Exec.{ok}
use transactions.Services.Classifier.{
  TransactionType, internal_exchange, withdrawal, withdrawal_exchange,
}
use transactions.Prelude.{◌≡◌, refl, Option, some, arith, List, find, ◌==◌, ◌==◌, nat_eq}

as_group_state : {S : Type 0} (m : Exec S Transaction) (s : S) → (as_group m s).1 ≡ (m s).1
as_group_state m s = >>=-keeps (λ d. d ≡ (m s).1) m _ s refl (λ t d e h. h)

pub authenticate-ReadsOnly : (token : AuthenticationToken) → ReadsOnly (authenticate token)
unfolding authenticate find_user_by_authentication_token
authenticate-ReadsOnly token d = ground arith

pub authenticate-eq-ok :
    (token : AuthenticationToken) (db : Db) (user : User) (db' : Db)
    → authenticate token db ≡ (ok user, db')
    → find (λ (u : User). u.authentication_token == token) db.users ≡ some user
unfolding authenticate find_user_by_authentication_token
authenticate-eq-ok token db user db' h =
    (ok_or-eq-ok invalid_token unauthorized
      (find (λ (u : User). u.authentication_token == token) db.users) db user db' h).0

module _ (f : Floats) (parse_account_id : Recepient → Option AccountId) (limits : Limits)
    (system : SystemAccounts) (ids : List AccountId) (service : BlockchainService f)
    (exchange : ExchangeInput f.F64 → Result (Unit {0})) where
  open f use {F64}

  -- Every account that the system holds for an exchange is a credit account.
  abbrev pub HasCreditLiquidity : Db → Type 0
  HasCreditLiquidity db =
      (currency : Currency) (a : Account)
      → IsLiquidity system db currency a
      → a.kind ≡ AccountKind.cr

  -- The account of an id, if there is one, is a credit account.
  abbrev pub NamesCredit : Db → AccountId → Type 0
  NamesCredit db id =
      (a : Account) → find (with_id id) db.accounts ≡ some a → a.kind ≡ AccountKind.cr

  abbrev payment : CreateTransactionInput F64 → TransactionType F64 → Exec Db (List Transaction)
  payment = make_payment f parse_account_id limits system ids service exchange

  make_payment-IsSolvent :
      (l : LeavesLedger f service) (token_user : UserId) (input : CreateTransactionInput F64)
      (ty : TransactionType F64) (db : Db)
      → IsClassified f parse_account_id limits (record input { user_id = token_user }) db ty
      → NamesCredit db input.from
      → HasCreditLiquidity db
      → IsSolvent db
      → IsSolvent (payment input ty db).1
  unfolding make_payment create_internal_mono_currency_tx
  make_payment-IsSolvent l u input (TransactionType.internal from to) db q c h v =
      let tx = internal_tx f input from to in
      let write = create_base_tx tx from to in
      subst IsSolvent (sym (as_group_state (execute_transaction write) db)) (
        execute_transaction_keeps IsSolvent write db v (λ a d e.
          subst (λ (r : Result Transaction × Db). IsSolvent r.1) e
            (create_base_tx-IsSolvent tx from to db (c from q.0.found) v)))
  make_payment-IsSolvent l u input (withdrawal from address currency) db q c h v =
      create_external_mono_currency_tx-IsSolvent f system ids service input from address currency
        no_overrides l db (c from q.0.found) v
  make_payment-IsSolvent l u input (internal_exchange from to id rate) db q c h v =
      create_internal_multi_currency_tx-IsSolvent f system exchange input from to rate id db
        (c from q.0.found) (h to.currency) v
  make_payment-IsSolvent l u input (withdrawal_exchange from address currency id rate) db q c h v =
      v

  pub show_payment_kept :
      (ty : TransactionType F64) (rows : List Transaction)
      → ReadsOnly (show_payment f parse_account_id limits system ids service exchange ty rows)
  unfolding show_payment
  show_payment_kept ty rows =
      >>=-ReadsOnly (execute_transaction (convert_transaction rows)) _
        (execute_transaction-ReadsOnly (convert_transaction rows)
          (convert_transaction-ReadsOnly rows))
        (λ tx d. refl)

  pub classify-IsClassified :
      (input : CreateTransactionInput F64) (user : User) (db : Db) (ty : TransactionType F64)
      (db' : Db)
      → classify f parse_account_id limits system ids service exchange input user db ≡ (ok ty, db')
      → (db' ≡ db)
        × IsClassified f parse_account_id limits (record input { user_id = user.id }) db ty
  unfolding classify
  classify-IsClassified input user db ty db' h =
      validate_and_classify_transaction-IsClassified f parse_account_id limits
        (record input { user_id = user.id }) db ty db'
        (execute_transaction-eq-ok
          (validate_and_classify_transaction f parse_account_id limits
            (record input { user_id = user.id }))
          db h)

  pub classify-ReadsOnly :
      (input : CreateTransactionInput F64) (user : User)
      → ReadsOnly (classify f parse_account_id limits system ids service exchange input user)
  unfolding classify
  classify-ReadsOnly input user db =
      let ask =
        validate_and_classify_transaction f parse_account_id limits
          (record input { user_id = user.id }) in
      execute_transaction_keeps (λ d. d ≡ db) ask db refl
        (λ ty d e.
          (validate_and_classify_transaction-IsClassified f parse_account_id limits
            (record input { user_id = user.id }) db ty d e).0)

  -- From a database where no credit account is overdrawn, a payment of any kind, asked for from a
  -- credit account, leads to such a database, whether it is refused, made, stopped half-way or made
  -- and not shown, given that the service of the blockchains leaves the ledger alone and that the
  -- accounts that the system holds for exchanges are credit accounts.
  pub create_transaction-IsSolvent :
      (l : LeavesLedger f service) (token : AuthenticationToken)
      (input : CreateTransactionInput F64) (db : Db)
      → NamesCredit db input.from
      → HasCreditLiquidity db
      → IsSolvent db
      → IsSolvent
          (create_transaction f parse_account_id limits system ids service exchange token input
            db).1
  unfolding create_transaction
  create_transaction-IsSolvent l token input db c h v =
      >>=-keeps_read IsSolvent (authenticate token) _ db (authenticate-ReadsOnly token) v (λ user e.
        >>=-keeps_read IsSolvent
          (classify f parse_account_id limits system ids service exchange input user) _ db
          (classify-ReadsOnly input user) v
          (λ ty e1.
            let (same, k) = classify-IsClassified input user db ty db e1 in
            >>=-keeps IsSolvent (payment input ty) _ db
              (make_payment-IsSolvent l user.id input ty db k c h v)
              (λ rows d' e2 w'. subst IsSolvent (sym (show_payment_kept ty rows d')) w')))
