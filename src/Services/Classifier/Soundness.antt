-- ===== src/Services/Classifier/Soundness.antt =====
-- What a classified transaction satisfies (services/transactions/classifier.rs).
use mathlib.Core.Path.{subst}
use transactions.Prelude.{
  inl, inr, Bool-cases, ◌≡◌, ◌≢◌, refl, true, false, Option, none, some, List, [], ◌∷◌, arith, ◌==◌,
  nat_eq, filter,
}
use transactions.Exec.{Result, ok, err, >>=-eq-ok_kept}
use transactions.Float.{Floats}
use transactions.Models.{
  Recepient, AccountId, ExchangeId, currency_eq, account_kind_eq, recepient_type_eq, RecepientType,
}
use transactions.Models.Records.{Account, CreateTransactionInput}
use transactions.Repos.{Db}
use transactions.Repos.Accounts
use transactions.Repos.Accounts.{with_id}
use transactions.Services.Classifier.{
  TransactionType, internal_exchange, withdrawal, withdrawal_exchange, Limits, validate,
  exchange_of, check_account_daily_limit, get_from_account, get_to_account, get_transaction_type,
  withdrawal_type, valid_rate, valid_exchange, validate_and_classify_transaction,
}
use transactions.Services.Classifier.Steps.{
  IsSource, IsTarget, TargetOf, get_from_account_lem, check_account_daily_limit_lem,
  get_to_account_lem,
}

module _ (f : Floats) (parse_account_id : Recepient → Option AccountId) (limits : Limits) where
  open f use {F64, literal, lt}

  -- An address that is outside of the system.
  abbrev pub IsOutside : CreateTransactionInput F64 → Db → Type 0
  IsOutside input db =
      (input.to_type ≡ RecepientType.address)
      × (filter (λ a. a.address == input.to) db.accounts ≡ [])

  -- The rate that the payment was made with, which is positive.
  abbrev pub IsRate : CreateTransactionInput F64 → ExchangeId → F64 → Type 0
  IsRate input id rate =
      (input.exchange_id ≡ some id)
      × (input.exchange_rate ≡ some rate)
      × (lt (literal 0 0) rate ≡ true)

  abbrev pub IsClassified : CreateTransactionInput F64 → Db → TransactionType F64 → Type 0
  IsClassified input db (TransactionType.internal from to) =
      IsSource f parse_account_id limits input db from
      × IsTarget f parse_account_id limits input db to
      × (from.currency ≡ to.currency)
  IsClassified input db (internal_exchange from to id rate) =
      IsSource f parse_account_id limits input db from
      × IsTarget f parse_account_id limits input db to
      × (from.currency ≢ to.currency)
      × IsRate input id rate
  IsClassified input db (withdrawal from address currency) =
      IsSource f parse_account_id limits input db from
      × IsOutside input db
      × (address ≡ input.to)
      × (currency ≡ input.to_currency)
      × (from.currency ≡ currency)
  IsClassified input db (withdrawal_exchange from address currency id rate) =
      IsSource f parse_account_id limits input db from
      × IsOutside input db
      × (address ≡ input.to)
      × (currency ≡ input.to_currency)
      × (from.currency ≢ currency)
      × IsRate input id rate

  -- A rate that is there is positive.
  abbrev IsValidRate : CreateTransactionInput F64 → Type 0
  IsValidRate input = (rate : F64) → input.exchange_rate ≡ some rate → lt (literal 0 0) rate ≡ true

  validate_lem :
      (input : CreateTransactionInput F64) (db : Db) (u : Unit) (db' : Db)
      → validate f parse_account_id limits input db ≡ (ok u, db')
      → IsValidRate input × (db' ≡ db)
  unfolding validate valid_rate valid_exchange
  validate_lem input db u db' h = (λ rate e. ground arith, ground arith)

  exchange_of_lem :
      (input : CreateTransactionInput F64) (db : Db) (id : ExchangeId) (rate : F64) (db' : Db)
      → exchange_of f parse_account_id limits input db ≡ (ok (id, rate), db')
      → IsValidRate input
      → (db' ≡ db) × IsRate input id rate
  unfolding exchange_of
  exchange_of_lem input db id rate db' h v =
      let r : input.exchange_rate ≡ some rate = ground arith in
      (ground arith, (ground arith, r, v rate r))

  between_accounts :
      (input : CreateTransactionInput F64) (db : Db) (from to : Account) (ty : TransactionType F64)
      (db' : Db)
      → get_transaction_type f parse_account_id limits input from (some to) db ≡ (ok ty, db')
      → IsValidRate input
      → IsSource f parse_account_id limits input db from
      → IsTarget f parse_account_id limits input db to
      → (db' ≡ db) × IsClassified input db ty
  unfolding get_transaction_type
  between_accounts input db from to ty db' h v s t =
      elim (Bool-cases (from.currency == to.currency)) [
        | inl same ↦ (
          ground arith,
          let e : TransactionType.internal from to ≡ ty = ground arith in
              subst (IsClassified input db) e (s, t, ground arith),
        )
        | inr other ↦ by_exchange other (exchange_of f parse_account_id limits input db) refl
      ]
    where
      by_exchange :
          (from.currency == to.currency) ≡ false
          → (r : Result (ExchangeId × F64) × Db)
          → exchange_of f parse_account_id limits input db ≡ r
          → (db' ≡ db) × IsClassified input db ty
      by_exchange other (ok (id, rate), db'') k =
          let (same, r) = exchange_of_lem input db id rate db'' k v in
          let e : internal_exchange from to id rate ≡ ty = ground arith in
          (ground arith, subst (IsClassified input db) e (s, t, ground arith, r))
      by_exchange other (err c i, db'') k = ground arith

  to_outside :
      (input : CreateTransactionInput F64) (db : Db) (from : Account) (ty : TransactionType F64)
      (db' : Db)
      → get_transaction_type f parse_account_id limits input from none db ≡ (ok ty, db')
      → IsValidRate input
      → IsSource f parse_account_id limits input db from
      → input.to_type ≡ RecepientType.address
      → (db' ≡ db) × IsClassified input db ty
  unfolding get_transaction_type withdrawal_type Accounts.filter_by_address
  to_outside input db from ty db' h v s t = elim (Bool-cases (from.currency == input.to_currency)) [
    | inl same ↦ (
      ground arith,
      let e : withdrawal from input.to input.to_currency ≡ ty = ground arith in
          subst (IsClassified input db) e (s, (t, outside _ refl), refl, refl, ground arith),
    )
    | inr other ↦ by_exchange other (exchange_of f parse_account_id limits input db) refl
  ]
    where
      outside : (xs : List Account) → filter (λ a. a.address == input.to) db.accounts ≡ xs → xs ≡ []
      outside [] e = refl
      outside (x ∷ xs) e = ground arith

      by_exchange :
          (from.currency == input.to_currency) ≡ false
          → (r : Result (ExchangeId × F64) × Db)
          → exchange_of f parse_account_id limits input db ≡ r
          → (db' ≡ db) × IsClassified input db ty
      by_exchange other (ok (id, rate), db'') k =
          let (same, r) = exchange_of_lem input db id rate db'' k v in
          let e : withdrawal_exchange from input.to input.to_currency id rate ≡ ty = ground arith in
          (
            ground arith,
            subst (IsClassified input db) e (s, (t, outside _ refl), refl, refl, ground arith, r),
          )
      by_exchange other (err c i, db'') k = ground arith

  -- When a payment is classified, the database is not changed, and the kind of the payment is the
  -- one that the accounts, the address, the currencies and the rate of the input make it: the source
  -- is the account that the input names, kept within its daily limit; a target is an account of the
  -- currency asked for, found by id or by address; an address is one that no account has; and there
  -- is an exchange, at the positive rate of the input, if and only if the currencies differ.
  pub validate_and_classify_transaction-IsClassified :
      (input : CreateTransactionInput F64) (db : Db) (ty : TransactionType F64) (db' : Db)
      → validate_and_classify_transaction f parse_account_id limits input db ≡ (ok ty, db')
      → (db' ≡ db) × IsClassified input db ty
  unfolding validate_and_classify_transaction
  validate_and_classify_transaction-IsClassified input db ty db' h =
      let (u, v, h1) =
        >>=-eq-ok_kept (validate f parse_account_id limits input) _ db (validate_lem input db) h in
      let (from, found, h2) =
        >>=-eq-ok_kept (get_from_account f parse_account_id limits input) _ db
          (λ a d e. get_from_account_lem f parse_account_id limits input db a d e) h1 in
      let (u', s, h3) =
        >>=-eq-ok_kept (check_account_daily_limit f parse_account_id limits input from) _ db
          (λ u d e.
            check_account_daily_limit_lem f parse_account_id limits input from db u d e found)
          h2 in
      let (o, t, h4) =
        >>=-eq-ok_kept (get_to_account f parse_account_id limits input) _ db
          (get_to_account_lem f parse_account_id limits input db) h3 in
      by_target from o h4 v s t
    where
      by_target :
          (from : Account) (o : Option Account)
          → get_transaction_type f parse_account_id limits input from o db ≡ (ok ty, db')
          → IsValidRate input
          → IsSource f parse_account_id limits input db from
          → TargetOf f parse_account_id limits input db o
          → (db' ≡ db) × IsClassified input db ty
      by_target from (some to) k v s t = between_accounts input db from to ty db' k v s t
      by_target from none k v s t = to_outside input db from ty db' k v s t
