-- ===== src/Services/Classifier/Steps.antt =====
-- What the steps of the classifier find (services/transactions/classifier.rs).
use mathlib.Core.Path.{subst}
use transactions.Prelude.{
  inl, inr, ℕ, ◌+◌, ◌-◌, ◌≤◌, ◌≡◌, ◌⊎◌, refl, sym, ◌&&◌, Option, none, some, arith, ◌==◌, nat_eq,
  leb, filter, find, find-eq-some, sum_by,
}
use transactions.Exec.{Result, ok, err, balance_overflow, ErrorKind}
use transactions.Float.{Floats}
use transactions.Models.{
  Recepient, AccountId, AccountKind, currency_eq, account_kind_eq, recepient_type_eq,
  DailyLimitType, RecepientType,
}
use transactions.Models.Records.{Account, Amount, CreateTransactionInput}
use transactions.Amount.{checked_sum_lem, checked_add}
use transactions.Repos.{Db}
use transactions.Repos.Accounts
use transactions.Repos.Accounts.{with_id}
use transactions.Repos.Balances.{value_of, spends, get_account_spending}
use transactions.Services.Classifier.{
  Limits, limit_of, from_value, check_account_daily_limit, get_from_account, get_to_account,
}

module _ (f : Floats) (parse_account_id : Recepient → Option AccountId) (limits : Limits) where
  open f use {F64, literal, lt}

  -- What the account has spent within the period of the limits.
  abbrev pub spent : Account → Db → ℕ
  spent a db = sum_by value_of (
      filter (λ t. spends a.id a.kind t && leb (db.now - limits.limit_period) t.created_at)
        db.transactions)

  -- The account named as the source, which the payment keeps within its daily limit.
  pub record IsSource (input : CreateTransactionInput F64) (db : Db) (from : Account) : Type 0 where
    pub found : find (with_id input.from) db.accounts ≡ some from
    pub paid : Amount
    pub priced : from_value f parse_account_id limits input from db ≡ (ok paid, db)
    pub within_limit :
        from.daily_limit_type ≡ DailyLimitType.default_limit
        → spent from db + paid ≤ limit_of limits from.currency

  pub get_from_account_lem :
      (input : CreateTransactionInput F64) (db : Db) (a : Account) (db' : Db)
      → get_from_account f parse_account_id limits input db ≡ (ok a, db')
      → (find (with_id input.from) db.accounts ≡ some a) × (db' ≡ db)
  unfolding get_from_account Accounts.get
  get_from_account_lem input db a db' h = ground arith

  from_value_lem :
      (input : CreateTransactionInput F64) (a : Account) (db : Db)
      → (from_value f parse_account_id limits input a db).1 ≡ db
  unfolding from_value
  from_value_lem input a db = ground arith

  get_account_spending_lem :
      (a : Account) (db : Db) (r : Result Amount × Db)
      → get_account_spending a.id a.kind limits.limit_period db ≡ r
      → (r ≡ (err balance_overflow ErrorKind.internal, db)) ⊎ (r ≡ (ok (spent a db), db))
  unfolding get_account_spending
  get_account_spending_lem a db r h = ground (
    arith,
    checked_sum_lem value_of (
        filter (λ t. spends a.id a.kind t && leb (db.now - limits.limit_period) t.created_at)
          db.transactions),
  )

  pub check_account_daily_limit_lem :
      (input : CreateTransactionInput F64) (a : Account) (db : Db) (u : Unit) (db' : Db)
      → check_account_daily_limit f parse_account_id limits input a db ≡ (ok u, db')
      → find (with_id input.from) db.accounts ≡ some a
      → IsSource input db a × (db' ≡ db)
  unfolding check_account_daily_limit checked_add
  check_account_daily_limit_lem input a db u db' h found =
      by_value (from_value f parse_account_id limits input a db) refl
    where
      by_value :
          (r : Result Amount × Db)
          → from_value f parse_account_id limits input a db ≡ r
          → IsSource input db a × (db' ≡ db)
      by_value (ok v, s) e = (
        record {
          found = found;
          paid = v;
          priced = ground (arith, from_value_lem input a db);
          within_limit =
              ground (arith, from_value_lem input a db, get_account_spending_lem a db _ refl);
        },
        ground (arith, from_value_lem input a db, get_account_spending_lem a db _ refl),
      )
      by_value (err c k, s) e =
          ground (arith, from_value_lem input a db, get_account_spending_lem a db _ refl)

  -- An account of the system that the payment names, by its id or by its address.
  abbrev pub IsTarget : CreateTransactionInput F64 → Db → Account → Type 0
  IsTarget input db to =
      (to.currency ≡ input.to_currency)
      × (((input.to_type ≡ RecepientType.account)
            × (id : AccountId) × (parse_account_id input.to ≡ some id)
            × (find (with_id id) db.accounts ≡ some to))
          ⊎ ((input.to_type ≡ RecepientType.address)
              × (find
                    (λ a.
                      a.address == input.to
                      && a.kind == AccountKind.cr
                      && a.currency == input.to_currency)
                    db.accounts
                  ≡ some to)))

  get_to_account_by_id :
      (input : CreateTransactionInput F64) (db : Db) (o : Option Account) (db' : Db)
      → get_to_account f parse_account_id limits input db ≡ (ok o, db')
      → input.to_type ≡ RecepientType.account
      → (db' ≡ db) × (to : Account) × (o ≡ some to) × IsTarget input db to
  unfolding get_to_account Accounts.get
  get_to_account_by_id input db o db' h k = by_id (parse_account_id input.to) refl
    where
      by_row :
          (id : AccountId) (a : Option Account)
          → parse_account_id input.to ≡ some id
          → find (with_id id) db.accounts ≡ a
          → (db' ≡ db) × (to : Account) × (o ≡ some to) × IsTarget input db to
      by_row id (some to) e found =
          (ground arith, to, ground arith, (ground arith, inl (k, id, e, found)))
      by_row id none e found = ground arith

      by_id :
          (i : Option AccountId)
          → parse_account_id input.to ≡ i
          → (db' ≡ db) × (to : Account) × (o ≡ some to) × IsTarget input db to
      by_id (some id) e = by_row id (find (with_id id) db.accounts) e refl
      by_id none e = ground arith

  get_to_account_by_address :
      (input : CreateTransactionInput F64) (db : Db) (o : Option Account) (db' : Db)
      → get_to_account f parse_account_id limits input db ≡ (ok o, db')
      → input.to_type ≡ RecepientType.address
      → (db' ≡ db) × ((o ≡ none) ⊎ ((to : Account) × (o ≡ some to) × IsTarget input db to))
  unfolding get_to_account Accounts.get_by_address
  get_to_account_by_address input db none db' h k = (ground arith, inl refl)
  get_to_account_by_address input db (some to) db' h k =
      let found : find
            (λ a.
              a.address == input.to && a.kind == AccountKind.cr && a.currency == input.to_currency)
            db.accounts
          ≡ some to =
        ground arith in
      (
        ground arith,
        inr (to, refl, (ground (arith, find-eq-some _ db.accounts to found), inr (k, found))),
      )

  abbrev pub TargetOf : CreateTransactionInput F64 → Db → Option Account → Type 0
  TargetOf input db none = input.to_type ≡ RecepientType.address
  TargetOf input db (some to) = IsTarget input db to

  pub get_to_account_lem :
      (input : CreateTransactionInput F64) (db : Db) (o : Option Account) (db' : Db)
      → get_to_account f parse_account_id limits input db ≡ (ok o, db')
      → TargetOf input db o × (db' ≡ db)
  get_to_account_lem input db o db' h = elim (kind_cases input.to_type) [
    | inl k ↦
        let (same, to, e, t) = get_to_account_by_id input db o db' h k in
        (subst (TargetOf input db) (sym e) t, same)
    | inr k ↦
        let (same, cases) = get_to_account_by_address input db o db' h k in
        elim cases [
          | inl e ↦ (subst (TargetOf input db) (sym e) k, same)
          | inr (to, e, t) ↦ (subst (TargetOf input db) (sym e) t, same)
        ]
  ]
    where
      kind_cases : (k : RecepientType) → (k ≡ RecepientType.account) ⊎ (k ≡ RecepientType.address)
      kind_cases RecepientType.account = inl refl
      kind_cases RecepientType.address = inr refl
