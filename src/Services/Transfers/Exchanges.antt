-- ===== src/Services/Transfers/Exchanges.antt =====
-- What a payment with an exchange does on every branch (services/transactions/mod.rs).
use mathlib.Core.Path.{subst}
use transactions.Prelude.{
  ◌+◌, ◌≡◌, refl, sym, ap, some, List, [], ◌∷◌, arith, find, ◌==◌, nat_eq, if◌then◌else◌,
}
use transactions.Exec.{
  ok_or, pure-eq-ok, ok_or-eq-ok, invalid_currency, internal, Result, ok, err, rollback,
  as_internal, ◌>>◌, >>=-eq-ok, >>=-eq-ok_kept, execute_transaction,
}
use transactions.Float.{Floats}
use transactions.Models.{AccountId, Currency, ExchangeId, AccountKind, TransactionKind, next}
use transactions.Models.Records.{
  Account, Amount, Transaction, NewTransaction, CreateTransactionInput,
}
use transactions.Repos.{Db}
use transactions.Repos.Accounts
use transactions.Repos.Accounts.{with_id}
use transactions.Repos.Balances.Sums.{credited, debited}
use transactions.Services.Ledger.{create_base_tx}
use transactions.Services.Ledger.Posting.{Posted, create_base_tx-Posted}
use transactions.Services.Ledger.Solvency.{IsSolvent, posted-IsSolvent, posted_sums}
use transactions.Services.System.{
  SystemAccounts, liquidity_account_id, get_system_account, get_system_liquidity_account,
}
use transactions.Services.Transfers.{
  ExchangeInput, exchange_values, exchange_tx, write_exchange, create_internal_multi_currency_tx,
}

-- The system's account for the currencies exchanged.
abbrev pub IsLiquidity : SystemAccounts → Db → Currency → Account → Type 0
IsLiquidity system db currency a =
    find (with_id (liquidity_account_id system currency)) db.accounts ≡ some a

get_system_liquidity_account_lem :
    (system : SystemAccounts) (currency : Currency) (db : Db) (a : Account) (db' : Db)
    → as_internal (get_system_liquidity_account system currency) db ≡ (ok a, db')
    → IsLiquidity system db currency a × (db' ≡ db)
unfolding get_system_liquidity_account get_system_account Accounts.get
get_system_liquidity_account_lem system currency db a db' h = ground arith

module _ (f : Floats) (system : SystemAccounts) (exchange : ExchangeInput f.F64 → Result (Unit {0}))
    (input : CreateTransactionInput f.F64) (from_account to_account : Account)
    (exchange_rate : f.F64) where
  abbrev pub from_tx : Account → Amount → NewTransaction
  from_tx counterpart value =
      exchange_tx f input input.id TransactionKind.multi_from from_account counterpart
        from_account.currency value

  abbrev pub to_tx : Account → Amount → NewTransaction
  to_tx counterpart value =
      exchange_tx f input (next input.id) TransactionKind.multi_to counterpart to_account
        to_account.currency value

  -- Two rows were written: one debits the account that pays, the other credits the one that is
  -- paid, and the system's accounts of the two currencies take the other sides.
  pub record Exchanged (db : Db) (rows : List Transaction) (db' : Db) : Type 0 where
    pub from_value : Amount
    pub to_value : Amount
    pub from_counterpart : Account
    pub to_counterpart : Account
    pub between : Db
    pub first : Transaction
    pub second : Transaction
    pub priced :
        exchange_values f input from_account.currency to_account.currency exchange_rate
        ≡ some (from_value, to_value)
    pub from_liquidity : IsLiquidity system db from_account.currency from_counterpart
    pub to_liquidity : IsLiquidity system db to_account.currency to_counterpart
    pub paid :
        Posted (from_tx from_counterpart from_value) from_account from_counterpart db first between
    pub received :
        Posted (to_tx to_counterpart to_value) to_counterpart to_account between second db'
    pub both : rows ≡ first ∷ second ∷ []

  write_exchange-Exchanged :
      (db : Db) (rows : List Transaction) (db' : Db)
      → write_exchange f system exchange input from_account to_account exchange_rate db
        ≡ (ok rows, db')
      → Exchanged db rows db'
  unfolding write_exchange
  write_exchange-Exchanged db rows db' h =
      let (v, priced, h1) =
        >>=-eq-ok_kept
          (ok_or invalid_currency internal
            (exchange_values f input from_account.currency to_account.currency exchange_rate))
          _ db (ok_or-eq-ok _ _ _ db) h in
      let (from_cp, from_liq, h2) =
        >>=-eq-ok_kept (as_internal (get_system_liquidity_account system from_account.currency)) _
          db (get_system_liquidity_account_lem system from_account.currency db) h1 in
      let (first, between, e1, h3) =
        >>=-eq-ok (create_base_tx (from_tx from_cp v.0) from_account from_cp) _ db h2 in
      let paid =
        create_base_tx-Posted (from_tx from_cp v.0) from_account from_cp db first between e1 in
      let (to_cp, to_liq, h4) =
        >>=-eq-ok_kept (as_internal (get_system_liquidity_account system to_account.currency)) _
          between (get_system_liquidity_account_lem system to_account.currency between) h3 in
      let (second, after, e2, h5) =
        >>=-eq-ok (create_base_tx (to_tx to_cp v.1) to_cp to_account) _ between h4 in
      record {
        from_value = v.0;
        to_value = v.1;
        from_counterpart = from_cp;
        to_counterpart = to_cp;
        between = between;
        first = first;
        second = second;
        priced = priced;
        from_liquidity = from_liq;
        to_liquidity =
            subst
              (λ accounts.
                find (with_id (liquidity_account_id system to_account.currency)) accounts
                ≡ some to_cp)
              (ap (λ (d : Db). d.accounts) paid.rows) to_liq;
        paid = paid;
        received =
            subst (λ d. Posted (to_tx to_cp v.1) to_cp to_account between second d)
              (pure-eq-ok h5).1
              (create_base_tx-Posted (to_tx to_cp v.1) to_cp to_account between second after e2);
        both = sym (pure-eq-ok h5).0;
      }

  abbrev pub ExchangeOutcome : Db → Result (List Transaction) × Db → Type 0
  ExchangeOutcome db (ok rows, db') = Exchanged db rows db'
  ExchangeOutcome db (err c k, db') = db' ≡ db

  -- A payment with an exchange either fails and leaves the database as it is, also where the first of
  -- its two rows was already written, or writes exactly two rows, of the values that the rate gives:
  -- from the account that pays, which held the value, to the system's account of its currency, and
  -- from the system's account of the other currency, which held the other value, to the account paid.
  pub create_internal_multi_currency_tx-ExchangeOutcome :
      (id : ExchangeId) (db : Db)
      → ExchangeOutcome db (
          create_internal_multi_currency_tx f system exchange input from_account to_account id
            exchange_rate db)
  unfolding create_internal_multi_currency_tx
  create_internal_multi_currency_tx-ExchangeOutcome id db = by_answer (
      exchange (record {
        id = id;
        from = from_account.currency;
        to = to_account.currency;
        rate = exchange_rate;
        actual_amount = input.value;
        amount_currency = input.value_currency;
      }))
    where
      written :
          (r : Result (List Transaction) × Db)
          → write_exchange f system exchange input from_account to_account exchange_rate db ≡ r
          → ExchangeOutcome db (rollback db r)
      written (ok rows, db') e = write_exchange-Exchanged db rows db' e
      written (err c k, db') e = refl

      by_answer :
          (q : Result (Unit {0}))
          → ExchangeOutcome db (
              ((λ d. (q, d))
                  >> execute_transaction (
                      write_exchange f system exchange input from_account to_account exchange_rate))
                db)
      by_answer (ok u) =
          written (write_exchange f system exchange input from_account to_account exchange_rate db)
            refl
      by_answer (err c k) = refl

  Exchanged-sums :
      (db : Db) (rows : List Transaction) (db' : Db) (x : Exchanged db rows db') (id : AccountId)
      → (credited id db'.transactions
          ≡ credited id db.transactions
            + (if x.from_counterpart.id == id then x.from_value else 0)
            + (if to_account.id == id then x.to_value else 0))
        × (debited id db'.transactions
            ≡ debited id db.transactions
              + (if from_account.id == id then x.from_value else 0)
              + (if x.to_counterpart.id == id then x.to_value else 0))
  Exchanged-sums db rows db' x id =
      let (c1, d1) =
        posted_sums (from_tx x.from_counterpart x.from_value) from_account x.from_counterpart db
          x.first x.between x.paid id in
      let (c2, d2) =
        posted_sums (to_tx x.to_counterpart x.to_value) x.to_counterpart to_account x.between
          x.second db' x.received id in
      unfold exchange_tx in (omega (arith, c1, c2), omega (arith, d1, d2))

  Exchanged-IsSolvent :
      (db : Db) (rows : List Transaction) (db' : Db) (x : Exchanged db rows db')
      → from_account.kind ≡ AccountKind.cr
      → x.to_counterpart.kind ≡ AccountKind.cr
      → IsSolvent db
      → IsSolvent db'
  Exchanged-IsSolvent db rows db' x k k' s =
      posted-IsSolvent _ x.to_counterpart to_account x.between x.second db' x.received k'
        (posted-IsSolvent _ from_account x.from_counterpart db x.first x.between x.paid k s)

  exchange_kept :
      (db : Db) (r : Result (List Transaction) × Db)
      → ExchangeOutcome db r
      → from_account.kind ≡ AccountKind.cr
      → ((a : Account) → IsLiquidity system db to_account.currency a → a.kind ≡ AccountKind.cr)
      → IsSolvent db
      → IsSolvent r.1
  exchange_kept db (ok rows, db') x k k' s =
      Exchanged-IsSolvent db rows db' x k (k' x.to_counterpart x.to_liquidity) s
  exchange_kept db (err c i, db') e k k' s = subst IsSolvent (sym e) s

  -- From a database where no credit account is overdrawn, a payment with an exchange that debits a
  -- credit account leads to such a database, whether it succeeds or fails, if the system's account
  -- for the currency bought is a credit account.
  pub create_internal_multi_currency_tx-IsSolvent :
      (id : ExchangeId) (db : Db)
      → from_account.kind ≡ AccountKind.cr
      → ((a : Account) → IsLiquidity system db to_account.currency a → a.kind ≡ AccountKind.cr)
      → IsSolvent db
      → IsSolvent
          (create_internal_multi_currency_tx f system exchange input from_account to_account id
            exchange_rate db).1
  create_internal_multi_currency_tx-IsSolvent id db k k' s =
      exchange_kept db
        (create_internal_multi_currency_tx f system exchange input from_account to_account id
          exchange_rate db)
        (create_internal_multi_currency_tx-ExchangeOutcome id db) k k' s

  -- When a payment with an exchange succeeds, it has written its two rows, and what it adds to the
  -- credits and to the debits of any account is the first value where that is the system's account
  -- credited, or the account that pays, plus the second value where it is the account paid, or the
  -- system's account debited.
  pub create_internal_multi_currency_tx_sums :
      (exchange_id : ExchangeId) (db : Db) (rows : List Transaction) (db' : Db)
      → create_internal_multi_currency_tx f system exchange input from_account to_account
          exchange_id exchange_rate db
        ≡ (ok rows, db')
      → (x : Exchanged db rows db') × ((id : AccountId)
          → (credited id db'.transactions
              ≡ credited id db.transactions
                + (if x.from_counterpart.id == id then x.from_value else 0)
                + (if to_account.id == id then x.to_value else 0))
            × (debited id db'.transactions
                ≡ debited id db.transactions
                  + (if from_account.id == id then x.from_value else 0)
                  + (if x.to_counterpart.id == id then x.to_value else 0)))
  create_internal_multi_currency_tx_sums exchange_id db rows db' h =
      let x =
        subst (ExchangeOutcome db) h
          (create_internal_multi_currency_tx-ExchangeOutcome exchange_id db) in
      (x, Exchanged-sums db rows db' x)
