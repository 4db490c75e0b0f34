-- ===== src/Repos/Withdrawal/Choice.antt =====
-- What `get_accounts_for_withdrawal` (repos/transactions.rs) promises to the withdrawal that calls it.
use transactions.Amount.{u128_mod}
use transactions.Repos.Withdrawal.Sums.{keyed}
use mathlib.Core.Path.{subst}
use transactions.Prelude.{
  inl, inr, Bool-cases, leb, ap, ◌≤◌, ◌<◌, ◌≡◌, refl, sym, ◌∙◌, List, arith, All, sum_by, nat_eq,
  ◌⊎◌, ◌⊎◌,
}
use transactions.Exec.{Result, ok, err, insufficient_withdrawal_funds, internal}
use transactions.Models.{AccountId, Currency}
use transactions.Models.Records.{Account, AccountWithBalance, Amount}
use transactions.Repos.{Db}
use transactions.Repos.Withdrawal.{
  fee_of, res_accounts, take_accounts, all_paid, get_accounts_for_withdrawal,
}
use transactions.Repos.Withdrawal.Take.{
  CoveredBy, available_total, balance_value, take_accounts_left, take_accounts_sum,
  take_accounts-CoveredBy,
}
use transactions.Repos.Withdrawal.Payers.{
  IsPayer, res_accounts-IsPayer, get_accounts_for_withdrawal_offers,
  get_accounts_for_withdrawal_unread, dr_of, cr_of, payers, res_accounts-payers,
}

all_paid_parts :
    (r : List AccountWithBalance × Amount) (taken : List AccountWithBalance)
    → all_paid r ≡ ok taken
    → (r.0 ≡ taken) × (r.1 ≡ 0)
all_paid_parts r taken h = ground arith

all_paid_enough : (r : List AccountWithBalance × Amount) → r.1 ≡ 0 → all_paid r ≡ ok r.0
all_paid_enough r h = ground arith

all_paid_short :
    (r : List AccountWithBalance × Amount)
    → 0 < r.1
    → all_paid r ≡ err insufficient_withdrawal_funds internal
all_paid_short r h = ground arith

module _ (ids : List AccountId) (c : Currency) (db : Db) (value fee : Amount) where
  -- The payments that the call returns add up to the value asked for, and are made, in order, by
  -- the first of a list of accounts that may pay, with their balances on the books: each payment is
  -- zero, or together with the fee at most its account's balance. The database is as before.
  pub get_accounts_for_withdrawal_sound :
      (taken : List AccountWithBalance) (db' : Db)
      → get_accounts_for_withdrawal ids value c fee db ≡ (ok taken, db')
      → (offers : List (Account × Amount)) × All
          (λ (e : Account × Amount). IsPayer ids c db e.0 e.1)
          offers
        × CoveredBy (fee_of c fee) taken offers
        × (sum_by balance_value taken ≡ value)
        × (db' ≡ db)
  get_accounts_for_withdrawal_sound taken db' h = go (res_accounts ids c db) refl
    where
      go :
          (r : Result (List (Account × Amount)) × Db)
          → res_accounts ids c db ≡ r
          → (offers : List (Account × Amount)) × All
              (λ (e : Account × Amount). IsPayer ids c db e.0 e.1)
              offers
            × CoveredBy (fee_of c fee) taken offers
            × (sum_by balance_value taken ≡ value)
            × (db' ≡ db)
      go (ok offers, db'') e =
          let (payers, same) = res_accounts-IsPayer ids c db offers db'' e in
          let p = sym (get_accounts_for_withdrawal_offers ids c db value fee offers db'' e) ∙ h in
          let (list, left) =
            all_paid_parts (take_accounts (fee_of c fee) value offers) taken (ap (λ r. r.0) p) in
          (
            offers,
            payers,
            subst (λ xs. CoveredBy (fee_of c fee) xs offers) list
                (take_accounts-CoveredBy (fee_of c fee) value offers),
            rw (← list) (omega (arith, left, take_accounts_sum (fee_of c fee) value offers)),
            ap (λ r. r.1) (sym p) ∙ same,
          )
      go (err x k, db'') e =
          cc (sym (get_accounts_for_withdrawal_unread ids c db value fee x k db'' e) ∙ h)

  -- Where the sums of the rows fit a `u128`, the call succeeds if the accounts that may pay, all of
  -- them, hold the value asked for, net of one fee for each (of none in STQ), and otherwise fails for
  -- insufficient funds; the database is as before.
  pub get_accounts_for_withdrawal_complete :
      ((id : AccountId) → keyed dr_of c id db.transactions < u128_mod)
      → ((id : AccountId) → keyed cr_of c id db.transactions < u128_mod)
      → ((value ≤ available_total (fee_of c fee) (payers ids c db))
          × (taken : List AccountWithBalance) × (get_accounts_for_withdrawal ids value c fee db
              ≡ (ok taken, db)))
        ⊎ ((available_total (fee_of c fee) (payers ids c db) < value)
            × (get_accounts_for_withdrawal ids value c fee db
                ≡ (err insufficient_withdrawal_funds internal, db)))
  get_accounts_for_withdrawal_complete h h' =
      let offers = payers ids c db in
      let e =
        get_accounts_for_withdrawal_offers ids c db value fee offers db
          (res_accounts-payers ids c db h h') in
      let left = take_accounts_left (fee_of c fee) value offers in
      elim (Bool-cases (leb value (available_total (fee_of c fee) offers))) [
        | inl enough ↦ inl (
          ground arith,
          (take_accounts (fee_of c fee) value offers).0,
          e
              ∙ ap (λ r. (r, db))
                  (all_paid_enough (take_accounts (fee_of c fee) value offers) (ground arith)),
        )
        | inr short ↦ inr (
          ground arith,
          e
              ∙ ap (λ r. (r, db))
                  (all_paid_short (take_accounts (fee_of c fee) value offers) (ground arith)),
        )
      ]
