-- ===== src/Repos/Withdrawal/Payers.antt =====
-- The accounts that `get_accounts_for_withdrawal` (repos/transactions.rs) may take from, and its
-- result.
use transactions.Amount.{u128_mod}
use mathlib.Core.Path.{subst}
use transactions.Prelude.{
  ℕ, ◌+◌, ◌<◌, ◌≡◌, refl, sym, ◌∙◌, ap, inl, inr, Bool, true, false, ◌&&◌, some, List, [], ◌∷◌,
  arith, ◌==◌, nat_eq, if◌then◌else◌, filter, any, all, All, Among, Bool-cases, ltb, ◌-◌, not, ◌||◌,
}
use transactions.Exec.{ErrorContext, ErrorKind, Result, ok, err, database, internal}
use transactions.Models.{
  AccountId, BlockchainAddress, Currency, stq, btc, currency_eq, AccountKind, account_kind_eq,
  pending, status_eq,
}
use transactions.Models.Records.{Account, Transaction, Amount}
use transactions.Repos.{Db}
use transactions.Repos.Withdrawal.{
  Sums, minimum_balance, fee_of, or_zero, sum_of, is_key, above, addresses_of, eligible,
  with_balances, group_sums, subtract_sums, remove_pending, res_accounts, take_accounts, all_paid,
  get_accounts_for_withdrawal,
}
use transactions.Repos.Withdrawal.Sums.{
  keyed, touches, fits, sum_of-group_sums, total_of-group_sums, Distinct-group_sums,
  Distinct-subtract_sums, sum_of-subtract_sums, sum_of-above, sum_of-remove_pending, is_key-sum_of,
  read_sums_lem, sums_fit, is_key-remove_pending, is_key-above,
}

abbrev pub dr_of : Transaction → AccountId
dr_of t = t.dr_account_id

abbrev pub cr_of : Transaction → AccountId
cr_of t = t.cr_account_id

-- The pending rows of a currency.
abbrev pub pending_of : Currency → List Transaction → List Transaction
pending_of c = filter (λ (t : Transaction). t.currency == c && t.status == pending)

-- An account that may pay: a debit account that holds no fees, approved if the currency is STQ, with
-- no pending row if it is BTC, whose balance on the books is above the minimum.
pub record IsPayer (ids : List AccountId) (c : Currency) (db : Db) (a : Account) (balance : ℕ)
    : Type 0 where
  pub known : Among a db.accounts
  pub is_debit : a.kind ≡ AccountKind.dr
  pub holds_no_fees : any (λ x. a.address == x) (addresses_of ids db.accounts) ≡ false
  pub approved : c ≡ stq → a.erc20_approved ≡ true
  pub nothing_pending : c ≡ btc → any (touches a.id) (pending_of c db.transactions) ≡ false
  pub is_significant : minimum_balance c < balance
  pub on_the_books :
      balance + keyed cr_of c a.id db.transactions ≡ keyed dr_of c a.id db.transactions

or_zero-some : (v : ℕ) → or_zero (some v) ≡ v
unfolding or_zero
or_zero-some v = refl

eligible_parts :
    (c : Currency) (s : Sums) (fees : List BlockchainAddress) (a : Account)
    → eligible c s fees a ≡ true
    → (is_key a.id s ≡ true)
      × (a.kind ≡ AccountKind.dr)
      × (any (λ x. a.address == x) fees ≡ false)
      × (c ≡ stq → a.erc20_approved ≡ true)
unfolding eligible
eligible_parts c s fees a h = (ground arith, ground arith, ground arith, λ e. ground arith)

answer :
    (b : Bool) (w offers : List (Account × Amount)) (db db' : Db)
    → ◌≡◌ {A = Result (List (Account × Amount)) × Db}
        (if b then ok w else err database internal, db)
        (ok offers, db')
    → (w ≡ offers) × (db' ≡ db)
answer true w offers db db' h = (cc, cc)
answer false w offers db db' h = cc

module _ (ids : List AccountId) (c : Currency) (db : Db) where
  abbrev remaining : Sums
  remaining = remove_pending c (pending_of c db.transactions) (
      above (minimum_balance c)
        (subtract_sums (group_sums cr_of c db.transactions) (group_sums dr_of c db.transactions)))

  remaining_lem :
      (id : AccountId) (v : ℕ)
      → sum_of id remaining ≡ some v
      → (c ≡ btc → any (touches id) (pending_of c db.transactions) ≡ false)
        × (minimum_balance c < v)
        × (v + keyed cr_of c id db.transactions ≡ keyed dr_of c id db.transactions)
  remaining_lem id v h =
      let (e, clear) = sum_of-remove_pending c id v (pending_of c db.transactions) _ h in
      let (low, e') =
        sum_of-above id (minimum_balance c) v _
          (Distinct-subtract_sums _ _ (Distinct-group_sums dr_of c db.transactions)) e in
      let net =
        sum_of-subtract_sums id (group_sums cr_of c db.transactions)
          (group_sums dr_of c db.transactions) in
      let net' = ap or_zero e' in
      (
        clear,
        low,
        omega (
          arith,
          net,
          net',
          or_zero-some v,
          sum_of-group_sums dr_of c id db.transactions,
          total_of-group_sums cr_of c id db.transactions,
        ),
      )

  offered :
      (a : Account)
      → Among a db.accounts
      → eligible c remaining (addresses_of ids db.accounts) a ≡ true
      → IsPayer ids c db a (or_zero (sum_of a.id remaining))
  offered a m h =
      let (key, kind, fees, approval) = eligible_parts c remaining _ a h in
      let (clear, low, books) = remaining_lem a.id _ (is_key-sum_of a.id remaining key) in
      record {
        known = m;
        is_debit = kind;
        holds_no_fees = fees;
        approved = approval;
        nothing_pending = clear;
        is_significant = low;
        on_the_books = books;
      }

  offers-IsPayer :
      (accounts : List Account)
      → ((a : Account) → Among a accounts → Among a db.accounts)
      → All
          (λ (e : Account × Amount). IsPayer ids c db e.0 e.1)
          (with_balances c remaining (addresses_of ids db.accounts) accounts)
  unfolding with_balances
  offers-IsPayer [] sub = tt
  offers-IsPayer (a ∷ rest) sub =
      elim (Bool-cases (eligible c remaining (addresses_of ids db.accounts) a)) [
        | inl e ↦ rw e (offered a (sub a (inl refl)) e, offers-IsPayer rest (λ x m. sub x (inr m)))
        | inr e ↦ rw e (offers-IsPayer rest (λ x m. sub x (inr m)))
      ]

  abbrev all_fit : Bool
  all_fit =
      all fits (group_sums dr_of c db.transactions) && all fits (group_sums cr_of c db.transactions)

  res_accounts_lem : res_accounts ids c db ≡ (
    if all_fit
        then ok (with_balances c remaining (addresses_of ids db.accounts) db.accounts)
        else err database internal,
    db,
  )
  unfolding res_accounts
  res_accounts_lem = ground (
    arith,
    read_sums_lem (group_sums dr_of c db.transactions) db,
    read_sums_lem (group_sums cr_of c db.transactions) db,
  )

  -- `res_accounts` offers only accounts that may pay, each with its balance on the books.
  pub res_accounts-IsPayer :
      (offers : List (Account × Amount)) (db' : Db)
      → res_accounts ids c db ≡ (ok offers, db')
      → All (λ (e : Account × Amount). IsPayer ids c db e.0 e.1) offers × (db' ≡ db)
  res_accounts-IsPayer offers db' h =
      let (e, same) =
        answer all_fit (with_balances c remaining (addresses_of ids db.accounts) db.accounts) offers
          db db' (sym res_accounts_lem ∙ h) in
      (
        subst (All (λ (x : Account × Amount). IsPayer ids c db x.0 x.1)) e
            (offers-IsPayer db.accounts (λ a m. m)),
        same,
      )

  -- What the books say of an account, and whether it may pay, from the rows alone.
  abbrev pub books : Account → ℕ
  books a = keyed dr_of c a.id db.transactions - keyed cr_of c a.id db.transactions

  abbrev pub may_pay : Account → Bool
  may_pay a =
      ltb (minimum_balance c) (books a)
      && not (c == btc && any (touches a.id) (pending_of c db.transactions))
      && a.kind == AccountKind.dr
      && not (any (λ x. a.address == x) (addresses_of ids db.accounts))
      && (not (c == stq) || a.erc20_approved)

  abbrev pub payers_among : List Account → List (Account × Amount)
  payers_among [] = []
  payers_among (a ∷ rest) =
      let later = payers_among rest in if may_pay a then (a, books a) ∷ later else later

  -- Every account that may pay, with its balance on the books.
  abbrev pub payers : List (Account × Amount)
  payers = payers_among db.accounts

  books_lem :
      (a : Account) → is_key a.id remaining ≡ true → or_zero (sum_of a.id remaining) ≡ books a
  books_lem a h =
      let (clear, low, same) = remaining_lem a.id _ (is_key-sum_of a.id remaining h) in
      omega (arith, same)

  is_key-remaining :
      (id : AccountId)
      → is_key id remaining ≡ (
          ltb
            (minimum_balance c)
            (keyed dr_of c id db.transactions - keyed cr_of c id db.transactions)
          && not (c == btc && any (touches id) (pending_of c db.transactions)))
  is_key-remaining id =
      let crs = group_sums cr_of c db.transactions in
      let drs = group_sums dr_of c db.transactions in
      let sums = subtract_sums crs drs in
      cc (
        is_key-remove_pending c id (pending_of c db.transactions) (above (minimum_balance c) sums),
        is_key-above id (minimum_balance c) sums
            (Distinct-subtract_sums crs drs (Distinct-group_sums dr_of c db.transactions)),
        sum_of-subtract_sums id crs drs,
        sum_of-group_sums dr_of c id db.transactions,
        total_of-group_sums cr_of c id db.transactions,
      )

  with_balances-payers :
      (accounts : List Account)
      → with_balances c remaining (addresses_of ids db.accounts) accounts ≡ payers_among accounts
  unfolding with_balances eligible
  with_balances-payers [] = refl
  with_balances-payers (a ∷ rest) = elim (Bool-cases (is_key a.id remaining)) [
    | inl e ↦ ground (arith, with_balances-payers rest, is_key-remaining a.id, books_lem a e)
    | inr e ↦ ground (arith, with_balances-payers rest, is_key-remaining a.id)
  ]

  -- Where the sums of the rows fit, the accounts that may pay are read, all of them.
  pub res_accounts-payers :
      ((id : AccountId) → keyed dr_of c id db.transactions < u128_mod)
      → ((id : AccountId) → keyed cr_of c id db.transactions < u128_mod)
      → res_accounts ids c db ≡ (ok payers, db)
  res_accounts-payers h h' =
      let drs = group_sums dr_of c db.transactions in
      let crs = group_sums cr_of c db.transactions in
      let fit =
        sums_fit drs (Distinct-group_sums dr_of c db.transactions)
          (λ id. omega (arith, h id, sum_of-group_sums dr_of c id db.transactions)) in
      let fit' =
        sums_fit crs (Distinct-group_sums cr_of c db.transactions)
          (λ id. omega (arith, h' id, sum_of-group_sums cr_of c id db.transactions)) in
      res_accounts_lem ∙ rw (fit, fit') (ap (λ xs. (ok xs, db)) (with_balances-payers db.accounts))

  -- The call answers with the payments, or with the error of a withdrawal that nobody can pay.
  pub get_accounts_for_withdrawal_offers :
      (value fee : Amount) (offers : List (Account × Amount)) (db' : Db)
      → res_accounts ids c db ≡ (ok offers, db')
      → get_accounts_for_withdrawal ids value c fee db
        ≡ (all_paid (take_accounts (fee_of c fee) value offers), db')
  unfolding get_accounts_for_withdrawal
  get_accounts_for_withdrawal_offers value fee offers db' h = ground arith

  pub get_accounts_for_withdrawal_unread :
      (value fee : Amount) (x : ErrorContext) (k : ErrorKind) (db' : Db)
      → res_accounts ids c db ≡ (err x k, db')
      → get_accounts_for_withdrawal ids value c fee db ≡ (err x k, db')
  unfolding get_accounts_for_withdrawal
  get_accounts_for_withdrawal_unread value fee x k db' h = ground arith
