-- ===== src/Repos/Balances/Sums.antt =====
-- The two ways to compute a balance, by grouped rows and by SQL sums, against the sums of the rows
-- that credit and that debit an account.
use mathlib.Core.List.{foldl, append-nil, append_assoc}
use transactions.Prelude.{
  ℕ, ◌+◌, ◌-◌, ◌≤◌, ◌≡◌, refl, ◌∙◌, ap, ◌&&◌, ◌||◌, none, some, List, [], ◌∷◌, ◌++◌, arith, ◌==◌,
  nat_eq, if◌then◌else◌, ltb, leb, filter, any, sum_by,
}
use transactions.Exec.{Result, ok, err, balance_overflow, internal}
use transactions.Models.{AccountId, cr, dr, UserId}
use transactions.Models.Records.{Account, AccountWithBalance, Transaction}
use transactions.Amount.{u128_mod, checked_sub, checked_sum_lem}
use transactions.Repos.{Db}
use transactions.Repos.Balances.{
  value_of, credits, debits, Groups, push_row, group_row, rows_of, grouped, raises, lowers,
  balance_of, balances_of, get_accounts_balance,
}

-- What the rows credit to an account, debit from it, and move from it to itself.
abbrev pub credited : AccountId → List Transaction → ℕ
credited id txs = sum_by value_of (filter (credits id) txs)

abbrev pub debited : AccountId → List Transaction → ℕ
debited id txs = sum_by value_of (filter (debits id) txs)

abbrev pub circled : AccountId → List Transaction → ℕ
circled id txs = sum_by value_of (filter (λ t. credits id t && debits id t) txs)

-- The rows of an account as they are pushed: one that moves from it to itself stands twice.
abbrev doubled : AccountId → List Transaction → List Transaction
doubled id [] = []
doubled id (t ∷ txs) =
    let later = doubled id txs in
    let once = if credits id t then t ∷ later else later in if debits id t then t ∷ once else once

rows_of-push_row :
    (id j : AccountId) (t : Transaction) (groups : Groups)
    → rows_of id (push_row j t groups) ≡ elim (rows_of id groups) [
      | none ↦ none
      | some rows ↦ some (if j == id then rows ++ t ∷ [] else rows)
    ]
unfolding rows_of push_row
rows_of-push_row id j t [] = refl
rows_of-push_row id j t ((k, rows) ∷ groups) = ground (arith, rows_of-push_row id j t groups)

rows_of-group_row :
    (id : AccountId) (t : Transaction) (groups : Groups) (rows : List Transaction)
    → rows_of id groups ≡ some rows
    → rows_of id (group_row groups t) ≡ some (rows ++ doubled id (t ∷ []))
unfolding group_row
rows_of-group_row id t groups rows h = ground (
  arith,
  rows_of-push_row id t.dr_account_id t groups,
  rows_of-push_row id t.cr_account_id t (push_row t.dr_account_id t groups),
  append_assoc rows (t ∷ []) (t ∷ []),
  append-nil rows,
)

doubled-cons :
    (id : AccountId) (t : Transaction) (txs : List Transaction)
    → doubled id (t ∷ []) ++ doubled id txs ≡ doubled id (t ∷ txs)
doubled-cons id t txs = ground arith

rows_of-foldl :
    (id : AccountId) (txs : List Transaction) (groups : Groups) (rows : List Transaction)
    → rows_of id groups ≡ some rows
    → rows_of id (foldl group_row groups txs) ≡ some (rows ++ doubled id txs)
rows_of-foldl id [] groups rows h = rw append-nil h
rows_of-foldl id (t ∷ txs) groups rows h =
    rows_of-foldl id txs (group_row groups t) (rows ++ doubled id (t ∷ []))
      (rows_of-group_row id t groups rows h)
    ∙ ap some (
        append_assoc rows (doubled id (t ∷ [])) (doubled id txs)
        ∙ ap (λ xs. rows ++ xs) (doubled-cons id t txs))

credited-doubled :
    (id : AccountId) (txs : List Transaction)
    → credited id (doubled id txs) ≡ credited id txs + circled id txs
credited-doubled id [] = refl
credited-doubled id (t ∷ txs) = ground (arith, credited-doubled id txs)

debited-doubled :
    (id : AccountId) (txs : List Transaction)
    → debited id (doubled id txs) ≡ debited id txs + circled id txs
debited-doubled id [] = refl
debited-doubled id (t ∷ txs) = ground (arith, debited-doubled id txs)

doubled-filter :
    (id : AccountId) (txs : List Transaction)
    → doubled id
        (filter (λ t. any (λ i. debits i t) (id ∷ []) || any (λ i. credits i t) (id ∷ [])) txs)
      ≡ doubled id txs
doubled-filter id [] = refl
doubled-filter id (t ∷ txs) = ground (arith, doubled-filter id txs)

pub circled-le :
    (id : AccountId) (txs : List Transaction)
    → (circled id txs ≤ credited id txs) × (circled id txs ≤ debited id txs)
circled-le id [] = (omega arith, omega arith)
circled-le id (t ∷ txs) = ground (arith, circled-le id txs)

-- The sums of the rows that raise and that lower a balance, by the account's kind.
abbrev pub raised : Account → List Transaction → ℕ
raised a txs = elim a.kind [ cr ↦ credited a.id txs | dr ↦ debited a.id txs ]

abbrev pub lowered : Account → List Transaction → ℕ
lowered a txs = elim a.kind [ cr ↦ debited a.id txs | dr ↦ credited a.id txs ]

-- What `get_accounts_balance` returns for one account, from the two sums that it forms.
abbrev pub settled : Account → ℕ → ℕ → Result (List AccountWithBalance)
settled a plus minus =
    if ltb plus u128_mod && ltb minus u128_mod && leb minus plus
    then ok (record { account = a; balance = plus - minus } ∷ [])
    else err balance_overflow internal

rows_of-grouped :
    (a : Account) (txs : List Transaction)
    → rows_of a.id (grouped (a ∷ []) txs) ≡ some (doubled a.id txs)
unfolding grouped
rows_of-grouped a txs =
    let start : rows_of a.id ((a.id, []) ∷ []) ≡ some [] = unfold rows_of in ground arith in
    rows_of-foldl a.id _ _ [] start ∙ ap some (doubled-filter a.id txs)

pub get_accounts_balance_lem :
    (u : UserId) (a : Account) (db : Db)
    → get_accounts_balance u (a ∷ []) db ≡ (
      settled a
          (raised a db.transactions + circled a.id db.transactions)
          (lowered a db.transactions + circled a.id db.transactions),
      db,
    )
unfolding get_accounts_balance balances_of balance_of checked_sub
get_accounts_balance_lem u a db = ground (
  arith,
  rows_of-grouped a db.transactions,
  checked_sum_lem value_of (filter (raises a) (doubled a.id db.transactions)),
  checked_sum_lem value_of (filter (lowers a) (doubled a.id db.transactions)),
  credited-doubled a.id db.transactions,
  debited-doubled a.id db.transactions,
)
