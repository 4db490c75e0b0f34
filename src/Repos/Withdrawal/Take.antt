-- ===== src/Repos/Withdrawal/Take.antt =====
-- The loop of `get_accounts_for_withdrawal` (repos/transactions.rs) that takes from the accounts.
use transactions.Prelude.{
  ℕ, zero, suc, ◌+◌, ◌-◌, ◌≤◌, ◌≡◌, refl, ◌⊎◌, inl, inr, List, [], ◌∷◌, arith, leb, Bool-cases,
  sum_by,
}
use transactions.Models.Records.{Account, AccountWithBalance, Amount}
use transactions.Repos.Withdrawal.{available, take_accounts}

abbrev pub balance_value : AccountWithBalance → ℕ
balance_value x = x.balance

-- What the accounts can pay together, each net of the fee.
abbrev pub available_total : Amount → List (Account × Amount) → ℕ
available_total fee = sum_by (λ (e : Account × Amount). available fee e.1)

-- The accounts taken are the first ones offered, in order, and each pays nothing, or no more than
-- its balance net of the fee.
abbrev pub CoveredBy : Amount → List AccountWithBalance → List (Account × Amount) → Type 0
CoveredBy fee [] offers = Unit
CoveredBy fee (x ∷ xs) [] = ⊥
CoveredBy fee (x ∷ xs) ((a, balance) ∷ offers) =
    (x.account ≡ a) × ((x.balance ≡ 0) ⊎ (x.balance + fee ≤ balance)) × CoveredBy fee xs offers

pub available_lem : (fee balance : ℕ) → available fee balance ≡ balance - fee
unfolding available
available_lem fee balance = ground arith

covers : (v fee balance : ℕ) → v ≤ available fee balance → (v ≡ 0) ⊎ (v + fee ≤ balance)
covers zero fee balance h = inl refl
covers (suc v) fee balance h = inr (omega (arith, available_lem fee balance))

pub take_accounts_left :
    (fee value : ℕ) (offers : List (Account × Amount))
    → (take_accounts fee value offers).1 ≡ value - available_total fee offers
unfolding take_accounts
take_accounts_left fee value [] = omega arith
take_accounts_left fee value ((a, balance) ∷ offers) =
    ground (arith, take_accounts_left fee (value - available fee balance) offers)

pub take_accounts_sum :
    (fee value : ℕ) (offers : List (Account × Amount))
    → sum_by balance_value (take_accounts fee value offers).0 + (take_accounts fee value offers).1
      ≡ value
unfolding take_accounts
take_accounts_sum fee value [] = omega arith
take_accounts_sum fee value ((a, balance) ∷ offers) =
    ground (arith, take_accounts_sum fee (value - available fee balance) offers)

pub take_accounts-CoveredBy :
    (fee value : ℕ) (offers : List (Account × Amount))
    → CoveredBy fee (take_accounts fee value offers).0 offers
unfolding take_accounts
take_accounts-CoveredBy fee value [] = tt
take_accounts-CoveredBy fee value ((a, balance) ∷ offers) =
    elim (Bool-cases (leb value (available fee balance))) [
      | inl enough ↦ rw enough (refl, covers value fee balance (ground arith), tt)
      | inr short ↦ rw short (
        refl,
        covers (available fee balance) fee balance (omega arith),
        take_accounts-CoveredBy fee (value - available fee balance) offers,
      )
    ]
