-- ===== src/Repos/Withdrawal/Sums.antt =====
-- The sums by account of `get_accounts_for_withdrawal` (repos/transactions.rs), read as maps.
use transactions.Prelude.{
  not, ℕ, ◌+◌, ◌-◌, ◌<◌, ◌≡◌, refl, Bool, true, false, ◌&&◌, ◌||◌, none, some, List, [], ◌∷◌, arith,
  ◌==◌, nat_eq, if◌then◌else◌, ltb, filter, any, all, sum_by, Bool-cases, inl, inr,
}
use transactions.Exec.{ok, err, database, internal}
use transactions.Models.{AccountId, Currency, btc, currency_eq}
use transactions.Models.Records.{Transaction, Amount}
use transactions.Amount.{u128_mod}
use transactions.Repos.{Db}
use transactions.Repos.Balances.{value_of}
use transactions.Repos.Withdrawal.{
  Sums, add_sum, group_sums, read_sums, or_zero, subtract_sum, subtract_sums, remove_sum,
  remove_pending, sum_of, is_key, above,
}

-- The sum of the rows of a currency whose key is an account.
abbrev pub keyed : (Transaction → AccountId) → Currency → AccountId → List Transaction → ℕ
keyed key currency id txs =
    sum_by value_of (filter (λ t. key t == id && t.currency == currency) txs)

-- The sums that an account has, added up.
abbrev pub total_of : AccountId → Sums → ℕ
total_of id [] = 0
total_of id ((k, v) ∷ sums) = (if k == id then v else 0) + total_of id sums

-- No account has two sums.
abbrev pub Distinct : Sums → Type 0
Distinct [] = Unit
Distinct ((k, v) ∷ sums) = (is_key k sums ≡ false) × Distinct sums

sum_of-add_sum :
    (id j : AccountId) (v : ℕ) (s : Sums)
    → or_zero (sum_of id (add_sum j v s))
      ≡ (if j == id then or_zero (sum_of id s) + v else or_zero (sum_of id s))
unfolding sum_of add_sum or_zero
sum_of-add_sum id j v [] = ground arith
sum_of-add_sum id j v ((k, w) ∷ s) = ground (arith, sum_of-add_sum id j v s)

total_of-add_sum :
    (id j : AccountId) (v : ℕ) (s : Sums)
    → total_of id (add_sum j v s) ≡ total_of id s + (if j == id then v else 0)
unfolding add_sum
total_of-add_sum id j v [] = ground arith
total_of-add_sum id j v ((k, w) ∷ s) = ground (arith, total_of-add_sum id j v s)

is_key-add_sum :
    (id j : AccountId) (v : ℕ) (s : Sums) → is_key id (add_sum j v s) ≡ (j == id || is_key id s)
unfolding is_key add_sum
is_key-add_sum id j v [] = ground arith
is_key-add_sum id j v ((k, w) ∷ s) = ground (arith, is_key-add_sum id j v s)

Distinct-add_sum : (j : AccountId) (v : ℕ) (s : Sums) → Distinct s → Distinct (add_sum j v s)
unfolding add_sum
Distinct-add_sum j v [] h = unfold is_key in (refl, tt)
Distinct-add_sum j v ((k, w) ∷ s) h =
    ground (arith, is_key-add_sum k j v s, Distinct-add_sum j v s h.1)

pub sum_of-group_sums :
    (key : Transaction → AccountId) (c : Currency) (id : AccountId) (txs : List Transaction)
    → or_zero (sum_of id (group_sums key c txs)) ≡ keyed key c id txs
unfolding group_sums
sum_of-group_sums key c id [] = unfold sum_of or_zero in refl
sum_of-group_sums key c id (t ∷ txs) = ground (
  arith,
  sum_of-add_sum id (key t) t.value (group_sums key c txs),
  sum_of-group_sums key c id txs,
)

pub total_of-group_sums :
    (key : Transaction → AccountId) (c : Currency) (id : AccountId) (txs : List Transaction)
    → total_of id (group_sums key c txs) ≡ keyed key c id txs
unfolding group_sums
total_of-group_sums key c id [] = refl
total_of-group_sums key c id (t ∷ txs) = ground (
  arith,
  total_of-add_sum id (key t) t.value (group_sums key c txs),
  total_of-group_sums key c id txs,
)

pub Distinct-group_sums :
    (key : Transaction → AccountId) (c : Currency) (txs : List Transaction)
    → Distinct (group_sums key c txs)
unfolding group_sums
Distinct-group_sums key c [] = tt
Distinct-group_sums key c (t ∷ txs) = elim (Bool-cases (t.currency == c)) [
  | inl same ↦
      rw same
        (Distinct-add_sum (key t) t.value (group_sums key c txs) (Distinct-group_sums key c txs))
  | inr other ↦ rw other (Distinct-group_sums key c txs)
]

is_key-subtract_sum :
    (id j : AccountId) (v : ℕ) (s : Sums) → is_key id (subtract_sum j v s) ≡ is_key id s
unfolding is_key subtract_sum
is_key-subtract_sum id j v [] = refl
is_key-subtract_sum id j v ((k, w) ∷ s) = ground (arith, is_key-subtract_sum id j v s)

Distinct-subtract_sum :
    (j : AccountId) (v : ℕ) (s : Sums) → Distinct s → Distinct (subtract_sum j v s)
unfolding subtract_sum
Distinct-subtract_sum j v [] h = tt
Distinct-subtract_sum j v ((k, w) ∷ s) h =
    ground (arith, is_key-subtract_sum k j v s, Distinct-subtract_sum j v s h.1)

pub Distinct-subtract_sums : (crs s : Sums) → Distinct s → Distinct (subtract_sums crs s)
unfolding subtract_sums
Distinct-subtract_sums [] s h = h
Distinct-subtract_sums ((k, v) ∷ crs) s h =
    Distinct-subtract_sums crs (subtract_sum k v s) (Distinct-subtract_sum k v s h)

sum_of-subtract_sum :
    (id j : AccountId) (v : ℕ) (s : Sums)
    → or_zero (sum_of id (subtract_sum j v s)) ≡ or_zero (sum_of id s) - (if j == id then v else 0)
unfolding sum_of subtract_sum or_zero
sum_of-subtract_sum id j v [] = ground arith
sum_of-subtract_sum id j v ((k, w) ∷ s) = ground (arith, sum_of-subtract_sum id j v s)

pub sum_of-subtract_sums :
    (id : AccountId) (crs s : Sums)
    → or_zero (sum_of id (subtract_sums crs s)) ≡ or_zero (sum_of id s) - total_of id crs
unfolding subtract_sums
sum_of-subtract_sums id [] s = omega arith
sum_of-subtract_sums id ((k, v) ∷ crs) s =
    ground (arith, sum_of-subtract_sums id crs (subtract_sum k v s), sum_of-subtract_sum id k v s)

-- What is above the minimum is a sum that is there.
sum_of-above_absent :
    (id : AccountId) (m : ℕ) (s : Sums) → is_key id s ≡ false → is_key id (above m s) ≡ false
unfolding is_key above
sum_of-above_absent id m [] h = refl
sum_of-above_absent id m ((k, v) ∷ s) h = ground (arith, sum_of-above_absent id m s)

sum_of_absent : (id : AccountId) (s : Sums) → is_key id s ≡ false → sum_of id s ≡ none
unfolding is_key sum_of
sum_of_absent id [] h = refl
sum_of_absent id ((k, v) ∷ s) h = ground (arith, sum_of_absent id s)

pub sum_of-above :
    (id : AccountId) (m v : ℕ) (s : Sums)
    → Distinct s
    → sum_of id (above m s) ≡ some v
    → (m < v) × (sum_of id s ≡ some v)
unfolding sum_of above
sum_of-above id m v [] d h = cc
sum_of-above id m v ((k, w) ∷ s) d h =
    ground
      (arith, sum_of-above id m v s d.1, sum_of-above_absent id m s, sum_of_absent id (above m s))

pub sum_of-remove_sum :
    (id j : AccountId) (s : Sums)
    → sum_of id (remove_sum j s) ≡ (if j == id then none else sum_of id s)
unfolding sum_of remove_sum
sum_of-remove_sum id j [] = ground arith
sum_of-remove_sum id j ((k, v) ∷ s) = ground (arith, sum_of-remove_sum id j s)

-- A row is about an account that it debits or credits.
abbrev pub touches : AccountId → Transaction → Bool
touches id t = t.dr_account_id == id || t.cr_account_id == id

pub sum_of-remove_pending :
    (c : Currency) (id : AccountId) (v : ℕ) (txs : List Transaction) (s : Sums)
    → sum_of id (remove_pending c txs s) ≡ some v
    → (sum_of id s ≡ some v) × (c ≡ btc → any (touches id) txs ≡ false)
unfolding remove_pending
sum_of-remove_pending c id v [] s h = (h, λ e. refl)
sum_of-remove_pending c id v (t ∷ txs) s h = elim (Bool-cases (c == btc)) [
  | inl coin ↦ removed (sum_of-remove_pending c id v txs _ (rw coin at h))
  | inr other ↦ kept other (sum_of-remove_pending c id v txs _ (rw other at h))
]
  where
    removed :
        (sum_of id (remove_sum t.dr_account_id (remove_sum t.cr_account_id s)) ≡ some v)
          × (c ≡ btc → any (touches id) txs ≡ false)
        → (sum_of id s ≡ some v) × (c ≡ btc → any (touches id) (t ∷ txs) ≡ false)
    removed r =
        let e = sum_of-remove_sum id t.dr_account_id (remove_sum t.cr_account_id s) in
        let e' = sum_of-remove_sum id t.cr_account_id s in
        (ground (arith, r.0), λ b. let rest = r.1 b in ground (arith, r.0))

    kept :
        (c == btc) ≡ false
        → (sum_of id s ≡ some v) × (c ≡ btc → any (touches id) txs ≡ false)
        → (sum_of id s ≡ some v) × (c ≡ btc → any (touches id) (t ∷ txs) ≡ false)
    kept other r = (r.0, λ b. ground arith)

is_key-remove_sum :
    (id j : AccountId) (s : Sums) → is_key id (remove_sum j s) ≡ (not (j == id) && is_key id s)
unfolding is_key remove_sum
is_key-remove_sum id j [] = ground arith
is_key-remove_sum id j ((k, v) ∷ s) = ground (arith, is_key-remove_sum id j s)

pub is_key-remove_pending :
    (c : Currency) (id : AccountId) (txs : List Transaction) (s : Sums)
    → is_key id (remove_pending c txs s) ≡ (is_key id s && not (c == btc && any (touches id) txs))
unfolding remove_pending
is_key-remove_pending c id [] s = ground arith
is_key-remove_pending c id (t ∷ txs) s = ground (
  arith,
  is_key-remove_pending c id txs s,
  is_key-remove_pending c id txs (remove_sum t.dr_account_id (remove_sum t.cr_account_id s)),
  is_key-remove_sum id t.dr_account_id (remove_sum t.cr_account_id s),
  is_key-remove_sum id t.cr_account_id s,
)

pub is_key-above :
    (id : AccountId) (m : ℕ) (s : Sums)
    → Distinct s
    → is_key id (above m s) ≡ ltb m (or_zero (sum_of id s))
unfolding is_key above sum_of or_zero
is_key-above id m [] d = ground arith
is_key-above id m ((k, v) ∷ s) d = ground (arith, is_key-above id m s d.1, sum_of_absent id s)

pub is_key-sum_of :
    (id : AccountId) (s : Sums) → is_key id s ≡ true → sum_of id s ≡ some (or_zero (sum_of id s))
unfolding is_key sum_of or_zero
is_key-sum_of id [] h = cc
is_key-sum_of id ((k, w) ∷ s) h = ground (arith, is_key-sum_of id s)

abbrev pub fits : AccountId × Amount → Bool
fits e = ltb e.1 u128_mod

-- Sums that are all small enough can be read.
pub sums_fit :
    (s : Sums)
    → Distinct s
    → ((id : AccountId) → or_zero (sum_of id s) < u128_mod)
    → all fits s ≡ true
unfolding sum_of or_zero
sums_fit [] d h = refl
sums_fit ((k, v) ∷ s) d h = ground (arith, sums_fit s d.1 (λ id. later id), first)
  where
    first : v < u128_mod
    first = ground (arith, h k)

    later : (id : AccountId) → or_zero (sum_of id s) < u128_mod
    later id = ground (arith, h id, sum_of_absent id s)

-- Reading the sums gives them as they are, and fails where one does not fit.
pub read_sums_lem :
    (s : Sums) (db : Db) → read_sums s db ≡ (if all fits s then ok s else err database internal, db)
unfolding read_sums
read_sums_lem [] db = refl
read_sums_lem ((k, v) ∷ s) db = ground (arith, read_sums_lem s db)
