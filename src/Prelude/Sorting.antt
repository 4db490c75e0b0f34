-- ===== src/Prelude/Sorting.antt =====
-- Sorting, filtering and cutting a list keep what is in it.
use Prim.Native.Nat.{ℕ, zero, suc, ◌≤◌, ◌<◌}
use mathlib.Core.Path.{◌≡◌, refl, ap}
use mathlib.Core.Logic.{inl, inr}
use mathlib.Core.Bool.{Bool, ◌&&◌}
use mathlib.Core.List.{List, [], ◌∷◌}
use native.Mathlib.Omega.{arith}
use transactions.Prelude.Tests.{Bool-cases}
use transactions.Prelude.Lists.{
  length, filter, any, All, skip, take, insert_by, sort_by, reverse, filter-append, length-append,
}

-- How many of a list satisfy a test.
abbrev pub count {ℓ} : {A : Type ℓ} → (A → Bool) → List A → ℕ
count p xs = length (filter p xs)

count-insert_by {ℓ} :
    {A : Type ℓ} (before : A → A → Bool) (p : A → Bool) (x : A) (xs : List A)
    → count p (insert_by before x xs) ≡ count p (x ∷ xs)
count-insert_by before p x [] = refl
count-insert_by before p x (y ∷ ys) = ground (arith, count-insert_by before p x ys)

pub count-sort_by {ℓ} :
    {A : Type ℓ} (before : A → A → Bool) (p : A → Bool) (xs : List A)
    → count p (sort_by before xs) ≡ count p xs
count-sort_by before p [] = refl
count-sort_by before p (x ∷ xs) =
    ground (arith, count-sort_by before p xs, count-insert_by before p x (sort_by before xs))

pub count-reverse {ℓ} :
    {A : Type ℓ} (p : A → Bool) (xs : List A) → count p (reverse xs) ≡ count p xs
count-reverse p [] = refl
count-reverse p (x ∷ xs) = ground (
  arith,
  count-reverse p xs,
  filter-append p (reverse xs) (x ∷ []),
  length-append (filter p (reverse xs)) (filter p (x ∷ [])),
)

pub count-filter {ℓ} :
    {A : Type ℓ} (q p : A → Bool) (xs : List A) → count p (filter q xs) ≡ count (λ x. q x && p x) xs
count-filter q p [] = refl
count-filter q p (x ∷ xs) = ground (arith, count-filter q p xs)

pub any-filter {ℓ} :
    {A : Type ℓ} (q p : A → Bool) (xs : List A) → any p (filter q xs) ≡ any (λ x. q x && p x) xs
any-filter q p [] = refl
any-filter q p (x ∷ xs) = ground (arith, any-filter q p xs)

any-insert_by {ℓ} :
    {A : Type ℓ} (before : A → A → Bool) (p : A → Bool) (x : A) (xs : List A)
    → any p (insert_by before x xs) ≡ any p (x ∷ xs)
any-insert_by before p x [] = refl
any-insert_by before p x (y ∷ ys) = ground (arith, any-insert_by before p x ys)

pub any-sort_by {ℓ} :
    {A : Type ℓ} (before : A → A → Bool) (p : A → Bool) (xs : List A)
    → any p (sort_by before xs) ≡ any p xs
any-sort_by before p [] = refl
any-sort_by before p (x ∷ xs) =
    ground (arith, any-sort_by before p xs, any-insert_by before p x (sort_by before xs))

All-insert_by {ℓ κ} :
    {A : Type ℓ} (P : A → Type κ) (before : A → A → Bool) (x : A) (xs : List A)
    → P x
    → All P xs
    → All P (insert_by before x xs)
All-insert_by P before x [] h hs = (h, tt)
All-insert_by P before x (y ∷ ys) h (k, ks) = elim (Bool-cases (before x y)) [
  | inl e ↦ rw e (h, (k, ks))
  | inr e ↦ rw e (k, All-insert_by P before x ys h ks)
]

pub All-sort_by {ℓ κ} :
    {A : Type ℓ} (P : A → Type κ) (before : A → A → Bool) (xs : List A)
    → All P xs
    → All P (sort_by before xs)
All-sort_by P before [] h = tt
All-sort_by P before (x ∷ xs) (h, hs) =
    All-insert_by P before x (sort_by before xs) h (All-sort_by P before xs hs)

pub All-skip {ℓ κ} :
    {A : Type ℓ} (P : A → Type κ) (n : ℕ) (xs : List A) → All P xs → All P (skip n xs)
All-skip P zero xs h = h
All-skip P (suc n) [] h = tt
All-skip P (suc n) (x ∷ xs) (h, hs) = All-skip P n xs hs

pub All-take {ℓ κ} :
    {A : Type ℓ} (P : A → Type κ) (n : ℕ) (xs : List A) → All P xs → All P (take n xs)
All-take P zero xs h = tt
All-take P (suc n) [] h = tt
All-take P (suc n) (x ∷ xs) (h, hs) = (h, All-take P n xs hs)

pub length-take {ℓ} : {A : Type ℓ} (n : ℕ) (xs : List A) → length (take n xs) ≤ n
length-take zero xs = omega arith
length-take (suc n) [] = omega arith
length-take (suc n) (x ∷ xs) = omega (arith, length-take n xs)

-- Where fewer are taken than asked for, all are.
pub take-all {ℓ} : {A : Type ℓ} (n : ℕ) (xs : List A) → length (take n xs) < n → take n xs ≡ xs
take-all zero xs h = ground arith
take-all (suc n) [] h = refl
take-all (suc n) (x ∷ xs) h = ap (λ ys. x ∷ ys) (take-all n xs (omega (arith, h)))
