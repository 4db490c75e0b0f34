-- ===== src/Amount/Termination.antt =====
-- `ToBase10000` of models/amount.rs: the loop over the digits ends, for every `u128`.
use native.Mathlib.Nat.{pow-suc}
use transactions.Amount.Numeric.{to_base10000}
use transactions.Amount.{u128_mod}
use transactions.Prelude.{
  ◌∷◌, ◌%◌, ap, false, inl, inr, Bool-cases, ◌==◌, nat_eq, ℕ, zero, suc, ◌*◌, ◌/◌, ◌^◌, ◌<◌, ◌≡◌,
  refl, arith, All, Bool-cases, ◌==◌,
}

another_round : (fuel v : ℕ) → v < 10000 ^ suc fuel → (v / 10000 == 0) ≡ false → 0 < fuel
another_round zero v h e = ground arith
another_round (suc fuel) v h e = omega arith

below : (fuel v : ℕ) → v < 10000 ^ suc fuel → v / 10000 < 10000 ^ fuel
below fuel v h =
    let less : v < 10000 * 10000 ^ fuel = omega (arith, pow-suc 10000 fuel) in omega arith

same_digits :
    (fuel fuel' v : ℕ)
    → 0 < fuel
    → 0 < fuel'
    → v < 10000 ^ fuel
    → v < 10000 ^ fuel'
    → to_base10000 fuel v ≡ to_base10000 fuel' v
unfolding to_base10000
same_digits zero fuel' v p p' h h' = ground arith
same_digits (suc fuel) zero v p p' h h' = ground arith
same_digits (suc fuel) (suc fuel') v p p' h h' = elim (Bool-cases (v / 10000 == 0)) [
  | inl e ↦ rw e refl
  | inr e ↦ rw e (
      ap (λ ds. (v % 10000) ∷ ds)
        (same_digits fuel fuel' (v / 10000) (another_round fuel v h e) (another_round fuel' v h' e)
          (below fuel v h) (below fuel' v h')))
]

digits_bounded : (fuel v : ℕ) → All (λ d. d < 10000) (to_base10000 fuel v)
unfolding to_base10000
digits_bounded zero v = tt
digits_bounded (suc fuel) v = elim (Bool-cases (v / 10000 == 0)) [
  | inl e ↦ rw e (omega arith, tt)
  | inr e ↦ rw e (omega arith, digits_bounded fuel (v / 10000))
]

-- For a `u128` the loop over its digits in base 10000 ends within ten rounds: with any number of
-- rounds that is enough for the value it gives the same digits, and every digit is below 10000, so
-- that it is an `i16`.
pub to_base10000_ends :
    (fuel v : ℕ)
    → 0 < fuel
    → v < 10000 ^ fuel
    → v < u128_mod
    → (to_base10000 fuel v ≡ to_base10000 10 v) × All (λ d. d < 10000) (to_base10000 10 v)
to_base10000_ends fuel v p h k =
    (same_digits fuel 10 v p (omega arith) h (omega arith), digits_bounded 10 v)
