-- ===== src/Float.antt =====
-- The `f64` of Rust, which the program takes rates, prices and limits in. It is not modelled: its
-- type and the operations that the program uses are a parameter.
use transactions.Prelude.{ℕ, Bool}

pub record Floats : Type 1 where
  pub F64 : Type 0
  -- `x as f64` of a `u128`, and `x as u128` of an `f64`.
  pub of_u128 : ℕ → F64
  pub to_u128 : F64 → ℕ
  pub times : F64 → F64 → F64
  pub over : F64 → F64 → F64
  -- `a < b`
  pub lt : F64 → F64 → Bool
  -- `10f64.powi(n)` and `10f64.powi(-n)`
  pub powi10 : ℕ → F64
  pub powi10_neg : ℕ → F64
  -- The literal `n / 10 ^ places`.
  pub literal : ℕ → ℕ → F64
