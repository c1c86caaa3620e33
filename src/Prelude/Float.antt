-- ===== src/Prelude/Float.antt =====
-- Go's `float64`, as a parameter: the operations on it that the code uses.
use mathlib.Core.Bool.{Bool}
use muhiya_workspace.Prelude.Int.{ℤ}

pub record Float : Type 1 where
  pub Value : Type 0
  pub zero : Value
  pub is_nan : Value → Bool
  pub is_inf : Value → Bool
  pub lt : Value → Value → Bool
  pub eq : Value → Value → Bool
  pub mul : Value → Value → Value
  pub div : Value → Value → Value
  pub round : Value → Value
  pub of_int64 : ℤ → Value
  pub to_int64 : Value → ℤ
