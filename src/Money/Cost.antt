-- ===== src/Money/Cost.antt =====
-- What a token or duration cost is: one rounding up of the exact product, never free, never negative.
use native.Mathlib.Nat.{mul-le-mul, le_refl}
use muhiya_workspace.Prelude.{ℕ, zero, suc, ◌*◌, ◌≤◌, ◌<◌, ◌≡◌, ok, arith}
use muhiya_workspace.Prelude.Int.{ℤ, pos, ◌≤ℤ◌, ◌<ℤ◌, pos-*ℤ}
use muhiya_workspace.Money.{cost_for_tokens_scaled, cost_for_tokens, mul_div_ceil}
use muhiya_workspace.Money.Ceil.{
  IsCeil, ceil_div, ceil_div-IsCeil, ceil_div_zero, ceil_least, checked, ceil_quotient_lem,
  cost_for_tokens_scaled_lem,
}

-- On non-negative operands and a positive denominator the cost is the least whole amount that
-- covers tokens * rate * num / (1000000 * den), or `overflow` if that amount is no `int64`.
pub cost_for_tokens_scaled_least :
    (tokens rate num den : ℕ)
    → 0 < den
    → (q : ℕ) × IsCeil (tokens * rate * num) (1_000_000 * den) q
      × (cost_for_tokens_scaled (pos tokens) (pos rate) (pos num) (pos den) ≡ checked q)
cost_for_tokens_scaled_least tokens rate num zero h = elim h [ ]
cost_for_tokens_scaled_least tokens rate num (suc d) h = (
  ceil_div (tokens * rate * num) (1_000_000 * suc d),
  ceil_div-IsCeil _ _ (omega arith),
  cost_for_tokens_scaled_lem tokens rate num d,
)

-- A cost is only ever given for non-negative tokens, rate and numerator and a positive denominator.
pub cost_for_tokens_scaled_domain :
    (tokens rate num den : ℤ) {c : ℤ}
    → cost_for_tokens_scaled tokens rate num den ≡ ok c
    → (pos 0 ≤ℤ tokens) × (pos 0 ≤ℤ rate) × (pos 0 ≤ℤ num) × (pos 0 <ℤ den)
unfolding cost_for_tokens_scaled
cost_for_tokens_scaled_domain tokens rate num den h = ground arith

pub mul_div_ceil_lem :
    (units rate d : ℕ)
    → mul_div_ceil (pos units) (pos rate) (pos (suc d)) ≡ checked (ceil_div (units * rate) (suc d))
unfolding mul_div_ceil
mul_div_ceil_lem units rate d =
    ground
      (arith, pos-*ℤ units rate, ceil_quotient_lem (units * rate) (suc d), ceil_div_zero (suc d))

pub scale_once-le :
    (t r n d big q once : ℕ)
    → IsCeil (r * n) d big
    → IsCeil (t * big) 1_000_000 q
    → IsCeil (t * r * n) (1_000_000 * d) once
    → once ≤ q
scale_once-le t r n d big q once hb hq ho =
    ceil_least (t * r * n) (1_000_000 * d) once q ho
      (omega (arith, mul-le-mul (le_refl t) hb.0, mul-le-mul hq.0 (le_refl d)))

-- Scaling inside the one rounding never costs more than rounding the scaled rate first, whenever
-- all three calculations succeed.
pub cost_for_tokens_scaled_once :
    (t r n d : ℕ) {once twice : ℤ} {scaled : ℕ}
    → 0 < d
    → cost_for_tokens_scaled (pos t) (pos r) (pos n) (pos d) ≡ ok once
    → mul_div_ceil (pos r) (pos n) (pos d) ≡ ok (pos scaled)
    → cost_for_tokens (pos t) (pos scaled) ≡ ok twice
    → once ≤ℤ twice
unfolding cost_for_tokens
cost_for_tokens_scaled_once t r n zero h e1 e2 e3 = elim h [ ]
cost_for_tokens_scaled_once t r n (suc d) {scaled = s} h e1 e2 e3 = ground (
  arith,
  cost_for_tokens_scaled_lem t r n d,
  cost_for_tokens_scaled_lem t s 1 0,
  mul_div_ceil_lem r n d,
  ceil_div-IsCeil (r * n) (suc d),
  ceil_div-IsCeil (t * s) 1_000_000,
  ceil_div-IsCeil (t * r * n) (1_000_000 * suc d),
  scale_once-le t r n (suc d) (ceil_div (r * n) (suc d)) (ceil_div (t * s) 1_000_000)
      (ceil_div (t * r * n) (1_000_000 * suc d)),
)
