-- ===== src/Money/Ceil.antt =====
-- The single rounding point of every price: the least whole nano-dollar that covers the exact cost.
use muhiya_workspace.Prelude.{
  ℕ, suc, ◌+◌, ◌*◌, ◌/◌, ◌%◌, ◌≤◌, ◌<◌, ◌≡◌, Result, ok, err, if◌then◌else◌, arith, leb, ◌==◌,
}
use muhiya_workspace.Prelude.Int.{ℤ, pos, quo, rem, ◌+ℤ◌, pos-*ℤ}
use muhiya_workspace.Money.{Error, overflow, ceil_quotient, cost_for_tokens_scaled}

-- `q` is n / d rounded up.
abbrev pub IsCeil : ℕ → ℕ → ℕ → Type 0
IsCeil n d q = (n ≤ q * d) × (q * d < n + d)

unfoldable pub ceil_div : ℕ → ℕ → ℕ
ceil_div n d = if n % d == 0 then n / d else n / d + 1

pub ceil_div-IsCeil : (n d : ℕ) → 0 < d → IsCeil n d (ceil_div n d)
unfolding ceil_div
ceil_div-IsCeil n d h = grind arith

pub ceil_least : (n d q m : ℕ) → IsCeil n d q → n ≤ m * d → q ≤ m
ceil_least n d q m h k = grind arith

pub ceil_mono : (n m d q r : ℕ) → IsCeil n d q → IsCeil m d r → n ≤ m → q ≤ r
ceil_mono n m d q r h k l = ceil_least n d q r h (omega arith)

-- an amount that is no larger than the largest `int64`
abbrev pub checked : ℕ → Result Error ℤ
checked n = if leb n 9223372036854775807 then ok (pos n) else err overflow

pub ceil_div_zero : (d : ℕ) → ceil_div 0 d ≡ 0
unfolding ceil_div
ceil_div_zero d = ground arith

pub ceil_quotient_lem : (n d : ℕ) → ceil_quotient (pos n) (pos d) ≡ checked (ceil_div n d)
unfolding ceil_quotient ceil_div quo rem ◌+ℤ◌
ceil_quotient_lem n d = ground arith

pub cost_for_tokens_scaled_lem :
    (tokens rate num d : ℕ)
    → cost_for_tokens_scaled (pos tokens) (pos rate) (pos num) (pos (suc d))
      ≡ checked (ceil_div (tokens * rate * num) (1_000_000 * suc d))
unfolding cost_for_tokens_scaled
cost_for_tokens_scaled_lem tokens rate num d = ground (
  arith,
  pos-*ℤ tokens rate,
  pos-*ℤ (tokens * rate) num,
  pos-*ℤ 1_000_000 (suc d),
  ceil_quotient_lem (tokens * rate * num) (1_000_000 * suc d),
  ceil_div_zero (1_000_000 * suc d),
)
