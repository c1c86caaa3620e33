-- ===== src/Tests/Money.antt =====
-- Amounts of money.
use muhiya_workspace.Prelude.{◌≢◌, ℕ, ◌*◌, ◌≡◌, refl, arith, ok}
use muhiya_workspace.Prelude.Int.{pos, min_int64, ◌+ℤ◌, ◌*ℤ◌, quo, rem}
use muhiya_workspace.Money.{cost_for_tokens, cost_for_tokens_scaled, mul_div_ceil, ceil_quotient}
use muhiya_workspace.Money.Ceil.{IsCeil, checked}
use muhiya_workspace.Prelude.{◌≢◌, some, none, ◌⊎◌}
use muhiya_workspace.Prelude.Text.{Text, codes}
use muhiya_workspace.Prelude.Decimal.{emit, padded}
use muhiya_workspace.Money.Printed.{string, parse_usd, slice, count_zeroes}
use muhiya_workspace.Money.Printed.RoundTrip.{parse_usd-string, string_returns}
use muhiya_workspace.Money.Cost.{cost_for_tokens_scaled_least}

-- Three tokens at half of 500,001 per million.
cost_for_tokens_scaled_least_example :
    (q : ℕ) × IsCeil (3 * 500_001 * 1) (1_000_000 * 2) q
    × (cost_for_tokens_scaled (pos 3) (pos 500_001) (pos 1) (pos 2) ≡ checked q)
cost_for_tokens_scaled_least_example = cost_for_tokens_scaled_least 3 500_001 1 2 (omega arith)

-- Two million tokens at half of 3 per million: 3 in one rounding, 4 when the rate is rounded first.
once_cost : cost_for_tokens_scaled (pos 2_000_000) (pos 3) (pos 1) (pos 2) ≡ ok (pos 3)
unfolding cost_for_tokens_scaled ceil_quotient rem ◌*ℤ◌ quo
once_cost = refl

scaled_rate : mul_div_ceil (pos 3) (pos 1) (pos 2) ≡ ok (pos 2)
unfolding mul_div_ceil ceil_quotient rem ◌*ℤ◌ ◌+ℤ◌ quo
scaled_rate = refl

twice_cost : cost_for_tokens (pos 2_000_000) (pos 2) ≡ ok (pos 4)
unfolding cost_for_tokens cost_for_tokens_scaled ceil_quotient rem ◌*ℤ◌ quo
twice_cost = refl

-- A dollar and a quarter of a cent.
printed : string 1 (pos 1_002_500_000) ≡ some (codes "1.0025")
unfolding string emit padded slice count_zeroes
printed = refl

parse_usd-string_example :
    (s : Text) × (string 1 (pos 1_002_500_000) ≡ some s) × (parse_usd s ≡ ok (pos 1_002_500_000))
parse_usd-string_example = parse_usd-string 1_002_500_000 0 (omega arith)

string_returns_example :
    ((min_int64 ≢ min_int64) × (s : Text) × (string 5 min_int64 ≡ some s))
    ⊎ ((min_int64 ≡ min_int64) × (string 3 min_int64 ≡ none))
string_returns_example = string_returns 3 min_int64 (omega arith, omega arith)
