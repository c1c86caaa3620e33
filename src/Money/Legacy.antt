-- ===== src/Money/Legacy.antt =====
-- money/money.go: the conversions between exact amounts and the floating-point amounts of older
-- records and of the admin interface.
use muhiya_workspace.Prelude.{◌||◌, Result, ok, err, if◌then◌else◌}
use muhiya_workspace.Prelude.Int.{max_int64}
use muhiya_workspace.Prelude.Float.{Float}
use muhiya_workspace.Money.{Error, negative, overflow, invalid, NanoUsd, per_usd, per_credit}

module _ (f : Float) where
  open f use {Value, zero, is_nan, is_inf, lt, mul, div, round, of_int64, to_int64}

  unfoldable pub from_usd : Value → Result Error NanoUsd
  from_usd value =
      let scaled = mul value (of_int64 per_usd) in
      if is_nan value || is_inf value
      then err invalid
      else if lt value zero
      then err negative
      else if lt (of_int64 max_int64) scaled
      then err overflow
      else ok (to_int64 (round scaled))

  unfoldable pub from_credits : Value → Result Error NanoUsd
  from_credits credits =
      let scaled = mul credits (of_int64 per_credit) in
      if is_nan credits || is_inf credits
      then err invalid
      else if lt credits zero
      then err negative
      else if lt (of_int64 max_int64) scaled
      then err overflow
      else ok (to_int64 (round scaled))

  unfoldable pub usd : NanoUsd → Value
  usd n = div (of_int64 n) (of_int64 per_usd)

  unfoldable pub credits : NanoUsd → Value
  credits n = div (of_int64 n) (of_int64 per_credit)
