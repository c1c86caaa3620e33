-- ===== src/Money.antt =====
-- money/money.go: exact amounts in nano-dollars. An amount is an `int64`, kept as an integer with
-- the wrap-around of each machine operation; `big.Int` is an integer with no bound.
pub mod Ceil
pub mod Checked
pub mod Cost
pub mod Legacy
pub mod Printed
use muhiya_workspace.Prelude.{ℕ, ◌≡◌, Bool, not, ◌&&◌, ◌||◌, Result, ok, err, if◌then◌else◌, arith}
use muhiya_workspace.Prelude.Int.{
  ℤ, pos, ◌+ℤ◌, ◌*ℤ◌, ltb_ℤ, leb_ℤ, eqb_ℤ, quo, rem, max_int64, min_int64, ◌+64◌, ◌-64◌,
}

pub data Error : Type 0 where
  negative overflow invalid : Error

abbrev pub NanoUsd : Type 0
NanoUsd = ℤ

abbrev pub per_usd : NanoUsd
per_usd = pos 1_000_000_000

abbrev pub per_credit : NanoUsd
per_credit = pos 10_000_000

abbrev pub per_million : ℤ
per_million = pos 1_000_000

unfoldable pub add : NanoUsd → NanoUsd → Result Error NanoUsd
add left right =
    if ltb_ℤ (pos 0) right && ltb_ℤ (max_int64 -64 right) left
    then err overflow
    else if ltb_ℤ right (pos 0) && ltb_ℤ left (min_int64 -64 right)
    then err overflow
    else ok (left +64 right)

unfoldable pub sub : NanoUsd → NanoUsd → Result Error NanoUsd
sub left right = if eqb_ℤ right min_int64 then err overflow else add left (pos 0 -64 right)

-- `big.Int.IsInt64`
abbrev pub is_int64 : ℤ → Bool
is_int64 z = leb_ℤ min_int64 z && leb_ℤ z max_int64

unfoldable pub ceil_quotient : ℤ → ℤ → Result Error NanoUsd
ceil_quotient numerator denominator =
    let remainder = rem numerator denominator in
    let floored = quo numerator denominator in
    let quotient = if not (eqb_ℤ remainder (pos 0)) then floored +ℤ pos 1 else floored in
    if not (is_int64 quotient) then err overflow else ok quotient

unfoldable pub cost_for_tokens_scaled : ℤ → NanoUsd → ℤ → ℤ → Result Error NanoUsd
cost_for_tokens_scaled tokens rate_per_million num den =
    if ltb_ℤ num (pos 0)
    then err negative
    else if leb_ℤ den (pos 0)
    then err invalid
    else if ltb_ℤ tokens (pos 0) || ltb_ℤ rate_per_million (pos 0)
    then err negative
    else if eqb_ℤ tokens (pos 0) || eqb_ℤ rate_per_million (pos 0) || eqb_ℤ num (pos 0)
    then ok (pos 0)
    else ceil_quotient (tokens *ℤ rate_per_million *ℤ num) (per_million *ℤ den)

unfoldable pub cost_for_tokens : ℤ → NanoUsd → Result Error NanoUsd
cost_for_tokens tokens rate_per_million =
    cost_for_tokens_scaled tokens rate_per_million (pos 1) (pos 1)

unfoldable pub mul_div_ceil : ℤ → NanoUsd → ℤ → Result Error NanoUsd
mul_div_ceil units rate divisor =
    if ltb_ℤ units (pos 0) || ltb_ℤ rate (pos 0)
    then err negative
    else if leb_ℤ divisor (pos 0)
    then err invalid
    else if eqb_ℤ units (pos 0) || eqb_ℤ rate (pos 0)
    then ok (pos 0)
    else ceil_quotient (units *ℤ rate) divisor

unfoldable pub min : NanoUsd → NanoUsd → NanoUsd
min left right = if ltb_ℤ left right then left else right

unfoldable pub max : NanoUsd → NanoUsd → NanoUsd
max left right = if ltb_ℤ right left then left else right
