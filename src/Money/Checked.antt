-- ===== src/Money/Checked.antt =====
-- Checked addition and subtraction of amounts against the integers.
use muhiya_workspace.Prelude.{◌≡◌, ◌≢◌, ok, err, if◌then◌else◌, arith}
use muhiya_workspace.Prelude.Int.{
  ℤ, pos, ◌+ℤ◌, ◌-ℤ◌, ◌*ℤ◌, min_int64, max_int64, Fits64, +64_lem, -64_lem, +ℤ_parts, -ℤ_parts,
  eq_of_parts,
}
use muhiya_workspace.Money.{overflow, add, sub, is_int64, ceil_quotient, cost_for_tokens_scaled}

-- On `int64` operands `Add` is addition of integers, refused exactly when the sum is no `int64`.
pub add_exact :
    (left right : ℤ)
    → Fits64 left
    → Fits64 right
    → add left right ≡ (if is_int64 (left +ℤ right) then ok (left +ℤ right) else err overflow)
unfolding add
add_exact left right hl hr = ground (
  arith,
  +ℤ_parts left right,
  -ℤ_parts max_int64 right,
  -ℤ_parts min_int64 right,
  +64_lem left right,
  -64_lem max_int64 right,
  -64_lem min_int64 right,
)

-- On `int64` operands `Sub` is subtraction of integers, refused exactly when the difference is no `int64`, for every
-- right operand but the least integer.
pub sub_exact :
    (left right : ℤ)
    → Fits64 left
    → Fits64 right
    → right ≢ min_int64
    → sub left right ≡ (if is_int64 (left -ℤ right) then ok (left -ℤ right) else err overflow)
unfolding sub
sub_exact left right hl hr ne = ground (
  arith,
  add_exact left (pos 0 -ℤ right) hl,
  -ℤ_parts (pos 0) right,
  +ℤ_parts left (pos 0 -ℤ right),
  -ℤ_parts left right,
  -64_lem (pos 0) right,
  eq_of_parts (left +ℤ (pos 0 -ℤ right)) (left -ℤ right),
  eq_of_parts right min_int64,
)

-- A sum that `Add` gives is the sum of the integers, and an `int64`.
pub add_ok :
    (left right : ℤ) {total : ℤ}
    → add left right ≡ ok total
    → Fits64 left
    → Fits64 right
    → (total ≡ left +ℤ right) × Fits64 total
add_ok left right h hl hr = ground (arith, add_exact left right hl hr)

quotient_fits : (n d : ℤ) {c : ℤ} → ceil_quotient n d ≡ ok c → Fits64 c
unfolding ceil_quotient
quotient_fits n d h = ground arith

-- A cost that is given is an `int64`.
pub cost_fits :
    (tokens rate num den : ℤ) {c : ℤ} → cost_for_tokens_scaled tokens rate num den ≡ ok c → Fits64 c
unfolding cost_for_tokens_scaled
cost_fits tokens rate num den {c = c} h =
    ground (arith, quotient_fits (tokens *ℤ rate *ℤ num) (pos 1_000_000 *ℤ den) {c = c})
