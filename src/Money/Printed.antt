-- ===== src/Money/Printed.antt =====
-- money/money.go: `ParseUSD`, `String` and `trailingZeroes`, an amount as a decimal text.
pub mod Layout
pub mod Reading
pub mod RoundTrip
use muhiya_workspace.Prelude.{
  length, ℕ, zero, suc, ◌+◌, ◌-◌, ◌*◌, ◌/◌, ◌%◌, Bool, true, false, not, ◌&&◌, ◌||◌, Option, none,
  some, List, [], ◌∷◌, ◌++◌, Result, ok, err, ◌>>=◌, if◌then◌else◌, leb, ltb, ◌==◌,
}
use muhiya_workspace.Prelude.Int.{ℤ, pos, negsuc, ◌-64◌}
use muhiya_workspace.Prelude.Text.{Text, codes, is_empty}
use muhiya_workspace.Prelude.Ascii.{is_digit, trim_space, has_prefix}
use muhiya_workspace.Prelude.Decimal.{format, padded, parse_uint, split}
use muhiya_workspace.Money.{Error, negative, overflow, invalid, NanoUsd}

unfoldable pub all_digits : Text → Bool
all_digits [] = true
all_digits (c ∷ s) = is_digit c && all_digits s

-- `strings.Repeat("0", n)`
abbrev pub zeros : ℕ → Text
zeros zero = []
zeros (suc n) = b'0' ∷ zeros n

-- `s[:n]`, for an `n` up to the length
unfoldable pub slice : ℕ → Text → Text
slice zero s = []
slice (suc n) [] = []
slice (suc n) (c ∷ s) = c ∷ slice n s

-- `strings.TrimPrefix(s, "+")`
abbrev pub trim_plus : Text → Text
trim_plus [] = []
trim_plus (c ∷ s) = if c == b'+' then s else c ∷ s

-- the sum of the two parts, of the nine digits of the fraction
unfoldable pub total_of : ℕ → Text → Result Error NanoUsd
unfolding parse_uint
total_of whole fraction = elim (parse_uint fraction) [
  | none ↦ err invalid
  | some fractional ↦
      let total = (whole * 1_000_000_000 + fractional) % 18446744073709551616 in
      if ltb 9223372036854775807 total then err overflow else ok (pos total)
]

unfoldable pub parse_whole : Text → Result Error ℕ
unfolding parse_uint
parse_whole part = elim (parse_uint part) [
  | none ↦ err invalid
  | some whole ↦ if ltb 9223372036 whole then err overflow else ok whole
]

-- the parts of the text at its points
unfoldable pub parse_parts : List Text → Result Error NanoUsd
unfolding parse_whole total_of all_digits is_empty
parse_parts [] = err invalid
parse_parts (integral ∷ []) =
    if is_empty integral
    then err invalid
    else do whole ← parse_whole integral; total_of whole (zeros 9)
parse_parts (integral ∷ fraction ∷ []) = if is_empty integral then err invalid else do
  whole ← parse_whole integral
  if is_empty fraction || ltb 9 (length fraction) || not (all_digits fraction)
      then err invalid
      else total_of whole (fraction ++ zeros (9 - length fraction))
parse_parts (_ ∷ _ ∷ _ ∷ _) = err invalid

unfoldable pub parse_usd : Text → Result Error NanoUsd
unfolding trim_space is_empty has_prefix parse_parts split
parse_usd raw =
    let trimmed = trim_space raw in
    let unsigned = trim_plus trimmed in
    if is_empty trimmed
    then err invalid
    else if has_prefix unsigned (codes "-")
    then err negative
    else parse_parts (split b'.' unsigned)

-- at most `n` more rounds of the loop
unfoldable pub count_zeroes : ℕ → ℕ → ℕ
count_zeroes zero fraction = 0
count_zeroes (suc n) fraction =
    let rest = count_zeroes n (fraction / 10) in if fraction % 10 == 0 then suc rest else 0

abbrev pub trailing_zeroes : ℕ → ℕ
trailing_zeroes fraction = count_zeroes 9 fraction

unfoldable pub unsigned_string : ℕ → Text
unfolding padded slice count_zeroes
unsigned_string n =
    let whole = n / 1_000_000_000 in
    let fraction = n % 1_000_000_000 in
    if fraction == 0
    then format whole
    else let printed = format whole ++ (codes "." ++ padded 9 fraction) in
      slice (length printed - trailing_zeroes fraction) printed

-- `String`, with at most `fuel` calls of itself; `none` where they are used up
unfoldable pub string : ℕ → NanoUsd → Option Text
unfolding ◌-64◌ unsigned_string
string zero n = none
string (suc fuel) (pos n) = some (unsigned_string n)
string (suc fuel) (negsuc n) = elim (string fuel (pos 0 -64 negsuc n)) [
  | some s ↦ some (codes "-" ++ s)
  | none ↦ none
]
