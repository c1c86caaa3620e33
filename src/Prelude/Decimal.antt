-- ===== src/Prelude/Decimal.antt =====
-- Go's decimal printing and reading of natural numbers, and `strings.Split` at one byte.
use Prim.Native.Nat.{ℕ, zero, suc, ◌+◌, ◌-◌, ◌*◌, ◌/◌, ◌%◌, ◌<◌}
use mathlib.Core.Bool.{true}
use mathlib.Core.Path.{◌≡◌, ap}
use mathlib.Core.List.{List, [], ◌∷◌, ◌++◌}
use mathlib.Core.Option.{Option, none, some}
use native.Mathlib.Omega.{arith}
use muhiya_workspace.Prelude.Tests.{ltb, leb, ◌==◌, if◌then◌else◌}
use muhiya_workspace.Prelude.Text.{Text}
use muhiya_workspace.Prelude.Ascii.{is_digit}

-- the digits of `n` before `out`, for at most `fuel` digits
unfoldable pub emit : ℕ → ℕ → Text → Text
emit zero n out = out
emit (suc fuel) n out =
    let rest = emit fuel (n / 10) ((b'0' + n % 10) ∷ out) in
    if ltb n 10 then (b'0' + n) ∷ out else rest

-- `strconv.FormatInt`, `%d`: a number of 64 bits has at most twenty digits
abbrev pub format : ℕ → Text
format n = emit 20 n []

-- `%0kd`, of a number with at most `k` digits
unfoldable pub padded : ℕ → ℕ → Text
padded zero n = []
padded (suc k) n = padded k (n / 10) ++ ((b'0' + n % 10) ∷ [])

unfoldable pub scan : Text → ℕ → Option ℕ
scan [] n = some n
scan (c ∷ s) n = let rest = scan s (n * 10 + (c - b'0')) in if is_digit c then rest else none

-- `strconv.ParseUint(s, 10, 64)`
unfoldable pub parse_uint : Text → Option ℕ
unfolding scan
parse_uint [] = none
parse_uint (c ∷ s) = elim (scan (c ∷ s) 0) [
  | some n ↦ if leb n 18446744073709551615 then some n else none
  | none ↦ none
]

-- `c` is put before the first part
abbrev pub push : ℕ → List Text → List Text
push c [] = (c ∷ []) ∷ []
push c (part ∷ parts) = (c ∷ part) ∷ parts

-- `strings.Split(s, sep)`
unfoldable pub split : ℕ → Text → List Text
split sep [] = [] ∷ []
split sep (c ∷ s) = let rest = split sep s in if c == sep then [] ∷ rest else push c rest

-- `10 ^ k`
unfoldable pub power10 : ℕ → ℕ
power10 zero = 1
power10 (suc k) = 10 * power10 k

-- Every byte of the text is a digit.
abbrev pub Digits : Text → Type 0
Digits [] = Unit
Digits (c ∷ s) = (is_digit c ≡ true) × Digits s

pub Digits-++ : (s t : Text) → Digits s → Digits t → Digits (s ++ t)
Digits-++ [] t hs ht = ht
Digits-++ (c ∷ s) t (hc, hs) ht = (hc, Digits-++ s t hs ht)

is_digit_lem : (n : ℕ) → n < 10 → is_digit (b'0' + n) ≡ true
is_digit_lem n h = ground arith

pub emit-Digits : (fuel n : ℕ) (out : Text) → Digits out → Digits (emit fuel n out)
unfolding emit
emit-Digits zero n out h = h
emit-Digits (suc fuel) n out h =
    ground (arith, emit-Digits fuel (n / 10) ((b'0' + n % 10) ∷ out), is_digit_lem (n % 10))

pub padded-Digits : (k n : ℕ) → Digits (padded k n)
unfolding padded
padded-Digits zero n = tt
padded-Digits (suc k) n =
    Digits-++ (padded k (n / 10)) _ (padded-Digits k (n / 10))
      (is_digit_lem (n % 10) (omega arith), tt)

pub scan-++ : (s t : Text) (n m : ℕ) → scan s n ≡ some m → scan (s ++ t) n ≡ scan t m
unfolding scan
scan-++ [] t n m h = ground arith
scan-++ (c ∷ s) t n m h = ground (arith, scan-++ s t (n * 10 + (c - b'0')) m)

scan_last : (n : ℕ) (out : Text) → scan ((b'0' + n % 10) ∷ out) (n / 10) ≡ scan out n
unfolding scan
scan_last n out = ground arith

pub scan-emit : (fuel n : ℕ) (out : Text) → n < power10 fuel → scan (emit fuel n out) 0 ≡ scan out n
unfolding emit scan power10
scan-emit zero n out h = ground arith
scan-emit (suc fuel) n out h =
    ground (arith, scan-emit fuel (n / 10) ((b'0' + n % 10) ∷ out), scan_last n out)

pub scan-padded : (k n : ℕ) → n < power10 k → scan (padded k n) 0 ≡ some n
unfolding padded power10 scan
scan-padded zero n h = ap some (omega arith)
scan-padded (suc k) n h = cc (
  scan_last n [],
  scan-++ (padded k (n / 10)) ((b'0' + n % 10) ∷ []) 0 (n / 10)
      (scan-padded k (n / 10) (omega arith)),
)
