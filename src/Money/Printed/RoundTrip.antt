-- ===== src/Money/Printed/RoundTrip.antt =====
-- Reading back what `String` prints.
use mathlib.Core.List.{cons-ne-nil}
use mathlib.Core.Path.{subst₂}
use native.Mathlib.Decide.{ℕ_discrete}
use mathlib.Core.Option.{some-injective}
use muhiya_workspace.Prelude.{
  length, length-append, ℕ, zero, suc, ◌+◌, ◌-◌, ◌*◌, ◌/◌, ◌%◌, ◌≤◌, ◌<◌, ◌≡◌, ◌≢◌, ◌⊎◌, inl, inr,
  refl, sym, ap, ◌∙◌, none, some, [], ◌∷◌, ◌++◌, ok, err, arith,
}
use muhiya_workspace.Prelude.Int.{
  ℤ, pos, negsuc, Fits64, min_int64, wrap64, wrap64_lem, ◌-ℤ◌, -ℤ_parts, ◌-64◌,
}
use muhiya_workspace.Prelude.Text.{Text, is_empty}
use muhiya_workspace.Prelude.Ascii.{trim_left, trim_right, trim_space, has_prefix}
use muhiya_workspace.Prelude.Decimal.{
  emit, format, padded, scan, power10, emit-Digits, padded-Digits, scan-emit, scan-padded,
}
use muhiya_workspace.Money.{negative}
use muhiya_workspace.Money.Printed.{
  zeros, slice, parse_parts, parse_usd, count_zeroes, unsigned_string, string,
}
use muhiya_workspace.Money.Printed.Layout.{length-padded, count_zeroes-le, slice-++_right, refill}
use muhiya_workspace.Money.Printed.Reading.{
  split_point, split_whole, slice-Digits, Plain, Plain-Digits, Plain-point, trim_right-Plain,
  parse_usd-Plain, parse_parts_one, parse_parts_two,
}

emit-ne-nil : (fuel n : ℕ) (out : Text) → out ≢ [] → emit fuel n out ≢ []
unfolding emit
emit-ne-nil zero n out h = h
emit-ne-nil (suc fuel) n out h = ground (
  arith,
  emit-ne-nil fuel (n / 10) ((b'0' + n % 10) ∷ out) (cons-ne-nil (b'0' + n % 10) out),
  cons-ne-nil (b'0' + n) out,
)

format-ne-nil : (n : ℕ) → format n ≢ []
unfolding emit
format-ne-nil n = ground (
  arith,
  emit-ne-nil 19 (n / 10) ((b'0' + n % 10) ∷ []) (cons-ne-nil (b'0' + n % 10) []),
  cons-ne-nil (b'0' + n) [],
)

scan-format : (n : ℕ) → n ≤ 9223372036854775807 → scan (format n) 0 ≡ some n
unfolding scan power10
scan-format n h = scan-emit 20 n [] (omega arith)

-- the fraction as it is printed
abbrev trimmed : ℕ → Text
trimmed f = slice (9 - count_zeroes 9 f) (padded 9 f)

scan-zeros : (k : ℕ) → scan (zeros k) 0 ≡ some 0
unfolding scan
scan-zeros zero = refl
scan-zeros (suc k) = scan-zeros k

trimmed-ne-nil : (f : ℕ) → f < 1_000_000_000 → f ≢ 0 → trimmed f ≢ []
unfolding power10
trimmed-ne-nil f small ne e = ne (
    some-injective _ _ (
      sym (scan-padded 9 f small)
      ∙ ap (λ s. scan s 0) (sym (refill 9 f) ∙ ap (λ s. s ++ zeros (count_zeroes 9 f)) e)
      ∙ scan-zeros (count_zeroes 9 f)))

length-zeros : (k : ℕ) → length (zeros k) ≡ k
length-zeros zero = refl
length-zeros (suc k) = ap suc (length-zeros k)

length-trimmed : (f : ℕ) → length (trimmed f) + count_zeroes 9 f ≡ 9
length-trimmed f = omega (
  arith,
  length-append (trimmed f) (zeros (count_zeroes 9 f)),
  length-zeros (count_zeroes 9 f),
  length-padded 9 f,
  ap length (refill 9 f),
)

-- the sliced print is the whole part, the point and the trimmed fraction
slice-print :
    (a : Text) (f : ℕ)
    → slice (length (a ++ (b'.' ∷ padded 9 f)) - count_zeroes 9 f) (a ++ (b'.' ∷ padded 9 f))
      ≡ a ++ (b'.' ∷ trimmed f)
unfolding slice
slice-print a f =
    ap (λ m. slice m (a ++ (b'.' ∷ padded 9 f)))
      (omega (arith, length-append a (b'.' ∷ padded 9 f), length-padded 9 f, count_zeroes-le 9 f))
    ∙ slice-++_right (suc (9 - count_zeroes 9 f)) a (b'.' ∷ padded 9 f)

IsRead : ℕ → Text → Type 0
IsRead n s = (s ≢ []) × Plain s × (parse_usd s ≡ ok (pos n))

append-ne-nil : (a t : Text) → a ≢ [] → a ++ t ≢ []
append-ne-nil [] t h = absurd (h refl)
append-ne-nil (c ∷ a) t h = cons-ne-nil c (a ++ t)

whole-IsRead :
    (w : ℕ) → w * 1_000_000_000 ≤ 9223372036854775807 → IsRead (w * 1_000_000_000) (format w)
unfolding IsRead
whole-IsRead w fits =
    let digits = emit-Digits 20 w [] tt in
    let ne = format-ne-nil w in
    let plain = Plain-Digits (format w) digits in
    (
      ne,
      plain,
      parse_usd-Plain (format w) ne plain
          ∙ ap parse_parts (split_whole (format w) digits)
          ∙ parse_parts_one (format w) w ne (scan-format w (omega arith)) (omega arith),
    )

parts-IsRead :
    (w f : ℕ)
    → f ≢ 0
    → f < 1_000_000_000
    → w * 1_000_000_000 + f ≤ 9223372036854775807
    → IsRead (w * 1_000_000_000 + f) (format w ++ (b'.' ∷ trimmed f))
unfolding IsRead power10
parts-IsRead w f pos_f small fits =
    let digits = emit-Digits 20 w [] tt in
    let digits_f = slice-Digits (9 - count_zeroes 9 f) (padded 9 f) (padded-Digits 9 f) in
    let ne = append-ne-nil (format w) (b'.' ∷ trimmed f) (format-ne-nil w) in
    let plain = Plain-point (format w) (trimmed f) digits digits_f in
    (
      ne,
      plain,
      parse_usd-Plain _ ne plain
          ∙ ap parse_parts (
              split_point (format w) (trimmed f) digits
              ∙ ap (λ ps. format w ∷ ps) (split_whole (trimmed f) digits_f))
          ∙ parse_parts_two (format w) (trimmed f) w f (format-ne-nil w)
              (scan-format w (omega arith)) (trimmed-ne-nil f small pos_f) digits_f
              (omega (arith, length-trimmed f))
              (ap (λ m. scan (trimmed f ++ zeros m) 0) (omega (arith, length-trimmed f))
                ∙ ap (λ s. scan s 0) (refill 9 f)
                ∙ scan-padded 9 f small)
              (omega arith) fits,
    )

print_whole : (n : ℕ) → n % 1_000_000_000 ≡ 0 → unsigned_string n ≡ format (n / 1_000_000_000)
unfolding unsigned_string
print_whole n h = ground (arith, h)

print_parts :
    (n : ℕ)
    → n % 1_000_000_000 ≢ 0
    → unsigned_string n ≡ format (n / 1_000_000_000) ++ (b'.' ∷ trimmed (n % 1_000_000_000))
unfolding unsigned_string
print_parts n h = ground (arith, h, slice-print (format (n / 1_000_000_000)) (n % 1_000_000_000))

unsigned_string-IsRead : (n : ℕ) → n ≤ 9223372036854775807 → IsRead n (unsigned_string n)
unsigned_string-IsRead n fits = elim (ℕ_discrete (n % 1_000_000_000) 0) [
  | yes whole ↦
      subst₂ IsRead (omega arith) (sym (print_whole n whole))
        (whole-IsRead (n / 1_000_000_000) (omega arith))
  | no part ↦
      subst₂ IsRead (omega arith) (sym (print_parts n part))
        (parts-IsRead (n / 1_000_000_000) (n % 1_000_000_000) part (omega arith) (omega arith))
]

-- What `String` prints for an amount that is not negative, `ParseUSD` reads as that amount.
pub parse_usd-string :
    (n fuel : ℕ)
    → n ≤ 9223372036854775807
    → (s : Text) × (string (suc fuel) (pos n) ≡ some s) × (parse_usd s ≡ ok (pos n))
unfolding string IsRead
parse_usd-string n fuel fits = (unsigned_string n, refl, (unsigned_string-IsRead n fits).2)

negate : (n : ℕ) → n < 9223372036854775807 → pos 0 -64 negsuc n ≡ pos (suc n)
unfolding ◌-64◌
negate n h = ground (arith, wrap64_lem (pos 0 -ℤ negsuc n), -ℤ_parts (pos 0) (negsuc n))

parse_usd-minus : (s : Text) → Plain s → parse_usd (b'-' ∷ s) ≡ err negative
unfolding parse_usd trim_space trim_left trim_right has_prefix is_empty
parse_usd-minus s h = rw (trim_right-Plain s h) (ground arith)

-- A negative amount that is not the smallest is printed as a minus sign before the text of the
-- opposite amount, and is refused as negative where it is read.
pub parse_usd-string_negative :
    (n fuel : ℕ)
    → n < 9223372036854775807
    → (s : Text) × (string (suc (suc fuel)) (negsuc n) ≡ some (b'-' ∷ s))
      × (parse_usd s ≡ ok (pos (suc n)))
      × (parse_usd (b'-' ∷ s) ≡ err negative)
unfolding string IsRead
parse_usd-string_negative n fuel fits = (
  unsigned_string (suc n),
  rw (string, negate n fits) refl,
  (unsigned_string-IsRead (suc n) (omega arith)).2,
  parse_usd-minus (unsigned_string (suc n)) (unsigned_string-IsRead (suc n) (omega arith)).1,
)

-- However many calls of itself `String` may make, it returns nothing for the smallest amount: its
-- opposite is itself, so the calls never end.
pub string_min : (fuel : ℕ) → string fuel min_int64 ≡ none
unfolding string wrap64 ◌-ℤ◌
string_min zero = refl
string_min (suc fuel) = rw (string_min fuel) refl

-- For an amount that is an `int64`, `String` ends after at most one call of itself, unless the
-- amount is the smallest `int64`, for which no number of calls is enough.
pub string_returns :
    (fuel : ℕ) (z : ℤ)
    → Fits64 z
    → ((z ≢ min_int64) × (s : Text) × (string (suc (suc fuel)) z ≡ some s))
      ⊎ ((z ≡ min_int64) × (string fuel z ≡ none))
unfolding string
string_returns fuel (pos n) fits = inl ((λ e. cc), unsigned_string n, refl)
string_returns fuel (negsuc n) fits = elim (ℕ_discrete n 9223372036854775807) [
  | yes smallest ↦
      inr (ap negsuc smallest, ap (λ m. string fuel (negsuc m)) smallest ∙ string_min fuel)
  | no other ↦
      let (s, printed, _, _) = parse_usd-string_negative n fuel (omega arith) in
      inl ((λ e. other cc), b'-' ∷ s, printed)
]
