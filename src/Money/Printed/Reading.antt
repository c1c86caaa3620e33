-- ===== src/Money/Printed/Reading.antt =====
-- How a text of digits and points is read.
use mathlib.Core.List.{cons-ne-nil}
use muhiya_workspace.Prelude.{
  length, ℕ, zero, suc, ◌+◌, ◌-◌, ◌*◌, ◌≤◌, ◌≡◌, ◌≢◌, ◌⊎◌, inl, inr, refl, true, some, [], ◌∷◌,
  ◌++◌, ok, arith,
}
use muhiya_workspace.Prelude.Int.{pos}
use muhiya_workspace.Prelude.Text.{Text, is_empty}
use muhiya_workspace.Prelude.Ascii.{is_digit, trim_left, trim_right, trim_space, has_prefix}
use muhiya_workspace.Prelude.Decimal.{scan, parse_uint, split, Digits}
use muhiya_workspace.Money.Printed.{
  all_digits, zeros, slice, trim_plus, total_of, parse_whole, parse_parts, parse_usd,
}

-- A point keeps the parts apart: what stands before it is a part of its own.
pub split_point : (s t : Text) → Digits s → split b'.' (s ++ (b'.' ∷ t)) ≡ s ∷ split b'.' t
unfolding split
split_point [] t h = refl
split_point (c ∷ s) t (hc, hs) = ground (arith, split_point s t hs)

pub split_whole : (s : Text) → Digits s → split b'.' s ≡ s ∷ []
unfolding split
split_whole [] h = refl
split_whole (c ∷ s) (hc, hs) = ground (arith, split_whole s hs)

all_digits_lem : (s : Text) → Digits s → all_digits s ≡ true
unfolding all_digits
all_digits_lem [] h = refl
all_digits_lem (c ∷ s) (hc, hs) = ground (arith, all_digits_lem s hs)

pub slice-Digits : (k : ℕ) (s : Text) → Digits s → Digits (slice k s)
unfolding slice
slice-Digits zero s h = tt
slice-Digits (suc k) [] h = tt
slice-Digits (suc k) (c ∷ s) (hc, hs) = (hc, slice-Digits k s hs)

-- Every byte is a digit or a point, so none is a space or a sign.
abbrev pub Plain : Text → Type 0
Plain [] = Unit
Plain (c ∷ s) = ((is_digit c ≡ true) ⊎ (c ≡ b'.')) × Plain s

pub Plain-Digits : (s : Text) → Digits s → Plain s
Plain-Digits [] h = tt
Plain-Digits (c ∷ s) (hc, hs) = (inl hc, Plain-Digits s hs)

pub Plain-point : (s t : Text) → Digits s → Digits t → Plain (s ++ (b'.' ∷ t))
Plain-point [] t hs ht = (inr refl, Plain-Digits t ht)
Plain-point (c ∷ s) t (hc, hs) ht = (inl hc, Plain-point s t hs ht)

pub trim_right-Plain : (s : Text) → Plain s → trim_right s ≡ s
unfolding trim_right
trim_right-Plain [] h = refl
trim_right-Plain (c ∷ s) (hc, hs) = ground (arith, hc, trim_right-Plain s hs)

trim_space-Plain : (s : Text) → Plain s → trim_space s ≡ s
unfolding trim_space trim_left trim_right
trim_space-Plain [] h = refl
trim_space-Plain (c ∷ s) (hc, hs) = ground (arith, hc, trim_right-Plain (c ∷ s) (hc, hs))

trim_plus_lem : (c : ℕ) (s : Text) → (is_digit c ≡ true) ⊎ (c ≡ b'.') → trim_plus (c ∷ s) ≡ c ∷ s
trim_plus_lem c s h = ground (arith, h)

-- A text of digits and points that is not empty is read as its parts.
pub parse_usd-Plain : (s : Text) → s ≢ [] → Plain s → parse_usd s ≡ parse_parts (split b'.' s)
unfolding parse_usd has_prefix is_empty
parse_usd-Plain [] ne h = absurd (ne refl)
parse_usd-Plain (c ∷ s) ne (hc, hs) =
    rw (trim_space-Plain (c ∷ s) (hc, hs), trim_plus_lem c s hc) (ground (arith, hc))

parse_uint_lem :
    (s : Text) (n : ℕ)
    → s ≢ []
    → scan s 0 ≡ some n
    → n ≤ 18446744073709551615
    → parse_uint s ≡ some n
unfolding parse_uint
parse_uint_lem [] n ne h fits = absurd (ne refl)
parse_uint_lem (c ∷ s) n ne h fits = ground (arith, h)

parse_whole_lem :
    (s : Text) (w : ℕ) → s ≢ [] → scan s 0 ≡ some w → w ≤ 9223372036 → parse_whole s ≡ ok w
unfolding parse_whole
parse_whole_lem s w ne h fits = ground (arith, parse_uint_lem s w ne h)

total_of_lem :
    (w f : ℕ) (s : Text)
    → s ≢ []
    → scan s 0 ≡ some f
    → w * 1_000_000_000 + f ≤ 9223372036854775807
    → total_of w s ≡ ok (pos (w * 1_000_000_000 + f))
unfolding total_of
total_of_lem w f s ne h fits = ground (arith, parse_uint_lem s f ne h)

pub parse_parts_one :
    (a : Text) (w : ℕ)
    → a ≢ []
    → scan a 0 ≡ some w
    → w ≤ 9223372036
    → parse_parts (a ∷ []) ≡ ok (pos (w * 1_000_000_000))
unfolding parse_parts is_empty
parse_parts_one [] w ne h fits = absurd (ne refl)
parse_parts_one (c ∷ a) w ne h fits = rw (parse_whole_lem (c ∷ a) w ne h fits) (ground arith)

pub parse_parts_two :
    (a b : Text) (w f : ℕ)
    → a ≢ []
    → scan a 0 ≡ some w
    → b ≢ []
    → Digits b
    → length b ≤ 9
    → scan (b ++ zeros (9 - length b)) 0 ≡ some f
    → w ≤ 9223372036
    → w * 1_000_000_000 + f ≤ 9223372036854775807
    → parse_parts (a ∷ b ∷ []) ≡ ok (pos (w * 1_000_000_000 + f))
unfolding parse_parts is_empty
parse_parts_two [] b w f na ha nb db lb hb hw fits = absurd (na refl)
parse_parts_two (c ∷ a) [] w f na ha nb db lb hb hw fits = absurd (nb refl)
parse_parts_two (c ∷ a) (d ∷ b) w f na ha nb db lb hb hw fits =
    rw
      (
        parse_whole_lem (c ∷ a) w na ha hw,
        all_digits_lem (d ∷ b) db,
        total_of_lem w f ((d ∷ b) ++ zeros (9 - length (d ∷ b))) (cons-ne-nil d _) hb fits,
      )
      (ground (arith, lb))
