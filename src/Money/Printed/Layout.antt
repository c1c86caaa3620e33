-- ===== src/Money/Printed/Layout.antt =====
-- What is cut off a printed amount, and that padding puts it back.
use mathlib.Core.List.{append-nil, append_assoc}
use muhiya_workspace.Prelude.{
  length, length-append, ℕ, zero, suc, ◌+◌, ◌-◌, ◌/◌, ◌%◌, ◌≤◌, ◌≡◌, refl, ap, ◌∙◌, [], ◌∷◌, ◌++◌,
  arith,
}
use muhiya_workspace.Prelude.Text.{Text}
use muhiya_workspace.Prelude.Decimal.{padded}
use muhiya_workspace.Money.Printed.{zeros, slice, count_zeroes}

pub length-padded : (k n : ℕ) → length (padded k n) ≡ k
unfolding padded
length-padded zero n = refl
length-padded (suc k) n =
    ground
      (arith, length-append (padded k (n / 10)) ((b'0' + n % 10) ∷ []), length-padded k (n / 10))

pub count_zeroes-le : (k n : ℕ) → count_zeroes k n ≤ k
unfolding count_zeroes
count_zeroes-le zero n = omega arith
count_zeroes-le (suc k) n = ground (arith, count_zeroes-le k (n / 10))

slice-++_left : (k : ℕ) (s t : Text) → k ≤ length s → slice k (s ++ t) ≡ slice k s
unfolding slice
slice-++_left zero s t h = refl
slice-++_left (suc k) [] t h = ground arith
slice-++_left (suc k) (c ∷ s) t h = ground (arith, slice-++_left k s t)

suc_add : (a b : ℕ) → suc a + b ≡ suc (a + b)
suc_add a b = omega arith

pub slice-++_right : (k : ℕ) (s t : Text) → slice (length s + k) (s ++ t) ≡ s ++ slice k t
unfolding slice
slice-++_right k [] t = ap (λ m. slice m t) (omega arith)
slice-++_right k (c ∷ s) t =
    ap (λ m. slice m (c ∷ (s ++ t))) (suc_add (length s) k) ∙ ap (λ r. c ∷ r) (slice-++_right k s t)

slice_full : (s : Text) → slice (length s) s ≡ s
unfolding slice
slice_full [] = refl
slice_full (c ∷ s) = ground (arith, slice_full s)

zeros_snoc : (k : ℕ) → zeros k ++ (b'0' ∷ []) ≡ zeros (suc k)
zeros_snoc zero = refl
zeros_snoc (suc k) = ground (arith, zeros_snoc k)

sub_suc : (k t : ℕ) → suc k - suc t ≡ k - t
sub_suc k t = omega arith

refill_zero :
    (k t : ℕ) (s : Text)
    → length s ≡ k
    → t ≤ k
    → slice (k - t) s ++ zeros t ≡ s
    → slice (suc k - suc t) (s ++ (b'0' ∷ [])) ++ zeros (suc t) ≡ s ++ (b'0' ∷ [])
refill_zero k t s hk ht ih = cc (
  sub_suc k t,
  slice-++_left (k - t) s (b'0' ∷ []) (omega arith),
  zeros_snoc t,
  append_assoc (slice (k - t) s) (zeros t) (b'0' ∷ []),
  ih,
)

length_snoc : (k c : ℕ) (s : Text) → length s ≡ k → length (s ++ (c ∷ [])) ≡ suc k
length_snoc k c s h = omega (arith, length-append s (c ∷ []))

refill_other :
    (k c : ℕ) (s : Text) → length s ≡ k → slice (suc k) (s ++ (c ∷ [])) ++ [] ≡ s ++ (c ∷ [])
refill_other k c s h =
    cc (append-nil (slice (suc k) (s ++ (c ∷ []))), slice_full (s ++ (c ∷ [])), length_snoc k c s h)

-- The trailing zeros that are cut off are those that the reader puts back.
pub refill :
    (k n : ℕ) → slice (k - count_zeroes k n) (padded k n) ++ zeros (count_zeroes k n) ≡ padded k n
unfolding padded count_zeroes slice
refill zero n = refl
refill (suc k) n = ground (
  arith,
  refill_zero k (count_zeroes k (n / 10)) (padded k (n / 10)) (length-padded k (n / 10))
      (count_zeroes-le k (n / 10)) (refill k (n / 10)),
  refill_other k (b'0' + n % 10) (padded k (n / 10)) (length-padded k (n / 10)),
)
