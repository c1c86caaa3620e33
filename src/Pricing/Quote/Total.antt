-- ===== src/Pricing/Quote/Total.antt =====
-- The cost of a quote in closed form: the sum over the token classes of one rounded-up product each,
-- refused when it is no `int64`.
use native.Mathlib.Nat.{zero-add, add_assoc}
use muhiya_workspace.Prelude.{
  ℕ, suc, zero, ◌+◌, ◌*◌, ◌≤◌, ◌≡◌, true, Option, none, some, List, [], ◌∷◌, Result, ok, err, inl,
  inr, arith, leb, All, Bool-cases,
}
use muhiya_workspace.Prelude.Int.{ℤ, pos, negsuc, pos_part, neg_part, eqb_ℤ, pos-+ℤ}
use muhiya_workspace.Money
use muhiya_workspace.Money.{NanoUsd}
use muhiya_workspace.Money.Ceil.{ceil_div, ceil_div_zero, checked, cost_for_tokens_scaled_lem}
use muhiya_workspace.Money.Checked.{add_exact}
use muhiya_workspace.Pricing.Usage.{TokenClass, Usage, tokens_for}
use muhiya_workspace.Pricing.Rates.{Rates, rate_for}
use muhiya_workspace.Pricing.Rates.Inherit
use muhiya_workspace.Pricing.Rates.Inherit.{rate_for_nonneg}
use muhiya_workspace.Pricing.Window.{Window}
use muhiya_workspace.Pricing.Window.Valid
use muhiya_workspace.Pricing.Window.Valid.{scale_for_usable}
use muhiya_workspace.Pricing.Quote.{PriceLine, scale_of, price_classes}

pub add-checked :
    (n c : ℕ)
    → n ≤ 9223372036854775807
    → c ≤ 9223372036854775807
    → Money.add (pos n) (pos c) ≡ checked (n + c)
add-checked n c hn hc = ground (arith, add_exact (pos n) (pos c), pos-+ℤ n c)

cost_checked :
    (t r n d : ℤ)
    → neg_part t ≡ 0
    → neg_part r ≡ 0
    → neg_part n ≡ 0
    → 1 ≤ pos_part d
    → Money.cost_for_tokens_scaled t r n d
      ≡ checked (ceil_div (pos_part t * pos_part r * pos_part n) (1_000_000 * pos_part d))
cost_checked (negsuc t) r n d ht hr hn hd = absurd (omega arith)
cost_checked (pos t) (negsuc r) n d ht hr hn hd = absurd (omega arith)
cost_checked (pos t) (pos r) (negsuc n) d ht hr hn hd = absurd (omega arith)
cost_checked (pos t) (pos r) (pos n) (negsuc d) ht hr hn hd = absurd (omega arith)
cost_checked (pos t) (pos r) (pos n) (pos zero) ht hr hn hd = absurd (omega arith)
cost_checked (pos t) (pos r) (pos n) (pos (suc d)) ht hr hn hd = cost_for_tokens_scaled_lem t r n d

-- A window that the quote can use; no window always can.
abbrev pub IsUsable : Option Window → Type 0
IsUsable none = Unit
IsUsable (some w) = Valid.IsValid w

pub scale_of_usable :
    (window : Option Window) (class : TokenClass)
    → IsUsable window
    → (neg_part (scale_of window class).0 ≡ 0) × (1 ≤ pos_part (scale_of window class).1)
unfolding scale_of
scale_of_usable none class u = omega arith
scale_of_usable (some w) class u = scale_for_usable w class u

abbrev pub amount_of : Result Money.Error (NanoUsd × List PriceLine) → Result Money.Error NanoUsd
amount_of (ok (total, _)) = ok total
amount_of (err e) = err e

module _ (rates : Rates) (window : Option Window) (usage : Usage) where
  -- The cost of one class: tokens * rate * numerator / (1000000 * denominator), rounded up.
  unfoldable pub class_cost : TokenClass → ℕ
  class_cost class =
      ceil_div
        (pos_part (tokens_for usage class)
          * pos_part (rate_for rates class)
          * pos_part (scale_of window class).0)
        (1_000_000 * pos_part (scale_of window class).1)

  unfoldable pub classes_cost : List TokenClass → ℕ
  classes_cost [] = 0
  classes_cost (class ∷ classes) = class_cost class + classes_cost classes

  free_class :
      (class : TokenClass) → eqb_ℤ (tokens_for usage class) (pos 0) ≡ true → class_cost class ≡ 0
  unfolding class_cost
  free_class class e =
      let none_used : pos_part (tokens_for usage class) ≡ 0 = ground arith in
      rw none_used (ground (arith, ceil_div_zero (1_000_000 * pos_part (scale_of window class).1)))

  module _ (priced : Inherit.IsNonNegative rates) (usable : IsUsable window) where
    class_priced :
        (class : TokenClass)
        → neg_part (tokens_for usage class) ≡ 0
        → Money.cost_for_tokens_scaled
            (tokens_for usage class)
            (rate_for rates class)
            (scale_of window class).0
            (scale_of window class).1
          ≡ checked (class_cost class)
    unfolding class_cost
    class_priced class h =
        let (num_ge, den_pos) = scale_of_usable window class usable in
        cost_checked _ _ _ _ h (rate_for_nonneg rates class priced) num_ge den_pos

    -- The loop's total is what it started from and the sum of the class costs, or `overflow`.
    pub price_classes_total :
        (classes : List TokenClass) (n : ℕ) (lines : List PriceLine)
        → All (λ class. neg_part (tokens_for usage class) ≡ 0) classes
        → n ≤ 9223372036854775807
        → amount_of (price_classes rates window usage classes (pos n, lines))
          ≡ checked (n + classes_cost classes)
    unfolding price_classes classes_cost
    price_classes_total [] n lines h hn = ground arith
    price_classes_total (class ∷ classes) n lines (h, hs) hn =
        elim (Bool-cases (eqb_ℤ (tokens_for usage class) (pos 0))) [
          | inl none_used ↦
              rw (none_used, free_class class none_used, zero-add)
                (price_classes_total classes n lines hs hn)
          | inr used ↦
              rw (used, class_priced class h)
                (elim (Bool-cases (leb (class_cost class) 9223372036854775807)) [
                  | inr big ↦ rw big (ground arith)
                  | inl fits ↦
                      rw (fits, add-checked n (class_cost class) hn (ground arith))
                        (elim (Bool-cases (leb (n + class_cost class) 9223372036854775807)) [
                          | inr big ↦ rw big (ground arith)
                          | inl small ↦
                              rw (small, ← add_assoc)
                                (price_classes_total classes (n + class_cost class) _ hs
                                  (ground arith))
                        ])
                ])
        ]
