-- ===== src/Pricing/Quote/Audit.antt =====
-- The receipt of a quote: every line follows from the rates, the window and the usage, and the
-- total is the sum of the lines.
use mathlib.Core.Path.{subst}
use muhiya_workspace.Prelude.{
  ◌≡◌, ◌⊎◌, refl, ap, true, false, Option, some, List, [], ◌∷◌, ◌++◌, Result, ok, err, inl, inr,
  arith, All, All-append, Bool-cases, ok-injective, >>=-eq-ok,
}
use muhiya_workspace.Prelude.Int.{ℤ, pos, ◌+ℤ◌, Fits64, int_laws, eqb_ℤ}
use muhiya_workspace.Money
use muhiya_workspace.Money.{NanoUsd}
use muhiya_workspace.Money.Checked.{add_ok, cost_fits}
use muhiya_workspace.Pricing.Usage.{TokenClass, Usage, tokens_for, token_classes, is_negative}
use muhiya_workspace.Pricing.Rates.{Rates, rate_for}
use muhiya_workspace.Pricing.Fault.{Fault, amount, refuse_if, wrapped}
use muhiya_workspace.Pricing.Window.{Window, Instant, applies, scale_for}
use muhiya_workspace.Pricing.RuleSet
use muhiya_workspace.Pricing.RuleSet.{RuleSet, rates_for_prompt_total, window_for, window_id}
use muhiya_workspace.Pricing.Quote.{
  PriceLine, Quote, scale_of, price_classes, price_line, quote_at, quote_of,
}

-- The sum of the costs of the lines, over the integers.
pub line_total : List PriceLine → ℤ
line_total [] = pos 0
line_total (l ∷ lines) = l.cost +ℤ line_total lines

line_total-append :
    (lines : List PriceLine) (l : PriceLine)
    → line_total (lines ++ (l ∷ [])) ≡ line_total lines +ℤ l.cost
unfolding line_total
line_total-append [] l = omega int_laws
line_total-append (k ∷ lines) l = rw (line_total-append lines l) (omega int_laws)

module _ (rates : Rates) (window : Option Window) (usage : Usage) where
  -- A line bills the tokens of its class at the rate of its class, scaled by the window in one
  -- rounding.
  pub record IsDerived (l : PriceLine) : Type 0 where
    pub tokens_eq : l.tokens ≡ tokens_for usage l.class
    pub rate_eq : l.rate_per_million ≡ rate_for rates l.class
    pub cost_eq :
        Money.cost_for_tokens_scaled l.tokens l.rate_per_million
          (scale_of window l.class).0
          (scale_of window l.class).1
        ≡ ok l.cost

  abbrev IsAudited : NanoUsd × List PriceLine → Type 0
  IsAudited (total, lines) = Fits64 total × (total ≡ line_total lines) × All IsDerived lines

  line-IsAudited :
      (class : TokenClass) (total cost total' : NanoUsd) (lines : List PriceLine)
      → Money.cost_for_tokens_scaled
          (tokens_for usage class)
          (rate_for rates class)
          (scale_of window class).0
          (scale_of window class).1
        ≡ ok cost
      → Money.add total cost ≡ ok total'
      → IsAudited (total, lines)
      → IsAudited (
        total',
        lines ++ (price_line class (tokens_for usage class) (rate_for rates class) cost ∷ []),
      )
  line-IsAudited class total cost total' lines priced added (fits, e, derived) =
      let l = price_line class (tokens_for usage class) (rate_for rates class) cost in
      let (sum, fits') = add_ok total cost added fits (cost_fits _ _ _ _ priced) in
      (
        fits',
        rw (line_total-append lines l, sum, e),
        All-append IsDerived lines (l ∷ []) derived
            (record { tokens_eq = refl; rate_eq = refl; cost_eq = priced }, tt),
      )

  price_classes-IsAudited :
      (classes : List TokenClass) (total : NanoUsd) (lines : List PriceLine)
      (out : NanoUsd × List PriceLine)
      → price_classes rates window usage classes (total, lines) ≡ ok out
      → IsAudited (total, lines)
      → IsAudited out
  unfolding price_classes
  price_classes-IsAudited [] total lines out h a = subst IsAudited (ok-injective h) a
  price_classes-IsAudited (class ∷ classes) total lines out h a =
      elim (Bool-cases (eqb_ℤ (tokens_for usage class) (pos 0))) [
        | inl none_used ↦ price_classes-IsAudited classes total lines out (rw none_used at h) a
        | inr used ↦
            let steps =
              >>=-eq-ok
                (Money.cost_for_tokens_scaled (tokens_for usage class) (rate_for rates class)
                  (scale_of window class).0 (scale_of window class).1)
                _ (rw used at h) in
            let (cost, priced, rest) = steps in
            let (total', added, rest') = >>=-eq-ok (Money.add total cost) _ rest in
            price_classes-IsAudited classes total' _ out rest'
              (line-IsAudited class total cost total' lines priced added a)
      ]

wrapped_ok :
    {A : Type 0} (wrap : Money.Error → Fault) (m : Result Money.Error A) {a : A}
    → wrapped wrap m ≡ ok a
    → m ≡ ok a
wrapped_ok wrap (ok a) h = ap ok (ok-injective h)
wrapped_ok wrap (err e) h = cc

-- What a quote that is given was made from.
pub quote_at_ok :
    (r : RuleSet) (usage : Usage) (at : Instant) {q : Quote}
    → quote_at r usage at ≡ ok q
    → (RuleSet.validate r ≡ ok tt)
      × (is_negative usage ≡ false)
      × (out : NanoUsd × List PriceLine) × (price_classes
            (rates_for_prompt_total r usage.prompt_total_tokens).0
            (window_for r at)
            usage
            token_classes
            (pos 0, [])
          ≡ ok out)
      × (quote_of r usage at out ≡ q)
unfolding quote_at
quote_at_ok r usage at h =
    let (checked, valid, h') = >>=-eq-ok (RuleSet.validate r) _ h in
    let (_, nonneg, h'') = >>=-eq-ok (refuse_if (is_negative usage) (amount Money.negative)) _ h' in
    let (out, priced, e) =
      >>=-eq-ok
        (wrapped amount (
          price_classes (rates_for_prompt_total r usage.prompt_total_tokens).0 (window_for r at)
            usage token_classes (pos 0, [])))
        _ h'' in
    (valid, ground arith, out, wrapped_ok amount _ priced, ok-injective e)

-- A quote's cost is its receipt's total, the receipt's total is the sum of its lines, and every
-- line follows from the usage, from the rates that the quote names, and from the window of the
-- instant, in one rounding.
pub quote_at_audited :
    (r : RuleSet) (usage : Usage) (at : Instant) {q : Quote}
    → quote_at r usage at ≡ ok q
    → (q.cost ≡ q.receipt.total)
      × (q.receipt.total ≡ line_total q.receipt.lines)
      × All (IsDerived q.rates (window_for r at) usage) q.receipt.lines
unfolding quote_of
quote_at_audited r usage at h =
    let (_, _, out, priced, e) = quote_at_ok r usage at h in
    let audited =
      price_classes-IsAudited (rates_for_prompt_total r usage.prompt_total_tokens).0
        (window_for r at) usage token_classes (pos 0) [] out priced
        (omega arith, empty_total, tt) in
    rw (← e) (refl, audited.1, audited.2)
  where
    empty_total : pos 0 ≡ line_total []
    empty_total = unfold line_total in refl

unscaled :
    (rates : Rates) (w : Window) (usage : Usage) (lines : List PriceLine)
    → All (IsDerived rates (some w) usage) lines
    → All
        (λ (l : PriceLine).
          (applies w.applies_to l.class ≡ true)
          ⊎ (Money.cost_for_tokens l.tokens l.rate_per_million ≡ ok l.cost))
        lines
unfolding scale_of scale_for Money.cost_for_tokens
unscaled rates w usage [] d = tt
unscaled rates w usage (l ∷ lines) (d, ds) = (
  elim (Bool-cases (applies w.applies_to l.class)) [
    | inl covered ↦ inl covered
    | inr out ↦ inr (rw out at d.cost_eq)
  ],
  unscaled rates w usage lines ds,
)

-- The receipt of a request in a window names the window's multiplier, although every line of a class
-- that the window does not apply to was costed without it.
receipt_multiplier_unapplied :
    (r : RuleSet) (usage : Usage) (at : Instant) {q : Quote} {w : Window}
    → quote_at r usage at ≡ ok q
    → window_for r at ≡ some w
    → (q.receipt.multiplier_num ≡ w.multiplier_num)
      × (q.receipt.multiplier_den ≡ w.multiplier_den)
      × All
          (λ (l : PriceLine).
            (applies w.applies_to l.class ≡ true)
            ⊎ (Money.cost_for_tokens l.tokens l.rate_per_million ≡ ok l.cost))
          q.receipt.lines
unfolding quote_of
receipt_multiplier_unapplied r usage at {q = q} {w = w} h e =
    let (_, _, out, _, made) = quote_at_ok r usage at h in
    let derived = (quote_at_audited r usage at h).2 in
    (
      rw (← made) (rw e),
      rw (← made) (rw e),
      unscaled q.rates w usage q.receipt.lines (rw e at derived),
    )
