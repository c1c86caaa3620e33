-- ===== src/Pricing/Quote/Search.antt =====
-- `MaxOutputTokensAt` finds the largest output allowance that the budget affords.
use muhiya_workspace.Prelude.{
  ℕ, zero, suc, ◌+◌, ◌-◌, ◌/◌, ◌<◌, ◌≤◌, ◌≡◌, ◌⊎◌, refl, true, false, Option, some, Result, ok, err,
  inl, inr, arith, leb, Bool-cases, ok-injective,
}
use muhiya_workspace.Prelude.Int.{
  ℤ, pos, negsuc, ◌+ℤ◌, ◌-ℤ◌, ◌≤ℤ◌, ltb_ℤ, leb_ℤ, ◌+64◌, ◌-64◌, +64_lem, -64_lem, +ℤ_parts,
  -ℤ_parts, eq_of_parts, quo, max_int64, wrap64,
}
use muhiya_workspace.Money
use muhiya_workspace.Money.{NanoUsd}
use muhiya_workspace.Pricing.Usage.{Usage, is_negative}
use muhiya_workspace.Pricing.Window.{Instant}
use muhiya_workspace.Pricing.Fault.{Fault, amount}
use muhiya_workspace.Pricing.RuleSet.{RuleSet}
use muhiya_workspace.Pricing.RuleSet.Valid.{IsSound, validate-IsSound}
use muhiya_workspace.Pricing.Quote.{
  Quote, quote_at, with_output, search_output, max_output_tokens_at,
}
use muhiya_workspace.Pricing.Quote.Exact.{quote_at_exact, output_cost, output_cost_mono, cost_of}

-- `mid := low + (high-low+1)/2` does not overflow below the largest `int64`.
mid_exact :
    (low high : ℕ)
    → low ≤ high
    → high < 9223372036854775807
    → pos low +64 quo (pos high -64 pos low +64 pos 1) (pos 2) ≡ pos (low + (high - low + 1) / 2)
unfolding quo
mid_exact low high h k =
    let gap : pos high -64 pos low ≡ pos (high - low) = ground (
      arith,
      -64_lem (pos high) (pos low),
      -ℤ_parts (pos high) (pos low),
      eq_of_parts (pos high -ℤ pos low) (pos (high - low)),
    ) in
    let next : pos (high - low) +64 pos 1 ≡ pos (high - low + 1) = ground (
      arith,
      +64_lem (pos (high - low)) (pos 1),
      +ℤ_parts (pos (high - low)) (pos 1),
      eq_of_parts (pos (high - low) +ℤ pos 1) (pos (high - low + 1)),
    ) in
    let half = (high - low + 1) / 2 in
    rw (gap, next)
      (ground (
        arith,
        +64_lem (pos low) (pos half),
        +ℤ_parts (pos low) (pos half),
        eq_of_parts (pos low +ℤ pos half) (pos (low + half)),
      ))

pred_exact : (m : ℕ) → 1 ≤ m → m ≤ 9223372036854775807 → pos m -64 pos 1 ≡ pos (m - 1)
pred_exact m h k = ground (
  arith,
  -64_lem (pos m) (pos 1),
  -ℤ_parts (pos m) (pos 1),
  eq_of_parts (pos m -ℤ pos 1) (pos (m - 1)),
)

-- 2 ^ k, by doubling.
abbrev pub doubled : ℕ → ℕ
doubled zero = 1
doubled (suc k) = doubled k + doubled k

with_output_nonneg :
    (input : Usage) (n : ℕ)
    → is_negative input ≡ false
    → is_negative (with_output input (pos n)) ≡ false
unfolding is_negative with_output
with_output_nonneg input n h = ground arith

quote_of_cost :
    (x : Result Fault Quote) {c : NanoUsd}
    → cost_of x ≡ ok c
    → (q : Quote) × (x ≡ ok q) × (q.cost ≡ c)
quote_of_cost (ok q) h = (q, refl, ok-injective h)
quote_of_cost (err e) h = cc

-- The three outcomes of one round.
module _ (r : RuleSet) (input : Usage) (budget : NanoUsd) (at : Instant) (rounds : ℕ)
    (low high : ℤ) where
  search_stop :
      ltb_ℤ low high ≡ false → search_output r input budget at (suc rounds) low high ≡ some (ok low)
  unfolding search_output
  search_stop stop = rw stop

  module _ {mid : ℤ} {q : Quote} (go : ltb_ℤ low high ≡ true)
      (middle : low +64 quo (high -64 low +64 pos 1) (pos 2) ≡ mid)
      (quoted : quote_at r (with_output input mid) at ≡ ok q) where
    search_raise :
        leb_ℤ q.cost budget ≡ true
        → search_output r input budget at (suc rounds) low high
          ≡ search_output r input budget at rounds mid high
    unfolding search_output
    search_raise cheap = rw (go, middle, quoted, cheap) (cc middle)

    search_lower :
        leb_ℤ q.cost budget ≡ false
        → search_output r input budget at (suc rounds) low high
          ≡ search_output r input budget at rounds low (mid -64 pos 1)
    unfolding search_output
    search_lower dear = rw (go, middle, quoted, dear) (cc middle)

module _ (r : RuleSet) (input : Usage) (at : Instant) (requested budget : ℕ) (sound : IsSound r)
    (nonneg : is_negative input ≡ false) (small : requested < 9223372036854775807)
    (fits : output_cost r input at requested ≤ 9223372036854775807) where
  -- Up to the requested allowance every quote succeeds.
  quote_within :
      (n : ℕ)
      → n ≤ requested
      → (q : Quote) × (quote_at r (with_output input (pos n)) at ≡ ok q)
        × (q.cost ≡ pos (output_cost r input at n))
  quote_within n h =
      let exact =
        quote_at_exact r (with_output input (pos n)) at sound (with_output_nonneg input n nonneg) in
      let mono = output_cost_mono r input at n requested sound h in
      let small_cost : leb (output_cost r input at n) 9223372036854775807 ≡ true = ground arith in
      quote_of_cost (quote_at r (with_output input (pos n)) at) (rw small_cost at exact)

  -- An allowance is the largest affordable one.
  abbrev IsLargest : ℕ → Type 0
  IsLargest k =
      (k ≤ requested)
      × (output_cost r input at k ≤ budget)
      × ((m : ℕ) → k < m → m ≤ requested → budget < output_cost r input at m)

  abbrev Finds : Option (Result Fault ℤ) → Type 0
  Finds found = (k : ℕ) × (found ≡ some (ok (pos k))) × IsLargest k

  affordable :
      (n : ℕ) (c : ℤ)
      → c ≡ pos (output_cost r input at n)
      → leb_ℤ c (pos budget) ≡ true
      → output_cost r input at n ≤ budget
  affordable n c e h = let h' = rw e at h in ground arith

  too_dear :
      (n m : ℕ) (c : ℤ)
      → c ≡ pos (output_cost r input at n)
      → leb_ℤ c (pos budget) ≡ false
      → n ≤ m
      → m ≤ requested
      → budget < output_cost r input at m
  too_dear n m c e h le top =
      let h' = rw e at h in ground (arith, output_cost_mono r input at n m sound le)

  search-Finds :
      (rounds low high : ℕ)
      → low ≤ high
      → high ≤ requested
      → high - low < doubled rounds
      → output_cost r input at low ≤ budget
      → ((m : ℕ) → high < m → m ≤ requested → budget < output_cost r input at m)
      → Finds (search_output r input (pos budget) at (suc rounds) (pos low) (pos high))
  search-Finds zero low high le top gap afford above =
      rw (search_stop r input (pos budget) at zero (pos low) (pos high) (ground arith))
        (low, refl, (omega arith, afford, λ m h. above m (omega arith)))
  search-Finds (suc rounds) low high le top gap afford above =
      elim (Bool-cases (ltb_ℤ (pos low) (pos high))) [
        | inr stop ↦
            rw (search_stop r input (pos budget) at (suc rounds) (pos low) (pos high) stop)
              (low, refl, (omega arith, afford, λ m h. above m (ground arith)))
        | inl go ↦
            let mid = low + (high - low + 1) / 2 in
            let (q, e, cost) = quote_within mid (ground arith) in
            let middle = mid_exact low high le (omega arith) in
            elim (Bool-cases (leb_ℤ q.cost (pos budget))) [
              | inl cheap ↦
                  rw
                    (search_raise r input (pos budget) at (suc rounds) (pos low) (pos high) go
                      middle e cheap)
                    (search-Finds rounds mid high (ground arith) top (ground arith)
                      (affordable mid q.cost cost cheap) above)
              | inr dear ↦
                  rw
                    (
                      search_lower r input (pos budget) at (suc rounds) (pos low) (pos high) go
                          middle e dear,
                      pred_exact mid (ground arith) (ground arith),
                    )
                    (search-Finds rounds low (mid - 1) (ground arith) (ground arith) (ground arith)
                      afford (λ m h k. too_dear mid m q.cost cost dear (ground arith) k))
            ]
      ]

-- On a valid rule set, a usage with no negative count, a request below the largest `int64` and a
-- budget that is not negative, where the requested allowance has a quote: the search ends within its
-- 64 rounds without an error, its answer lies within the request, it is affordable unless it is zero
-- and not even no output is, and every larger allowance within the request exceeds the budget.
pub max_output_tokens_at_largest :
    (r : RuleSet) (input : Usage) (requested budget : ℕ) (at : Instant)
    → IsSound r
    → is_negative input ≡ false
    → requested < 9223372036854775807
    → output_cost r input at requested ≤ 9223372036854775807
    → (k : ℕ) × (max_output_tokens_at r input (pos requested) (pos budget) at ≡ some (ok (pos k)))
      × (k ≤ requested)
      × ((output_cost r input at k ≤ budget) ⊎ ((k ≡ 0) × (budget < output_cost r input at 0)))
      × ((m : ℕ) → k < m → m ≤ requested → budget < output_cost r input at m)
unfolding max_output_tokens_at
max_output_tokens_at_largest r input requested budget at sound nonneg small fits =
    let (q, e, cost) =
      quote_within r input at requested budget sound nonneg small fits 0 (omega arith) in
    elim (Bool-cases (ltb_ℤ (pos budget) (pos (output_cost r input at 0)))) [
      | inl dear ↦
          rw (e, cost, dear)
            (
              0,
              ground arith,
              omega arith,
              inr (refl, ground arith),
              λ m h k. ground (arith, output_cost_mono r input at 0 m sound),
            )
      | inr cheap ↦
          let (k, found, (le, afford, above)) =
            search-Finds r input at requested budget sound nonneg small fits 63 0 requested
              (omega arith) (omega arith) (omega arith) (ground arith)
              (λ m h k. absurd (omega arith)) in
          rw (e, cost, cheap) (k, ground arith, le, inl afford, above)
    ]

negative_output : (input : Usage) (n : ℕ) → is_negative (with_output input (negsuc n)) ≡ true
unfolding is_negative with_output
negative_output input n = ground arith

quote_negative :
    (r : RuleSet) (input : Usage) (at : Instant) (n : ℕ)
    → IsSound r
    → quote_at r (with_output input (negsuc n)) at ≡ err (amount Money.negative)
unfolding quote_at
quote_negative r input at n sound = rw ((validate-IsSound r).1 sound, negative_output input n)

overflowed_middle :
    pos 0 +64 quo (max_int64 -64 pos 0 +64 pos 1) (pos 2) ≡ negsuc 4611686018427387903
unfolding ◌+64◌ ◌-64◌ ◌+ℤ◌ ◌-ℤ◌ wrap64 quo
overflowed_middle = refl

search_overflow :
    (r : RuleSet) (input : Usage) (budget : ℕ) (at : Instant) (rounds : ℕ)
    → IsSound r
    → search_output r input (pos budget) at (suc rounds) (pos 0) max_int64
      ≡ some (err (amount Money.negative))
unfolding search_output
search_overflow r input budget at rounds sound =
    rw (overflowed_middle, quote_negative r input at 4611686018427387903 sound)

-- A request of the largest `int64` overflows the first midpoint: on a valid rule set, where the base
-- quote is given and within the budget, the search asks for a quote of a negative allowance and
-- fails with `negative`.
pub max_output_tokens_at_overflow :
    (r : RuleSet) (input : Usage) (budget : ℕ) (at : Instant) {base : Quote}
    → IsSound r
    → quote_at r (with_output input (pos 0)) at ≡ ok base
    → base.cost ≤ℤ pos budget
    → max_output_tokens_at r input max_int64 (pos budget) at ≡ some (err (amount Money.negative))
unfolding max_output_tokens_at
max_output_tokens_at_overflow r input budget at {base = base} sound e h =
    let within : ltb_ℤ (pos budget) base.cost ≡ false = ground arith in
    let ge : ltb_ℤ (pos budget) (pos 0) ≡ false = ground arith in
    rw (ge, e, within) (search_overflow r input budget at 63 sound)
