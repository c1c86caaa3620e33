-- ===== src/Pricing/RuleSet/Select.antt =====
-- Which tier and which window a rule set selects.
use muhiya_workspace.Prelude.{
  ◌≡◌, refl, ◌⊎◌, inl, inr, List, [], ◌∷◌, arith, All, In, All-In, Bool-cases,
}
use muhiya_workspace.Prelude.Int.{ℤ, negsuc, ◌≤ℤ◌, ◌<ℤ◌, leb_ℤ}
use muhiya_workspace.Pricing.Rates.{Rates}
use muhiya_workspace.Pricing.RuleSet.{RuleSet, Tier, select_tier, rates_for_prompt_total}
use muhiya_workspace.Pricing.RuleSet.Valid.{IsAscending, IsSound}

-- The tier that a prompt falls into, if any: its threshold is the largest one below the prompt.
abbrev pub IsTierFor : ℤ → List Tier → Tier → Type 0
IsTierFor prompt tiers t =
    In t tiers
    × (t.min_input_tokens_exclusive <ℤ prompt)
    × All
        (λ (s : Tier).
          s.min_input_tokens_exclusive <ℤ prompt
          → s.min_input_tokens_exclusive ≤ℤ t.min_input_tokens_exclusive)
        tiers

-- No tier's threshold is below the prompt.
abbrev pub BelowTiers : ℤ → List Tier → Type 0
BelowTiers prompt = All λ (s : Tier). prompt ≤ℤ s.min_input_tokens_exclusive

ascending_above :
    (low : ℤ) (tiers : List Tier)
    → IsAscending low tiers
    → All (λ (s : Tier). low <ℤ s.min_input_tokens_exclusive) tiers
ascending_above low [] h = tt
ascending_above low (t ∷ tiers) h = (h.1, lift tiers (ascending_above _ tiers h.3))
  where
    lift :
        (ss : List Tier)
        → All (λ (s : Tier). t.min_input_tokens_exclusive <ℤ s.min_input_tokens_exclusive) ss
        → All (λ (s : Tier). low <ℤ s.min_input_tokens_exclusive) ss
    lift [] a = tt
    lift (s ∷ ss) (a, as') = (omega (arith, h.1), lift ss as')

above-All :
    (prompt low : ℤ) (tiers : List Tier)
    → prompt ≤ℤ low
    → All (λ (s : Tier). low <ℤ s.min_input_tokens_exclusive) tiers
    → BelowTiers prompt tiers
above-All prompt low [] h a = tt
above-All prompt low (s ∷ tiers) h (a, rest) = (omega arith, above-All prompt low tiers h rest)

none_below :
    (prompt : ℤ) (t : Tier) (tiers : List Tier)
    → BelowTiers prompt tiers
    → All
        (λ (s : Tier).
          s.min_input_tokens_exclusive <ℤ prompt
          → s.min_input_tokens_exclusive ≤ℤ t.min_input_tokens_exclusive)
        tiers
none_below prompt t [] h = tt
none_below prompt t (s ∷ tiers) (h, rest) =
    (λ k. absurd (omega arith), none_below prompt t tiers rest)

select_tier_lem :
    (prompt : ℤ) (low : ℤ) (tiers : List Tier) (selected : Rates × ℤ)
    → IsAscending low tiers
    → ((select_tier prompt tiers selected ≡ selected) × BelowTiers prompt tiers)
      ⊎ ((t : Tier) × (select_tier prompt tiers selected ≡ (t.rates, t.min_input_tokens_exclusive))
          × IsTierFor prompt tiers t)
unfolding select_tier
select_tier_lem prompt low [] selected h = inl (refl, tt)
select_tier_lem prompt low (t ∷ tiers) selected h =
    elim (Bool-cases (leb_ℤ prompt t.min_input_tokens_exclusive)) [
      | inl stop ↦ inl (
        rw stop,
        (
          ground arith,
          above-All prompt t.min_input_tokens_exclusive tiers (ground arith)
              (ascending_above _ tiers h.3),
        ),
      )
      | inr go ↦
          rw go (elim (select_tier_lem prompt _ tiers (t.rates, t.min_input_tokens_exclusive) h.3) [
            | inl (e, below) ↦ inr (
              t,
              e,
              (inl refl, ground arith, (λ _. omega arith, none_below prompt t tiers below)),
            )
            | inr (u, e, (m, lt, top)) ↦ inr (
              u,
              e,
              (
                inr m,
                lt,
                (
                  λ _.
                      let above =
                        All-In
                          (λ (s : Tier).
                            t.min_input_tokens_exclusive <ℤ s.min_input_tokens_exclusive)
                          tiers (ascending_above _ tiers h.3) m in
                      omega arith,
                  top,
                ),
              ),
            )
          ])
    ]

-- In a valid rule set the rates are those of the tier with the largest threshold below the prompt,
-- or the base rates, marked -1, when no threshold is below it.
pub rates_for_prompt_total_lem :
    (r : RuleSet) (prompt : ℤ)
    → IsSound r
    → ((rates_for_prompt_total r prompt ≡ (r.base, negsuc 0)) × BelowTiers prompt r.tiers)
      ⊎ ((t : Tier) × (rates_for_prompt_total r prompt ≡ (t.rates, t.min_input_tokens_exclusive))
          × IsTierFor prompt r.tiers t)
unfolding rates_for_prompt_total
rates_for_prompt_total_lem r prompt v = select_tier_lem prompt _ r.tiers _ v.ascending
