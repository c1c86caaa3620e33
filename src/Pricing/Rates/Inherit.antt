-- ===== src/Pricing/Rates/Inherit.antt =====
-- Which rate a token class is billed at, and what the overlay of cache lifetimes does to it.
use muhiya_workspace.Prelude.{
  ◌≡◌, refl, ◌↔◌, ◌⊎◌, ◌≢◌, ◌++◌, All, true, false, Option, some, List, [], ◌∷◌, ok, arith,
}
use muhiya_workspace.Prelude.Int.{ℤ, pos, neg_part, eq_of_parts}
use muhiya_workspace.Prelude.Text.{codes, text_eq}
use muhiya_workspace.Pricing.Usage.{
  TokenClass, input_fresh, output, cache_read_5m, cache_write, cache_write_5m, cache_write_1h,
}
use muhiya_workspace.Pricing.Rates.{
  Rates, TtlRate, rate_for, validate_rates, overlay_ttl_rates, overlay_step, same_threshold,
}

-- No rate is negative.
pub record IsNonNegative (r : Rates) : Type 0 where
  pub input_ge : neg_part r.input_per_million ≡ 0
  pub output_ge : neg_part r.output_per_million ≡ 0
  pub read_ge : neg_part r.cache_read_per_million ≡ 0
  pub write_ge : neg_part r.cache_write_per_million ≡ 0
  pub read_5m_ge : neg_part r.cache_read_5m_per_million ≡ 0
  pub write_5m_ge : neg_part r.cache_write_5m_per_million ≡ 0
  pub write_1h_ge : neg_part r.cache_write_1h_per_million ≡ 0

pub validate_rates_iff : (r : Rates) → (validate_rates r ≡ ok tt) ↔ IsNonNegative r
unfolding validate_rates
validate_rates_iff r = ground arith

pub rate_for_nonneg :
    (r : Rates) (class : TokenClass) → IsNonNegative r → neg_part (rate_for r class) ≡ 0
unfolding rate_for
rate_for_nonneg r input_fresh n = n.input_ge
rate_for_nonneg r output n = n.output_ge
rate_for_nonneg r _ n = ground arith

-- Cache writes of any lifetime are free only if input is free too.
pub rate_for_write_free :
    (r : Rates) (class : TokenClass)
    → (class ≡ cache_write) ⊎ (class ≡ cache_write_5m) ⊎ (class ≡ cache_write_1h)
    → rate_for r class ≡ pos 0
    → r.input_per_million ≡ pos 0
unfolding rate_for
rate_for_write_free r class h e = ground arith

-- An operator's explicit zero for five-minute cache reads does not make them free: it is read as
-- no rate, and the default cache-read rate is billed.
overlay_zero_inherits :
    (base : Rates) (rate : TtlRate) (threshold : Option ℤ)
    → same_threshold rate.min_input_tokens_exclusive threshold ≡ true
    → rate.ttl ≡ codes "5m"
    → rate.cache_read_per_million ≡ some (pos 0)
    → rate_for (overlay_ttl_rates base (rate ∷ []) threshold) cache_read_5m
      ≡ base.cache_read_per_million
unfolding overlay_ttl_rates rate_for text_eq
overlay_zero_inherits base rate threshold h e z = rw (h, e, z) (ground arith)

-- Rates for another threshold than the one asked for change nothing.
pub overlay_other_tiers :
    (base : Rates) (rates : List TtlRate) (threshold : Option ℤ)
    → All
        (λ (rate : TtlRate). same_threshold rate.min_input_tokens_exclusive threshold ≡ false)
        rates
    → overlay_ttl_rates base rates threshold ≡ base
unfolding overlay_ttl_rates
overlay_other_tiers base [] threshold h = refl
overlay_other_tiers base (rate ∷ rates) threshold (h, hs) =
    rw h (overlay_other_tiers base rates threshold hs)

-- A non-zero five-minute read rate that is configured last for a threshold is the one billed.
pub overlay_last_wins :
    (base : Rates) (rates : List TtlRate) (rate : TtlRate) (threshold : Option ℤ) {value : ℤ}
    → same_threshold rate.min_input_tokens_exclusive threshold ≡ true
    → rate.ttl ≡ codes "5m"
    → rate.cache_read_per_million ≡ some value
    → value ≢ pos 0
    → rate_for (overlay_ttl_rates base (rates ++ (rate ∷ [])) threshold) cache_read_5m ≡ value
unfolding overlay_ttl_rates rate_for text_eq
overlay_last_wins base [] rate threshold {value = v} h e z ne =
    rw (h, e, z) (ground (arith, eq_of_parts v (pos 0)))
overlay_last_wins base (first ∷ rates) rate threshold h e z ne =
    overlay_last_wins (overlay_step base first threshold) rates rate threshold h e z ne
