-- ===== src/Pricing/Rates.antt =====
-- pricing/pricing.go and pricing/ttlrate.go: the rates of one tier, how a token class inherits a
-- rate, and the overlay of rates for a cache lifetime.
pub mod Inherit
use muhiya_workspace.Prelude.{
  Bool, true, false, not, ◌||◌, Option, none, some, List, [], ◌∷◌, Result, ok, err, if◌then◌else◌,
}
use muhiya_workspace.Prelude.Int.{ℤ, pos, ltb_ℤ, eqb_ℤ}
use muhiya_workspace.Prelude.Text.{Text, codes, text_eq}
use muhiya_workspace.Money
use muhiya_workspace.Money.{NanoUsd}
use muhiya_workspace.Pricing.Usage.{
  TokenClass, input_fresh, output, cache_read, cache_read_5m, cache_write, cache_write_5m,
  cache_write_1h, other,
}

pub record Rates : Type 0 where
  pub input_per_million : NanoUsd
  pub output_per_million : NanoUsd
  pub cache_read_per_million : NanoUsd
  pub cache_write_per_million : NanoUsd
  pub cache_read_5m_per_million : NanoUsd
  pub cache_write_5m_per_million : NanoUsd
  pub cache_write_1h_per_million : NanoUsd

unfoldable pub first_non_zero : List NanoUsd → NanoUsd
first_non_zero [] = pos 0
first_non_zero (value ∷ values) = if not (eqb_ℤ value (pos 0)) then value else first_non_zero values

unfoldable pub effective_cache_write : Rates → NanoUsd
unfolding first_non_zero
effective_cache_write r = first_non_zero (r.cache_write_per_million ∷ r.input_per_million ∷ [])

unfoldable pub rate_for : Rates → TokenClass → NanoUsd
unfolding first_non_zero effective_cache_write
rate_for r input_fresh = r.input_per_million
rate_for r output = r.output_per_million
rate_for r cache_read = r.cache_read_per_million
rate_for r cache_read_5m =
    first_non_zero (r.cache_read_5m_per_million ∷ r.cache_read_per_million ∷ [])
rate_for r cache_write = effective_cache_write r
rate_for r cache_write_5m =
    first_non_zero (r.cache_write_5m_per_million ∷ effective_cache_write r ∷ [])
rate_for r cache_write_1h =
    first_non_zero (r.cache_write_1h_per_million ∷ effective_cache_write r ∷ [])
rate_for r (other _) = pos 0

unfoldable pub validate_rates : Rates → Result Money.Error (Unit {0})
validate_rates r =
    if ltb_ℤ r.input_per_million (pos 0)
      || ltb_ℤ r.output_per_million (pos 0)
      || ltb_ℤ r.cache_read_per_million (pos 0)
      || ltb_ℤ r.cache_write_per_million (pos 0)
      || ltb_ℤ r.cache_read_5m_per_million (pos 0)
      || ltb_ℤ r.cache_write_5m_per_million (pos 0)
      || ltb_ℤ r.cache_write_1h_per_million (pos 0)
    then err Money.negative
    else ok tt

-- A nil rate inherits; a zero rate really is zero.
pub record TtlRate : Type 0 where
  pub min_input_tokens_exclusive : Option ℤ
  pub ttl : Text
  pub cache_read_per_million : Option NanoUsd
  pub cache_write_per_million : Option NanoUsd

unfoldable pub same_threshold : Option ℤ → Option ℤ → Bool
same_threshold none none = true
same_threshold none (some _) = false
same_threshold (some _) none = false
same_threshold (some left) (some right) = eqb_ℤ left right

-- `if p != nil { field = *p }`
abbrev pub or_keep : Option NanoUsd → NanoUsd → NanoUsd
or_keep none old = old
or_keep (some value) old = value

-- the `switch rate.TTL` of `OverlayTTLRates`
unfoldable pub overlay_rate : Rates → TtlRate → Rates
overlay_rate base rate =
    if text_eq rate.ttl (codes "5m")
    then record base {
      cache_read_5m_per_million =
          or_keep rate.cache_read_per_million base.cache_read_5m_per_million;
      cache_write_5m_per_million =
          or_keep rate.cache_write_per_million base.cache_write_5m_per_million;
    }
    else if text_eq rate.ttl (codes "1h")
    then record base {
      cache_write_1h_per_million =
          or_keep rate.cache_write_per_million base.cache_write_1h_per_million;
    }
    else if text_eq rate.ttl (codes "default")
    then record base {
      cache_read_per_million = or_keep rate.cache_read_per_million base.cache_read_per_million;
      cache_write_per_million = or_keep rate.cache_write_per_million base.cache_write_per_million;
    }
    else base

-- one round of the loop
unfoldable pub overlay_step : Rates → TtlRate → Option ℤ → Rates
unfolding overlay_rate same_threshold
overlay_step base rate threshold =
    if not (same_threshold rate.min_input_tokens_exclusive threshold)
    then base
    else overlay_rate base rate

unfoldable pub overlay_ttl_rates : Rates → List TtlRate → Option ℤ → Rates
unfolding overlay_step
overlay_ttl_rates base [] threshold = base
overlay_ttl_rates base (rate ∷ rates) threshold =
    overlay_ttl_rates (overlay_step base rate threshold) rates threshold

unfoldable pub valid_ttl : Text → Bool
valid_ttl ttl =
    text_eq ttl (codes "default") || text_eq ttl (codes "5m") || text_eq ttl (codes "1h")
