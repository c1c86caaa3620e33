-- ===== src/Pricing/Usage/Canonical.antt =====
-- What `NormalizeUsage` guarantees of any reported numbers, negative and contradictory ones included.
use muhiya_workspace.Prelude.{
  Bool, true, ◌+◌, ◌≤◌, ◌<◌, ◌≡◌, ◌↔◌, false, arith, if◌then◌else◌, Bool-cases, inl, inr,
}
use muhiya_workspace.Prelude.Int.{
  ℤ, pos_part, neg_part, ◌+64◌, ◌-64◌, +64_lem, -64_lem, +ℤ_parts, -ℤ_parts,
}
use muhiya_workspace.Pricing.Usage.{
  ReportedUsage, Usage, PromptAccounting, Anomaly, no_anomaly, prompt_below_cache, negative_tokens,
  normalize_usage, normalize_from, has_negative, clamp_reported, is_exclusive, cache_read_total,
  cache_write_total,
}

-- Every reported count is at most 2^60, so that no sum of them wraps around.
pub record IsBounded (r : ReportedUsage) : Type 0 where
  pub prompt_le : pos_part r.prompt_tokens ≤ 1152921504606846976
  pub output_le : pos_part r.output_tokens ≤ 1152921504606846976
  pub read_le : pos_part r.cache_read_tokens ≤ 1152921504606846976
  pub read_5m_le : pos_part r.cache_read_5m_tokens ≤ 1152921504606846976
  pub write_le : pos_part r.cache_write_tokens ≤ 1152921504606846976
  pub write_5m_le : pos_part r.cache_write_5m_tokens ≤ 1152921504606846976
  pub write_1h_le : pos_part r.cache_write_1h_tokens ≤ 1152921504606846976

-- No reported count is negative.
pub record IsNonNegative (r : ReportedUsage) : Type 0 where
  pub prompt_ge : neg_part r.prompt_tokens ≡ 0
  pub output_ge : neg_part r.output_tokens ≡ 0
  pub read_ge : neg_part r.cache_read_tokens ≡ 0
  pub read_5m_ge : neg_part r.cache_read_5m_tokens ≡ 0
  pub write_ge : neg_part r.cache_write_tokens ≡ 0
  pub write_5m_ge : neg_part r.cache_write_5m_tokens ≡ 0
  pub write_1h_ge : neg_part r.cache_write_1h_tokens ≡ 0

-- No count is negative, and the prompt is the fresh input and the five cache classes.
pub record IsCanonical (u : Usage) : Type 0 where
  pub total_ge : neg_part u.prompt_total_tokens ≡ 0
  pub fresh_ge : neg_part u.fresh_input_tokens ≡ 0
  pub output_ge : neg_part u.output_tokens ≡ 0
  pub read_ge : neg_part u.cache_read_tokens ≡ 0
  pub read_5m_ge : neg_part u.cache_read_5m_tokens ≡ 0
  pub write_ge : neg_part u.cache_write_tokens ≡ 0
  pub write_5m_ge : neg_part u.cache_write_5m_tokens ≡ 0
  pub write_1h_ge : neg_part u.cache_write_1h_tokens ≡ 0
  pub adds_up :
      pos_part u.prompt_total_tokens
      ≡ pos_part u.fresh_input_tokens
        + pos_part u.cache_read_tokens
        + pos_part u.cache_read_5m_tokens
        + pos_part u.cache_write_tokens
        + pos_part u.cache_write_5m_tokens
        + pos_part u.cache_write_1h_tokens

-- Sums of small non-negative counts are exact.
pub +64_exact :
    (a b : ℤ)
    → neg_part a ≡ 0
    → neg_part b ≡ 0
    → pos_part a + pos_part b ≤ 9223372036854775807
    → (pos_part (a +64 b) ≡ pos_part a + pos_part b) × (neg_part (a +64 b) ≡ 0)
+64_exact a b ha hb h = ground (arith, +64_lem a b, +ℤ_parts a b)

-64_exact :
    (a b : ℤ)
    → neg_part a ≡ 0
    → neg_part b ≡ 0
    → pos_part a ≤ 9223372036854775807
    → pos_part b ≤ 9223372036854775807
    → pos_part (a -64 b) + pos_part b ≡ neg_part (a -64 b) + pos_part a
-64_exact a b ha hb h k = ground (arith, -64_lem a b, -ℤ_parts a b)

cached_exact :
    (r : ReportedUsage)
    → IsBounded r
    → IsNonNegative r
    → (pos_part (cache_read_total r +64 cache_write_total r)
        ≡ pos_part r.cache_read_tokens
          + pos_part r.cache_read_5m_tokens
          + pos_part r.cache_write_tokens
          + pos_part r.cache_write_5m_tokens
          + pos_part r.cache_write_1h_tokens)
      × (neg_part (cache_read_total r +64 cache_write_total r) ≡ 0)
unfolding cache_read_total cache_write_total
cached_exact r b n = ground (
  arith,
  +64_exact r.cache_read_tokens r.cache_read_5m_tokens,
  +64_exact r.cache_write_tokens r.cache_write_5m_tokens,
  +64_exact (r.cache_write_tokens +64 r.cache_write_5m_tokens) r.cache_write_1h_tokens,
  +64_exact (r.cache_read_tokens +64 r.cache_read_5m_tokens)
      (r.cache_write_tokens +64 r.cache_write_5m_tokens +64 r.cache_write_1h_tokens),
)

normalize_from-IsCanonical :
    (r : ReportedUsage) (mode : PromptAccounting) (earlier : Anomaly)
    → IsBounded r
    → IsNonNegative r
    → IsCanonical (normalize_from r mode earlier).0
unfolding normalize_from
normalize_from-IsCanonical r mode earlier b n =
    let cached = cache_read_total r +64 cache_write_total r in
    ground (
      arith,
      cached_exact r b n,
      +64_exact r.prompt_tokens cached,
      -64_exact r.prompt_tokens cached,
    )

clamp_reported-IsBounded : (r : ReportedUsage) → IsBounded r → IsBounded (clamp_reported r)
unfolding clamp_reported
clamp_reported-IsBounded r b = ground arith

clamp_reported-IsNonNegative : (r : ReportedUsage) → IsNonNegative (clamp_reported r)
unfolding clamp_reported
clamp_reported-IsNonNegative r = ground arith

has_negative_iff : (r : ReportedUsage) → (has_negative r ≡ false) ↔ IsNonNegative r
unfolding has_negative
has_negative_iff r = ground arith

-- Whatever an upstream reports, if no count is above 2^60, the normalised usage has no negative
-- count, and its prompt total is exactly its fresh input and its cached tokens.
pub normalize_usage-IsCanonical :
    (r : ReportedUsage) (mode : PromptAccounting)
    → IsBounded r
    → IsCanonical (normalize_usage r mode).0
unfolding normalize_usage
normalize_usage-IsCanonical r mode b = elim (Bool-cases (has_negative r)) [
  | inl bad ↦ rw bad (
      normalize_from-IsCanonical (clamp_reported r) mode negative_tokens
        (clamp_reported-IsBounded r b) (clamp_reported-IsNonNegative r))
  | inr good ↦
      rw good (normalize_from-IsCanonical r mode no_anomaly b ((has_negative_iff r).0 good))
]

-- With no anomaly every count is billed as it was reported: the output and the cache classes
-- unchanged, and the prompt number as the fresh input (exclusive mode) or the total (any other).
pub normalize_usage_keeps :
    (r : ReportedUsage) (mode : PromptAccounting)
    → (normalize_usage r mode).1 ≡ no_anomaly
    → let u = (normalize_usage r mode).0 in
      (u.output_tokens ≡ r.output_tokens)
      × (u.cache_read_tokens ≡ r.cache_read_tokens)
      × (u.cache_read_5m_tokens ≡ r.cache_read_5m_tokens)
      × (u.cache_write_tokens ≡ r.cache_write_tokens)
      × (u.cache_write_5m_tokens ≡ r.cache_write_5m_tokens)
      × (u.cache_write_1h_tokens ≡ r.cache_write_1h_tokens)
      × ((if is_exclusive mode then u.fresh_input_tokens else u.prompt_total_tokens)
          ≡ r.prompt_tokens)
unfolding normalize_usage
normalize_usage_keeps r mode h = ground arith

-- The contradiction is reported exactly when no count is negative, the mode is not exclusive, and
-- the reported prompt is smaller than the reported cached tokens.
normalize_usage_below_cache :
    (r : ReportedUsage) (mode : PromptAccounting)
    → IsBounded r
    → ((normalize_usage r mode).1 ≡ prompt_below_cache) ↔ (
        IsNonNegative r
        × (is_exclusive mode ≡ false)
        × (pos_part r.prompt_tokens
            < pos_part r.cache_read_tokens
              + pos_part r.cache_read_5m_tokens
              + pos_part r.cache_write_tokens
              + pos_part r.cache_write_5m_tokens
              + pos_part r.cache_write_1h_tokens))
unfolding normalize_usage
normalize_usage_below_cache r mode b =
    let cached = cache_read_total r +64 cache_write_total r in
    elim (Bool-cases (has_negative r)) [
      | inl bad ↦ rw bad (λ e. ground arith, λ (n, _, _). ground (arith, (has_negative_iff r).1 n))
      | inr good ↦
          let n = (has_negative_iff r).0 good in
          rw good (ground (arith, cached_exact r b n, -64_exact r.prompt_tokens cached))
    ]

abbrev pub ClassesBounded : Usage → Type 0
ClassesBounded u =
    (pos_part u.cache_read_tokens ≤ 1152921504606846976)
    × (pos_part u.cache_read_5m_tokens ≤ 1152921504606846976)
    × (pos_part u.cache_write_tokens ≤ 1152921504606846976)
    × (pos_part u.cache_write_5m_tokens ≤ 1152921504606846976)
    × (pos_part u.cache_write_1h_tokens ≤ 1152921504606846976)

if_bounded :
    (b : Bool) (x y : Usage × Anomaly)
    → ClassesBounded x.0
    → ClassesBounded y.0
    → ClassesBounded (if b then x else y).0
if_bounded true x y hx hy = hx
if_bounded false x y hx hy = hy

normalize_from_bounded :
    (r : ReportedUsage) (mode : PromptAccounting) (earlier : Anomaly)
    → IsBounded r
    → ClassesBounded (normalize_from r mode earlier).0
unfolding normalize_from
normalize_from_bounded r mode earlier b = ground (arith, b)

-- The cache classes of a usage are those that were reported, or 0 in place of a negative one.
pub normalize_usage_bounded :
    (r : ReportedUsage) (mode : PromptAccounting)
    → IsBounded r
    → ClassesBounded (normalize_usage r mode).0
unfolding normalize_usage
normalize_usage_bounded r mode b =
    if_bounded (has_negative r) _ _
      (normalize_from_bounded (clamp_reported r) mode negative_tokens
        (clamp_reported-IsBounded r b))
      (normalize_from_bounded r mode no_anomaly b)
