-- ===== src/Pricing/Usage.antt =====
-- pricing/usage.go: token classes, and an upstream's usage in the canonical shape. Counts are
-- `int64`, so sums wrap around.
pub mod Canonical
use muhiya_workspace.Prelude.{Bool, true, false, ◌||◌, List, [], ◌∷◌, if◌then◌else◌}
use muhiya_workspace.Prelude.Int.{ℤ, pos, ltb_ℤ, ◌+64◌, ◌-64◌}
use muhiya_workspace.Prelude.Text.{Text, codes, text_eq}

-- A mode is a string: `""`, one of the two known ones, or any other.
pub data PromptAccounting : Type 0 where
  unset inclusive exclusive : PromptAccounting
  unknown : Text → PromptAccounting

-- A class is a string: one of the seven known ones, or any other.
pub data TokenClass : Type 0 where
  input_fresh output cache_read cache_read_5m cache_write cache_write_5m cache_write_1h : TokenClass
  other : Text → TokenClass

pub data Anomaly : Type 0 where
  no_anomaly prompt_below_cache negative_tokens : Anomaly

pub parse_prompt_accounting : Text → PromptAccounting
parse_prompt_accounting raw = if text_eq raw (codes "exclusive") then exclusive else inclusive

-- `PromptAccounting.Valid`
unfoldable pub accounting_valid : PromptAccounting → Bool
accounting_valid inclusive = true
accounting_valid exclusive = true
accounting_valid unset = false
accounting_valid (unknown _) = false

unfoldable pub is_exclusive : PromptAccounting → Bool
is_exclusive exclusive = true
is_exclusive unset = false
is_exclusive inclusive = false
is_exclusive (unknown _) = false

-- `==` on classes
unfoldable pub class_eq : TokenClass → TokenClass → Bool
class_eq input_fresh input_fresh = true
class_eq output output = true
class_eq cache_read cache_read = true
class_eq cache_read_5m cache_read_5m = true
class_eq cache_write cache_write = true
class_eq cache_write_5m cache_write_5m = true
class_eq cache_write_1h cache_write_1h = true
class_eq (other s) (other t) = text_eq s t
class_eq _ _ = false

abbrev pub token_classes : List TokenClass
token_classes =
    input_fresh ∷ output ∷ cache_read ∷ cache_read_5m ∷ cache_write ∷ cache_write_5m
    ∷ cache_write_1h ∷ []

pub record ReportedUsage : Type 0 where
  pub prompt_tokens : ℤ
  pub output_tokens : ℤ
  pub cache_read_tokens : ℤ
  pub cache_read_5m_tokens : ℤ
  pub cache_write_tokens : ℤ
  pub cache_write_5m_tokens : ℤ
  pub cache_write_1h_tokens : ℤ

unfoldable pub cache_read_total : ReportedUsage → ℤ
cache_read_total r = r.cache_read_tokens +64 r.cache_read_5m_tokens

unfoldable pub cache_write_total : ReportedUsage → ℤ
cache_write_total r = r.cache_write_tokens +64 r.cache_write_5m_tokens +64 r.cache_write_1h_tokens

unfoldable pub has_negative : ReportedUsage → Bool
has_negative r =
    ltb_ℤ r.prompt_tokens (pos 0)
    || ltb_ℤ r.output_tokens (pos 0)
    || ltb_ℤ r.cache_read_tokens (pos 0)
    || ltb_ℤ r.cache_read_5m_tokens (pos 0)
    || ltb_ℤ r.cache_write_tokens (pos 0)
    || ltb_ℤ r.cache_write_5m_tokens (pos 0)
    || ltb_ℤ r.cache_write_1h_tokens (pos 0)

pub record Usage : Type 0 where
  pub prompt_total_tokens : ℤ
  pub fresh_input_tokens : ℤ
  pub output_tokens : ℤ
  pub cache_read_tokens : ℤ
  pub cache_read_5m_tokens : ℤ
  pub cache_write_tokens : ℤ
  pub cache_write_5m_tokens : ℤ
  pub cache_write_1h_tokens : ℤ

unfoldable pub tokens_for : Usage → TokenClass → ℤ
tokens_for u input_fresh = u.fresh_input_tokens
tokens_for u output = u.output_tokens
tokens_for u cache_read = u.cache_read_tokens
tokens_for u cache_read_5m = u.cache_read_5m_tokens
tokens_for u cache_write = u.cache_write_tokens
tokens_for u cache_write_5m = u.cache_write_5m_tokens
tokens_for u cache_write_1h = u.cache_write_1h_tokens
tokens_for u (other _) = pos 0

unfoldable pub any_negative : Usage → List TokenClass → Bool
any_negative u [] = false
any_negative u (class ∷ classes) =
    if ltb_ℤ (tokens_for u class) (pos 0) then true else any_negative u classes

-- `Usage.negative`
unfoldable pub is_negative : Usage → Bool
unfolding any_negative tokens_for
is_negative u = any_negative u token_classes || ltb_ℤ u.prompt_total_tokens (pos 0)

unfoldable pub clamp : ℤ → ℤ
clamp value = if ltb_ℤ value (pos 0) then pos 0 else value

unfoldable pub clamp_reported : ReportedUsage → ReportedUsage
unfolding clamp
clamp_reported r = record {
  prompt_tokens = clamp r.prompt_tokens;
  output_tokens = clamp r.output_tokens;
  cache_read_tokens = clamp r.cache_read_tokens;
  cache_read_5m_tokens = clamp r.cache_read_5m_tokens;
  cache_write_tokens = clamp r.cache_write_tokens;
  cache_write_5m_tokens = clamp r.cache_write_5m_tokens;
  cache_write_1h_tokens = clamp r.cache_write_1h_tokens;
}

-- the `Usage` that `NormalizeUsage` returns, of its two computed counts
abbrev usage_of : ℤ → ℤ → ReportedUsage → Usage
usage_of prompt_total fresh r = record {
  prompt_total_tokens = prompt_total;
  fresh_input_tokens = fresh;
  output_tokens = r.output_tokens;
  cache_read_tokens = r.cache_read_tokens;
  cache_read_5m_tokens = r.cache_read_5m_tokens;
  cache_write_tokens = r.cache_write_tokens;
  cache_write_5m_tokens = r.cache_write_5m_tokens;
  cache_write_1h_tokens = r.cache_write_1h_tokens;
}

-- the part of `NormalizeUsage` below the clamping of negative counts
normalize_from : ReportedUsage → PromptAccounting → Anomaly → Usage × Anomaly
unfolding cache_read_total cache_write_total is_exclusive
normalize_from r mode anomaly =
    let cached = cache_read_total r +64 cache_write_total r in
    let fresh = r.prompt_tokens -64 cached in
    if is_exclusive mode
    then (usage_of (r.prompt_tokens +64 cached) r.prompt_tokens r, anomaly)
    else if ltb_ℤ fresh (pos 0)
    then (
      usage_of cached (pos 0) r,
      elim anomaly [ no_anomaly ↦ prompt_below_cache | earlier ↦ earlier ],
    )
    else (usage_of r.prompt_tokens fresh r, anomaly)

unfoldable pub normalize_usage : ReportedUsage → PromptAccounting → Usage × Anomaly
unfolding normalize_from has_negative clamp_reported
normalize_usage reported mode =
    if has_negative reported
    then normalize_from (clamp_reported reported) mode negative_tokens
    else normalize_from reported mode no_anomaly

unfoldable pub input_usage : ℤ → Usage
input_usage prompt_tokens = record {
  prompt_total_tokens = prompt_tokens;
  fresh_input_tokens = prompt_tokens;
  output_tokens = pos 0;
  cache_read_tokens = pos 0;
  cache_read_5m_tokens = pos 0;
  cache_write_tokens = pos 0;
  cache_write_5m_tokens = pos 0;
  cache_write_1h_tokens = pos 0;
}
