-- ===== src/Reported.antt =====
-- proxy/translator.go and proxy/handler.go: the counts of tokens that an upstream reports, in either
-- dialect, and what of them is priced. An `int` is an `int64`.
pub mod Once
use muhiya_workspace.Prelude.{Bool, true, false, not, ◌&&◌, ◌||◌, Option, none, some, if◌then◌else◌}
use muhiya_workspace.Prelude.Int.{ℤ, pos, ltb_ℤ, ◌-64◌}
use muhiya_workspace.Prelude.Text.{Text, codes}
use muhiya_workspace.Prelude.Json
use muhiya_workspace.Prelude.Json.{Json, Fields, obj, float}
use muhiya_workspace.Thinking.{UpstreamFamily, fam_minimax, classify_upstream}
use muhiya_workspace.Pricing.Usage.{ReportedUsage}

pub record PromptDetails : Type 0 where
  pub cached_tokens : ℤ
  pub cache_write_tokens : ℤ

-- `OpenAIUsage`; of the details of the completion only the reasoning tokens are read
pub record OpenaiUsage : Type 0 where
  pub prompt_tokens : ℤ
  pub completion_tokens : ℤ
  pub total_tokens : ℤ
  pub prompt_details : Option PromptDetails
  pub prompt_cache_hit_tokens : ℤ
  pub prompt_cache_miss_tokens : ℤ
  pub reasoning_details : Option ℤ
  pub cache_write_tokens : ℤ
  pub cache_write_5m_tokens : ℤ
  pub cache_write_1h_tokens : ℤ

abbrev clamp_reasoning : ℤ → ℤ → ℤ
clamp_reasoning completion reasoning =
    if ltb_ℤ reasoning (pos 0)
    then pos 0
    else if ltb_ℤ (pos 0) completion && ltb_ℤ completion reasoning
    then completion
    else reasoning

unfoldable pub reasoning_tokens_reported : Option OpenaiUsage → ℤ
reasoning_tokens_reported none = pos 0
reasoning_tokens_reported (some u) = elim u.reasoning_details [
  | none ↦ pos 0
  | some reasoning ↦ clamp_reasoning u.completion_tokens reasoning
]

unfoldable pub cache_write_tokens_reported : Option OpenaiUsage → ℤ
cache_write_tokens_reported none = pos 0
cache_write_tokens_reported (some u) = elim u.prompt_details [
  | none ↦ u.cache_write_tokens
  | some details ↦
      if ltb_ℤ (pos 0) details.cache_write_tokens
      then details.cache_write_tokens
      else u.cache_write_tokens
]

-- what is left of a total of cache writes when those of the two lifetimes are taken off
unfoldable pub flat_writes : ℤ → ℤ → ℤ → ℤ
flat_writes total five_minute one_hour =
    let flat = total -64 five_minute -64 one_hour in if ltb_ℤ flat (pos 0) then pos 0 else flat

-- `CacheWriteTokensByTTL`: flat, five minutes, one hour
unfoldable pub cache_write_tokens_by_ttl : Option OpenaiUsage → ℤ × ℤ × ℤ
unfolding flat_writes cache_write_tokens_reported
cache_write_tokens_by_ttl none = (pos 0, pos 0, pos 0)
cache_write_tokens_by_ttl (some u) = (
  flat_writes (cache_write_tokens_reported (some u)) u.cache_write_5m_tokens
      u.cache_write_1h_tokens,
  u.cache_write_5m_tokens,
  u.cache_write_1h_tokens,
)

unfoldable pub cache_read_tokens : Option OpenaiUsage → ℤ
cache_read_tokens none = pos 0
cache_read_tokens (some u) =
    let read : ℤ = elim u.prompt_details [ none ↦ pos 0 | some details ↦ details.cached_tokens ] in
    if ltb_ℤ read u.prompt_cache_hit_tokens then u.prompt_cache_hit_tokens else read

abbrev pub is_minimax : UpstreamFamily → Bool
is_minimax fam_minimax = true
is_minimax _ = false

-- `minimaxCacheThresholdTokens`
abbrev pub minimax_cache_threshold_tokens : ℤ
minimax_cache_threshold_tokens = pos 512

unfoldable pub cache_read_tokens_for : Option OpenaiUsage → Text → Text → ℤ
unfolding cache_read_tokens classify_upstream
cache_read_tokens_for none base_url target_model = pos 0
cache_read_tokens_for (some u) base_url target_model =
    let read = cache_read_tokens (some u) in
    if not (is_minimax (classify_upstream base_url target_model))
    then read
    else if ltb_ℤ u.prompt_tokens minimax_cache_threshold_tokens
    then pos 0
    else if ltb_ℤ u.prompt_tokens read
    then u.prompt_tokens
    else read

unfoldable pub cache_miss_tokens_for : Option OpenaiUsage → Text → Text → Option ℤ
unfolding cache_read_tokens_for classify_upstream
cache_miss_tokens_for none base_url target_model = none
cache_miss_tokens_for (some u) base_url target_model =
    if ltb_ℤ (pos 0) u.prompt_cache_miss_tokens
    then some u.prompt_cache_miss_tokens
    else if not (is_minimax (classify_upstream base_url target_model))
        || ltb_ℤ u.prompt_tokens minimax_cache_threshold_tokens
    then none
    else elim u.prompt_details [
      | none ↦ none
      | some _ ↦ some (u.prompt_tokens -64 cache_read_tokens_for (some u) base_url target_model)
    ]

-- what an Anthropic upstream, whose answer is streamed to an OpenAI client, has reported at its end
unfoldable pub openai_reported_usage : OpenaiUsage → ReportedUsage
unfolding cache_write_tokens_by_ttl cache_read_tokens
openai_reported_usage u =
    let writes = cache_write_tokens_by_ttl (some u) in
    record {
      prompt_tokens = u.prompt_tokens;
      output_tokens = u.completion_tokens;
      cache_read_tokens = cache_read_tokens (some u);
      cache_read_5m_tokens = pos 0;
      cache_write_tokens = writes.0;
      cache_write_5m_tokens = writes.1;
      cache_write_1h_tokens = writes.2;
    }

pub record AnthropicUsage : Type 0 where
  pub input_tokens : ℤ
  pub output_tokens : ℤ
  pub cache_read_input_tokens : ℤ
  pub cache_creation_input_tokens : ℤ
  pub cache_creation_5m_input_tokens : ℤ
  pub cache_creation_1h_input_tokens : ℤ

pub record CacheCreation : Type 0 where
  pub ephemeral_5m_input_tokens : ℤ
  pub ephemeral_1h_input_tokens : ℤ

unfoldable pub apply_cache_creation : AnthropicUsage → Option CacheCreation → AnthropicUsage
apply_cache_creation u none = u
apply_cache_creation u (some breakdown) = record u {
  cache_creation_5m_input_tokens = breakdown.ephemeral_5m_input_tokens;
  cache_creation_1h_input_tokens = breakdown.ephemeral_1h_input_tokens;
}

-- the field where it is a decoded number, else 0
unfoldable pub count_field : Text → Fields → ℤ
unfolding Json.get
count_field k fields = elim (Json.get k fields) [ some (float n) ↦ n | _ ↦ pos 0 ]

unfoldable pub parse_anthropic_cache_creation : Fields → Option CacheCreation
unfolding Json.get count_field
parse_anthropic_cache_creation usage = elim (Json.get (codes "cache_creation") usage) [
  | some (obj nested) ↦ some (record {
    ephemeral_5m_input_tokens = count_field (codes "ephemeral_5m_input_tokens") nested;
    ephemeral_1h_input_tokens = count_field (codes "ephemeral_1h_input_tokens") nested;
  })
  | _ ↦ none
]

unfoldable pub anthropic_reported_usage : Option AnthropicUsage → ReportedUsage
anthropic_reported_usage none = record {
  prompt_tokens = pos 0;
  output_tokens = pos 0;
  cache_read_tokens = pos 0;
  cache_read_5m_tokens = pos 0;
  cache_write_tokens = pos 0;
  cache_write_5m_tokens = pos 0;
  cache_write_1h_tokens = pos 0;
}
anthropic_reported_usage (some u) =
    let remainder =
      u.cache_creation_input_tokens -64 u.cache_creation_5m_input_tokens
      -64 u.cache_creation_1h_input_tokens in
    record {
      prompt_tokens = u.input_tokens;
      output_tokens = u.output_tokens;
      cache_read_tokens = u.cache_read_input_tokens;
      cache_read_5m_tokens = pos 0;
      cache_write_tokens = if ltb_ℤ (pos 0) remainder then remainder else pos 0;
      cache_write_5m_tokens = u.cache_creation_5m_input_tokens;
      cache_write_1h_tokens = u.cache_creation_1h_input_tokens;
    }
