-- ===== src/Tests/Reported.antt =====
-- A provider that reports ten written tokens, of which four for five minutes and one for an hour.
use muhiya_workspace.Prelude.{none}
use muhiya_workspace.Prelude.Int.{pos}
use muhiya_workspace.Reported.{OpenaiUsage, AnthropicUsage}

abbrev openai_usage : OpenaiUsage
openai_usage = record {
  prompt_tokens = pos 100;
  completion_tokens = pos 20;
  total_tokens = pos 120;
  prompt_details = none;
  prompt_cache_hit_tokens = pos 0;
  prompt_cache_miss_tokens = pos 0;
  reasoning_details = none;
  cache_write_tokens = pos 10;
  cache_write_5m_tokens = pos 4;
  cache_write_1h_tokens = pos 1;
}

abbrev anthropic_usage : AnthropicUsage
anthropic_usage = record {
  input_tokens = pos 100;
  output_tokens = pos 20;
  cache_read_input_tokens = pos 0;
  cache_creation_input_tokens = pos 10;
  cache_creation_5m_input_tokens = pos 4;
  cache_creation_1h_input_tokens = pos 1;
}
