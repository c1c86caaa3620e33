-- ===== src/Tests/Thinking.antt =====
-- Runs of the thinking levels, and the theorems at concrete inputs.
use muhiya_workspace.Prelude.{ℕ, ◌≡◌, ◌≢◌, ◌⊎◌, inl, refl, true, false, some, arith, ◌≤◌}
use muhiya_workspace.Prelude.Int.{ℤ, pos, ◌<ℤ◌}
use muhiya_workspace.Prelude.Text.{Text, codes, text_eq, is_empty}
use muhiya_workspace.Prelude.Ascii.{to_lower}
use muhiya_workspace.Prelude.Json
use muhiya_workspace.Prelude.Json.{Json, Fields, field, end, str, float, int}
use muhiya_workspace.Thinking.{
  minimal, medium, high, max, thinking_rank, normalize_thinking_level, thinking_log_value,
  resolve_thinking_level, classify_upstream, is_open_router_base, model_supports_thinking,
  deepseek_supports_low_effort,
}
use muhiya_workspace.Thinking.Openai.{single, apply_thinking_openai}
use muhiya_workspace.Thinking.Anthropic.{apply_thinking_anthropic, apply_budget, thinking_budget}
use muhiya_workspace.Thinking.Ladder.{effort_rank, no_low_rung, effort_never_raised}
use muhiya_workspace.Thinking.Noninterference.{control_fields_hidden}
use muhiya_workspace.Thinking.Dialects.{anthropic_effort, openai_effort, deepseek_dialects_agree}
use muhiya_workspace.Thinking.Budget.{enabled_with, budget_below_max}

abbrev small_body : Fields
small_body = field (codes "model") (str (codes "m")) end

abbrev effort_body : Fields
effort_body = field (codes "reasoning_effort") (str (codes "max")) small_body

abbrev base : Text
base = codes "https://api.deepseek.com"

abbrev flash : Text
flash = codes "deepseek-v4-flash"

level_of_text : normalize_thinking_level (codes " XHigh ") ≡ max
unfolding normalize_thinking_level is_empty
level_of_text = refl

header_wins : resolve_thinking_level (codes "off") (some (codes "high")) ≡ minimal
unfolding resolve_thinking_level
header_wins = refl

log_value : thinking_log_value high (codes "max") ≡ codes "high>max"
unfolding thinking_log_value text_eq
log_value = refl

effort_never_raised_example :
    (1 ≤ 2)
    ⊎ (◌≡◌ {A = ℕ} 1 1 × ◌≡◌ {A = ℕ} 2 0)
    ⊎ (◌≡◌ {A = ℕ} 1 3
        × (no_low_rung
              (classify_upstream base (codes "deepseek-v4-flash"))
              (to_lower (codes "deepseek-v4-flash"))
            ≡ true))
unfolding thinking_rank effort_rank apply_thinking_openai Json.get
effort_never_raised_example =
    effort_never_raised small_body base (codes "deepseek-v4-flash") medium true refl (inl refl)

control_fields_hidden_example :
    apply_thinking_openai effort_body base (codes "glm-5") high true
    ≡ apply_thinking_openai small_body base (codes "glm-5") high true
unfolding thinking_rank Json.remove text_eq
control_fields_hidden_example =
    control_fields_hidden effort_body base (codes "glm-5") high true refl

deepseek_dialects_agree_example :
    (anthropic openai : Text) × (anthropic_effort
        (apply_thinking_anthropic small_body base flash medium true).0
      ≡ some (single (codes "effort") anthropic))
    × (openai_effort (apply_thinking_openai small_body base flash medium true).0
        ≡ some (str openai))
    × ((◌≡◌ {A = ℕ} 2 2
          × (deepseek_supports_low_effort (to_lower flash) ≡ true)
          × (openai ≡ codes "low")
          × (anthropic ≡ codes "high"))
        ⊎ ((◌≢◌ {A = ℕ} 2 2 ⊎ (deepseek_supports_low_effort (to_lower flash) ≡ false))
            × (anthropic ≡ openai)))
unfolding thinking_rank classify_upstream is_open_router_base model_supports_thinking
deepseek_dialects_agree_example =
    deepseek_dialects_agree small_body base flash medium true refl (omega arith) refl refl refl

medium_is_high_in_anthropic :
    (apply_thinking_anthropic small_body base (codes "deepseek-v4-flash") medium true).1
    ≡ codes "high"
unfolding apply_thinking_anthropic
medium_is_high_in_anthropic = refl

budget_below_max_example :
    (Json.get (codes "thinking") (apply_budget 3 small_body).0
      ≡ some (enabled_with (thinking_budget 3)))
    × (m : ℤ) × ((Json.get (codes "max_tokens") (apply_budget 3 small_body).0 ≡ some (float m))
        ⊎ (Json.get (codes "max_tokens") (apply_budget 3 small_body).0 ≡ some (int m)))
    × (pos (thinking_budget 3) <ℤ m)
budget_below_max_example = budget_below_max 3 small_body
