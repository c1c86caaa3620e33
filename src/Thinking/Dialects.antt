-- ===== src/Thinking/Dialects.antt =====
-- The two dialects of DeepSeek compared.
use muhiya_workspace.Prelude.{ℕ, ◌<◌, ◌≡◌, ◌≢◌, ◌⊎◌, Bool, true, false, Option, some, arith, ◌==◌}
use muhiya_workspace.Prelude.Text.{Text, codes}
use muhiya_workspace.Prelude.Ascii.{to_lower}
use muhiya_workspace.Prelude.Json
use muhiya_workspace.Prelude.Json.{Json, Fields, str}
use muhiya_workspace.Thinking.{
  Level, thinking_rank, fam_deepseek, classify_upstream, is_open_router_base,
  deepseek_supports_low_effort, model_supports_thinking,
}
use muhiya_workspace.Thinking.Openai.{
  single, deepseek_effort, apply_deepseek, apply_native, apply_thinking_openai,
}
use muhiya_workspace.Thinking.Anthropic.{
  deepseek_reasoning, apply_deepseek_anthropic, apply_ranked, apply_thinking_anthropic,
}

-- On `medium` and a model that has `low`, the OpenAI dialect has `low` and the Anthropic dialect has
-- `high`; elsewhere both have the same effort.
Agree : ℕ → Bool → Text → Text → Type 0
Agree rank has_low anthropic openai =
    ((rank ≡ 2) × (has_low ≡ true) × (openai ≡ codes "low") × (anthropic ≡ codes "high"))
    ⊎ (((rank ≢ 2) ⊎ (has_low ≡ false)) × (anthropic ≡ openai))

efforts-Agree :
    (rank : ℕ) (model : Text)
    → 0 < rank
    → Agree rank
        (deepseek_supports_low_effort model)
        (deepseek_reasoning rank model)
        (deepseek_effort rank model)
unfolding Agree deepseek_reasoning deepseek_effort
efforts-Agree rank model h = ground arith

-- the field that carries the effort in either dialect
abbrev pub anthropic_effort : Fields → Option Json
anthropic_effort body = Json.get (codes "reasoning") body

abbrev pub openai_effort : Fields → Option Json
openai_effort body = Json.get (codes "reasoning_effort") body

anthropic_body :
    (rank : ℕ) (model : Text) (b : Bool) (body : Fields)
    → model_supports_thinking b model ≡ true
    → anthropic_effort (apply_deepseek_anthropic rank model b body).0
      ≡ some (single (codes "effort") (deepseek_reasoning rank model))
unfolding apply_deepseek_anthropic
anthropic_body rank model b body h = rw h (Json.get-set_self (codes "reasoning") _ _)

openai_body :
    (rank : ℕ) (model : Text) (b : Bool) (body : Fields)
    → 0 < rank
    → model_supports_thinking b model ≡ true
    → openai_effort (apply_deepseek rank model b body).0 ≡ some (str (deepseek_effort rank model))
unfolding apply_deepseek
openai_body rank model b body positive h =
    let above : (rank == 0) ≡ false = ground arith in
    rw (h, above) (Json.get-set_self (codes "reasoning_effort") _ _)

-- For a DeepSeek model that supports thinking and is not reached through OpenRouter, and a level above
-- `minimal`, the body of the Anthropic dialect has an effort in `reasoning` and that of the OpenAI
-- dialect one in `reasoning_effort`: for `medium` on a model with the rung `low` they are `high` and
-- `low`, and for every other level or model they are the same.
pub deepseek_dialects_agree :
    (body : Fields) (base_url model : Text) (level : Level) (b : Bool) {rank : ℕ}
    → thinking_rank level ≡ some rank
    → 0 < rank
    → is_open_router_base base_url ≡ false
    → classify_upstream base_url model ≡ fam_deepseek
    → model_supports_thinking b (to_lower model) ≡ true
    → (anthropic openai : Text) × (anthropic_effort
          (apply_thinking_anthropic body base_url model level b).0
        ≡ some (single (codes "effort") anthropic))
      × (openai_effort (apply_thinking_openai body base_url model level b).0 ≡ some (str openai))
      × (((rank ≡ 2)
            × (deepseek_supports_low_effort (to_lower model) ≡ true)
            × (openai ≡ codes "low")
            × (anthropic ≡ codes "high"))
          ⊎ (((rank ≢ 2) ⊎ (deepseek_supports_low_effort (to_lower model) ≡ false))
              × (anthropic ≡ openai)))
unfolding Agree apply_thinking_openai apply_native apply_thinking_anthropic apply_ranked
deepseek_dialects_agree body base_url model level b {rank} h positive native deepseek able =
    let lower = to_lower model in
    (
      deepseek_reasoning rank lower,
      deepseek_effort rank lower,
      rw (apply_thinking_anthropic, h, deepseek) (anthropic_body rank lower b _ able),
      rw (native, h, deepseek) (openai_body rank lower b body positive able),
      efforts-Agree rank lower positive,
    )
