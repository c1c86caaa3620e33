-- ===== src/Thinking/Openai.antt =====
-- `ApplyThinkingOpenAI`: the body that reaches an upstream which speaks the OpenAI dialect.
use muhiya_workspace.Prelude.{
  ℕ, Bool, true, not, ◌&&◌, Option, none, some, [], ◌∷◌, if◌then◌else◌, leb, ◌==◌,
}
use muhiya_workspace.Prelude.Text.{Text, codes}
use muhiya_workspace.Prelude.Ascii.{to_lower, has_prefix, has_prefix_any, contains}
use muhiya_workspace.Prelude.Json
use muhiya_workspace.Prelude.Json.{Json, Fields, field, end, str, obj, bool}
use muhiya_workspace.Thinking.{
  Level, minimal, max, level_text, thinking_rank, UpstreamFamily, fam_deepseek, fam_glm,
  fam_minimax, fam_openai, fam_qwen, fam_kimi, fam_grok, fam_gemini, classify_upstream,
  is_open_router_base, deepseek_supports_low_effort, model_supports_thinking,
  openai_supports_reasoning_effort,
}

-- an object with one string field
abbrev pub single : Text → Text → Json
single key value = obj (field key (str value) end)

abbrev pub set_effort : Text → Fields → Fields
set_effort effort body = Json.set (codes "reasoning_effort") (str effort) body

abbrev pub set_thinking : Text → Fields → Fields
set_thinking kind body = Json.set (codes "thinking") (single (codes "type") kind) body

-- `delete(bodyMap, "reasoning_effort"); delete(bodyMap, "thinking")`
unfoldable pub strip : Fields → Fields
unfolding Json.remove
strip body = Json.remove (codes "thinking") (Json.remove (codes "reasoning_effort") body)

-- low up to rank 1, high from rank 3 on
unfoldable pub three_rungs : ℕ → Text
three_rungs rank =
    if leb rank 1 then codes "low" else if leb 3 rank then codes "high" else codes "medium"

unfoldable pub two_rungs : ℕ → Text
two_rungs rank = if leb 3 rank then codes "high" else codes "low"

unfoldable pub open_router_effort : ℕ → Text
open_router_effort rank =
    if rank == 0
    then codes "none"
    else if rank == 1
    then codes "low"
    else if rank == 2
    then codes "medium"
    else if rank == 4
    then codes "xhigh"
    else codes "high"

unfoldable pub apply_open_router : Option ℕ → Fields → Fields × Text
unfolding strip Json.remove Json.set open_router_effort
apply_open_router rank body =
    let stripped = Json.remove (codes "enable_thinking") (strip body) in
    elim rank [
      | none ↦ (stripped, [])
      | some r ↦
          let effort = open_router_effort r in
          (Json.set (codes "reasoning") (single (codes "effort") effort) stripped, effort)
    ]

unfoldable pub deepseek_effort : ℕ → Text → Text
unfolding deepseek_supports_low_effort
deepseek_effort rank model =
    if leb 4 rank
    then codes "max"
    else if leb rank 2 && deepseek_supports_low_effort model
    then codes "low"
    else codes "high"

unfoldable pub apply_deepseek : ℕ → Text → Bool → Fields → Fields × Text
unfolding strip Json.set deepseek_effort model_supports_thinking
apply_deepseek rank model supports_thinking body =
    if not (model_supports_thinking supports_thinking model)
    then (strip body, codes "unsupported")
    else if rank == 0
    then (set_thinking (codes "disabled") (strip body), codes "disabled")
    else (
      set_effort (deepseek_effort rank model) (set_thinking (codes "enabled") (strip body)),
      deepseek_effort rank model,
    )

unfoldable pub openai_effort : Level → Text → Text
unfolding level_text has_prefix_any
openai_effort max model = codes "high"
openai_effort minimal model =
    if has_prefix_any model (codes "gpt-5" ∷ codes "gpt-6" ∷ codes "codex" ∷ [])
    then codes "minimal"
    else codes "low"
openai_effort level model = level_text level

-- the `switch` on the other families, on the stripped body, of the level and its rank
unfoldable pub apply_family : UpstreamFamily → Level → ℕ → Text → Fields → Fields × Text
unfolding Json.set two_rungs three_rungs openai_effort openai_supports_reasoning_effort has_prefix
    has_prefix_any contains
apply_family fam_glm level rank model body =
    let enabled = set_thinking (codes "enabled") body in
    if has_prefix model (codes "glm-5")
    then (set_effort (three_rungs rank) enabled, three_rungs rank)
    else (enabled, codes "enabled")
apply_family fam_openai level rank model body =
    if not (openai_supports_reasoning_effort model)
    then (body, codes "unsupported")
    else (set_effort (openai_effort level model) body, openai_effort level model)
apply_family fam_qwen level rank model body =
    (Json.set (codes "enable_thinking") (bool true) body, codes "enabled")
apply_family fam_kimi level rank model body =
    if contains model (codes "k2.7-code")
    then (body, codes "always-on")
    else (set_thinking (codes "enabled") body, codes "enabled")
apply_family fam_grok level rank model body =
    if has_prefix model (codes "grok-3-mini")
    then (set_effort (two_rungs rank) body, two_rungs rank)
    else if has_prefix_any model (codes "grok-4.5" ∷ codes "grok-5" ∷ [])
    then (set_effort (three_rungs rank) body, three_rungs rank)
    else (body, codes "unsupported")
apply_family fam_gemini level rank model body =
    (set_effort (three_rungs rank) body, three_rungs rank)
apply_family _ level rank model body = (body, codes "unsupported")

-- the part below the branch of OpenRouter
unfoldable pub apply_native :
    UpstreamFamily → Level → Option ℕ → Text → Bool → Fields → Fields × Text
unfolding apply_deepseek strip Json.set apply_family
apply_native fam_minimax level rank model supports_thinking body =
    (Json.set (codes "reasoning_split") (bool true) (strip body), codes "always-on")
apply_native upstream level none model supports_thinking body = (body, [])
apply_native fam_deepseek level (some rank) model supports_thinking body =
    apply_deepseek rank model supports_thinking body
apply_native upstream level (some rank) model supports_thinking body =
    apply_family upstream level rank model (strip body)

unfoldable pub apply_thinking_openai : Fields → Text → Text → Level → Bool → Fields × Text
unfolding apply_open_router apply_native classify_upstream is_open_router_base to_lower
    thinking_rank
apply_thinking_openai body base_url target_model level supports_thinking =
    if is_open_router_base base_url
    then apply_open_router (thinking_rank level) body
    else apply_native (classify_upstream base_url target_model) level (thinking_rank level)
        (to_lower target_model) supports_thinking body
