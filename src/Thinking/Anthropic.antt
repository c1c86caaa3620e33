-- ===== src/Thinking/Anthropic.antt =====
-- `ApplyThinkingAnthropic`: the body that reaches an upstream which speaks the Anthropic dialect.
use muhiya_workspace.Prelude.{
  ℕ, Bool, true, not, ◌&&◌, none, some, [], ◌+◌, ◌++◌, if◌then◌else◌, leb, ◌==◌,
}
use muhiya_workspace.Prelude.Int.{ℤ, pos, negsuc}
use muhiya_workspace.Prelude.Text.{Text, codes}
use muhiya_workspace.Prelude.Decimal.{format}
use muhiya_workspace.Prelude.Ascii.{to_lower}
use muhiya_workspace.Prelude.Json
use muhiya_workspace.Prelude.Json.{Json, Fields, field, end, str, obj, float, int}
use muhiya_workspace.Thinking.{
  Level, thinking_rank, UpstreamFamily, fam_deepseek, classify_upstream,
  deepseek_supports_low_effort, model_supports_thinking, anthropic_supports_thinking,
  anthropic_adaptive_only,
}
use muhiya_workspace.Thinking.Openai.{single}

unfoldable pub deepseek_reasoning : ℕ → Text → Text
unfolding deepseek_supports_low_effort
deepseek_reasoning rank model =
    if rank == 0
    then codes "none"
    else if leb 4 rank
    then codes "max"
    else if rank == 1 && deepseek_supports_low_effort model
    then codes "low"
    else codes "high"

unfoldable pub apply_deepseek_anthropic : ℕ → Text → Bool → Fields → Fields × Text
unfolding Json.remove Json.set deepseek_reasoning model_supports_thinking
apply_deepseek_anthropic rank model supports_thinking body =
    if not (model_supports_thinking supports_thinking model)
    then (body, codes "unsupported")
    else let cleared = Json.remove (codes "output_config") (Json.remove (codes "thinking") body) in
      let effort = deepseek_reasoning rank model in
      (Json.set (codes "reasoning") (single (codes "effort") effort) cleared, effort)

-- the three `delete`s of the parameters of sampling
unfoldable pub drop_sampling : Fields → Fields
unfolding Json.remove
drop_sampling body =
    Json.remove (codes "top_k")
      (Json.remove (codes "top_p") (Json.remove (codes "temperature") body))

unfoldable pub adaptive_effort : ℕ → Text
adaptive_effort rank =
    if leb rank 1
    then codes "low"
    else if rank == 3
    then codes "high"
    else if leb 4 rank
    then codes "max"
    else codes "medium"

unfoldable pub apply_adaptive : ℕ → Fields → Fields × Text
unfolding Json.set drop_sampling adaptive_effort
apply_adaptive rank body =
    let thinking = Json.set (codes "thinking") (single (codes "type") (codes "adaptive")) body in
    let effort = adaptive_effort rank in
    let configured = Json.set (codes "output_config") (single (codes "effort") effort) thinking in
    (drop_sampling configured, codes "adaptive-" ++ effort)

unfoldable pub thinking_budget : ℕ → ℕ
thinking_budget rank =
    if leb 4 rank then 24576 else if leb 3 rank then 16384 else if leb rank 1 then 4096 else 8192

-- `max_tokens` where it is a decoded number, else 0
unfoldable pub max_tokens_of : Fields → ℤ
unfolding Json.get
max_tokens_of body = elim (Json.get (codes "max_tokens") body) [ some (float n) ↦ n | _ ↦ pos 0 ]

-- whether `maxTokens <= budget`
unfoldable pub at_most : ℤ → ℕ → Bool
at_most (pos n) budget = leb n budget
at_most (negsuc n) budget = true

unfoldable pub apply_budget : ℕ → Fields → Fields × Text
unfolding Json.set drop_sampling thinking_budget max_tokens_of at_most
apply_budget rank body =
    let budget = thinking_budget rank in
    let thinking =
      field (codes "type") (str (codes "enabled"))
        (field (codes "budget_tokens") (int (pos budget)) end) in
    let configured = drop_sampling (Json.set (codes "thinking") (obj thinking) body) in
    let applied = codes "budget-" ++ format budget in
    if at_most (max_tokens_of configured) budget
    then (Json.set (codes "max_tokens") (int (pos (budget + 4096))) configured, applied)
    else (configured, applied)

-- the part below the branch of DeepSeek
unfoldable pub apply_claude : ℕ → Text → Fields → Fields × Text
unfolding apply_adaptive apply_budget anthropic_supports_thinking anthropic_adaptive_only
apply_claude rank model body =
    if not (anthropic_supports_thinking model)
    then (body, codes "unsupported")
    else if anthropic_adaptive_only model
    then apply_adaptive rank body
    else apply_budget rank body

unfoldable pub apply_ranked : UpstreamFamily → ℕ → Text → Bool → Fields → Fields × Text
unfolding apply_deepseek_anthropic apply_claude
apply_ranked fam_deepseek rank model supports_thinking body =
    apply_deepseek_anthropic rank model supports_thinking body
apply_ranked _ rank model supports_thinking body = apply_claude rank model body

unfoldable pub apply_thinking_anthropic : Fields → Text → Text → Level → Bool → Fields × Text
unfolding Json.remove apply_ranked classify_upstream to_lower thinking_rank
apply_thinking_anthropic body base_url target_model level supports_thinking =
    let cleared = Json.remove (codes "reasoning_effort") body in
    elim (thinking_rank level) [
      | none ↦ (cleared, [])
      | some rank ↦
          apply_ranked (classify_upstream base_url target_model) rank (to_lower target_model)
            supports_thinking cleared
    ]
