-- ===== src/Thinking.antt =====
-- proxy/thinking.go: the level of reasoning that a client asks for, and the upstream it is meant for.
pub mod Anthropic
pub mod Budget
pub mod Dialects
pub mod Ladder
pub mod Noninterference
pub mod Openai
use muhiya_workspace.Prelude.{
  ℕ, Bool, true, false, ◌&&◌, ◌||◌, not, Option, none, some, List, [], ◌∷◌, ◌++◌, if◌then◌else◌,
  leb,
}
use muhiya_workspace.Prelude.Text.{Text, codes, text_eq, is_empty}
use muhiya_workspace.Prelude.Ascii.{
  to_lower, trim_space, has_prefix, has_prefix_any, contains, contains_any, equal_fold,
}

-- A level is one of five strings, or the empty one.
pub data Level : Type 0 where
  unset minimal low medium high max : Level

unfoldable pub level_text : Level → Text
level_text unset = []
level_text minimal = codes "minimal"
level_text low = codes "low"
level_text medium = codes "medium"
level_text high = codes "high"
level_text max = codes "max"

text_in : Text → List Text → Bool
text_in s [] = false
text_in s (t ∷ ts) = text_eq s t || text_in s ts

unfoldable pub normalize_thinking_level : Text → Level
unfolding trim_space to_lower text_in text_eq
normalize_thinking_level value =
    let v = to_lower (trim_space value) in
    if text_in v (codes "none" ∷ codes "off" ∷ codes "min" ∷ codes "minimal" ∷ [])
    then minimal
    else if text_eq v (codes "low")
    then low
    else if text_in v (codes "medium" ∷ codes "mid" ∷ [])
    then medium
    else if text_in v (codes "high" ∷ codes "ultra" ∷ [])
    then high
    else if text_in v (codes "max" ∷ codes "xhigh" ∷ [])
    then max
    else unset

abbrev pub is_unset : Level → Bool
is_unset unset = true
is_unset _ = false

-- The rank of a level that is set; the code's -1 for the empty level is `none`.
unfoldable pub thinking_rank : Level → Option ℕ
thinking_rank unset = none
thinking_rank minimal = some 0
thinking_rank low = some 1
thinking_rank medium = some 2
thinking_rank high = some 3
thinking_rank max = some 4

-- The first value that names a level.
unfoldable pub first_level : List Text → Level
unfolding normalize_thinking_level
first_level [] = unset
first_level (value ∷ values) =
    let level = normalize_thinking_level value in
    if is_unset level then first_level values else level

-- `ResolveThinkingLevel`, of the header's value (empty where there is none) and of the body's.
unfoldable pub resolve_thinking_level : Text → Option Text → Level
unfolding first_level is_empty
resolve_thinking_level header none = if is_empty header then unset else first_level (header ∷ [])
resolve_thinking_level header (some effort) =
    if is_empty header then first_level (effort ∷ []) else first_level (header ∷ effort ∷ [])

-- `clientRequestsThinking`, of the type of the client's object
unfoldable pub client_requests_thinking : Option Text → Bool
unfolding equal_fold
client_requests_thinking none = false
client_requests_thinking (some kind) = not (equal_fold kind (codes "disabled"))

unfoldable pub thinking_requests_reasoning : Level → Bool
unfolding thinking_rank
thinking_requests_reasoning level = elim (thinking_rank level) [ none ↦ false | some r ↦ leb 2 r ]

unfoldable pub thinking_log_value : Level → Text → Text
unfolding level_text is_empty
thinking_log_value requested applied =
    if is_unset requested
    then []
    else if is_empty applied || text_eq applied (level_text requested)
    then level_text requested
    else (level_text requested ++ (codes ">" ++ applied))

pub data UpstreamFamily : Type 0 where
  fam_unknown fam_deepseek fam_glm fam_minimax fam_openai fam_qwen fam_kimi : UpstreamFamily
  fam_grok fam_gemini fam_anthropic : UpstreamFamily

unfoldable pub is_open_router_base : Text → Bool
unfolding contains to_lower
is_open_router_base base_url = contains (to_lower base_url) (codes "openrouter.ai")

-- the first `switch`, on the model
unfoldable pub family_of_model : Text → UpstreamFamily
unfolding has_prefix has_prefix_any
family_of_model model =
    if has_prefix model (codes "deepseek")
    then fam_deepseek
    else if has_prefix model (codes "glm")
    then fam_glm
    else if has_prefix_any model (codes "minimax" ∷ codes "abab" ∷ [])
    then fam_minimax
    else if has_prefix_any model
        (codes "gpt-" ∷ codes "o1" ∷ codes "o3" ∷ codes "o4" ∷ codes "codex" ∷ [])
    then fam_openai
    else if has_prefix_any model (codes "qwen" ∷ codes "qwq" ∷ [])
    then fam_qwen
    else if has_prefix_any model (codes "kimi" ∷ codes "moonshot" ∷ [])
    then fam_kimi
    else if has_prefix model (codes "grok")
    then fam_grok
    else if has_prefix model (codes "gemini")
    then fam_gemini
    else if has_prefix model (codes "claude")
    then fam_anthropic
    else fam_unknown

-- the second `switch`, on the host
unfoldable pub family_of_host : Text → UpstreamFamily
unfolding contains contains_any
family_of_host host =
    if contains host (codes "deepseek")
    then fam_deepseek
    else if contains_any host (codes "bigmodel" ∷ codes "z.ai" ∷ [])
    then fam_glm
    else if contains host (codes "minimax")
    then fam_minimax
    else if contains host (codes "api.openai.com")
    then fam_openai
    else if contains_any host (codes "dashscope" ∷ codes "aliyuncs" ∷ [])
    then fam_qwen
    else if contains_any host (codes "moonshot" ∷ codes "kimi" ∷ [])
    then fam_kimi
    else if contains host (codes "x.ai")
    then fam_grok
    else if contains_any host (codes "googleapis" ∷ codes "generativelanguage" ∷ [])
    then fam_gemini
    else if contains host (codes "anthropic")
    then fam_anthropic
    else fam_unknown

unfoldable pub classify_upstream : Text → Text → UpstreamFamily
unfolding family_of_model family_of_host to_lower
classify_upstream base_url target_model = elim (family_of_model (to_lower target_model)) [
  | fam_unknown ↦ family_of_host (to_lower base_url)
  | family ↦ family
]

unfoldable pub is_deepseek_reasoner : Text → Bool
unfolding contains_any
is_deepseek_reasoner model = contains_any model (codes "reasoner" ∷ codes "r1" ∷ [])

unfoldable pub deepseek_supports_low_effort : Text → Bool
unfolding contains
deepseek_supports_low_effort model = contains model (codes "v4-flash")

unfoldable pub model_supports_thinking : Bool → Text → Bool
unfolding is_deepseek_reasoner
model_supports_thinking operator_flag model = operator_flag || is_deepseek_reasoner model

unfoldable pub openai_supports_reasoning_effort : Text → Bool
unfolding has_prefix_any
openai_supports_reasoning_effort model =
    has_prefix_any model
      (codes "o1" ∷ codes "o3" ∷ codes "o4" ∷ codes "gpt-5" ∷ codes "gpt-6" ∷ codes "codex" ∷ [])

unfoldable pub anthropic_supports_thinking : Text → Bool
unfolding contains contains_any
anthropic_supports_thinking model =
    contains model (codes "claude-3-7")
    || contains_any model (
        codes "sonnet-4"
        ∷ codes "opus-4"
        ∷ codes "haiku-4"
        ∷ codes "sonnet-5"
        ∷ codes "opus-5"
        ∷ codes "haiku-5"
        ∷ codes "claude-4"
        ∷ codes "claude-5"
        ∷ [])

unfoldable pub anthropic_adaptive_only : Text → Bool
unfolding contains_any
anthropic_adaptive_only model = contains_any model (
    codes "-4-6"
    ∷ codes "-4-7"
    ∷ codes "-4-8"
    ∷ codes "sonnet-5"
    ∷ codes "opus-5"
    ∷ codes "haiku-5"
    ∷ [])
