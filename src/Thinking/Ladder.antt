-- ===== src/Thinking/Ladder.antt =====
-- What the provider is asked for, compared with what the client asked for.
use mathlib.Core.Path.{subst}
use muhiya_workspace.Prelude.{
  ℕ, ◌≤◌, ◌≡◌, refl, ap, ◌∙◌, ◌⊎◌, inl, inr, Bool, true, false, not, Option, none, some, [], ◌∷◌,
  arith, if◌then◌else◌, Bool-cases, ◌==◌,
}
use muhiya_workspace.Prelude.Text.{Text, codes, text_eq}
use muhiya_workspace.Prelude.Ascii.{to_lower, has_prefix, has_prefix_any, contains}
use muhiya_workspace.Prelude.Json
use muhiya_workspace.Prelude.Json.{Json, Fields, str, obj}
use muhiya_workspace.Thinking.{
  Level, unset, minimal, low, medium, high, max, level_text, thinking_rank, UpstreamFamily,
  fam_unknown, fam_deepseek, fam_glm, fam_minimax, fam_openai, fam_qwen, fam_kimi, fam_grok,
  fam_gemini, fam_anthropic, classify_upstream, is_open_router_base, deepseek_supports_low_effort,
  openai_supports_reasoning_effort, model_supports_thinking,
}
use muhiya_workspace.Thinking.Openai.{
  single, set_effort, set_thinking, strip, two_rungs, three_rungs, open_router_effort,
  apply_open_router, deepseek_effort, apply_deepseek, openai_effort, apply_family, apply_native,
  apply_thinking_openai,
}

-- The rung that an applied effort names; a toggle names none.
unfoldable pub effort_rank : Text → Option ℕ
unfolding text_eq
effort_rank s =
    if text_eq s (codes "none")
    then some 0
    else if text_eq s (codes "disabled")
    then some 0
    else if text_eq s (codes "minimal")
    then some 0
    else if text_eq s (codes "low")
    then some 1
    else if text_eq s (codes "medium")
    then some 2
    else if text_eq s (codes "high")
    then some 3
    else if text_eq s (codes "max")
    then some 4
    else if text_eq s (codes "xhigh")
    then some 4
    else none

-- No rung above the requested one, but for the lowest of a ladder that begins above it.
Within : ℕ → Bool → Option ℕ → Type 0
Within rank no_low none = Unit
Within rank no_low (some e) = (e ≤ rank) ⊎ ((e ≡ 1) × (rank ≡ 0)) ⊎ ((e ≡ 3) × (no_low ≡ true))

three_rungs-Within : (rank : ℕ) → Within rank false (effort_rank (three_rungs rank))
unfolding Within three_rungs effort_rank text_eq
three_rungs-Within rank = ground arith

open_router-Within :
    (rank : ℕ) → rank ≤ 4 → Within rank false (effort_rank (open_router_effort rank))
unfolding Within open_router_effort effort_rank text_eq
open_router-Within rank h = ground arith

deepseek-Within :
    (rank : ℕ) (model : Text)
    → Within rank
        (not (deepseek_supports_low_effort model))
        (effort_rank (deepseek_effort rank model))
unfolding Within deepseek_effort effort_rank text_eq
deepseek-Within rank model = ground arith

two_rungs-Within : (rank : ℕ) → Within rank false (effort_rank (two_rungs rank))
unfolding Within two_rungs effort_rank text_eq
two_rungs-Within rank = ground arith

openai-Within :
    (level : Level) (rank : ℕ) (model : Text)
    → thinking_rank level ≡ some rank
    → Within rank false (effort_rank (openai_effort level model))
unfolding Within openai_effort effort_rank text_eq thinking_rank level_text
openai-Within unset rank model h = cc
openai-Within minimal rank model h = ground (arith, h)
openai-Within low rank model h = ground (arith, h)
openai-Within medium rank model h = ground (arith, h)
openai-Within high rank model h = ground (arith, h)
openai-Within max rank model h = ground (arith, h)

-- The rung that the field `reasoning_effort` of a body asks for.
abbrev pub rung_of : Option Json → Option ℕ
rung_of (some (str s)) = effort_rank s
rung_of _ = none

abbrev pub asked_effort : Fields → Option ℕ
asked_effort body = rung_of (Json.get (codes "reasoning_effort") body)

-- The rung that the object `reasoning` of a body for OpenRouter asks for.
abbrev pub object_rung : Option Json → Option ℕ
object_rung (some (obj fields)) = rung_of (Json.get (codes "effort") fields)
object_rung _ = none

abbrev pub routed_effort : Fields → Option ℕ
routed_effort body = object_rung (Json.get (codes "reasoning") body)

asked-set :
    (k : Text) (v : Json) (body : Fields)
    → text_eq k (codes "reasoning_effort") ≡ false
    → asked_effort (Json.set k v body) ≡ asked_effort body
asked-set k v body h = ap rung_of (Json.get-set_other k (codes "reasoning_effort") v body h)

asked-strip : (body : Fields) → asked_effort (strip body) ≡ none
unfolding strip text_eq
asked-strip body = ap rung_of (
    Json.get-remove_other (codes "thinking") (codes "reasoning_effort")
      (Json.remove (codes "reasoning_effort") body) refl
    ∙ Json.get-remove_self (codes "reasoning_effort") body)

module _ (rank : ℕ) (no_low : Bool) where
  effort-Within :
      (s : Text) (body : Fields)
      → Within rank no_low (effort_rank s)
      → Within rank no_low (asked_effort (set_effort s body))
  effort-Within s body h = rw (Json.get-set_self (codes "reasoning_effort") (str s) body) h

  unasked-Within :
      (body : Fields) → asked_effort body ≡ none → Within rank no_low (asked_effort body)
  unfolding Within
  unasked-Within body h = rw h tt

  kept-Within :
      (k : Text) (v : Json) (body : Fields)
      → text_eq k (codes "reasoning_effort") ≡ false
      → asked_effort body ≡ none
      → Within rank no_low (asked_effort (Json.set k v body))
  kept-Within k v body other h = unasked-Within (Json.set k v body) (asked-set k v body other ∙ h)

  applied_if :
      (b : Bool) (x y : Fields × Text)
      → Within rank no_low (asked_effort x.0)
      → Within rank no_low (asked_effort y.0)
      → Within rank no_low (asked_effort (if b then x else y).0)
  applied_if true x y hx hy = hx
  applied_if false x y hx hy = hy

family-Within :
    (upstream : UpstreamFamily) (level : Level) (rank : ℕ) (model : Text) (body : Fields)
    → thinking_rank level ≡ some rank
    → asked_effort body ≡ none
    → Within rank false (asked_effort (apply_family upstream level rank model body).0)
unfolding apply_family text_eq
family-Within fam_glm level rank model body h bare =
    let enabled = set_thinking (codes "enabled") body in
    applied_if rank false (has_prefix model (codes "glm-5"))
      (set_effort (three_rungs rank) enabled, three_rungs rank) (enabled, codes "enabled")
      (effort-Within rank false (three_rungs rank) enabled (three_rungs-Within rank))
      (kept-Within rank false (codes "thinking") _ body refl bare)
family-Within fam_openai level rank model body h bare =
    applied_if rank false (not (openai_supports_reasoning_effort model)) _ _
      (unasked-Within rank false body bare)
      (effort-Within rank false (openai_effort level model) body (openai-Within level rank model h))
family-Within fam_qwen level rank model body h bare =
    kept-Within rank false (codes "enable_thinking") _ body refl bare
family-Within fam_kimi level rank model body h bare =
    applied_if rank false (contains model (codes "k2.7-code")) _ _
      (unasked-Within rank false body bare)
      (kept-Within rank false (codes "thinking") _ body refl bare)
family-Within fam_grok level rank model body h bare =
    applied_if rank false (has_prefix model (codes "grok-3-mini")) _ _
      (effort-Within rank false (two_rungs rank) body (two_rungs-Within rank))
      (applied_if rank false (has_prefix_any model (codes "grok-4.5" ∷ codes "grok-5" ∷ [])) _ _
        (effort-Within rank false (three_rungs rank) body (three_rungs-Within rank))
        (unasked-Within rank false body bare))
family-Within fam_gemini level rank model body h bare =
    effort-Within rank false (three_rungs rank) body (three_rungs-Within rank)
family-Within fam_unknown level rank model body h bare = unasked-Within rank false body bare
family-Within fam_deepseek level rank model body h bare = unasked-Within rank false body bare
family-Within fam_minimax level rank model body h bare = unasked-Within rank false body bare
family-Within fam_anthropic level rank model body h bare = unasked-Within rank false body bare

-- DeepSeek's ladder begins at `high`, but for the models that take `low`.
unfoldable pub no_low_rung : UpstreamFamily → Text → Bool
no_low_rung fam_deepseek model = not (deepseek_supports_low_effort model)
no_low_rung _ model = false

raise : (rank : ℕ) (no_low : Bool) (e : Option ℕ) → Within rank false e → Within rank no_low e
unfolding Within
raise rank no_low none h = tt
raise rank no_low (some e) h = ground (arith, h)

deepseek_body-Within :
    (rank : ℕ) (model : Text) (b : Bool) (body : Fields)
    → Within rank
        (not (deepseek_supports_low_effort model))
        (asked_effort (apply_deepseek rank model b body).0)
unfolding apply_deepseek text_eq
deepseek_body-Within rank model b body =
    let no_low = not (deepseek_supports_low_effort model) in
    let off : Fields × Text = (set_thinking (codes "disabled") (strip body), codes "disabled") in
    let enabled = set_thinking (codes "enabled") (strip body) in
    let on : Fields × Text =
      (set_effort (deepseek_effort rank model) enabled, deepseek_effort rank model) in
    applied_if rank no_low (not (model_supports_thinking b model)) (strip body, codes "unsupported")
      (if◌then◌else◌ {A = Fields × Text} (rank == 0) off on)
      (unasked-Within rank no_low (strip body) (asked-strip body))
      (applied_if rank no_low (rank == 0) off on
        (kept-Within rank no_low (codes "thinking") _ (strip body) refl (asked-strip body))
        (effort-Within rank no_low (deepseek_effort rank model) enabled
          (deepseek-Within rank model)))

native-Within :
    (upstream : UpstreamFamily) (level : Level) (rank : ℕ) (model : Text) (b : Bool) (body : Fields)
    → thinking_rank level ≡ some rank
    → Within rank
        (no_low_rung upstream model)
        (asked_effort (apply_native upstream level (some rank) model b body).0)
unfolding apply_native text_eq no_low_rung
native-Within fam_deepseek level rank model b body h = deepseek_body-Within rank model b body
native-Within fam_minimax level rank model b body h =
    kept-Within rank false (codes "reasoning_split") _ (strip body) refl (asked-strip body)
native-Within fam_glm level rank model b body h =
    family-Within fam_glm level rank model (strip body) h (asked-strip body)
native-Within fam_openai level rank model b body h =
    family-Within fam_openai level rank model (strip body) h (asked-strip body)
native-Within fam_qwen level rank model b body h =
    family-Within fam_qwen level rank model (strip body) h (asked-strip body)
native-Within fam_kimi level rank model b body h =
    family-Within fam_kimi level rank model (strip body) h (asked-strip body)
native-Within fam_grok level rank model b body h =
    family-Within fam_grok level rank model (strip body) h (asked-strip body)
native-Within fam_gemini level rank model b body h =
    family-Within fam_gemini level rank model (strip body) h (asked-strip body)
native-Within fam_unknown level rank model b body h =
    family-Within fam_unknown level rank model (strip body) h (asked-strip body)
native-Within fam_anthropic level rank model b body h =
    family-Within fam_anthropic level rank model (strip body) h (asked-strip body)

rank-le : (level : Level) (rank : ℕ) → thinking_rank level ≡ some rank → rank ≤ 4
unfolding thinking_rank
rank-le unset rank h = cc
rank-le minimal rank h = ground (arith, h)
rank-le low rank h = ground (arith, h)
rank-le medium rank h = ground (arith, h)
rank-le high rank h = ground (arith, h)
rank-le max rank h = ground (arith, h)

router_unasked :
    (rank : ℕ) (body : Fields) → asked_effort (apply_open_router (some rank) body).0 ≡ none
unfolding apply_open_router text_eq
router_unasked rank body =
    asked-set (codes "reasoning") (single (codes "effort") (open_router_effort rank)) _ refl
    ∙ ap rung_of (
        Json.get-remove_other (codes "enable_thinking") (codes "reasoning_effort") (strip body)
          refl)
    ∙ asked-strip body

router_routed :
    (rank : ℕ) (body : Fields)
    → routed_effort (apply_open_router (some rank) body).0 ≡ effort_rank (open_router_effort rank)
unfolding apply_open_router text_eq Json.get
router_routed rank body = ap object_rung (
    Json.get-set_self (codes "reasoning") (single (codes "effort") (open_router_effort rank))
      (Json.remove (codes "enable_thinking") (strip body)))

asked-Within :
    (body : Fields) (base_url model : Text) (level : Level) (b : Bool) (rank : ℕ)
    → thinking_rank level ≡ some rank
    → Within rank
        (no_low_rung (classify_upstream base_url model) (to_lower model))
        (asked_effort (apply_thinking_openai body base_url model level b).0)
unfolding apply_thinking_openai
asked-Within body base_url model level b rank h = elim (Bool-cases (is_open_router_base base_url)) [
  | inl router ↦ rw (router, h) (unasked-Within rank _ _ (router_unasked rank body))
  | inr native ↦
      rw (native, h)
        (native-Within (classify_upstream base_url model) level rank (to_lower model) b body h)
]

routed-Within :
    (body : Fields) (base_url model : Text) (level : Level) (b : Bool) (rank : ℕ)
    → thinking_rank level ≡ some rank
    → is_open_router_base base_url ≡ true
    → Within rank
        (no_low_rung (classify_upstream base_url model) (to_lower model))
        (routed_effort (apply_thinking_openai body base_url model level b).0)
unfolding apply_thinking_openai
routed-Within body base_url model level b rank h router =
    rw (router, h, router_routed rank body)
      (raise rank _ _ (open_router-Within rank (rank-le level rank h)))

-- Where a level is set, the effort that the body in the OpenAI dialect asks for, in its field
-- `reasoning_effort` or for OpenRouter in its object `reasoning`, is never above the level, with two
-- exceptions: the lowest level is raised to `low` where the ladder begins there, and a level is
-- raised to `high` on a DeepSeek model that has no `low`.
pub effort_never_raised :
    (body : Fields) (base_url model : Text) (level : Level) (b : Bool) {rank e : ℕ}
    → thinking_rank level ≡ some rank
    → (asked_effort (apply_thinking_openai body base_url model level b).0 ≡ some e)
      ⊎ ((is_open_router_base base_url ≡ true)
          × (routed_effort (apply_thinking_openai body base_url model level b).0 ≡ some e))
    → (e ≤ rank)
      ⊎ ((e ≡ 1) × (rank ≡ 0))
      ⊎ ((e ≡ 3) × (no_low_rung (classify_upstream base_url model) (to_lower model) ≡ true))
unfolding Within
effort_never_raised body base_url model level b {rank} {e} h asked = elim asked [
  | inl k ↦ subst (Within rank _) k (asked-Within body base_url model level b rank h)
  | inr (router, k) ↦
      subst (Within rank _) k (routed-Within body base_url model level b rank h router)
]
