-- ===== src/Thinking/Noninterference.antt =====
-- What the client wrote into the control fields does not reach the provider.
use muhiya_workspace.Prelude.{ℕ, ◌≡◌, refl, sym, ap, ◌∙◌, Bool, some, Bool-cases, inl, inr}
use muhiya_workspace.Prelude.Text.{Text, codes}
use muhiya_workspace.Prelude.Ascii.{to_lower}
use muhiya_workspace.Prelude.Json
use muhiya_workspace.Prelude.Json.{Fields}
use muhiya_workspace.Thinking.{
  Level, thinking_rank, UpstreamFamily, fam_unknown, fam_deepseek, fam_glm, fam_minimax, fam_openai,
  fam_qwen, fam_kimi, fam_grok, fam_gemini, fam_anthropic, classify_upstream, is_open_router_base,
}
use muhiya_workspace.Thinking.Openai.{
  strip, apply_open_router, apply_deepseek, apply_family, apply_native, apply_thinking_openai,
}

native_same :
    (upstream : UpstreamFamily) (level : Level) (rank : ℕ) (model : Text) (b : Bool)
    (left right : Fields)
    → strip left ≡ strip right
    → apply_native upstream level (some rank) model b left
      ≡ apply_native upstream level (some rank) model b right
unfolding apply_native apply_deepseek
native_same fam_deepseek level rank model b left right h = rw h refl
native_same fam_minimax level rank model b left right h = rw h refl
native_same fam_glm level rank model b left right h = ap (apply_family fam_glm level rank model) h
native_same fam_openai level rank model b left right h =
    ap (apply_family fam_openai level rank model) h
native_same fam_qwen level rank model b left right h = ap (apply_family fam_qwen level rank model) h
native_same fam_kimi level rank model b left right h = ap (apply_family fam_kimi level rank model) h
native_same fam_grok level rank model b left right h = ap (apply_family fam_grok level rank model) h
native_same fam_gemini level rank model b left right h =
    ap (apply_family fam_gemini level rank model) h
native_same fam_unknown level rank model b left right h =
    ap (apply_family fam_unknown level rank model) h
native_same fam_anthropic level rank model b left right h =
    ap (apply_family fam_anthropic level rank model) h

same_strip :
    (left right : Fields) (base_url model : Text) (level : Level) (b : Bool) {rank : ℕ}
    → thinking_rank level ≡ some rank
    → strip left ≡ strip right
    → apply_thinking_openai left base_url model level b
      ≡ apply_thinking_openai right base_url model level b
unfolding apply_thinking_openai apply_open_router
same_strip left right base_url model level b {rank} h same =
    elim (Bool-cases (is_open_router_base base_url)) [
      | inl router ↦ rw (router, h, same) refl
      | inr native ↦
          rw (native, h)
            (native_same (classify_upstream base_url model) level rank (to_lower model) b left right
              same)
    ]

-- In the OpenAI dialect and where a level is set, a request becomes the same body for the upstream,
-- with the same setting, as the request without its fields `reasoning_effort` and `thinking`: what
-- the client wrote there has no effect.
pub control_fields_hidden :
    (body : Fields) (base_url model : Text) (level : Level) (b : Bool) {rank : ℕ}
    → thinking_rank level ≡ some rank
    → apply_thinking_openai body base_url model level b
      ≡ apply_thinking_openai
          (Json.remove (codes "thinking") (Json.remove (codes "reasoning_effort") body))
          base_url
          model
          level
          b
unfolding strip
control_fields_hidden body base_url model level b h =
    let effort = codes "reasoning_effort" in
    let thinking = codes "thinking" in
    let bare = Json.remove effort body in
    same_strip body (Json.remove thinking bare) base_url model level b h (
      sym (
        ap (Json.remove thinking) (
          Json.remove_comm effort thinking bare
          ∙ ap (Json.remove thinking) (Json.remove_idem effort body))
        ∙ Json.remove_idem thinking bare))
