-- ===== src/Tests/Upstream.antt =====
-- Runs of the upstream address, and its theorem at a concrete input.
use muhiya_workspace.Prelude.{◌≡◌, refl, true}
use muhiya_workspace.Prelude.Text.{Text, codes, text_eq, is_empty}
use muhiya_workspace.Prelude.Ascii.{trim_left, trim_right}
use muhiya_workspace.Upstream.{chat_completions_path, chat_completions, has_suffix}
use muhiya_workspace.Upstream.Resolved.{chat_completions_idem}

abbrev legacy : Text
legacy = codes " https://a.b/v1/completions// "

legacy_corrected : chat_completions legacy ≡ codes "https://a.b/v1/chat/completions"
unfolding chat_completions text_eq is_empty trim_left trim_right
legacy_corrected = refl

chat_completions_idem_example :
    (has_suffix (chat_completions legacy) chat_completions_path ≡ true)
    × (chat_completions (chat_completions legacy) ≡ chat_completions legacy)
chat_completions_idem_example = chat_completions_idem legacy
