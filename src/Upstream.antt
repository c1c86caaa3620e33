-- ===== src/Upstream.antt =====
-- upstreamurl/chat.go: the address of the Chat Completions endpoint of a configured base address.
pub mod Resolved
use muhiya_workspace.Prelude.{Bool, ◌&&◌, ◌||◌, [], ◌∷◌, ◌++◌, if◌then◌else◌, ◌==◌}
use muhiya_workspace.Prelude.Text.{Text, codes, text_eq, is_empty}
use muhiya_workspace.Prelude.Ascii.{trim_space}

abbrev pub chat_completions_path : Text
chat_completions_path = codes "/chat/completions"

-- `strings.TrimRight(s, "/")`
unfoldable pub trim_slashes : Text → Text
unfolding is_empty
trim_slashes [] = []
trim_slashes (c ∷ s) =
    let rest = trim_slashes s in if is_empty rest && c == b'/' then [] else c ∷ rest

-- `strings.HasSuffix(s, suffix)`
unfoldable pub has_suffix : Text → Text → Bool
unfolding is_empty text_eq
has_suffix [] suffix = is_empty suffix
has_suffix (c ∷ s) suffix = text_eq (c ∷ s) suffix || has_suffix s suffix

-- `strings.TrimSuffix(s, suffix)`
unfoldable pub trim_suffix : Text → Text → Text
unfolding text_eq
trim_suffix [] suffix = []
trim_suffix (c ∷ s) suffix =
    let rest = trim_suffix s suffix in if text_eq (c ∷ s) suffix then [] else c ∷ rest

-- of the address without its blanks and slashes
unfoldable pub endpoint : Text → Text
unfolding has_suffix trim_suffix
endpoint trimmed =
    if has_suffix trimmed chat_completions_path
    then trimmed
    else if has_suffix trimmed (codes "/completions")
    then trim_suffix trimmed (codes "/completions") ++ chat_completions_path
    else trimmed ++ chat_completions_path

unfoldable pub chat_completions : Text → Text
unfolding trim_space trim_slashes endpoint
chat_completions base_url = endpoint (trim_slashes (trim_space base_url))
