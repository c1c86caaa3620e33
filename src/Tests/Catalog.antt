-- ===== src/Tests/Catalog.antt =====
-- Runs of the catalogue and of what is sent to DeepSeek, and the theorems at concrete inputs.
use mathlib.Core.List.{Permᴰ}
use muhiya_workspace.Prelude.{◌≡◌, refl, Bool, true, false, not, none, some, [], ◌∷◌}
use muhiya_workspace.Prelude.Int.{pos}
use muhiya_workspace.Prelude.Text.{Text, codes, text_eq, is_empty}
use muhiya_workspace.Prelude.Ascii.{trim_space}
use muhiya_workspace.Prelude.Json.{Fields, field, end, str, int, get}
use muhiya_workspace.Handler.Request.{app_visibility_for, discoverable_model_for}
use muhiya_workspace.Catalog.{
  CatalogModel, CatalogRecord, WireContract, listed_model, catalog_record, wire_contract,
  record_with, sorted_copy, establish_model_resolution, resolved, muhiya_code_catalog,
}
use muhiya_workspace.Catalog.Discoverable.{included_ids, record_ids, muhiya_code_catalog_explained}
use muhiya_workspace.Catalog.Edited.{resolution_survives_edit}
use muhiya_workspace.Conditioning.{condition_deepseek_chat_completion}
use muhiya_workspace.Conditioning.Accepted.{condition_deepseek_chat_completion_accepted}

abbrev fast : CatalogModel
fast = record {
  media = record {
    name = codes "fast";
    target_model = codes "vendor/fast";
    supports_vision = false;
    supports_audio = false;
    supports_video = false;
    supports_documents = false;
  };
  display_name = [];
  description = [];
  tags = [];
  provider_family = codes "openai";
  adapter_version = codes "1";
  compatibility_epoch = pos 3;
  context_window = pos 1000;
  max_output_tokens = pos 100;
  supported_parameters = codes "tools" ∷ codes "seed" ∷ [];
  cache_contract = [];
  pricing = record {
    rule_set_id = codes "v1";
    input_nano_usd_per_million = pos 10;
    output_nano_usd_per_million = pos 20;
    cache_read_nano_usd_per_million = pos 1;
    cache_write_nano_usd_per_million = pos 12;
    tiers = [];
  };
  supports_thinking = false;
  max_attachment_mb = pos 0;
  accepted_mime_types = [];
  health = [];
  status = codes "active";
  transcribe = false;
  muhiya_code_visible = true;
  muhiya_chat_visible = false;
}

-- the model after an edit of its limits
abbrev edited : CatalogModel
edited = record fast {
  context_window = pos 2000;
  max_output_tokens = pos 50;
  adapter_version = codes "2";
  supported_parameters = codes "seed" ∷ codes "tools" ∷ [];
}

abbrev hidden : CatalogModel
hidden = record fast { muhiya_code_visible = false }

abbrev digits : WireContract → Text
digits contract = codes "ab12"

abbrev not_empty : Text → Bool
not_empty s = not (is_empty s)

abbrev fast_record : CatalogRecord
fast_record = record_with (wire_contract fast) (codes "model:ab12") fast

chat_hidden :
    discoverable_model_for (some (listed_model fast)) (app_visibility_for (codes "MuhiyaChat"))
    ≡ false
unfolding discoverable_model_for app_visibility_for text_eq
chat_hidden = refl

muhiya_code_catalog_explained_example :
    record_ids (fast_record ∷ []) ≡ sorted_copy (included_ids (hidden ∷ fast ∷ []))
unfolding muhiya_code_catalog text_eq record_with
muhiya_code_catalog_explained_example =
    muhiya_code_catalog_explained not_empty digits (hidden ∷ fast ∷ []) refl

resolution_survives_edit_example :
    establish_model_resolution not_empty digits
      (codes "model:ab12")
      (codes "vendor/fast")
      none
      edited
    ≡ resolved (codes "model:ab12") (codes "vendor/fast") (codes "openai") (pos 3) none
unfolding record_with catalog_record trim_space
resolution_survives_edit_example =
    resolution_survives_edit not_empty digits (λ contract. (refl, (refl, (refl, (refl, tt))))) fast
      edited {r = fast_record} none (refl, refl, refl, refl, Permᴰ.swap refl refl, refl) refl refl

abbrev client_body : Fields
client_body =
    field (codes "max_completion_tokens") (int (pos 9))
      (field (codes "seed") (int (pos 1)) (field (codes "model") (str (codes "m")) end))

conditioned :
    condition_deepseek_chat_completion client_body
    ≡ field (codes "model") (str (codes "m")) (field (codes "max_tokens") (int (pos 9)) end)
unfolding condition_deepseek_chat_completion text_eq
conditioned = refl

condition_deepseek_chat_completion_accepted_example :
    get (codes "max_tokens") (condition_deepseek_chat_completion client_body) ≡ some (int (pos 9))
unfolding condition_deepseek_chat_completion get text_eq
condition_deepseek_chat_completion_accepted_example =
    condition_deepseek_chat_completion_accepted client_body (codes "max_tokens")
