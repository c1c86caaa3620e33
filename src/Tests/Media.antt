-- ===== src/Tests/Media.antt =====
-- An image for a model that reads text only.
use muhiya_workspace.Prelude.{◌≡◌, true, false, some, [], ◌∷◌}
use muhiya_workspace.Prelude.Text.{codes}
use muhiya_workspace.Prelude.Json.{Json, nil, cons, field, end, str, arr, obj}
use muhiya_workspace.Media.{OpenaiMessage, MediaModel, text_part, strip_unsupported_media_parts}
use muhiya_workspace.Media.Stripped.{accepts_messages, strip_unsupported_media_parts_accepted}

abbrev text_model : MediaModel
text_model = record {
  name = codes "deepseek";
  target_model = codes "deepseek-chat";
  supports_vision = false;
  supports_audio = false;
  supports_video = false;
  supports_documents = false;
}

abbrev image_part : Json
image_part = obj (field (codes "type") (str (codes "image_url")) end)

abbrev question : OpenaiMessage
question = record {
  role = codes "user";
  content = arr (cons (text_part (codes "what is this?")) (cons image_part nil));
}

strip_unsupported_media_parts_accepted_example :
    accepts_messages text_model (strip_unsupported_media_parts (question ∷ []) (some text_model))
    ≡ true
strip_unsupported_media_parts_accepted_example =
    strip_unsupported_media_parts_accepted (question ∷ []) text_model
