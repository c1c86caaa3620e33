-- ===== src/Catalog.antt =====
-- proxy/catalog.go: the catalogue of models that MuhiyaCode reads, with `discoverableModel` of
-- proxy/handler.go. `valid` is `json.Valid`, and `fingerprint` the hexadecimal SHA-256 of a
-- contract's JSON. The ranks of a model and its deprecation are left out, which no test reads.
pub mod Discoverable
pub mod Edited
use muhiya_workspace.Prelude.{
  Bool, true, false, not, ◌&&◌, ◌||◌, Option, none, some, List, [], ◌∷◌, ◌++◌, if◌then◌else◌,
  Result, ok, err,
}
use muhiya_workspace.Prelude.Int.{ℤ}
use muhiya_workspace.Prelude.Text.{Text, codes, text_eq, text_lt, is_empty}
use muhiya_workspace.Prelude.Ascii.{trim_space}
use muhiya_workspace.Money.{NanoUsd}
use muhiya_workspace.Pricing.RuleSet.{Tier}
use muhiya_workspace.Media
use muhiya_workspace.Handler.Request.{
  ListedModel, router_model_deprecated, app_visibility_flag, discoverable_model_for,
}
use muhiya_workspace.Media.{MediaModel, split_mime_list, model_input_modalities}

pub record CatalogPricing : Type 0 where
  pub rule_set_id : Text
  pub input_nano_usd_per_million : NanoUsd
  pub output_nano_usd_per_million : NanoUsd
  pub cache_read_nano_usd_per_million : NanoUsd
  pub cache_write_nano_usd_per_million : NanoUsd
  pub tiers : List Tier

-- the fields of `db.Model` that the catalogue reads; the name and the target stand in `media`
pub record CatalogModel : Type 0 where
  pub media : MediaModel
  pub display_name : Text
  pub description : Text
  pub tags : List Text
  pub provider_family : Text
  pub adapter_version : Text
  pub compatibility_epoch : ℤ
  pub context_window : ℤ
  pub max_output_tokens : ℤ
  pub supported_parameters : List Text
  pub cache_contract : Text
  pub pricing : CatalogPricing
  pub supports_thinking : Bool
  pub max_attachment_mb : ℤ
  pub accepted_mime_types : Text
  pub health : Text
  pub status : Text
  pub transcribe : Bool
  pub muhiya_code_visible : Bool
  pub muhiya_chat_visible : Bool

-- what discovery reads of the model
abbrev pub listed_model : CatalogModel → ListedModel
listed_model m = record {
  name = m.media.name;
  status = m.status;
  transcribe = m.transcribe;
  muhiya_code_visible = m.muhiya_code_visible;
  muhiya_chat_visible = m.muhiya_chat_visible;
}

unfoldable pub discoverable_model : CatalogModel → Bool → Bool
unfolding app_visibility_flag discoverable_model_for
discoverable_model m only_muhiya_code_visible =
    discoverable_model_for (some (listed_model m)) (app_visibility_flag only_muhiya_code_visible)

pub record ExplainEntry : Type 0 where
  pub model_id : Text
  pub included : Bool
  pub excluded_reason : Text

unfoldable pub excluded : Text → Text → ExplainEntry
excluded name reason = record { model_id = name; included = false; excluded_reason = reason }

unfoldable pub explain_muhiya_code_discoverability : CatalogModel → ExplainEntry
unfolding text_eq excluded
explain_muhiya_code_discoverability m =
    if text_eq m.media.name router_model_deprecated
    then excluded m.media.name (codes "deprecated router model")
    else if not (text_eq m.status (codes "active"))
    then excluded m.media.name (codes "status=" ++ m.status)
    else if m.transcribe
    then excluded m.media.name (codes "transcribe-only")
    else if not m.muhiya_code_visible
    then excluded m.media.name (codes "not muhiyacode_visible")
    else record { model_id = m.media.name; included = true; excluded_reason = [] }

-- `sort.Strings`
unfoldable pub insert_text : Text → List Text → List Text
unfolding text_lt
insert_text t [] = t ∷ []
insert_text t (u ∷ us) = let rest = insert_text t us in if text_lt u t then u ∷ rest else t ∷ u ∷ us

unfoldable pub sorted_copy : List Text → List Text
unfolding insert_text
sorted_copy [] = []
sorted_copy (t ∷ ts) = insert_text t (sorted_copy ts)

pub record Capabilities : Type 0 where
  pub vision : Bool
  pub thinking : Bool
  pub audio : Bool
  pub video : Bool
  pub documents : Bool
  pub max_attachment_mb : ℤ
  pub accepted_mime_types : List Text
  pub input_modalities : List Text

pub record CatalogRecord : Type 0 where
  pub record_id : Text
  pub model_id : Text
  pub target_model : Text
  pub display_name : Text
  pub description : Text
  pub tags : List Text
  pub provider_family : Text
  pub adapter_version : Text
  pub compatibility_epoch : ℤ
  pub context_window : ℤ
  pub max_output_tokens : ℤ
  pub supported_parameters : List Text
  pub cache_contract : Text
  pub pricing : CatalogPricing
  pub capabilities : Capabilities
  pub health : Text

-- what the record's identifier is made of
pub record WireContract : Type 0 where
  pub model_id : Text
  pub target_model : Text
  pub provider_family : Text
  pub compatibility_epoch : ℤ
  pub supported_parameters : List Text
  pub cache_contract : Text

abbrev pub non_empty_or : Text → Text → Text
non_empty_or value default = if is_empty value then default else value

unfoldable pub wire_contract : CatalogModel → WireContract
unfolding sorted_copy is_empty
wire_contract m = record {
  model_id = m.media.name;
  target_model = m.media.target_model;
  provider_family = m.provider_family;
  compatibility_epoch = m.compatibility_epoch;
  supported_parameters = sorted_copy m.supported_parameters;
  cache_contract = non_empty_or m.cache_contract (codes "{}");
}

unfoldable pub capabilities_of : CatalogModel → Capabilities
unfolding split_mime_list model_input_modalities
capabilities_of m = record {
  vision = m.media.supports_vision;
  thinking = m.supports_thinking;
  audio = m.media.supports_audio;
  video = m.media.supports_video;
  documents = m.media.supports_documents;
  max_attachment_mb = m.max_attachment_mb;
  accepted_mime_types = split_mime_list m.accepted_mime_types;
  input_modalities = model_input_modalities m.media;
}

pub data Resolution : Type 0 where
  metadata_invalid : Resolution
  -- the conflict 409, with what was expected and what was resolved
  record_mismatch target_mismatch : Text → Text → Resolution
  -- the response headers: record, target, family, epoch and the id of the pricing rules
  resolved : Text → Text → Text → ℤ → Option Text → Resolution

-- A header that is given and is not the value.
unfoldable pub is_mismatch : Text → Text → Bool
unfolding is_empty text_eq
is_mismatch expected value = not (is_empty expected) && not (text_eq expected value)

unfoldable pub resolve_record : Text → Text → Option Text → CatalogRecord → Resolution
unfolding is_mismatch
resolve_record expected_record expected_target rules r =
    if is_mismatch expected_record r.record_id
    then record_mismatch expected_record r.record_id
    else if is_mismatch expected_target r.target_model
    then target_mismatch expected_target r.target_model
    else resolved r.record_id r.target_model r.provider_family r.compatibility_epoch rules

unfoldable pub record_with : WireContract → Text → CatalogModel → CatalogRecord
unfolding sorted_copy is_empty capabilities_of
record_with contract id m = record {
  record_id = id;
  model_id = m.media.name;
  target_model = m.media.target_model;
  display_name = non_empty_or m.display_name m.media.name;
  description = m.description;
  tags = sorted_copy m.tags;
  provider_family = m.provider_family;
  adapter_version = m.adapter_version;
  compatibility_epoch = m.compatibility_epoch;
  context_window = m.context_window;
  max_output_tokens = m.max_output_tokens;
  supported_parameters = contract.supported_parameters;
  cache_contract = contract.cache_contract;
  pricing = m.pricing;
  capabilities = capabilities_of m;
  health = m.health;
}

-- `sort.Slice` by the model's id, for distinct ids
unfoldable pub insert_record : CatalogRecord → List CatalogRecord → List CatalogRecord
unfolding text_lt
insert_record r [] = r ∷ []
insert_record r (s ∷ ss) =
    let rest = insert_record r ss in if text_lt s.model_id r.model_id then s ∷ rest else r ∷ s ∷ ss

-- A model without a valid record fails the whole catalogue.
unfoldable pub add_record :
    CatalogModel
    → Option CatalogRecord
    → Result CatalogModel (List CatalogRecord)
    → Result CatalogModel (List CatalogRecord)
unfolding insert_record
add_record m none rest = err m
add_record m (some r) (ok rs) = ok (insert_record r rs)
add_record m (some r) (err failed) = err failed

module _ (valid : Text → Bool) (fingerprint : WireContract → Text) where
  unfoldable pub catalog_record : CatalogModel → Option CatalogRecord
  unfolding wire_contract record_with
  catalog_record m =
      let contract = wire_contract m in
      if valid contract.cache_contract
      then some (record_with contract (codes "model:" ++ fingerprint contract) m)
      else none

  -- of the headers `X-Muhiya-Expected-Model-Record` and `X-Muhiya-Expected-Target-Model`, and of
  -- the id of the model's pricing rules, where they are sound
  unfoldable pub establish_model_resolution : Text → Text → Option Text → CatalogModel → Resolution
  unfolding trim_space catalog_record resolve_record
  establish_model_resolution record_header target_header rules m = elim (catalog_record m) [
    | none ↦ metadata_invalid
    | some r ↦ resolve_record (trim_space record_header) (trim_space target_header) rules r
  ]

  -- The records of the discoverable models in the order of their ids, or the first model whose
  -- record is invalid.
  unfoldable pub muhiya_code_catalog : List CatalogModel → Result CatalogModel (List CatalogRecord)
  unfolding discoverable_model catalog_record add_record
  muhiya_code_catalog [] = ok []
  muhiya_code_catalog (m ∷ ms) =
      let rest = muhiya_code_catalog ms in
      if discoverable_model m true then add_record m (catalog_record m) rest else rest
