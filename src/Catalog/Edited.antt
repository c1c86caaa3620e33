-- ===== src/Catalog/Edited.antt =====
-- A client that holds the record of a model, after the operator has edited the model.
use mathlib.Core.List.{Permᴰ}
use muhiya_workspace.Prelude.{
  ℕ, ◌≡◌, refl, sym, ap, ◌∙◌, Bool, true, false, Option, none, some, List, [], ◌∷◌, ◌++◌, All,
  if◌then◌else◌, Bool-cases, inl, inr, arith,
}
use muhiya_workspace.Prelude.Text.{
  Text, codes, text_lt, text_eq_refl, text_lt_irrefl, text_lt_trans, text_lt_total,
}
use muhiya_workspace.Prelude.Ascii.{is_space, trim_left, trim_right, trim_space}
use muhiya_workspace.Catalog.{
  CatalogModel, CatalogRecord, WireContract, wire_contract, insert_text, sorted_copy,
  catalog_record, record_with, is_mismatch, resolve_record, metadata_invalid, resolved,
  establish_model_resolution,
}
use muhiya_workspace.Catalog.Discoverable.{guarded_some}

text_lt_asymm : (s t : Text) → text_lt s t ≡ true → text_lt t s ≡ false
text_lt_asymm s t h = elim (Bool-cases (text_lt t s)) [
  | inl back ↦ absurd (ground (arith, text_lt_irrefl s, text_lt_trans s t s h back))
  | inr clear ↦ clear
]

insert_ordered :
    (s t : Text) (us : List Text)
    → text_lt s t ≡ true
    → insert_text s (insert_text t us) ≡ insert_text t (insert_text s us)
unfolding insert_text
insert_ordered s t [] h = rw (h, text_lt_asymm s t h) refl
insert_ordered s t (u ∷ us) h = elim (Bool-cases (text_lt u s)) [
  | inl below ↦
      rw (below, text_lt_trans u s t below h, below) (ap (λ vs. u ∷ vs) (insert_ordered s t us h))
  | inr above ↦ elim (Bool-cases (text_lt u t)) [
    | inl between ↦ ground (arith, above, between, h)
    | inr outside ↦ ground (arith, above, outside, h, text_lt_asymm s t h)
  ]
]

insert_comm :
    (s t : Text) (us : List Text)
    → insert_text s (insert_text t us) ≡ insert_text t (insert_text s us)
insert_comm s t us = elim (Bool-cases (text_lt s t)) [
  | inl h ↦ insert_ordered s t us h
  | inr h ↦ elim (Bool-cases (text_lt t s)) [
    | inl k ↦ sym (insert_ordered t s us k)
    | inr k ↦ rw (text_lt_total s t h k) refl
  ]
]

-- Sorting forgets the order.
sorted_copy-Permᴰ : {ss ts : List Text} → Permᴰ ss ts → sorted_copy ss ≡ sorted_copy ts
unfolding sorted_copy
sorted_copy-Permᴰ Permᴰ.nil = refl
sorted_copy-Permᴰ (Permᴰ.cons e p) = rw (e, sorted_copy-Permᴰ p) refl
sorted_copy-Permᴰ (Permᴰ.swap {l} e f) = rw (e, f) (insert_comm _ _ (sorted_copy l))
sorted_copy-Permᴰ (Permᴰ.trans p q) = sorted_copy-Permᴰ p ∙ sorted_copy-Permᴰ q

-- Two versions of a model that forward the same bytes: its prices, limits, capabilities, tags and
-- adapter may differ, and the order of its parameters.
abbrev pub SameWire : CatalogModel → CatalogModel → Type 0
SameWire before after =
    (before.media.name ≡ after.media.name)
    × (before.media.target_model ≡ after.media.target_model)
    × (before.provider_family ≡ after.provider_family)
    × (before.compatibility_epoch ≡ after.compatibility_epoch)
    × Permᴰ before.supported_parameters after.supported_parameters
    × (before.cache_contract ≡ after.cache_contract)

wire_contract-SameWire :
    (before after : CatalogModel)
    → SameWire before after
    → wire_contract before ≡ wire_contract after
unfolding wire_contract
wire_contract-SameWire before after (name, target, family, epoch, parameters, contract) =
    rw (name, target, family, epoch, sorted_copy-Permᴰ parameters, contract) refl

abbrev pub NotSpace : ℕ → Type 0
NotSpace c = is_space c ≡ false

trim_right_solid : (s : Text) → All NotSpace s → trim_right s ≡ s
unfolding trim_right
trim_right_solid [] h = refl
trim_right_solid (c ∷ s) (hc, hs) = ground (arith, hc, trim_right_solid s hs)

mismatch_self : (s : Text) → is_mismatch s s ≡ false
unfolding is_mismatch
mismatch_self s = ground (arith, text_eq_refl s)

guarded_valid :
    (b : Bool) (x : CatalogRecord) {r : CatalogRecord}
    → (if b then some x else none) ≡ some r
    → b ≡ true
guarded_valid true x h = refl
guarded_valid false x h = absurd (ground arith)

module _ (valid : Text → Bool) (fingerprint : WireContract → Text) where
  resolve_self :
      (r : CatalogRecord) (rules : Option Text)
      → resolve_record r.record_id r.target_model rules r
        ≡ resolved r.record_id r.target_model r.provider_family r.compatibility_epoch rules
  unfolding resolve_record
  resolve_self r rules = rw (mismatch_self r.record_id, mismatch_self r.target_model) refl

  trimmed_id :
      (contract : WireContract)
      → All NotSpace (fingerprint contract)
      → trim_space (codes "model:" ++ fingerprint contract) ≡ codes "model:" ++ fingerprint contract
  unfolding trim_space trim_left
  trimmed_id contract solid =
      trim_right_solid (codes "model:" ++ fingerprint contract)
        (refl, (refl, (refl, (refl, (refl, (refl, solid))))))

  record_sound :
      (m : CatalogModel) {r : CatalogRecord}
      → catalog_record valid fingerprint m ≡ some r
      → (valid (wire_contract m).cache_contract ≡ true)
        × (record_with (wire_contract m) (codes "model:" ++ fingerprint (wire_contract m)) m ≡ r)
  unfolding catalog_record
  record_sound m h =
      let contract = wire_contract m in
      let built = record_with contract (codes "model:" ++ fingerprint contract) m in
      (
        guarded_valid (valid contract.cache_contract) built h,
        guarded_some (valid contract.cache_contract) built h,
      )

  -- the record of a model, in terms of an equal contract
  record_found :
      (m : CatalogModel) (contract : WireContract)
      → wire_contract m ≡ contract
      → valid contract.cache_contract ≡ true
      → catalog_record valid fingerprint m
        ≡ some (record_with contract (codes "model:" ++ fingerprint contract) m)
  unfolding catalog_record
  record_found m contract e sound =
      ap
        (λ c.
          if valid c.cache_contract
          then some (record_with c (codes "model:" ++ fingerprint c) m)
          else none)
        e
      ∙ rw sound refl

  establish_found :
      (m : CatalogModel) {r : CatalogRecord} (record_header target_header : Text)
      (rules : Option Text)
      → catalog_record valid fingerprint m ≡ some r
      → establish_model_resolution valid fingerprint record_header target_header rules m
        ≡ resolve_record (trim_space record_header) (trim_space target_header) rules r
  unfolding establish_model_resolution
  establish_found m record_header target_header rules h =
      ap
        (λ o. elim o [
          | none ↦ metadata_invalid
          | some r ↦ resolve_record (trim_space record_header) (trim_space target_header) rules r
        ])
        h

  expected_resolved :
      (contract : WireContract) (id : Text) (before after : CatalogModel) (rules : Option Text)
      → SameWire before after
      → trim_space id ≡ id
      → trim_space before.media.target_model ≡ before.media.target_model
      → resolve_record
          (trim_space id)
          (trim_space before.media.target_model)
          rules
          (record_with contract id after)
        ≡ resolved id before.media.target_model before.provider_family before.compatibility_epoch
            rules
  unfolding record_with
  expected_resolved contract id before after rules (_, target, family, epoch, _, _) ht hm =
      rw (ht, hm, target, family, epoch) (resolve_self (record_with contract id after) rules)

  -- Where a fingerprint has no blank and the target has none at its ends, a client that expects the
  -- record and the target of an earlier version of a model is served after an edit that leaves the
  -- wire contract: the model resolves to that record, target, family and epoch.
  pub resolution_survives_edit :
      ((contract : WireContract) → All NotSpace (fingerprint contract))
      → (before after : CatalogModel) {r : CatalogRecord} (rules : Option Text)
      → SameWire before after
      → trim_space before.media.target_model ≡ before.media.target_model
      → catalog_record valid fingerprint before ≡ some r
      → establish_model_resolution valid fingerprint r.record_id r.target_model rules after
        ≡ resolved r.record_id r.target_model r.provider_family r.compatibility_epoch rules
  unfolding record_with
  resolution_survives_edit solid before after {r} rules same trimmed h =
      let contract = wire_contract before in
      let (sound, found) = record_sound before h in
      rw (sym found) (
        establish_found after (codes "model:" ++ fingerprint contract) before.media.target_model
          rules (record_found after contract (sym (wire_contract-SameWire before after same)) sound)
        ∙ expected_resolved contract (codes "model:" ++ fingerprint contract) before after rules
            same (trimmed_id contract (solid contract)) trimmed)
