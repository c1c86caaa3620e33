-- ===== src/Catalog/Discoverable.antt =====
-- The models that the catalogue holds, and those that the diagnostic says it holds.
use mathlib.Core.Option.{some-injective}
use muhiya_workspace.Prelude.{
  ◌≡◌, refl, sym, ap, Bool, true, false, List, [], ◌∷◌, if◌then◌else◌, Result, ok, err,
  ok-injective, ◌++◌, Option, none, some, arith,
}
use muhiya_workspace.Prelude.Text.{Text, codes}
use muhiya_workspace.Catalog.{
  CatalogModel, CatalogRecord, WireContract, discoverable_model, excluded,
  explain_muhiya_code_discoverability, insert_text, sorted_copy, catalog_record, insert_record,
  add_record, record_with, wire_contract, muhiya_code_catalog,
}

-- The diagnostic includes exactly the models that are discoverable.
pub explain_included :
    (m : CatalogModel)
    → (explain_muhiya_code_discoverability m).included ≡ discoverable_model m true
unfolding explain_muhiya_code_discoverability discoverable_model excluded
explain_included m = ground arith

explain_names : (m : CatalogModel) → (explain_muhiya_code_discoverability m).model_id ≡ m.media.name
unfolding explain_muhiya_code_discoverability excluded
explain_names m = ground arith

-- the ids of the included models
abbrev pub included_ids : List CatalogModel → List Text
included_ids [] = []
included_ids (m ∷ ms) =
    let rest = included_ids ms in
    let entry = explain_muhiya_code_discoverability m in
    if entry.included then entry.model_id ∷ rest else rest

abbrev pub record_ids : List CatalogRecord → List Text
record_ids [] = []
record_ids (r ∷ rs) = r.model_id ∷ record_ids rs

record_ids-insert_record :
    (r : CatalogRecord) (rs : List CatalogRecord)
    → record_ids (insert_record r rs) ≡ insert_text r.model_id (record_ids rs)
unfolding insert_record insert_text
record_ids-insert_record r [] = refl
record_ids-insert_record r (s ∷ ss) = ground (arith, record_ids-insert_record r ss)

added_ids :
    (m : CatalogModel) (o : Option CatalogRecord) (rest : Result CatalogModel (List CatalogRecord))
    (name : Text) (ids : List Text) {rs : List CatalogRecord}
    → ((r : CatalogRecord) → o ≡ some r → r.model_id ≡ name)
    → ((qs : List CatalogRecord) → rest ≡ ok qs → record_ids qs ≡ ids)
    → add_record m o rest ≡ ok rs
    → record_ids rs ≡ insert_text name ids
unfolding add_record
added_ids m none rest name ids named tail h = absurd (ground arith)
added_ids m (some r) (err failed) name ids named tail h = absurd (ground arith)
added_ids m (some r) (ok qs) name ids named tail h =
    rw (sym (ok-injective h), record_ids-insert_record r qs, named r refl, tail qs refl) refl

-- the ids after a model that is listed, and after one that is passed over
ids_after :
    (b : Bool) (added rest : Result CatalogModel (List CatalogRecord)) (name : Text)
    (ids : List Text) {rs : List CatalogRecord}
    → (added ≡ ok rs → record_ids rs ≡ sorted_copy (name ∷ ids))
    → (rest ≡ ok rs → record_ids rs ≡ sorted_copy ids)
    → (if b then added else rest) ≡ ok rs
    → record_ids rs ≡ sorted_copy (if b then name ∷ ids else ids)
ids_after true added rest name ids listed passed h = listed h
ids_after false added rest name ids listed passed h = passed h

-- The record that a test has let through.
pub guarded_some :
    (b : Bool) (x : CatalogRecord) {r : CatalogRecord}
    → (if b then some x else none) ≡ some r
    → x ≡ r
guarded_some true x {r} h = some-injective x r h
guarded_some false x h = ground arith

module _ (valid : Text → Bool) (fingerprint : WireContract → Text) where
  record_named :
      (m : CatalogModel) {r : CatalogRecord}
      → catalog_record valid fingerprint m ≡ some r
      → r.model_id ≡ m.media.name
  unfolding catalog_record record_with
  record_named m {r} h =
      let contract = wire_contract m in
      let id = codes "model:" ++ fingerprint contract in
      sym (
        ap (λ q. q.model_id)
          (guarded_some (valid contract.cache_contract) (record_with contract id m) h))

  -- Where every discoverable model has a valid record, the catalogue holds in the order of their
  -- ids exactly the models that the diagnostic includes.
  pub muhiya_code_catalog_explained :
      (ms : List CatalogModel) {rs : List CatalogRecord}
      → muhiya_code_catalog valid fingerprint ms ≡ ok rs
      → record_ids rs ≡ sorted_copy (included_ids ms)
  unfolding muhiya_code_catalog sorted_copy
  muhiya_code_catalog_explained [] {rs} h = rw (sym (ok-injective h)) refl
  muhiya_code_catalog_explained (m ∷ ms) {rs} h =
      let found = catalog_record valid fingerprint m in
      let rest = muhiya_code_catalog valid fingerprint ms in
      rw (explain_included m, explain_names m)
        (ids_after (discoverable_model m true) (add_record m found rest) rest m.media.name
          (included_ids ms)
          (added_ids m found rest m.media.name (sorted_copy (included_ids ms)) (λ r. record_named m)
            (λ qs. muhiya_code_catalog_explained ms))
          (muhiya_code_catalog_explained ms) h)
