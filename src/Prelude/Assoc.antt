-- ===== src/Prelude/Assoc.antt =====
-- A Go map with string keys, as an association list.
use mathlib.Core.Path.{◌≡◌, refl}
use mathlib.Core.Option.{Option, none, some}
use mathlib.Core.Logic.{inl, inr}
use mathlib.Core.List.{List, [], ◌∷◌}
use native.Mathlib.Omega.{arith}
use muhiya_workspace.Prelude.Tests.{if◌then◌else◌, Bool-cases}
use muhiya_workspace.Prelude.Text.{Text, text_eq, text_eq_refl, eq_of_text_eq}

module _ {ℓ} {V : Type ℓ} where
  unfoldable pub lookup : Text → List (Text × V) → Option V
  lookup k [] = none
  lookup k ((j, v) ∷ m) = if text_eq j k then some v else lookup k m

  -- `m[k] = v`
  unfoldable pub insert : Text → V → List (Text × V) → List (Text × V)
  insert k v [] = (k, v) ∷ []
  insert k v ((j, w) ∷ m) = if text_eq j k then (k, v) ∷ m else (j, w) ∷ insert k v m

  -- `delete(m, k)`
  unfoldable pub erase : Text → List (Text × V) → List (Text × V)
  erase k [] = []
  erase k ((j, w) ∷ m) = if text_eq j k then erase k m else (j, w) ∷ erase k m

  pub lookup-insert_self :
      (k : Text) (v : V) (m : List (Text × V)) → lookup k (insert k v m) ≡ some v
  unfolding lookup insert
  lookup-insert_self k v [] = ground (arith, text_eq_refl k)
  lookup-insert_self k v ((j, w) ∷ m) = ground (arith, text_eq_refl k, lookup-insert_self k v m)

  pub lookup-erase_self : (k : Text) (m : List (Text × V)) → lookup k (erase k m) ≡ none
  unfolding lookup erase
  lookup-erase_self k [] = refl
  lookup-erase_self k ((j, w) ∷ m) = ground (arith, lookup-erase_self k m)

  pub lookup-insert :
      (k j : Text) (v : V) (m : List (Text × V))
      → lookup j (insert k v m) ≡ (if text_eq k j then some v else lookup j m)
  unfolding lookup insert
  lookup-insert k j v [] = refl
  lookup-insert k j v ((i, w) ∷ m) = elim (Bool-cases (text_eq i k)) [
    | inl same ↦ rw (same, eq_of_text_eq i k same) (ground arith)
    | inr other ↦ elim (Bool-cases (text_eq k j)) [
      | inl found ↦
          ground
            (arith, text_eq_refl k, other, found, eq_of_text_eq k j found, lookup-insert k j v m)
      | inr apart ↦ ground (arith, other, apart, lookup-insert k j v m)
    ]
  ]

  pub lookup-erase :
      (k j : Text) (m : List (Text × V))
      → lookup j (erase k m) ≡ (if text_eq k j then none else lookup j m)
  unfolding lookup erase
  lookup-erase k j [] = ground arith
  lookup-erase k j ((i, w) ∷ m) = elim (Bool-cases (text_eq i k)) [
    | inl same ↦ rw (same, eq_of_text_eq i k same) (ground (arith, lookup-erase k j m))
    | inr other ↦ elim (Bool-cases (text_eq k j)) [
      | inl found ↦
          ground (arith, text_eq_refl k, other, found, eq_of_text_eq k j found, lookup-erase k j m)
      | inr apart ↦ ground (arith, other, apart, lookup-erase k j m)
    ]
  ]
