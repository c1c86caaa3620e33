-- ===== src/Prelude/Json.antt =====
-- Decoded JSON, `map[string]interface{}`: an object is the list of its fields.
use mathlib.Core.Bool.{Bool, false}
use mathlib.Core.Path.{◌≡◌, refl}
use mathlib.Core.Logic.{inl, inr}
use mathlib.Core.Option.{Option, none, some}
use native.Mathlib.Omega.{arith}
use muhiya_workspace.Prelude.Tests.{if◌then◌else◌, Bool-cases}
use muhiya_workspace.Prelude.Int.{ℤ}
use muhiya_workspace.Prelude.Text.{Text, text_eq, text_eq_refl, eq_of_text_eq}

-- A decoded number is a float, of which only the integer part is read; an `int` is the program's own.
mutual
  pub data Json : Type 0 where
    null : Json
    bool : Bool → Json
    float int : ℤ → Json
    str : Text → Json
    arr : Items → Json
    obj : Fields → Json

  pub data Items : Type 0 where
    nil : Items
    cons : Json → Items → Items

  pub data Fields : Type 0 where
    end : Fields
    field : Text → Json → Fields → Fields

unfoldable pub get : Text → Fields → Option Json
get k end = none
get k (field j v fs) = if text_eq j k then some v else get k fs

-- `m[k] = v`
unfoldable pub set : Text → Json → Fields → Fields
set k v end = field k v end
set k v (field j w fs) = if text_eq j k then field k v fs else field j w (set k v fs)

-- `delete(m, k)`
unfoldable pub remove : Text → Fields → Fields
remove k end = end
remove k (field j w fs) = let rest = remove k fs in if text_eq j k then rest else field j w rest

pub get-set_self : (k : Text) (v : Json) (fs : Fields) → get k (set k v fs) ≡ some v
unfolding get set
get-set_self k v end = ground (arith, text_eq_refl k)
get-set_self k v (field j w fs) = ground (arith, text_eq_refl k, get-set_self k v fs)

pub get-set_other :
    (k j : Text) (v : Json) (fs : Fields) → text_eq k j ≡ false → get j (set k v fs) ≡ get j fs
unfolding get set
get-set_other k j v end h = ground (arith, h)
get-set_other k j v (field i w fs) h = elim (Bool-cases (text_eq i k)) [
  | inl same ↦ ground (arith, same, h, eq_of_text_eq i k same)
  | inr other ↦ ground (arith, other, h, get-set_other k j v fs h)
]

pub get-remove_self : (k : Text) (fs : Fields) → get k (remove k fs) ≡ none
unfolding get remove
get-remove_self k end = refl
get-remove_self k (field j w fs) = ground (arith, get-remove_self k fs)

pub get-remove_other :
    (k j : Text) (fs : Fields) → text_eq k j ≡ false → get j (remove k fs) ≡ get j fs
unfolding get remove
get-remove_other k j end h = refl
get-remove_other k j (field i w fs) h = elim (Bool-cases (text_eq i k)) [
  | inl same ↦ ground (arith, same, h, eq_of_text_eq i k same, get-remove_other k j fs h)
  | inr other ↦ ground (arith, other, h, get-remove_other k j fs h)
]

pub remove_idem : (k : Text) (fs : Fields) → remove k (remove k fs) ≡ remove k fs
unfolding remove
remove_idem k end = refl
remove_idem k (field j w fs) = ground (arith, remove_idem k fs)

pub remove_comm : (k j : Text) (fs : Fields) → remove k (remove j fs) ≡ remove j (remove k fs)
unfolding remove
remove_comm k j end = refl
remove_comm k j (field i w fs) = ground (arith, remove_comm k j fs)
