-- ===== src/Limiter/Generation/Exclusive.antt =====
-- At most one generation of a user is running.
use muhiya_workspace.Prelude.{
  ◌≡◌, ◌≤◌, refl, ◌∙◌, Bool, true, false, Option, none, some, inl, inr, List, [], ◌∷◌, ◌++◌,
  if◌then◌else◌, Bool-cases, Option-cases, length, arith,
}
use muhiya_workspace.Prelude.Text.{Text, text_eq, text_eq_refl, eq_of_text_eq}
use muhiya_workspace.Prelude.Assoc
use muhiya_workspace.Limiter.Generation.{
  Release, Guard, try_in_memory_generation, active_request, run_release, done, Step, acquire,
  release, Reach, idle, next,
}

-- The generations of a user that are running: their releases have not been called.
unfoldable pub running : Text → List Release → List Text
running user_id [] = []
running user_id (r ∷ rs) =
    let rest = running user_id rs in
    if r.once then rest else if text_eq r.user_id user_id then r.request_id ∷ rest else rest

entry : Option Text → List Text
entry none = []
entry (some q) = q ∷ []

-- The map names, for every user, exactly the running generation.
IsNamed : Guard → Type 0
unfolding Assoc.lookup entry running
IsNamed g = (user_id : Text) → running user_id g.releases ≡ entry (Assoc.lookup user_id g.active)

running-append :
    (user_id : Text) (xs ys : List Release)
    → running user_id (xs ++ ys) ≡ running user_id xs ++ running user_id ys
unfolding running
running-append user_id [] ys = refl
running-append user_id (x ∷ xs) ys = ground (arith, running-append user_id xs ys)

singleton_middle :
    (q : Text) (xs ys : List Text) (o : Option Text)
    → xs ++ (q ∷ ys) ≡ entry o
    → (o ≡ some q) × (xs ≡ []) × (ys ≡ [])
unfolding entry
singleton_middle q [] ys none h = ground (arith, h)
singleton_middle q [] ys (some p) h = ground (arith, h)
singleton_middle q (x ∷ xs) ys none h = ground (arith, h)
singleton_middle q (x ∷ []) ys (some p) h = ground (arith, h)
singleton_middle q (x ∷ y ∷ xs) ys (some p) h = ground (arith, h)

-- An acquisition succeeds where the user has no entry.
acquire_lem :
    (u q : Text) (s t : Guard)
    → try_in_memory_generation u q s ≡ some t
    → (Assoc.lookup u s.active ≡ none)
      × (t ≡ record {
        active = Assoc.insert u q s.active;
        releases = record { user_id = u; request_id = q; once = false } ∷ s.releases;
      })
unfolding try_in_memory_generation
acquire_lem u q s t e = elim (Option-cases (Assoc.lookup u s.active)) [
  | inr (p, busy) ↦ absurd (ground (arith, rw (try_in_memory_generation, busy) at e))
  | inl free ↦ (free, ground (arith, rw (try_in_memory_generation, free) at e))
]

acquire-IsNamed :
    (u q : Text) (s t : Guard) → try_in_memory_generation u q s ≡ some t → IsNamed s → IsNamed t
unfolding IsNamed running entry
acquire-IsNamed u q s t e h user_id =
    let (free, result) = acquire_lem u q s t e in
    rw (result, Assoc.lookup-insert u user_id q s.active)
      (elim (Bool-cases (text_eq u user_id)) [
        | inl same ↦ ground (arith, same, free, h u, eq_of_text_eq u user_id same)
        | inr other ↦ ground (arith, other, h user_id)
      ])

-- The first call of a release finds its own entry, and removes it.
first_release_lem :
    (xs ys : List Release) (r : Release) (s : Guard)
    → r.once ≡ false
    → s.releases ≡ xs ++ (r ∷ ys)
    → IsNamed s
    → (Assoc.lookup r.user_id s.active ≡ some r.request_id)
      × (running r.user_id xs ≡ [])
      × (running r.user_id ys ≡ [])
unfolding IsNamed running
first_release_lem xs ys r s first e h =
    singleton_middle r.request_id (running r.user_id xs) (running r.user_id ys)
      (Assoc.lookup r.user_id s.active)
      (ground (
        arith,
        first,
        e,
        text_eq_refl r.user_id,
        running-append r.user_id xs (r ∷ ys),
        h r.user_id,
      ))

first_release :
    (xs ys : List Release) (r : Release) (s t : Guard)
    → r.once ≡ false
    → s.releases ≡ xs ++ (r ∷ ys)
    → t.active ≡ run_release r s.active
    → t.releases ≡ xs ++ (done r ∷ ys)
    → IsNamed s
    → IsNamed t
unfolding IsNamed running entry run_release active_request
first_release xs ys r s t first e ea er h user_id =
    let (found, before, after) = first_release_lem xs ys r s first e h in
    let erased : t.active ≡ Assoc.erase r.user_id s.active =
      ea ∙ ground (arith, first, found, text_eq_refl r.request_id) in
    rw
      (
        er,
        erased,
        Assoc.lookup-erase r.user_id user_id s.active,
        running-append user_id xs (done r ∷ ys),
      )
      (elim (Bool-cases (text_eq r.user_id user_id)) [
        | inl same ↦ ground (arith, same, before, after, eq_of_text_eq r.user_id user_id same)
        | inr other ↦ ground (arith, other, first, e, h user_id, running-append user_id xs (r ∷ ys))
      ])

release-IsNamed :
    (xs ys : List Release) (r : Release) (s t : Guard)
    → s.releases ≡ xs ++ (r ∷ ys)
    → t.active ≡ run_release r s.active
    → t.releases ≡ xs ++ (done r ∷ ys)
    → IsNamed s
    → IsNamed t
unfolding IsNamed running entry run_release active_request
release-IsNamed xs ys r s t e ea er h user_id = elim (Bool-cases r.once) [
  | inl again ↦ ground (
    arith,
    again,
    ea,
    er,
    e,
    h user_id,
    running-append user_id xs (r ∷ ys),
    running-append user_id xs (done r ∷ ys),
  )
  | inr first ↦ first_release xs ys r s t first e ea er h user_id
]

Step-IsNamed : {s t : Guard} → Step s t → IsNamed s → IsNamed t
Step-IsNamed {s} {t} (acquire u q e) h = acquire-IsNamed u q s t e h
Step-IsNamed {s} {t} (release xs ys r e ea er) h = release-IsNamed xs ys r s t e ea er h

Reach-IsNamed : {g : Guard} → Reach g → IsNamed g
unfolding IsNamed running entry
Reach-IsNamed idle = λ user_id. refl
Reach-IsNamed (next r st) = Step-IsNamed st (Reach-IsNamed r)

unfoldable pub is_granted : Option Guard → Bool
is_granted none = false
is_granted (some _) = true

unfoldable pub is_idle : List Text → Bool
is_idle [] = true
is_idle (_ ∷ _) = false

-- In every sequence of acquisitions and releases, also where a release is called again, at most one
-- generation of each user is running, and an acquisition for the user succeeds exactly when none is.
pub generation_exclusive :
    {g : Guard} (reach : Reach g) (user_id request_id : Text)
    → (length (running user_id g.releases) ≤ 1)
      × (is_granted (try_in_memory_generation user_id request_id g)
          ≡ is_idle (running user_id g.releases))
unfolding IsNamed is_granted is_idle entry try_in_memory_generation
generation_exclusive {g} reach user_id request_id =
    elim (Option-cases (Assoc.lookup user_id g.active)) [
      | inl free ↦
          rw (Reach-IsNamed reach user_id, try_in_memory_generation, free) (omega arith, refl)
      | inr (q, busy) ↦
          rw (Reach-IsNamed reach user_id, try_in_memory_generation, busy) (omega arith, refl)
    ]
