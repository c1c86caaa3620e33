-- ===== src/Limiter/Generation.antt =====
-- The guard that admits one billable generation of a user at a time, in one process
-- (`tryInMemoryGeneration`). The lease on Redis is not modelled.
pub mod Exclusive
use muhiya_workspace.Prelude.{
  ◌≡◌, Bool, true, false, Option, none, some, List, [], ◌∷◌, ◌++◌, if◌then◌else◌,
}
use muhiya_workspace.Prelude.Text.{Text, text_eq}
use muhiya_workspace.Prelude.Assoc

-- The function that `tryInMemoryGeneration` returns: `once` tells that it has run.
pub record Release : Type 0 where
  pub user_id : Text
  pub request_id : Text
  pub once : Bool

-- `rl.active`, and every release that was handed out.
pub record Guard : Type 0 where
  pub active : List (Text × Text)
  pub releases : List Release

unfoldable pub try_in_memory_generation : Text → Text → Guard → Option Guard
unfolding Assoc.lookup Assoc.insert
try_in_memory_generation user_id request_id g = elim (Assoc.lookup user_id g.active) [
  | some _ ↦ none
  | none ↦ some (record {
    active = Assoc.insert user_id request_id g.active;
    releases = record { user_id = user_id; request_id = request_id; once = false } ∷ g.releases;
  })
]

-- `rl.active[userID]`, where a missing key reads as the empty string
unfoldable pub active_request : Text → List (Text × Text) → Text
unfolding Assoc.lookup
active_request user_id active = elim (Assoc.lookup user_id active) [ none ↦ [] | some q ↦ q ]

-- The call of a release, which does its work once.
unfoldable pub run_release : Release → List (Text × Text) → List (Text × Text)
unfolding active_request Assoc.erase
run_release r active =
    if r.once
    then active
    else if text_eq (active_request r.user_id active) r.request_id
    then Assoc.erase r.user_id active
    else active

abbrev pub done : Release → Release
done r = record { user_id = r.user_id; request_id = r.request_id; once = true }

-- One call under the mutex: an acquisition, or any release, at any time and any number of times.
pub data Step (s t : Guard) : Type 0 where
  acquire :
      (user_id request_id : Text)
      → try_in_memory_generation user_id request_id s ≡ some t
      → Step s t
  release :
      (xs ys : List Release) (r : Release)
      → s.releases ≡ xs ++ (r ∷ ys)
      → t.active ≡ run_release r s.active
      → t.releases ≡ xs ++ (done r ∷ ys)
      → Step s t

pub data Reach : Guard → Type 0 where
  idle : Reach (record { active = []; releases = [] })
  next : {s t : Guard} → Reach s → Step s t → Reach t
