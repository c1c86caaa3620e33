-- ===== src/Tests/Affinity.antt =====
-- Runs of the provider affinity, and its theorem at a concrete input.
use muhiya_workspace.Prelude.{
  ◌≡◌, ◌≢◌, none, some, [], if◌then◌else◌, Result, ok, Option, arith, Bool-cases, inl, inr,
}
use muhiya_workspace.Prelude.Text.{Text, codes, text_eq, eq_of_text_eq, is_empty}
use muhiya_workspace.Prelude.Json.{end}
use muhiya_workspace.Affinity.{client, affinity_scope, affinity_session, apply_provider_affinity}
use muhiya_workspace.Affinity.Scoped.{pinned_provider_own}

abbrev same_text : Text → Text
same_text s = s

abbrev own_scope : Text
own_scope = affinity_scope same_text (codes "k") (codes "s") (codes "r")

abbrev one_route : Text → Result Text (Option Text)
one_route scope = if text_eq scope own_scope then ok (some (codes "p")) else ok none

one_route_own : (scope v : Text) → one_route scope ≡ ok (some v) → scope ≡ own_scope
one_route_own scope v h = elim (Bool-cases (text_eq scope own_scope)) [
  | inl same ↦ eq_of_text_eq scope own_scope same
  | inr other ↦ absurd (ground (arith, h, other))
]

pinned :
    (apply_provider_affinity same_text
      (client one_route)
      (codes "minimax-openrouter")
      (codes "k")
      (codes " s ")
      []
      (some (codes "r"))
      end).0
    ≢ end
unfolding apply_provider_affinity affinity_scope text_eq is_empty
pinned h = ground (arith, h)

pinned_provider_own_example :
    (codes "k" ≡ codes "k")
    × (affinity_session (codes " s ") [] ≡ codes "s")
    × (codes "r" ≡ codes "r")
unfolding affinity_session is_empty
pinned_provider_own_example =
    pinned_provider_own same_text (λ s t h. h) one_route (codes "k") (codes "s") (codes "r")
      one_route_own (codes "minimax-openrouter") (codes "k") (codes " s ") [] (codes "r") end
      (omega arith, tt) (omega arith, tt) (omega arith, tt) (omega arith, tt) pinned
