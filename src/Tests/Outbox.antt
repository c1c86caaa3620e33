-- ===== src/Tests/Outbox.antt =====
-- A database that never answers loses a log after its five attempts.
use muhiya_workspace.Prelude.{ℕ, Bool, true, false, ◌≡◌, refl, [], ◌∷◌, List, ◌==◌}
use muhiya_workspace.Prelude.Int.{pos}
use muhiya_workspace.Outbox.{Entry, Event, enqueue, receive, attempt, run, empty_outbox}
use muhiya_workspace.Outbox.Journal.{given, journaled}
use muhiya_workspace.Outbox.Conserved.{IsConserved, outbox-IsConserved}

abbrev log : Entry ℕ
log = record { charge_ceiling = pos 5; content = 7 }

abbrev down : ℕ → Entry ℕ → ℕ × Bool
down d _ = (d, false)

abbrev is_seven : Entry ℕ → Bool
is_seven e = e.content == 7

abbrev events : List (Event ℕ)
events =
    enqueue log
    ∷ receive
    ∷ attempt 0
    ∷ attempt 0
    ∷ attempt 0
    ∷ attempt 0
    ∷ attempt 0
    ∷ attempt 0
    ∷ []

lost : (run down down events (empty_outbox 0)).losses ≡ 1
unfolding run
lost = refl

outbox-IsConserved_example :
    IsConserved down down is_seven
      (given is_seven events)
      (given (λ _. true) events)
      (run (journaled down) (journaled down) events (empty_outbox (0, [])))
outbox-IsConserved_example = outbox-IsConserved down down is_seven events 0
