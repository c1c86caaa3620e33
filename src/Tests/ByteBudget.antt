-- ===== src/Tests/ByteBudget.antt =====
-- Requests that share a small budget of bytes.
use muhiya_workspace.Prelude.{◌+◌, ◌≤◌, ◌≡◌, refl, arith, [], ◌∷◌, All}
use muhiya_workspace.ByteBudget.{Worker, Step, Reach, acquire, waiting, start, acquire_round}
use muhiya_workspace.ByteBudget.Invariant.{held, IsWithin, bytes_conserved}
use muhiya_workspace.ByteBudget.Starvation.{deadlocked, deadlocked_reachable}

deadlocked_reachable_example : Reach (start 2 (1 ∷ 1 ∷ 2 ∷ 2 ∷ [])) (deadlocked 1)
deadlocked_reachable_example = deadlocked_reachable 1 (omega arith)

bytes_conserved_example :
    ((deadlocked 1).avail + held (deadlocked 1).workers ≡ 2)
    × (held (deadlocked 1).workers ≤ 2)
    × All IsWithin (deadlocked 1).workers
bytes_conserved_example =
    bytes_conserved 2 (1 ∷ 1 ∷ 2 ∷ 2 ∷ []) (deadlocked_reachable 1 (omega arith))

-- One more round of a blocked request takes nothing.
idle_round : Step (deadlocked 1) (deadlocked 1)
unfolding acquire_round
idle_round =
    acquire (Worker.gone ∷ Worker.gone ∷ []) (waiting 2 1 ∷ []) 2 1 refl (omega arith) refl refl
