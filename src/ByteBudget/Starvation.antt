-- ===== src/ByteBudget/Starvation.antt =====
-- Partial reservations can block one another: requests that each hold a part and wait for the rest.
use muhiya_workspace.Prelude.{ℕ, ◌+◌, ◌-◌, ◌≤◌, ◌<◌, ◌≡◌, refl, sym, ◌∙◌, List, [], ◌∷◌, arith, All}
use muhiya_workspace.ByteBudget.{
  Worker, waiting, holding, gone, Pool, Step, acquire, enter, cancel, finish, Reach, here, next,
  acquire_round, release, around, start,
}

-- Two requests for 2n bytes each hold n, and nothing is left.
abbrev pub deadlocked : ℕ → Pool
deadlocked n = record {
  avail = 0;
  workers = gone ∷ gone ∷ waiting (n + n) n ∷ waiting (n + n) n ∷ [];
}

abbrev pool : ℕ → List Worker → Pool
pool avail workers = record { avail = avail; workers = workers }

round_small : (avail n : ℕ) → n ≤ avail → acquire_round avail n 0 ≡ (avail - n, n)
unfolding acquire_round
round_small avail n h = ground arith

round_large : (avail n : ℕ) → avail ≤ n → acquire_round avail n 0 ≡ (0, avail)
unfolding acquire_round
round_large avail n h = ground arith

released : (n : ℕ) → 0 < n → n ≡ release 0 n
unfolding release
released n h = ground arith

pool_ext : (s t : Pool) → s.avail ≡ t.avail → s.workers ≡ t.workers → s ≡ t
pool_ext s t p q = λ i. record { avail = p i; workers = q i }

-- Two requests for n bytes and two for 2n bytes share a budget of 2n bytes. The small ones are
-- served and give their bytes back one after the other, each of the large ones takes what one of
-- them gave back, and both large ones are left waiting with nothing available.
pub deadlocked_reachable :
    (n : ℕ) → 0 < n → Reach (start (n + n) (n ∷ n ∷ (n + n) ∷ (n + n) ∷ [])) (deadlocked n)
unfolding start
deadlocked_reachable n h =
    let two : ℕ = n + n in
    let big : Worker = waiting two 0 in
    let part : Worker = waiting two n in
    let served : Worker = waiting n n in
    let s0 = start (n + n) (n ∷ n ∷ (n + n) ∷ (n + n) ∷ []) in
    let p1 : Reach s0 (pool n (served ∷ waiting n 0 ∷ big ∷ big ∷ [])) = next here (
      acquire [] (waiting n 0 ∷ big ∷ big ∷ []) n 0 refl h (ground (arith, round_small two n))
        (ground (arith, round_small two n))) in
    let p2 : Reach s0 (pool 0 (served ∷ served ∷ big ∷ big ∷ [])) = next p1 (
      acquire (served ∷ []) (big ∷ big ∷ []) n 0 refl h (ground (arith, round_small n n))
        (ground (arith, round_small n n))) in
    let p3 : Reach s0 (pool 0 (holding n ∷ served ∷ big ∷ big ∷ [])) =
      next p2 (enter [] (served ∷ big ∷ big ∷ []) n n refl (omega arith) refl refl) in
    let p4 : Reach s0 (pool 0 (holding n ∷ holding n ∷ big ∷ big ∷ [])) =
      next p3 (enter (holding n ∷ []) (big ∷ big ∷ []) n n refl (omega arith) refl refl) in
    let p5 : Reach s0 (pool n (gone ∷ holding n ∷ big ∷ big ∷ [])) =
      next p4 (finish [] (holding n ∷ big ∷ big ∷ []) n refl (released n h) refl) in
    let p6 : Reach s0 (pool 0 (gone ∷ holding n ∷ part ∷ big ∷ [])) = next p5 (
      acquire (gone ∷ holding n ∷ []) (big ∷ []) two 0 refl (omega arith)
        (ground (arith, round_large n two)) (ground (arith, round_large n two))) in
    let p7 : Reach s0 (pool n (gone ∷ gone ∷ part ∷ big ∷ [])) =
      next p6 (finish (gone ∷ []) (part ∷ big ∷ []) n refl (released n h) refl) in
    next p7 (
      acquire (gone ∷ gone ∷ part ∷ []) [] two 0 refl (omega arith)
        (ground (arith, round_large n two)) (ground (arith, round_large n two)))

-- A round of `Acquire` with nothing available.
round_empty : (n acquired : ℕ) → acquire_round 0 n acquired ≡ (0, acquired)
unfolding acquire_round
round_empty n acquired = refl

-- A worker of the list waits for more than it has, or has given its bytes back.
abbrev pub IsBlocked : Worker → Type 0
IsBlocked (waiting n acquired) = acquired < n
IsBlocked (holding _) = ⊥
IsBlocked gone = Unit

IsBlocked-around :
    (xs : List Worker) (w : Worker) (ys : List Worker)
    → All IsBlocked (around xs w ys)
    → IsBlocked w
IsBlocked-around [] w ys (h, _) = h
IsBlocked-around (x ∷ xs) w ys (_, hs) = IsBlocked-around xs w ys hs

abbrev pub Cancels : {s t : Pool} → Step s t → Type 0
Cancels (acquire _ _ _ _ _ _ _ _) = ⊥
Cancels (enter _ _ _ _ _ _ _ _) = ⊥
Cancels (cancel _ _ _ _ _ _ _ _) = Unit
Cancels (finish _ _ _ _ _ _) = ⊥

-- Where nothing is available and every request waits for more than it has, no step but the end of a
-- request's context changes the pool: nobody is ever served again.
pub blocked_forever :
    {s t : Pool}
    → s.avail ≡ 0
    → All IsBlocked s.workers
    → (step : Step s t) → ¬ Cancels step
    → t ≡ s
blocked_forever {s = s} {t = t} z b (acquire xs ys n acquired e lt ea ew) kept =
    pool_ext t s (rw (z, round_empty) at ea ∙ sym z) (rw (z, round_empty) at ew ∙ sym e)
blocked_forever z b (enter xs ys n acquired e le ea ew) kept =
    absurd (omega (arith, IsBlocked-around xs (waiting n acquired) ys (rw e at b)))
blocked_forever z b (cancel xs ys n acquired e lt ea ew) kept = absurd (kept tt)
blocked_forever z b (finish xs ys n e ea ew) kept =
    absurd (IsBlocked-around xs (holding n) ys (rw e at b))
