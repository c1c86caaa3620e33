-- ===== src/ByteBudget/Invariant.antt =====
-- No byte of the budget is lost or made up, in any interleaving.
use muhiya_workspace.Prelude.{ℕ, ◌+◌, ◌≤◌, ◌≡◌, List, [], ◌∷◌, arith, All}
use muhiya_workspace.ByteBudget.{
  Worker, waiting, holding, gone, Pool, Step, acquire, enter, cancel, finish, Reach, here, next,
  acquire_round, release, around, start, waiters,
}

-- The bytes that the workers have taken.
unfoldable pub held : List Worker → ℕ
held [] = 0
held (waiting n acquired ∷ ws) = acquired + held ws
held (holding n ∷ ws) = n + held ws
held (gone ∷ ws) = held ws

abbrev held_by : Worker → ℕ
held_by (waiting n acquired) = acquired
held_by (holding n) = n
held_by gone = 0

held-around :
    (xs : List Worker) (w : Worker) (ys : List Worker)
    → held (around xs w ys) ≡ held xs + held_by w + held ys
unfolding held
held-around [] w ys = ground arith
held-around (x ∷ xs) w ys = ground (arith, held-around xs w ys)

-- A worker that waits has taken no more than it needs.
abbrev pub IsWithin : Worker → Type 0
IsWithin (waiting n acquired) = acquired ≤ n
IsWithin (holding _) = Unit
IsWithin gone = Unit

pub record IsConserved (total : ℕ) (s : Pool) : Type 0 where
  pub sums : s.avail + held s.workers ≡ total
  pub within : All IsWithin s.workers

All-around :
    (xs : List Worker) (w v : Worker) (ys : List Worker)
    → All IsWithin (around xs w ys)
    → IsWithin v
    → All IsWithin (around xs v ys)
All-around [] w v ys (_, h) k = (k, h)
All-around (x ∷ xs) w v ys (h, hs) k = (h, All-around xs w v ys hs k)

IsWithin-around :
    (xs : List Worker) (w : Worker) (ys : List Worker) → All IsWithin (around xs w ys) → IsWithin w
IsWithin-around [] w ys (h, _) = h
IsWithin-around (x ∷ xs) w ys (_, hs) = IsWithin-around xs w ys hs

round_sums :
    (avail n acquired : ℕ)
    → acquired ≤ n
    → let (left, acquired') = acquire_round avail n acquired in
      (left + acquired' ≡ avail + acquired) × (acquired' ≤ n)
unfolding acquire_round
round_sums avail n acquired h = ground arith

Step-IsConserved : {total : ℕ} {s t : Pool} → Step s t → IsConserved total s → IsConserved total t
unfolding release
Step-IsConserved {s = s} {t = t} (acquire xs ys n acquired e lt ea ew) c =
    let within = rw e at c.within in
    let moved = round_sums s.avail n acquired (IsWithin-around xs (waiting n acquired) ys within) in
    let after = (acquire_round s.avail n acquired).1 in
    record {
      sums = ground (
        arith,
        held-around xs (waiting n acquired) ys,
        held-around xs (waiting n after) ys,
        c.sums,
      );
      within = rw ew (All-around xs (waiting n acquired) (waiting n after) ys within moved.1);
    }
Step-IsConserved {s = s} (enter xs ys n acquired e le ea ew) c =
    let within = rw e at c.within in
    let fits = IsWithin-around xs (waiting n acquired) ys within in
    record {
      sums =
          ground
            (arith, held-around xs (waiting n acquired) ys, held-around xs (holding n) ys, c.sums);
      within = rw ew (All-around xs (waiting n acquired) (holding n) ys within tt);
    }
Step-IsConserved (cancel xs ys n acquired e lt ea ew) c = record {
  sums = ground (arith, held-around xs (waiting n acquired) ys, held-around xs gone ys, c.sums);
  within = rw ew (All-around xs (waiting n acquired) gone ys (rw e at c.within) tt);
}
Step-IsConserved (finish xs ys n e ea ew) c = record {
  sums = ground (arith, held-around xs (holding n) ys, held-around xs gone ys, c.sums);
  within = rw ew (All-around xs (holding n) gone ys (rw e at c.within) tt);
}

held-waiters : (needs : List ℕ) → (held (waiters needs) ≡ 0) × All IsWithin (waiters needs)
unfolding waiters held
held-waiters [] = ground arith
held-waiters (n ∷ ns) = ground (arith, held-waiters ns)

start-IsConserved : (total : ℕ) (needs : List ℕ) → IsConserved total (start total needs)
unfolding start
start-IsConserved total needs = record {
  sums = omega (arith, (held-waiters needs).0);
  within = (held-waiters needs).1;
}

Reach-IsConserved : {total : ℕ} {s t : Pool} → IsConserved total s → Reach s t → IsConserved total t
Reach-IsConserved h here = h
Reach-IsConserved h (next r st) = Step-IsConserved st (Reach-IsConserved h r)

-- In every interleaving of requests from an unused budget, the bytes that are available and those
-- that the requests hold, in full or in part, add up to the total, and no request that waits holds
-- more than it asked for; so what is buffered never exceeds the budget.
pub bytes_conserved :
    (total : ℕ) (needs : List ℕ) {t : Pool}
    → Reach (start total needs) t
    → (t.avail + held t.workers ≡ total) × (held t.workers ≤ total) × All IsWithin t.workers
bytes_conserved total needs r =
    let c = Reach-IsConserved (start-IsConserved total needs) r in (c.sums, omega arith, c.within)
