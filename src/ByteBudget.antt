-- ===== src/ByteBudget.antt =====
-- proxy/bytebudget.go: the process-wide budget of buffered request bytes. Amounts are numbers of
-- bytes that are not negative; `Invariant` shows that none exceeds the total. A worker is a request;
-- one round of its `Acquire` loop runs under the mutex, so an execution is a sequence of rounds.
pub mod Invariant
pub mod Starvation
use muhiya_workspace.Prelude.{
  ℕ, ◌+◌, ◌-◌, ◌≤◌, ◌<◌, ◌≡◌, Option, none, some, List, [], ◌∷◌, ◌++◌, if◌then◌else◌, ltb, ◌==◌,
}
use muhiya_workspace.Prelude.Int.{ℤ, pos, ltb_ℤ, pos_part}
use muhiya_workspace.Prelude.Text.{Text, is_empty}

-- 1 MiB, and the default of 256 MiB
abbrev pub byte_budget_unit : ℕ
byte_budget_unit = 1_048_576

abbrev pub default_max_inflight_request_bytes : ℕ
default_max_inflight_request_bytes = 268_435_456

-- `maxInflightRequestBytes`, of the trimmed variable and of what `strconv.ParseInt` makes of it.
unfoldable pub max_inflight_request_bytes : Text → Option ℤ → ℤ
max_inflight_request_bytes raw parsed =
    if is_empty raw then pos default_max_inflight_request_bytes else elim parsed [
      | none ↦ pos default_max_inflight_request_bytes
      | some n ↦
          if ltb_ℤ n (pos byte_budget_unit) then pos default_max_inflight_request_bytes else n
    ]

-- `newByteBudget`: the bytes that are available at first.
unfoldable pub new_byte_budget : ℤ → ℕ
new_byte_budget total =
    if ltb_ℤ total (pos byte_budget_unit) then byte_budget_unit else pos_part total

-- One round of `Acquire` under the lock: the bytes that are left, and those acquired so far.
unfoldable pub acquire_round : ℕ → ℕ → ℕ → ℕ × ℕ
acquire_round avail n acquired =
    let take = if ltb (n - acquired) avail then n - acquired else avail in
    if ltb 0 avail then (avail - take, acquired + take) else (avail, acquired)

unfoldable pub release : ℕ → ℕ → ℕ
release avail n = if n == 0 then avail else avail + n

-- A request waits in `Acquire n` with part of its bytes, holds all of them, or has given them back.
pub data Worker : Type 0 where
  waiting : ℕ → ℕ → Worker
  holding : ℕ → Worker
  gone : Worker

pub record Pool : Type 0 where
  pub avail : ℕ
  pub workers : List Worker

-- The workers before and after the one that moves.
abbrev pub around : List Worker → Worker → List Worker → List Worker
around xs w ys = xs ++ (w ∷ ys)

-- `acquire`: a round of the loop. `enter`: the loop's test fails, and `Acquire` returns.
-- `cancel`: the context ends before all is acquired. `finish`: the deferred `Release`.
pub data Step (s t : Pool) : Type 0 where
  acquire :
      (xs ys : List Worker) (n acquired : ℕ)
      → s.workers ≡ around xs (waiting n acquired) ys
      → acquired < n
      → t.avail ≡ (acquire_round s.avail n acquired).0
      → t.workers ≡ around xs (waiting n (acquire_round s.avail n acquired).1) ys
      → Step s t
  enter :
      (xs ys : List Worker) (n acquired : ℕ)
      → s.workers ≡ around xs (waiting n acquired) ys
      → n ≤ acquired
      → t.avail ≡ s.avail
      → t.workers ≡ around xs (holding n) ys
      → Step s t
  cancel :
      (xs ys : List Worker) (n acquired : ℕ)
      → s.workers ≡ around xs (waiting n acquired) ys
      → acquired < n
      → t.avail ≡ release s.avail acquired
      → t.workers ≡ around xs gone ys
      → Step s t
  finish :
      (xs ys : List Worker) (n : ℕ)
      → s.workers ≡ around xs (holding n) ys
      → t.avail ≡ release s.avail n
      → t.workers ≡ around xs gone ys
      → Step s t

pub data Reach (s : Pool) : Pool → Type 0 where
  here : Reach s s
  next : {t u : Pool} → Reach s t → Step t u → Reach s u

unfoldable pub waiters : List ℕ → List Worker
waiters [] = []
waiters (n ∷ ns) = waiting n 0 ∷ waiters ns

-- The pool at the start: nobody holds anything.
unfoldable pub start : ℕ → List ℕ → Pool
unfolding waiters
start total needs = record { avail = total; workers = waiters needs }
