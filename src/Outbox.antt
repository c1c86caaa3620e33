-- ===== src/Outbox.antt =====
-- proxy/outbox.go: the buffer of request logs whose first insert failed, which eight workers empty. The
-- two calls of the database are arguments: each gives the new state of the database, and whether it
-- succeeded. The steps of the workers are interleaved in any order.
pub mod Conserved
pub mod Journal
use muhiya_workspace.Prelude.{
  length, ℕ, zero, suc, ◌+◌, Bool, true, false, List, [], ◌∷◌, ◌++◌, if◌then◌else◌, ltb,
}
use muhiya_workspace.Prelude.Int.{ℤ, pos, leb_ℤ}

-- `logOutboxCapacity`
abbrev pub log_outbox_capacity : ℕ
log_outbox_capacity = 4096

abbrev pub outbox_workers : ℕ
outbox_workers = 8

-- the waits before the second and the later attempts, in seconds
abbrev pub backoffs : List ℕ
backoffs = 1 ∷ 5 ∷ 15 ∷ 60 ∷ []

-- the part of a `RequestLog` that the outbox reads, with the rest of the log
pub record Entry {ℓ} (A : Type ℓ) : Type ℓ where
  pub charge_ceiling : ℤ
  pub content : A

-- an entry that a worker holds, and the waits that are left to it
pub record Retrying {ℓ} (A : Type ℓ) : Type ℓ where
  pub entry : Entry A
  pub waits : List ℕ

-- `losses` is `BillingLossCount`.
pub record Outbox {ℓ κ} (A : Type ℓ) (D : Type κ) : Type (ℓ ⊔ κ) where
  pub queue : List (Entry A)
  pub retrying : List (Retrying A)
  pub database : D
  pub losses : ℕ

pub data Event {ℓ} (A : Type ℓ) : Type ℓ where
  enqueue : Entry A → Event A
  receive : Event A
  attempt : ℕ → Event A

module _ {ℓ κ} {A : Type ℓ} {D : Type κ}
    (insert_request_log settle_usage_and_log : D → Entry A → D × Bool) where
  unfoldable pub persist : D → Entry A → D × Bool
  persist d e =
      if leb_ℤ e.charge_ceiling (pos 0) then insert_request_log d e else settle_usage_and_log d e

  unfoldable pub enqueue_log : Outbox A D → Entry A → Outbox A D
  enqueue_log o e =
      if ltb (length o.queue) log_outbox_capacity
      then record o { queue = o.queue ++ (e ∷ []) }
      else record o { losses = suc o.losses }

  -- a worker that is free takes the first entry of the queue
  unfoldable pub receive_from : List (Entry A) → Outbox A D → Outbox A D
  receive_from [] o = o
  receive_from (e ∷ queue) o =
      if ltb (length o.retrying) outbox_workers
      then record o {
        queue = queue;
        retrying = o.retrying ++ (record { entry = e; waits = backoffs } ∷ []);
      }
      else o

  -- what a worker's list and the count of losses become, and the database
  pub record Step : Type (ℓ ⊔ κ) where
    pub workers : List (Retrying A)
    pub losses : ℕ
    pub database : D

  -- what becomes of an entry after an attempt that failed: it waits again, or it is lost
  unfoldable pub failed_attempt : D → Entry A → List ℕ → List (Retrying A) → Step
  failed_attempt d e [] workers = record { workers = workers; losses = 1; database = d }
  failed_attempt d e (_ ∷ waits) workers = record {
    workers = record { entry = e; waits = waits } ∷ workers;
    losses = 0;
    database = d;
  }

  unfoldable pub attempt_one : D → Retrying A → List (Retrying A) → Step
  unfolding persist failed_attempt
  attempt_one d r workers =
      let (d', succeeded) = persist d r.entry in
      if succeeded
      then record { workers = workers; losses = 0; database = d' }
      else failed_attempt d' r.entry r.waits workers

  -- the attempt of the worker at a position
  unfoldable pub attempt_at : ℕ → D → List (Retrying A) → Step
  unfolding attempt_one
  attempt_at i d [] = record { workers = []; losses = 0; database = d }
  attempt_at zero d (r ∷ workers) = attempt_one d r workers
  attempt_at (suc i) d (r ∷ workers) =
      let rest = attempt_at i d workers in record rest { workers = r ∷ rest.workers }

  unfoldable pub step : Outbox A D → Event A → Outbox A D
  unfolding enqueue_log receive_from attempt_at
  step o (enqueue e) = enqueue_log o e
  step o receive = receive_from o.queue o
  step o (attempt i) =
      let after = attempt_at i o.database o.retrying in
      record o {
        retrying = after.workers;
        database = after.database;
        losses = o.losses + after.losses;
      }

  unfoldable pub run : List (Event A) → Outbox A D → Outbox A D
  unfolding step
  run [] o = o
  run (e ∷ events) o = run events (step o e)

abbrev pub empty_outbox {ℓ κ} : {A : Type ℓ} {D : Type κ} → D → Outbox A D
empty_outbox d = record { queue = []; retrying = []; database = d; losses = 0 }
