-- ===== src/Outbox/Conserved.antt =====
-- No log disappears: it waits, the database has taken it, or it is counted as lost, after five attempts
-- at most. The calls of the database write a journal of what they were asked and what they answered.
use muhiya_workspace.Prelude.{
  length, length-append, ℕ, zero, suc, ◌+◌, ◌*◌, ◌≤◌, ◌≡◌, refl, sym, ap, ◌∙◌, Bool, true, false,
  List, [], ◌∷◌, arith, Bool-cases, inl, inr, ltb, if◌then◌else◌,
}
use muhiya_workspace.Outbox.{
  log_outbox_capacity, outbox_workers, backoffs, Entry, Retrying, Outbox, Event, enqueue, receive,
  attempt, persist, enqueue_log, receive_from, Step, failed_attempt, attempt_one, attempt_at, step,
  run, empty_outbox,
}
use muhiya_workspace.Prelude.Int.{pos, leb_ℤ}
use muhiya_workspace.Outbox.Journal.{
  count, held, taken, tried, given, left, count-++, held-++, left-++, journaled,
}

module _ {ℓ κ} {A : Type ℓ} {D : Type κ}
    (insert_request_log settle_usage_and_log : D → Entry A → D × Bool)
    (chosen : Entry A → Bool) where
  abbrev pub Recording : Type (ℓ ⊔ κ)
  Recording = Outbox A (D × List (Entry A × Bool))

  -- Of the chosen logs that were given each waits in the buffer or with a worker, was taken by the
  -- database, or is lost; of all logs so many are lost as the count says; no chosen log was tried more
  -- than five times; and the buffer and the workers hold no more than they may.
  pub record IsConserved (chosen_given all_given : ℕ) (o : Recording) : Type 0 where
    pub lost : ℕ
    pub counted :
        chosen_given
        ≡ count chosen o.queue + held chosen o.retrying + taken chosen o.database.1 + lost
    pub lost_le : lost ≤ o.losses
    pub all_counted :
        all_given ≡ length o.queue + length o.retrying + taken (λ _. true) o.database.1 + o.losses
    pub tried_le :
        tried chosen o.database.1 + 5 * count chosen o.queue + left chosen o.retrying
        ≤ 5 * chosen_given
    pub queue_le : length o.queue ≤ log_outbox_capacity
    pub workers_le : length o.retrying ≤ outbox_workers

  abbrev Recorded : Type (ℓ ⊔ κ)
  Recorded = Step (journaled insert_request_log) (journaled settle_usage_and_log)

  -- What an attempt does to the workers and the journal.
  Counted : List (Retrying A) → List (Entry A × Bool) → Recorded → Type 0
  Counted workers journal after =
      (lost : ℕ) × (held chosen workers + taken chosen journal
        ≡ held chosen after.workers + taken chosen after.database.1 + lost)
      × (lost ≤ after.losses)
      × (length workers + taken (λ _. true) journal
          ≡ length after.workers + taken (λ _. true) after.database.1 + after.losses)
      × (tried chosen after.database.1 + left chosen after.workers
          ≤ tried chosen journal + left chosen workers)
      × (length after.workers ≤ length workers)

  failed_attempt-Counted :
      (d : D × List (Entry A × Bool)) (e : Entry A) (waits : List ℕ) (workers : List (Retrying A))
      (journal : List (Entry A × Bool))
      → d.1 ≡ (e, false) ∷ journal
      → Counted (record { entry = e; waits = waits } ∷ workers) journal (
          failed_attempt
            (journaled insert_request_log)
            (journaled settle_usage_and_log)
            d
            e
            waits
            workers)
  unfolding Counted failed_attempt
  failed_attempt-Counted d e [] workers journal h = elim (Bool-cases (chosen e)) [
    | inl picked ↦
        rw (h, picked) (1, omega arith, omega arith, omega arith, omega arith, omega arith)
    | inr other ↦ rw (h, other) (0, omega arith, omega arith, omega arith, omega arith, omega arith)
  ]
  failed_attempt-Counted d e (_ ∷ waits) workers journal h = elim (Bool-cases (chosen e)) [
    | inl picked ↦
        rw (h, picked) (0, omega arith, omega arith, omega arith, omega arith, omega arith)
    | inr other ↦ rw (h, other) (0, omega arith, omega arith, omega arith, omega arith, omega arith)
  ]

  saved_attempt-Counted :
      (d : D × List (Entry A × Bool)) (r : Retrying A) (workers : List (Retrying A))
      (journal : List (Entry A × Bool))
      → d.1 ≡ (r.entry, true) ∷ journal
      → Counted (r ∷ workers) journal (record { workers = workers; losses = 0; database = d })
  unfolding Counted
  saved_attempt-Counted d r workers journal h = elim (Bool-cases (chosen r.entry)) [
    | inl picked ↦
        rw (h, picked) (0, omega arith, omega arith, omega arith, omega arith, omega arith)
    | inr other ↦ rw (h, other) (0, omega arith, omega arith, omega arith, omega arith, omega arith)
  ]

  -- What the two calls answer is what they write.
  persist-journaled :
      (d : D) (journal : List (Entry A × Bool)) (e : Entry A)
      → let (after, succeeded) =
          persist (journaled insert_request_log) (journaled settle_usage_and_log) (d, journal) e in
        after.1 ≡ (e, succeeded) ∷ journal
  unfolding persist
  persist-journaled d journal e = elim (Bool-cases (leb_ℤ e.charge_ceiling (pos 0))) [
    | inl free ↦ rw free refl
    | inr charged ↦ rw charged refl
  ]

  attempt_one-Counted :
      (d : D) (journal : List (Entry A × Bool)) (r : Retrying A) (workers : List (Retrying A))
      → Counted (r ∷ workers) journal (
          attempt_one
            (journaled insert_request_log)
            (journaled settle_usage_and_log)
            (d, journal)
            r
            workers)
  unfolding Counted attempt_one
  attempt_one-Counted d journal r workers =
      let after =
        persist (journaled insert_request_log) (journaled settle_usage_and_log) (d, journal)
          r.entry in
      let written = persist-journaled d journal r.entry in
      elim (Bool-cases after.1) [
        | inl saved ↦ rw saved (
            saved_attempt-Counted after.0 r workers journal
              (written ∙ ap (λ t. (r.entry, t) ∷ journal) saved))
        | inr failed ↦ rw failed (
            failed_attempt-Counted after.0 r.entry r.waits workers journal
              (written ∙ ap (λ t. (r.entry, t) ∷ journal) failed))
      ]

  attempt_at-Counted :
      (i : ℕ) (d : D) (journal : List (Entry A × Bool)) (workers : List (Retrying A))
      → Counted workers journal (
          attempt_at
            (journaled insert_request_log)
            (journaled settle_usage_and_log)
            i
            (d, journal)
            workers)
  unfolding Counted attempt_at
  attempt_at-Counted i d journal [] =
      (0, omega arith, omega arith, omega arith, omega arith, omega arith)
  attempt_at-Counted zero d journal (r ∷ workers) = attempt_one-Counted d journal r workers
  attempt_at-Counted (suc i) d journal (r ∷ workers) =
      let (lost, counted, lost_le, all_counted, tried_le, fewer) =
        attempt_at-Counted i d journal workers in
      elim (Bool-cases (chosen r.entry)) [
        | inl picked ↦ rw picked (lost, omega arith, lost_le, omega arith, omega arith, omega arith)
        | inr other ↦ rw other (lost, omega arith, lost_le, omega arith, omega arith, omega arith)
      ]

  enqueue-IsConserved :
      (n total : ℕ) (o : Recording) (e : Entry A)
      → IsConserved n total o
      → IsConserved
          (if chosen e then suc n else n)
          (suc total)
          (enqueue_log (journaled insert_request_log) (journaled settle_usage_and_log) o e)
  unfolding enqueue_log
  enqueue-IsConserved n total o e c =
      let queued = length-append o.queue (e ∷ []) in
      let appended = count-++ chosen o.queue (e ∷ []) in
      elim (Bool-cases (ltb (length o.queue) log_outbox_capacity)) [
        | inl room ↦ rw room (record {
          lost = c.lost;
          counted = ground (arith, c.counted, appended);
          lost_le = c.lost_le;
          all_counted = omega (arith, c.all_counted, queued);
          tried_le = ground (arith, c.tried_le, appended);
          queue_le = ground (arith, room, queued);
          workers_le = c.workers_le;
        })
        | inr full ↦ rw full (record {
          lost = if chosen e then suc c.lost else c.lost;
          counted = ground (arith, c.counted);
          lost_le = ground (arith, c.lost_le);
          all_counted = omega (arith, c.all_counted);
          tried_le = ground (arith, c.tried_le);
          queue_le = c.queue_le;
          workers_le = c.workers_le;
        })
      ]

  receive-IsConserved :
      (n total : ℕ) (queue : List (Entry A)) (o : Recording)
      → o.queue ≡ queue
      → IsConserved n total o
      → IsConserved n total
          (receive_from (journaled insert_request_log) (journaled settle_usage_and_log) queue o)
  unfolding receive_from
  receive-IsConserved n total [] o h c = c
  receive-IsConserved n total (e ∷ queue) o h c =
      elim (Bool-cases (ltb (length o.retrying) outbox_workers)) [
        | inl room ↦
            let taken_one : length o.queue ≡ suc (length queue) = ap length h in
            let counted_one : count chosen o.queue ≡ count chosen (e ∷ queue) =
              ap (count chosen) h in
            let retried : List (Retrying A) = record { entry = e; waits = backoffs } ∷ [] in
            let holds = held-++ chosen o.retrying retried in
            let leaves = left-++ chosen o.retrying retried in
            let longer = length-append o.retrying retried in
            rw room (record {
              lost = c.lost;
              counted = ground (arith, c.counted, counted_one, holds);
              lost_le = c.lost_le;
              all_counted = omega (arith, c.all_counted, taken_one, longer);
              tried_le = ground (arith, c.tried_le, counted_one, leaves);
              queue_le = omega (arith, c.queue_le, taken_one);
              workers_le = ground (arith, room, longer);
            })
        | inr busy ↦ rw busy c
      ]

  attempt-IsConserved :
      (n total i : ℕ) (o : Recording)
      → IsConserved n total o
      → IsConserved n total
          (step (journaled insert_request_log) (journaled settle_usage_and_log) o (attempt i))
  unfolding step Counted
  attempt-IsConserved n total i o c =
      let (lost, counted, lost_le, all_counted, tried_le, fewer) =
        attempt_at-Counted i o.database.0 o.database.1 o.retrying in
      record {
        lost = c.lost + lost;
        counted = omega (arith, c.counted, counted);
        lost_le = omega (arith, c.lost_le, lost_le);
        all_counted = omega (arith, c.all_counted, all_counted);
        tried_le = omega (arith, c.tried_le, tried_le);
        queue_le = c.queue_le;
        workers_le = omega (arith, c.workers_le, fewer);
      }

  recount :
      {n n' total total' : ℕ} (o : Recording)
      → n ≡ n'
      → total ≡ total'
      → IsConserved n total o
      → IsConserved n' total' o
  recount o h k c = rw (sym h, sym k) c

  run-IsConserved :
      (n total : ℕ) (events : List (Event A)) (o : Recording)
      → IsConserved n total o
      → IsConserved
          (n + given chosen events)
          (total + given (λ _. true) events)
          (run (journaled insert_request_log) (journaled settle_usage_and_log) events o)
  unfolding run step
  run-IsConserved n total [] o c = recount o (omega arith) (omega arith) c
  run-IsConserved n total (enqueue e ∷ events) o c = recount _ (ground arith) (omega arith) (
      run-IsConserved (if chosen e then suc n else n) (suc total) events _
        (enqueue-IsConserved n total o e c))
  run-IsConserved n total (receive ∷ events) o c =
      run-IsConserved n total events _ (receive-IsConserved n total o.queue o refl c)
  run-IsConserved n total (attempt i ∷ events) o c =
      run-IsConserved n total events _ (attempt-IsConserved n total i o c)

  -- However the calls of the database turn out and the steps of the workers are interleaved, and
  -- whichever logs are chosen, for instance one: each chosen log that was given to the outbox waits in
  -- the buffer or with a worker, or the database has answered that it has taken it, or it is lost; all
  -- the logs that are lost are counted as losses; the database was asked at most five times for each
  -- chosen log; and the buffer and the workers never hold more than they may.
  pub outbox-IsConserved :
      (events : List (Event A)) (d : D)
      → IsConserved (given chosen events) (given (λ _. true) events) (
          run
            (journaled insert_request_log)
            (journaled settle_usage_and_log)
            events
            (empty_outbox (d, [])))
  outbox-IsConserved events d = recount _ (omega arith) (omega arith) (
      run-IsConserved 0 0 events (empty_outbox (d, [])) (record {
        lost = 0;
        counted = refl;
        lost_le = omega arith;
        all_counted = refl;
        tried_le = omega arith;
        queue_le = omega arith;
        workers_le = omega arith;
      }))
