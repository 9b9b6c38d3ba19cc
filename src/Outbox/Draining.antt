-- ===== src/Outbox/Draining.antt =====
-- How the worker of the outbox gets every entry done.
use flowra.Base.{
  ℕ, zero, suc, ◌-◌, ◌*◌, ◌≤◌, ◌<◌, Text, true, Bool-cases, Option-cases, List, [], ◌∷◌, ◌≡◌, refl,
  inl, inr, arith, keep, length, leb, All,
}
use flowra.Outbox.Worker.{
  OutboxEntry, is_pending, take, change, processed, failed_once, Outbox, OutboxWorkerConfig,
  Answers, World, with_processed, with_failed, process_entry, process_entries, process_batch, run,
}
use flowra.Outbox.Owed.{
  total, owed-processed, owed-failed_once, total-map, total-map_first, processed-nearer,
  failed_once-nearer, first_pending, total-none, none-total, total-pending,
}

module _ (outbox : Outbox) where
  open outbox use {
    State, entries, poll, mark_processed, mark_failed, poll-entries, entries-mark_processed,
    entries-mark_failed,
  }

  -- What the entries of a world still need.
  abbrev left : ℕ → World outbox → ℕ
  left m w = total m (entries w.store)

  with_processed-left :
      (m : ℕ) (ans : Answers) (e : OutboxEntry) (w : World outbox)
      → left m (with_processed outbox ans e w) ≤ left m w
  with_processed-left m ans e w = elim (Bool-cases (ans.processed_marked e)) [
    | inl p ↦
        rw (p, entries-mark_processed ans.now w.store e.id)
          (total-map m (change (processed ans.now) e.id) (entries w.store)
            (owed-processed m ans.now e.id))
    | inr p ↦ rw p (omega arith)
  ]

  with_failed-left :
      (m : ℕ) (ans : Answers) (e : OutboxEntry) (why : Text) (w : World outbox)
      → left m (with_failed outbox ans e why w) ≤ left m w
  with_failed-left m ans e why w = elim (Bool-cases (ans.failure_marked e)) [
    | inl p ↦
        rw (p, entries-mark_failed w.store e.id why)
          (total-map m (change (failed_once why) e.id) (entries w.store)
            (owed-failed_once m e.id why))
    | inr p ↦ rw p (omega arith)
  ]

  process_entry-left :
      (m : ℕ) (config : OutboxWorkerConfig) (ans : Answers) (e : OutboxEntry) (w : World outbox)
      → left m (process_entry outbox config ans e w) ≤ left m w
  unfolding process_entry
  process_entry-left m config ans e w = elim (Bool-cases (leb config.max_retries e.retry_count)) [
    | inl p ↦ rw p (with_processed-left m ans e w)
    | inr p ↦ elim (Option-cases (ans.publish_error e)) [
      | inl q ↦ rw (p, q) (with_processed-left m ans e w)
      | inr (why, q) ↦ rw (p, q) (with_failed-left m ans e why w)
    ]
  ]

  process_entries-left :
      (m : ℕ) (config : OutboxWorkerConfig) (ans : Answers) (es : List OutboxEntry)
      (w : World outbox)
      → left m (process_entries outbox config ans es w) ≤ left m w
  unfolding process_entries
  process_entries-left m config ans [] w = omega arith
  process_entries-left m config ans (e ∷ es) w = omega (
    arith,
    process_entries-left m config ans es (process_entry outbox config ans e w),
    process_entry-left m config ans e w,
  )

  -- Every call on the database succeeds; the bus may answer what it will.
  pub record IsMarking (ans : Answers) : Type 0 where
    pub polled : ans.polled ≡ true
    pub processed_marked : (e : OutboxEntry) → ans.processed_marked e ≡ true
    pub failure_marked : (e : OutboxEntry) → ans.failure_marked e ≡ true

  process_entry-first :
      (config : OutboxWorkerConfig) (ans : Answers) (e : OutboxEntry) (rest : List OutboxEntry)
      (w : World outbox)
      → IsMarking ans
      → keep is_pending (entries w.store) ≡ e ∷ rest
      → left config.max_retries (process_entry outbox config ans e w) < left config.max_retries w
  unfolding process_entry
  process_entry-first config ans e rest w marking h =
      let m = config.max_retries in
      let pending = first_pending (entries w.store) rest e h in
      let done : total m (entries (mark_processed ans.now w.store e.id))
          < total m (entries w.store) =
        rw (entries-mark_processed ans.now w.store e.id) (
          total-map_first m (change (processed ans.now) e.id) (entries w.store) rest e
            (owed-processed m ans.now e.id) h (processed-nearer m ans.now e pending)) in
      elim (Bool-cases (leb m e.retry_count)) [
        | inl p ↦ rw (p, marking.processed_marked e) done
        | inr p ↦ elim (Option-cases (ans.publish_error e)) [
          | inl q ↦ rw (p, q, marking.processed_marked e) done
          | inr (why, q) ↦
              rw (p, q, marking.failure_marked e, entries-mark_failed w.store e.id why)
                (total-map_first m (change (failed_once why) e.id) (entries w.store) rest e
                  (owed-failed_once m e.id why) h (failed_once-nearer m why e pending p))
        ]
      ]

  -- The entries of a batch, by those that are pending.
  taken-left :
      (config : OutboxWorkerConfig) (ans : Answers) (w : World outbox) (n : ℕ)
      (pending : List OutboxEntry)
      → 0 < n
      → IsMarking ans
      → keep is_pending (entries w.store) ≡ pending
      → left config.max_retries (process_entries outbox config ans (take n pending) w)
        ≤ left config.max_retries w - 1
  unfolding process_entries
  taken-left config ans w zero pending b marking h = omega (arith, b)
  taken-left config ans w (suc n) [] b marking h =
      omega (arith, total-none config.max_retries (entries w.store) h)
  taken-left config ans w (suc n) (e ∷ es) b marking h = omega (
    arith,
    process_entry-first config ans e es w marking h,
    process_entries-left config.max_retries config ans (take n es)
        (process_entry outbox config ans e w),
  )

  -- A batch brings the entries nearer to their end, unless there is none to process.
  process_batch-left :
      (config : OutboxWorkerConfig) (ans : Answers) (w : World outbox)
      → 0 < config.batch_size
      → IsMarking ans
      → left config.max_retries (process_batch outbox config ans w) ≤ left config.max_retries w - 1
  unfolding process_batch process_entries process_entry
  process_batch-left config ans w b marking =
      rw (marking.polled, poll-entries w.store config.batch_size)
        (taken-left config ans w config.batch_size (keep is_pending (entries w.store)) b marking
          refl)

  run-left :
      (config : OutboxWorkerConfig) (rounds : List Answers) (w : World outbox)
      → 0 < config.batch_size
      → All IsMarking rounds
      → left config.max_retries (run outbox config rounds w)
        ≤ left config.max_retries w - length rounds
  unfolding run
  run-left config [] w b a = omega arith
  run-left config (ans ∷ rounds) w b a = omega (
    arith,
    process_batch-left config ans w b a.0,
    run-left config rounds (process_batch outbox config ans w) b a.1,
  )

  -- Whatever the bus answers, also where it never accepts an event: once the worker has run as many batches as there are
  -- pending entries, each counted MaxRetries and one times, no entry is pending. The batch size is not 0, and
  -- the calls on the database succeed.
  pub run-drained :
      (config : OutboxWorkerConfig) (rounds : List Answers) (w : World outbox)
      → 0 < config.batch_size
      → All IsMarking rounds
      → length (keep is_pending (entries w.store)) * suc config.max_retries ≤ length rounds
      → keep is_pending (entries (run outbox config rounds w).store) ≡ []
  run-drained config rounds w b a enough =
      none-total config.max_retries (entries (run outbox config rounds w).store) (
        omega (
          arith,
          run-left config rounds w b a,
          total-pending config.max_retries (entries w.store),
          enough,
        ))
