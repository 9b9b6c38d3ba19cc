-- ===== src/Outbox/Published.antt =====
-- Which entries of the outbox the worker marks as processed.
use flowra.Base.{
  ℕ, ◌≤◌, Text, Unique, same_refl, true, Bool-cases, Option-cases, List, [], ◌∷◌, ◌≡◌, ◌⊎◌, inl,
  inr, arith, leb, leb→le, All, if◌then◌else◌,
}
use flowra.Outbox.Worker.{
  OutboxEntry, change, processed, failed_once, Outbox, OutboxWorkerConfig, OutboxEvent, event_of,
  Answers, World, with_processed, with_failed, process_entry, process_entries, process_batch, run,
}
use flowra.Outbox.Marks.{
  was_published, Accounted, Behind, processed-Keeps, failed_once-Keeps, Unique-map, Unique-Behind,
  take-All, Accounted-processed, Accounted-failed_once, Accounted-grows, all_Behind-map,
}

module _ (outbox : Outbox) where
  open outbox use {
    State, entries, poll, mark_processed, mark_failed, poll-entries, entries-mark_processed,
    entries-mark_failed,
  }

  -- Each entry has an identity of its own, and each that is processed was published or has used up its retries.
  abbrev pub IsFair : ℕ → World outbox → Type 0
  IsFair m w =
      Unique (λ e. e.id) (entries w.store) × All (Accounted m w.published) (entries w.store)

  -- The polled entries have not been tried more often than the stored ones.
  abbrev InFlight : List OutboxEntry → World outbox → Type 0
  InFlight ps w = All (λ p. All (Behind p) (entries w.store)) ps

  with_processed-IsFair :
      (m : ℕ) (ans : Answers) (p : OutboxEntry) (ps : List OutboxEntry) (w : World outbox)
      (log : List (Text × OutboxEvent))
      → ((id : Text) → was_published w.published id ≡ true → was_published log id ≡ true)
      → (was_published log p.id ≡ true) ⊎ (m ≤ p.retry_count)
      → IsFair m w
      → All (Behind p) (entries w.store)
      → InFlight ps w
      → IsFair m (with_processed outbox ans p (record w { published = log }))
        × InFlight ps (with_processed outbox ans p (record w { published = log }))
  with_processed-IsFair m ans p ps w log grows h fair b a =
      elim (Bool-cases (ans.processed_marked p)) [
        | inl q ↦
            rw (q, entries-mark_processed ans.now w.store p.id)
              (
                (
                  Unique-map (change (processed ans.now) p.id) (entries w.store)
                      (processed-Keeps ans.now p.id) fair.0,
                  Accounted-processed m ans.now p w.published log (entries w.store) grows h b
                      fair.1,
                ),
                all_Behind-map (change (processed ans.now) p.id) (entries w.store) ps
                    (processed-Keeps ans.now p.id) a,
              )
        | inr q ↦
            rw q ((fair.0, Accounted-grows m w.published log (entries w.store) grows fair.1), a)
      ]

  with_failed-IsFair :
      (m : ℕ) (ans : Answers) (p : OutboxEntry) (why : Text) (ps : List OutboxEntry)
      (w : World outbox)
      → IsFair m w
      → InFlight ps w
      → IsFair m (with_failed outbox ans p why w) × InFlight ps (with_failed outbox ans p why w)
  with_failed-IsFair m ans p why ps w fair a = elim (Bool-cases (ans.failure_marked p)) [
    | inl q ↦
        rw (q, entries-mark_failed w.store p.id why)
          (
            (
              Unique-map (change (failed_once why) p.id) (entries w.store)
                  (failed_once-Keeps p.id why) fair.0,
              Accounted-failed_once m p.id why w.published (entries w.store) fair.1,
            ),
            all_Behind-map (change (failed_once why) p.id) (entries w.store) ps
                (failed_once-Keeps p.id why) a,
          )
    | inr q ↦ rw q (fair, a)
  ]

  process_entry-IsFair :
      (config : OutboxWorkerConfig) (ans : Answers) (p : OutboxEntry) (ps : List OutboxEntry)
      (w : World outbox)
      → IsFair config.max_retries w
      → All (Behind p) (entries w.store)
      → InFlight ps w
      → IsFair config.max_retries (process_entry outbox config ans p w)
        × InFlight ps (process_entry outbox config ans p w)
  unfolding process_entry
  process_entry-IsFair config ans p ps w fair b a =
      elim (Bool-cases (leb config.max_retries p.retry_count)) [
        | inl l ↦ rw l (
            with_processed-IsFair config.max_retries ans p ps w w.published (λ id h. h)
              (inr (leb→le config.max_retries p.retry_count l)) fair b a)
        | inr l ↦ elim (Option-cases (ans.publish_error p)) [
          | inl q ↦
              rw (l, q)
                (with_processed-IsFair config.max_retries ans p ps w
                  ((p.id, event_of p) ∷ w.published) (λ id h. ground arith)
                  (inl (ground (arith, same_refl p.id))) fair b a)
          | inr (why, q) ↦ rw (l, q) (with_failed-IsFair config.max_retries ans p why ps w fair a)
        ]
      ]

  process_entries-IsFair :
      (config : OutboxWorkerConfig) (ans : Answers) (ps : List OutboxEntry) (w : World outbox)
      → IsFair config.max_retries w
      → InFlight ps w
      → IsFair config.max_retries (process_entries outbox config ans ps w)
  unfolding process_entries
  process_entries-IsFair config ans [] w fair a = fair
  process_entries-IsFair config ans (p ∷ ps) w fair a =
      let (f, b) = process_entry-IsFair config ans p ps w fair a.0 a.1 in
      process_entries-IsFair config ans ps (process_entry outbox config ans p w) f b

  polled-InFlight :
      (config : OutboxWorkerConfig) (ans : Answers) (w : World outbox)
      → Unique (λ e. e.id) (entries w.store)
      → InFlight (if ans.polled then poll w.store config.batch_size else []) w
  polled-InFlight config ans w u = elim (Bool-cases ans.polled) [
    | inl q ↦
        rw (q, poll-entries w.store config.batch_size)
          (take-All (λ p. All (Behind p) (entries w.store)) config.batch_size (entries w.store)
            (Unique-Behind (entries w.store) u))
    | inr q ↦ rw q tt
  ]

  -- Over any batches, whichever calls on the bus and the database fail: where each entry has an identity of its own, and each
  -- that is processed was published or its count of retries has reached MaxRetries, both hold again at the
  -- end. So the worker marks no entry as processed that it has neither published nor tried so often.
  pub run-IsFair :
      (config : OutboxWorkerConfig) (rounds : List Answers) (w : World outbox)
      → IsFair config.max_retries w
      → IsFair config.max_retries (run outbox config rounds w)
  unfolding run process_batch
  run-IsFair config [] w fair = fair
  run-IsFair config (ans ∷ rounds) w fair =
      run-IsFair config rounds (process_batch outbox config ans w) (
        process_entries-IsFair config ans
          (if ans.polled then poll w.store config.batch_size else []) w fair
          (polled-InFlight config ans w fair.0))
