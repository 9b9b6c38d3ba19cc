-- ===== src/Tag/Retrying.antt =====
-- What the executor's loop of retries does.
use flowra.Base.{
  ℕ, zero, suc, ◌+◌, ◌≤◌, Bool, true, false, Bool-cases, List, [], ◌∷◌, ◌≡◌, refl, ap, ◌∙◌, arith,
  Result, ok, err, Result-cases, ◌⊎◌, inl, inr,
}
use mathlib.Core.Path.{subst}
use flowra.Errs.{Error}
use flowra.Tag.Executor.{
  is_conflict, next_delay, max_retries, initial_retry_delay, Failure, named, cancelled, exhausted,
  Retried, stop, waiting, after_attempt, retry_from, retry,
}

-- The first `k` delays from `d` on.
delays : ℕ → ℕ → List ℕ
delays zero d = []
delays (suc k) d = d ∷ delays k (next_delay d)

module _ {ℓ} {S : Type ℓ} (operation : S → Result Error (Unit {0}) × S) (is_done : ℕ → Bool) where
  -- `k` attempts in a row that end in a conflict, none of which the context's end follows.
  pub data Conflicts : ℕ → ℕ → S → S → Type ℓ where
    none_yet : {n : ℕ} {s : S} → Conflicts n 0 s s
    conflict :
        {n k : ℕ} {s t : S} (e : Error)
        → (operation s).0 ≡ err e
        → is_conflict e ≡ true
        → is_done n ≡ false
        → Conflicts (suc n) k (operation s).1 t
        → Conflicts n (suc k) s t

  -- How the last attempt, with `left` left after it, ends the loop.
  abbrev pub Ends : ℕ → ℕ → S → Result Failure (Unit {0}) → Type 0
  Ends left n t r =
      (((operation t).0 ≡ ok tt) × (r ≡ ok tt))
      ⊎ ((e : Error) × ((operation t).0 ≡ err e) × (is_conflict e ≡ false) × (r ≡ err (named e)))
      ⊎ ((e : Error) × ((operation t).0 ≡ err e)
          × (is_conflict e ≡ true)
          × (left ≡ 0)
          × (r ≡ err (exhausted e)))
      ⊎ ((e : Error) × ((operation t).0 ≡ err e)
          × (is_conflict e ≡ true)
          × (is_done n ≡ true)
          × (r ≡ err cancelled))

  abbrev Course : ℕ → ℕ → ℕ → S → Retried S → Type ℓ
  Course left n d s r =
      (k : ℕ) × (t : S) × (l : ℕ) × (left ≡ k + l)
      × Conflicts n k s t
      × Ends l (n + k) t r.result
      × (r.state ≡ (operation t).1)
      × (r.attempts ≡ suc k)
      × (r.waited ≡ delays k d)

  stopped :
      (left n d : ℕ) (s : S) (r : Result Failure (Unit {0}))
      → Ends left n s r
      → Course left n d s (stop r (operation s).1)
  unfolding delays
  stopped left n d s r e = (
    0,
    s,
    left,
    omega arith,
    none_yet,
    subst (λ m. Ends left m s r) (omega arith) e,
    refl,
    refl,
    refl,
  )

  onward :
      (left n d : ℕ) (s : S) (e : Error) (r : Retried S)
      → (operation s).0 ≡ err e
      → is_conflict e ≡ true
      → is_done n ≡ false
      → Course left (suc n) (next_delay d) (operation s).1 r
      → Course (suc left) n d s (waiting d r)
  unfolding delays
  onward left n d s e r p q w (k, t, l, sum, before, ends, state, attempts, waits) = (
    suc k,
    t,
    l,
    omega arith,
    conflict e p q w before,
    subst (λ m. Ends l m t r.result) (omega arith) ends,
    state,
    omega arith,
    ap (λ ds. d ∷ ds) waits,
  )

  retry_from_lem :
      (left n d : ℕ) (s : S) → Course left n d s (retry_from operation is_done left n d s)
  unfolding retry_from after_attempt
  retry_from_lem zero n d s = elim (Result-cases (operation s).0) [
    | inl (u, p) ↦ rw p (stopped 0 n d s (ok tt) (inl (p, refl)))
    | inr (e, p) ↦ elim (Bool-cases (is_conflict e)) [
      | inl q ↦
          rw (p, q) (stopped 0 n d s (err (exhausted e)) (inr (inr (inl (e, p, q, refl, refl)))))
      | inr q ↦ rw (p, q) (stopped 0 n d s (err (named e)) (inr (inl (e, p, q, refl))))
    ]
  ]
  retry_from_lem (suc left) n d s = elim (Result-cases (operation s).0) [
    | inl (u, p) ↦ rw p (stopped (suc left) n d s (ok tt) (inl (p, refl)))
    | inr (e, p) ↦ elim (Bool-cases (is_conflict e)) [
      | inl q ↦ elim (Bool-cases (is_done n)) [
        | inl w ↦
            rw (p, q, w)
              (stopped (suc left) n d s (err cancelled) (inr (inr (inr (e, p, q, w, refl)))))
        | inr w ↦
            let rest = retry_from operation is_done left (suc n) (next_delay d) (operation s).1 in
            let ih = retry_from_lem left (suc n) (next_delay d) (operation s).1 in
            rw (p, q, w) (onward left n d s e rest p q w ih)
      ]
      | inr q ↦ rw (p, q) (stopped (suc left) n d s (err (named e)) (inr (inl (e, p, q, refl))))
    ]
  ]

-- The delays before the retries, in milliseconds.
abbrev pub schedule : List ℕ
schedule = 100 ∷ 200 ∷ 400 ∷ 800 ∷ 1600 ∷ []

abbrev pub first_of : ℕ → List ℕ → List ℕ
first_of zero xs = []
first_of (suc k) [] = []
first_of (suc k) (x ∷ xs) = x ∷ first_of k xs

delays-schedule : (k : ℕ) → k ≤ max_retries → delays k initial_retry_delay ≡ first_of k schedule
unfolding delays next_delay
delays-schedule zero l = refl
delays-schedule (suc zero) l = refl
delays-schedule (suc (suc zero)) l = refl
delays-schedule (suc (suc (suc zero))) l = refl
delays-schedule (suc (suc (suc (suc zero)))) l = refl
delays-schedule (suc (suc (suc (suc (suc zero))))) l = refl
delays-schedule (suc (suc (suc (suc (suc (suc k)))))) l = ground arith

abbrev pub RunsTo {ℓ} :
    {S : Type ℓ} → (S → Result Error (Unit {0}) × S) → (ℕ → Bool) → S → Retried S → Type ℓ
RunsTo {S = S} operation is_done s r =
    (k : ℕ) × (t : S) × (l : ℕ) × (max_retries ≡ k + l)
    × Conflicts operation is_done 0 k s t
    × Ends operation is_done l k t r.result
    × (r.state ≡ (operation t).1)
    × (r.attempts ≡ suc k)
    × (r.waited ≡ first_of k schedule)

Course-RunsTo {ℓ} :
    {S : Type ℓ} (operation : S → Result Error (Unit {0}) × S) (is_done : ℕ → Bool) (s : S)
    (r : Retried S)
    → Course operation is_done max_retries 0 initial_retry_delay s r
    → RunsTo operation is_done s r
Course-RunsTo operation is_done s r (k, t, l, sum, before, ends, state, attempts, waits) = (
  k,
  t,
  l,
  sum,
  before,
  subst (λ m. Ends operation is_done l m t r.result) (omega arith) ends,
  state,
  attempts,
  waits ∙ delays-schedule k (omega arith),
)

-- The retries make at most six attempts. All attempts but the last end in a conflict, and the last one
-- ends the loop: it succeeds, or fails with another error, or is the sixth, or the context is done
-- behind it. The result says which, the state is the one that the last attempt leaves, and the delays
-- that were waited are the first of 100, 200, 400, 800 and 1600 ms, one for each conflict before it.
pub retry_lem {ℓ} :
    {S : Type ℓ} (operation : S → Result Error (Unit {0}) × S) (is_done : ℕ → Bool) (s : S)
    → RunsTo operation is_done s (retry operation is_done s)
unfolding retry
retry_lem operation is_done s =
    Course-RunsTo operation is_done s
      (retry_from operation is_done max_retries 0 initial_retry_delay s)
      (retry_from_lem operation is_done max_retries 0 initial_retry_delay s)
