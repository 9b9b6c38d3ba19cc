-- ===== src/Outbox/Marks.antt =====
-- Lists of entries of the outbox: what the marks of the worker keep of them.
use flowra.Base.{
  ℕ, zero, suc, ◌≤◌, Text, same, same_iff, same-sym, Unique, Bool, true, false, List, [], ◌∷◌, ◌≡◌,
  refl, ap, ◌∙◌, ◌⊎◌, inr, arith, map, keep, All, has_key, if◌then◌else◌,
}
use flowra.Outbox.Worker.{
  OutboxEntry, is_pending, take, change, processed, failed_once, OutboxEvent,
}

-- The identities of the events that were published.
abbrev pub was_published : List (Text × OutboxEvent) → Text → Bool
was_published log id = has_key (λ p. p.0) log id

-- A processed entry was published, or has used up its retries.
abbrev pub Accounted : ℕ → List (Text × OutboxEvent) → OutboxEntry → Type 0
Accounted m log e = (is_pending e ≡ true) ⊎ (was_published log e.id ≡ true) ⊎ (m ≤ e.retry_count)

-- The entries of this identity have been tried as often as the polled one.
abbrev pub Behind : OutboxEntry → OutboxEntry → Type 0
Behind p e = (same e.id p.id ≡ false) ⊎ (p.retry_count ≤ e.retry_count)

-- A change that keeps the identity and takes no retry back.
abbrev pub Keeps : (OutboxEntry → OutboxEntry) → Type 0
Keeps f = (e : OutboxEntry) → ((f e).id ≡ e.id) × (e.retry_count ≤ (f e).retry_count)

pub processed-Keeps : (now : ℕ) (id : Text) → Keeps (change (processed now) id)
processed-Keeps now id e = ground arith

pub failed_once-Keeps : (id why : Text) → Keeps (change (failed_once why) id)
failed_once-Keeps id why e = ground arith

pub Behind-map :
    (p : OutboxEntry) (f : OutboxEntry → OutboxEntry) (es : List OutboxEntry)
    → Keeps f
    → All (Behind p) es
    → All (Behind p) (map f es)
Behind-map p f [] h a = tt
Behind-map p f (e ∷ es) h a = (ground (arith, h e), Behind-map p f es h a.1)

has_key-map :
    (f : OutboxEntry → OutboxEntry) (es : List OutboxEntry) (k : Text)
    → Keeps f
    → has_key (λ e. e.id) (map f es) k ≡ has_key (λ e. e.id) es k
has_key-map f [] k h = refl
has_key-map f (e ∷ es) k h = ground (arith, h e, has_key-map f es k h)

pub Unique-map :
    (f : OutboxEntry → OutboxEntry) (es : List OutboxEntry)
    → Keeps f
    → Unique (λ e. e.id) es
    → Unique (λ e. e.id) (map f es)
Unique-map f [] h u = tt
Unique-map f (e ∷ es) h u = (
  ap (has_key (λ e. e.id) (map f es)) (h e).0 ∙ (has_key-map f es e.id h ∙ u.0),
  Unique-map f es h u.1,
)

others-Behind :
    (p : OutboxEntry) (es : List OutboxEntry)
    → has_key (λ e. e.id) es p.id ≡ false
    → All (Behind p) es
others-Behind p [] h = tt
others-Behind p (e ∷ es) h = (ground arith, others-Behind p es (ground arith))

cons-Behind :
    (e : OutboxEntry) (es ps : List OutboxEntry)
    → has_key (λ e. e.id) ps e.id ≡ false
    → All (λ p. All (Behind p) es) ps
    → All (λ p. All (Behind p) (e ∷ es)) ps
cons-Behind e es [] h a = tt
cons-Behind e es (p ∷ ps) h a =
    ((ground (arith, same-sym p.id e.id), a.0), cons-Behind e es ps (ground arith) a.1)

pub Unique-Behind :
    (es : List OutboxEntry) → Unique (λ e. e.id) es → All (λ p. All (Behind p) es) es
Unique-Behind [] u = tt
Unique-Behind (e ∷ es) u =
    ((inr (omega arith), others-Behind e es u.0), cons-Behind e es es u.0 (Unique-Behind es u.1))

kept_one {κ} :
    (P : OutboxEntry → Type κ) (b : Bool) (e : OutboxEntry) (es : List OutboxEntry)
    → P e
    → All P es
    → All P (if b then e ∷ es else es)
kept_one P true e es p a = (p, a)
kept_one P false e es p a = a

taken {κ} :
    (P : OutboxEntry → Type κ) (n : ℕ) (es : List OutboxEntry) → All P es → All P (take n es)
taken P zero es a = tt
taken P (suc n) [] a = tt
taken P (suc n) (e ∷ es) a = (a.0, taken P n es a.1)

kept {κ} :
    (P : OutboxEntry → Type κ) (es : List OutboxEntry) → All P es → All P (keep is_pending es)
kept P [] a = tt
kept P (e ∷ es) a = kept_one P (is_pending e) e (keep is_pending es) a.0 (kept P es a.1)

pub take-All {κ} :
    (P : OutboxEntry → Type κ) (n : ℕ) (es : List OutboxEntry)
    → All P es
    → All P (take n (keep is_pending es))
take-All P n es a = taken P n (keep is_pending es) (kept P es a)

pub Accounted-processed :
    (m now : ℕ) (p : OutboxEntry) (log more : List (Text × OutboxEvent)) (es : List OutboxEntry)
    → ((id : Text) → was_published log id ≡ true → was_published more id ≡ true)
    → (was_published more p.id ≡ true) ⊎ (m ≤ p.retry_count)
    → All (Behind p) es
    → All (Accounted m log) es
    → All (Accounted m more) (map (change (processed now) p.id) es)
Accounted-processed m now p log more [] grows h b a = tt
Accounted-processed m now p log more (e ∷ es) grows h b a = (
  ground (arith, grows e.id, same_iff e.id p.id),
  Accounted-processed m now p log more es grows h b.1 a.1,
)

pub Accounted-failed_once :
    (m : ℕ) (id why : Text) (log : List (Text × OutboxEvent)) (es : List OutboxEntry)
    → All (Accounted m log) es
    → All (Accounted m log) (map (change (failed_once why) id) es)
Accounted-failed_once m id why log [] a = tt
Accounted-failed_once m id why log (e ∷ es) a =
    (ground arith, Accounted-failed_once m id why log es a.1)

pub Accounted-grows :
    (m : ℕ) (log more : List (Text × OutboxEvent)) (es : List OutboxEntry)
    → ((id : Text) → was_published log id ≡ true → was_published more id ≡ true)
    → All (Accounted m log) es
    → All (Accounted m more) es
Accounted-grows m log more [] grows a = tt
Accounted-grows m log more (e ∷ es) grows a =
    (ground (arith, grows e.id), Accounted-grows m log more es grows a.1)

pub all_Behind-map :
    (f : OutboxEntry → OutboxEntry) (es ps : List OutboxEntry)
    → Keeps f
    → All (λ p. All (Behind p) es) ps
    → All (λ p. All (Behind p) (map f es)) ps
all_Behind-map f es [] h a = tt
all_Behind-map f es (p ∷ ps) h a = (Behind-map p f es h a.0, all_Behind-map f es ps h a.1)
