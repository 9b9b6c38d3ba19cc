-- ===== src/Outbox/Owed.antt =====
-- The work that is left on the entries of the outbox: how many batches of the worker each may still need.
use flowra.Base.{
  ℕ, suc, ◌+◌, ◌-◌, ◌*◌, ◌≤◌, ◌<◌, Text, same_refl, true, false, Bool-cases, Option, none, some,
  List, [], ◌∷◌, ◌≡◌, refl, inl, inr, arith, map, keep, length, leb,
}
use mathlib.Core.Path.{subst}
use native.Mathlib.Nat.{suc-mul}
use flowra.Outbox.Worker.{OutboxEntry, is_pending, change, processed, failed_once}

-- The batches that an entry may still need: `m` is MaxRetries.
pub owed_by : ℕ → Option ℕ → ℕ → ℕ
owed_by m none retries = suc (m - retries)
owed_by m (some at) retries = 0

abbrev pub owed : ℕ → OutboxEntry → ℕ
owed m e = owed_by m e.processed_at e.retry_count

pub total : ℕ → List OutboxEntry → ℕ
total m [] = 0
total m (e ∷ es) = owed m e + total m es

pub owed-processed :
    (m now : ℕ) (id : Text) (e : OutboxEntry) → owed m (change (processed now) id e) ≤ owed m e
unfolding owed_by
owed-processed m now id e = ground arith

pub owed-failed_once :
    (m : ℕ) (id why : Text) (e : OutboxEntry) → owed m (change (failed_once why) id e) ≤ owed m e
unfolding owed_by
owed-failed_once m id why e = ground arith

pub total-map :
    (m : ℕ) (f : OutboxEntry → OutboxEntry) (es : List OutboxEntry)
    → ((e : OutboxEntry) → owed m (f e) ≤ owed m e)
    → total m (map f es) ≤ total m es
unfolding total
total-map m f [] h = omega arith
total-map m f (e ∷ es) h = omega (arith, h e, total-map m f es h)

pub total-map_first :
    (m : ℕ) (f : OutboxEntry → OutboxEntry) (es rest : List OutboxEntry) (e : OutboxEntry)
    → ((d : OutboxEntry) → owed m (f d) ≤ owed m d)
    → keep is_pending es ≡ e ∷ rest
    → owed m (f e) < owed m e
    → total m (map f es) < total m es
unfolding total
total-map_first m f [] rest e h k s = cc
total-map_first m f (d ∷ es) rest e h k s = elim (Bool-cases (is_pending d)) [
  | inl p ↦
      let q : e ≡ d = ground arith in
      omega (arith, subst (λ x. owed m (f x) < owed m x) q s, total-map m f es h)
  | inr p ↦
      let q : keep is_pending es ≡ e ∷ rest = ground arith in
      omega (arith, h d, total-map_first m f es rest e h q s)
]

-- A call on a pending entry that has succeeded brings it nearer to its end.
pub processed-nearer :
    (m now : ℕ) (e : OutboxEntry)
    → is_pending e ≡ true
    → owed m (change (processed now) e.id e) < owed m e
unfolding owed_by
processed-nearer m now e h = ground (arith, same_refl e.id)

pub failed_once-nearer :
    (m : ℕ) (why : Text) (e : OutboxEntry)
    → is_pending e ≡ true
    → leb m e.retry_count ≡ false
    → owed m (change (failed_once why) e.id e) < owed m e
unfolding owed_by
failed_once-nearer m why e h l = ground (arith, same_refl e.id)

pub first_pending :
    (es rest : List OutboxEntry) (e : OutboxEntry)
    → keep is_pending es ≡ e ∷ rest
    → is_pending e ≡ true
first_pending [] rest e h = cc
first_pending (d ∷ es) rest e h = ground (arith, first_pending es rest e)

pub total-none : (m : ℕ) (es : List OutboxEntry) → keep is_pending es ≡ [] → total m es ≡ 0
unfolding total owed_by
total-none m [] h = refl
total-none m (e ∷ es) h = ground (arith, total-none m es)

pub none-total : (m : ℕ) (es : List OutboxEntry) → total m es ≡ 0 → keep is_pending es ≡ []
unfolding total owed_by
none-total m [] h = refl
none-total m (e ∷ es) h = ground (arith, none-total m es)

pub total-pending :
    (m : ℕ) (es : List OutboxEntry) → total m es ≤ length (keep is_pending es) * suc m
unfolding total owed_by
total-pending m [] = omega arith
total-pending m (e ∷ es) =
    ground (arith, total-pending m es, suc-mul (length (keep is_pending es)) (suc m))
