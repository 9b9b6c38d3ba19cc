-- ===== src/Base/Keyed.antt =====
-- Lists searched by a key that is a text: membership, removal, and keys that occur once.
use mathlib.Core.Path.{◌≡◌}
use mathlib.Core.Bool.{Bool, true, false, not}
use mathlib.Core.List.{List, [], ◌∷◌, ◌++◌}
use native.Mathlib.Omega.{arith}
use flowra.Base.Tests.{if◌then◌else◌}
use flowra.Base.Lists.{exists, keep}
use flowra.Base.Strings.{Text, same, same_iff, same-sym}

module _ {ℓ} {A : Type ℓ} (key : A → Text) where
  abbrev pub has_key : List A → Text → Bool
  has_key xs k = exists (λ x. same (key x) k) xs

  abbrev pub without_key : List A → Text → List A
  without_key xs k = keep (λ x. not (same (key x) k)) xs

  -- No key occurs twice.
  abbrev pub Unique : List A → Type 0
  Unique [] = Unit {0}
  Unique (x ∷ xs) = (has_key xs (key x) ≡ false) × Unique xs

module _ {ℓ} {A : Type ℓ} (key : A → Text) where
  pub has_key-snoc :
      (xs : List A) (x : A) (k : Text)
      → has_key key (xs ++ x ∷ []) k ≡ (if has_key key xs k then true else same (key x) k)
  has_key-snoc [] x k = ground arith
  has_key-snoc (y ∷ xs) x k = ground (arith, has_key-snoc xs x k)

  pub has_key-without :
      (xs : List A) (k j : Text)
      → has_key key (without_key key xs k) j ≡ (if same k j then false else has_key key xs j)
  has_key-without [] k j = ground arith
  has_key-without (x ∷ xs) k j =
      ground (arith, has_key-without xs k j, same_iff (key x) k, same_iff k j, same_iff (key x) j)

  pub Unique-snoc :
      (xs : List A) (x : A)
      → has_key key xs (key x) ≡ false
      → Unique key xs
      → Unique key (xs ++ x ∷ [])
  Unique-snoc [] x h u = ground arith
  Unique-snoc (y ∷ xs) x h u =
      ground (arith, has_key-snoc xs x (key y), Unique-snoc xs x, same-sym (key x) (key y))

  pub Unique-without : (xs : List A) (k : Text) → Unique key xs → Unique key (without_key key xs k)
  Unique-without [] k u = tt
  Unique-without (x ∷ xs) k u =
      ground (arith, has_key-without xs k (key x), Unique-without xs k u.1)
