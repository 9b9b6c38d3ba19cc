-- ===== src/Base/Strings.antt =====
-- Go strings as the list of their code points, and the identifiers built on them.
use Prim.Native.Nat.{ℕ}
use Prim.Native.Char.{code}
use Prim.Native.String.{String}
use mathlib.Core.Path.{◌≡◌, refl}
use mathlib.Core.Logic.{◌↔◌, ◌⊎◌, inl, inr}
use mathlib.Core.Bool.{Bool, true, false, ◌&&◌}
use mathlib.Core.List.{List, [], ◌∷◌}
use native.Mathlib.Omega.{arith}
use flowra.Base.Tests.{◌==◌, if◌then◌else◌}

abbrev pub Text : Type 0
Text = List ℕ

-- internal/domain/uuid/uuid.go: `type UUID string`.
abbrev pub Uuid : Type 0
Uuid = Text

-- The code points of a literal.
abbrev pub text : String → Text
text String.[] = []
text (String.◌∷◌ c s) = code c ∷ text s

-- `a == b` on strings.
unfoldable pub same : Text → Text → Bool
same [] [] = true
same (x ∷ xs) (y ∷ ys) = (x == y) && same xs ys
same _ _ = false

pub same_iff : (a b : Text) → (same a b ≡ true) ↔ (a ≡ b)
unfolding same
same_iff [] [] = (λ _. refl, λ _. refl)
same_iff [] (y ∷ ys) = (λ h. cc, λ h. cc)
same_iff (x ∷ xs) [] = (λ h. cc, λ h. cc)
same_iff (x ∷ xs) (y ∷ ys) =
    (λ h. ground (arith, same_iff xs ys), λ h. ground (arith, same_iff xs ys))

pub same_refl : (a : Text) → same a a ≡ true
same_refl a = (same_iff a a).1 refl

pub same-sym : (a b : Text) → same a b ≡ same b a
same-sym a b = ground (arith, same_iff a b, same_iff b a)

-- `s == ""`, and `UUID.IsZero`.
abbrev pub is_empty : Text → Bool
is_empty [] = true
is_empty (_ ∷ _) = false

pub is_empty_iff : (a : Text) → (is_empty a ≡ true) ↔ (a ≡ [])
is_empty_iff [] = (λ _. refl, λ _. refl)
is_empty_iff (x ∷ xs) = (λ h. cc, λ h. cc)

-- `slices.Contains`
unfoldable pub contains : List Text → Text → Bool
contains [] a = false
contains (x ∷ xs) a = if same x a then true else contains xs a

-- One of the listed texts.
abbrev pub Among : List Text → Text → Type 0
Among [] a = ⊥
Among (x ∷ xs) a = (a ≡ x) ⊎ Among xs a

pub contains-mem : (xs : List Text) (a : Text) → contains xs a ≡ true → Among xs a
unfolding contains
contains-mem [] a h = cc
contains-mem (x ∷ xs) a h = ground (arith, same_iff x a, contains-mem xs a)

pub Among-contains : (xs : List Text) (a : Text) → Among xs a → contains xs a ≡ true
unfolding contains
Among-contains [] a m = elim m [ ]
Among-contains (x ∷ xs) a (inl e) = ground (arith, same_iff x a)
Among-contains (x ∷ xs) a (inr m) = ground (arith, Among-contains xs a m)
