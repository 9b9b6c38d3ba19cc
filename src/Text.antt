-- ===== src/Text.antt =====
-- The functions of Go's package strings that the program calls, on texts of code points.
use mathlib.Core.Option
use flowra.Base.{
  ℕ, ◌+◌, Text, same, Bool, true, false, ◌||◌, ◌&&◌, Option, none, some, List, [], ◌∷◌, map, leb,
  ◌==◌, if◌then◌else◌,
}

-- A text without its first character.
abbrev pub after_first : Text → Text
after_first [] = []
after_first (c ∷ s) = s

-- unicode.IsSpace
unfoldable pub is_space : ℕ → Bool
is_space c =
    (leb 9 c && leb c 13)
    || c == 32
    || c == 0x85
    || c == 0xa0
    || c == 0x1680
    || (leb 0x2000 c && leb c 0x200a)
    || c == 0x2028
    || c == 0x2029
    || c == 0x202f
    || c == 0x205f
    || c == 0x3000

-- strings.TrimLeftFunc with unicode.IsSpace
unfoldable pub trim_left : Text → Text
trim_left [] = []
trim_left (c ∷ s) = if is_space c then trim_left s else c ∷ s

-- A text followed by `c`, with the spaces at the end dropped.
unfoldable pub snoc_trimmed : ℕ → Text → Text
snoc_trimmed c [] = if is_space c then [] else c ∷ []
snoc_trimmed c (x ∷ s) = c ∷ x ∷ s

-- strings.TrimRightFunc with unicode.IsSpace
unfoldable pub trim_right : Text → Text
unfolding snoc_trimmed
trim_right [] = []
trim_right (c ∷ s) = snoc_trimmed c (trim_right s)

-- strings.TrimSpace
unfoldable pub trim_space : Text → Text
unfolding trim_left trim_right
trim_space s = trim_right (trim_left s)

-- strings.HasPrefix
unfoldable pub has_prefix : Text → Text → Bool
has_prefix s [] = true
has_prefix [] (p ∷ ps) = false
has_prefix (c ∷ s) (p ∷ ps) = (c == p) && has_prefix s ps

-- strings.TrimPrefix with a prefix of one character
unfoldable pub trim_prefix : Text → ℕ → Text
trim_prefix [] p = []
trim_prefix (c ∷ s) p = if c == p then s else c ∷ s

-- A character put in front of the first of the parts.
before_first : ℕ → List Text → List Text
before_first c [] = (c ∷ []) ∷ []
before_first c (p ∷ ps) = (c ∷ p) ∷ ps

-- strings.Split by one character
unfoldable pub split : ℕ → Text → List Text
unfolding before_first
split sep [] = [] ∷ []
split sep (c ∷ s) = let parts = split sep s in if c == sep then [] ∷ parts else before_first c parts

-- strings.SplitN by one character into at most two parts: the part before it and the part after it, or
-- nothing if it does not occur.
unfoldable pub cut : ℕ → Text → Option (Text × Text)
cut sep [] = none
cut sep (c ∷ s) =
    let rest = cut sep s in
    if c == sep then some ([], s) else Option.map (λ (p : Text × Text). (c ∷ p.0, p.1)) rest

-- strings.Index with a pattern of two characters: what stands before its first occurrence and after it.
unfoldable pub cut_pair : ℕ → ℕ → Text → Option (Text × Text)
unfolding has_prefix
cut_pair a b [] = none
cut_pair a b (c ∷ s) =
    let rest = cut_pair a b s in
    if has_prefix (c ∷ s) (a ∷ b ∷ [])
    then some ([], after_first s)
    else Option.map (λ (p : Text × Text). (c ∷ p.0, p.1)) rest

-- unicode.SimpleFold as far as it identifies a character with an ASCII letter.
unfoldable pub fold : ℕ → ℕ
fold c =
    if leb b'A' c && leb c b'Z'
    then c + 32
    else if c == 0x212a
    then b'k'
    else if c == 0x17f
    then b's'
    else c

-- strings.EqualFold, where one of the two texts is ASCII
unfoldable pub equal_fold : Text → Text → Bool
unfolding fold
equal_fold a b = same (map fold a) (map fold b)
