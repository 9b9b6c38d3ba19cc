-- ===== src/Tag/Remaining.antt =====
-- What the parser of tags leaves of a line.
use flowra.Base.{
  ℕ, zero, suc, ◌+◌, ◌≤◌, ◌<◌, Text, true, Bool-cases, some, [], ◌∷◌, ◌++◌, ◌≡◌, refl, arith, ap,
  length, ◌⊎◌, inl, inr, Option-cases,
}
use flowra.Text.{
  is_space, trim_left, trim_right, snoc_trimmed, trim_space, cut, cut_pair, has_prefix,
}
use flowra.Tag.Parser.{
  starts_hash, starts_letter, value_and_rest, hash, space, next_tag, parse_value, parse_name,
  parse_one_tag, parse_tags,
}

pub length-trim_left : (s : Text) → length (trim_left s) ≤ length s
unfolding trim_left
length-trim_left [] = omega arith
length-trim_left (c ∷ s) = ground (arith, length-trim_left s)

length-snoc_trimmed : (c : ℕ) (s : Text) → length (snoc_trimmed c s) ≤ suc (length s)
unfolding snoc_trimmed
length-snoc_trimmed c [] = ground arith
length-snoc_trimmed c (x ∷ s) = omega arith

length-trim_right : (s : Text) → length (trim_right s) ≤ length s
unfolding trim_right
length-trim_right [] = omega arith
length-trim_right (c ∷ s) =
    ground (arith, length-trim_right s, length-snoc_trimmed c (trim_right s))

length-trim_space : (s : Text) → length (trim_space s) ≤ length s
unfolding trim_space
length-trim_space s = ground (arith, length-trim_left s, length-trim_right (trim_left s))

-- Either nothing is left, or a tag.
abbrev pub IsRest : Text → Type 0
IsRest s = (s ≡ []) ⊎ ((a : Text) × (s ≡ hash ∷ a))

trim_space-hash : (a : Text) → IsRest (trim_space (hash ∷ a))
unfolding trim_space trim_left trim_right snoc_trimmed is_space
trim_space-hash a = elim (trim_right a) as (λ r. IsRest (snoc_trimmed hash r)) [
  | [] ↦ inr ([], refl)
  | x ∷ s ↦ inr (x ∷ s, refl)
]

trim_space-IsRest : (s : Text) → IsRest s → IsRest (trim_space s)
unfolding trim_space trim_left trim_right
trim_space-IsRest s (inl e) = rw e (inl refl)
trim_space-IsRest s (inr (a, e)) = rw e (trim_space-hash a)

length-cut : (c : ℕ) (s a b : Text) → cut c s ≡ some (a, b) → length b < length s
unfolding cut
length-cut c [] a b e = cc
length-cut c (x ∷ s) a b e = elim (Option-cases (cut c s)) [
  | inl p ↦ ground arith
  | inr ((a', b'), p) ↦ ground (arith, length-cut c s a' b' p)
]

length-cut_pair : (x y : ℕ) (s a b : Text) → cut_pair x y s ≡ some (a, b) → length b + 2 ≤ length s
unfolding cut_pair has_prefix
length-cut_pair x y [] a b e = cc
length-cut_pair x y (c ∷ []) a b e = ground arith
length-cut_pair x y (c ∷ d ∷ s) a b e = elim (Option-cases (cut_pair x y (d ∷ s))) [
  | inl p ↦ ground arith
  | inr ((a', b'), p) ↦ ground (arith, length-cut_pair x y (d ∷ s) a' b' p)
]

-- The text that stands at the next tag.
next_tag-rest :
    (fuel : ℕ) (seen rest v r : Text)
    → next_tag fuel seen rest ≡ some (v, r)
    → (a : Text) × (r ≡ space ∷ hash ∷ a) × (length r ≤ length rest)
unfolding next_tag
next_tag-rest zero seen rest v r e = cc
next_tag-rest (suc fuel) seen rest v r e = elim (Option-cases (cut_pair space hash rest)) [
  | inl p ↦ ground arith
  | inr ((b, a), p) ↦
      let l = length-cut_pair space hash rest b a p in
      elim (Bool-cases (starts_letter a)) [
        | inl q ↦ (a, ground arith, ground arith)
        | inr q ↦
            let (a', p', l') =
              next_tag-rest fuel (seen ++ b ++ space ∷ hash ∷ []) a v r (ground arith) in
            (a', p', omega arith)
      ]
]

trim_space-next : (a : Text) → IsRest (trim_space (space ∷ hash ∷ a))
unfolding trim_space trim_left trim_right snoc_trimmed is_space
trim_space-next a = elim (trim_right a) as (λ r. IsRest (snoc_trimmed hash r)) [
  | [] ↦ inr ([], refl)
  | x ∷ s ↦ inr (x ∷ s, refl)
]

pub starts_hash-IsRest : (s : Text) → starts_hash s ≡ true → IsRest s
starts_hash-IsRest [] h = inl refl
starts_hash-IsRest (c ∷ s) h = inr (s, ground arith)

-- At most `n` characters, with a tag in front if there are any.
abbrev pub Leaves : ℕ → Text → Type 0
Leaves n s = IsRest s × (length s ≤ n)

value_and_rest-rest :
    (fuel : ℕ) (rest : Text) → Leaves (length rest) (value_and_rest rest (next_tag fuel [] rest)).1
value_and_rest-rest fuel rest = elim (Option-cases (next_tag fuel [] rest)) [
  | inl p ↦ rw p (inl refl, omega arith)
  | inr ((v, r), p) ↦
      let (a, q, l) = next_tag-rest fuel [] rest v r p in
      rw (p, q) (trim_space-next a, (let m = length-trim_space (space ∷ hash ∷ a) in ground arith))
]

-- What parseOneTag leaves of a text behind its "#".
parse_value-rest : (name rest : Text) → Leaves (length rest) (parse_value name rest).1
unfolding parse_value
parse_value-rest name rest = elim (Bool-cases (starts_hash rest)) [
  | inl p ↦ rw p (starts_hash-IsRest rest p, omega arith)
  | inr p ↦ rw p (value_and_rest-rest (suc (length rest)) rest)
]

parse_name-rest : (s : Text) → Leaves (length s) (parse_name s).1
unfolding parse_name
parse_name-rest s = elim (Option-cases (cut space s)) [
  | inl p ↦ rw (p, parse_name) (inl refl, omega arith)
  | inr ((name, rest), p) ↦
      let m = parse_value-rest name rest in
      let l = length-cut space s name rest p in rw (p, parse_name) (m.0, ground arith)
]

pub parse_tags-rest :
    (fuel : ℕ) (line : Text) → length line < fuel → IsRest line → (parse_tags fuel line).1 ≡ []
unfolding parse_tags parse_one_tag
parse_tags-rest zero line l r = ground arith
parse_tags-rest (suc fuel) line l (inl e) = rw e refl
parse_tags-rest (suc fuel) line l (inr (a, e)) =
    let rest = (parse_name a).1 in
    let n = parse_name-rest a in
    let m = length-trim_space rest in
    let ih =
      parse_tags-rest fuel (trim_space rest) (let k = ap length e in omega arith)
        (trim_space-IsRest rest n.0) in
    rw e ih
