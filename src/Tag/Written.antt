-- ===== src/Tag/Written.antt =====
-- Tags as users write them on a line, and what parseTagsFromLine of internal/domain/tag/parser.go makes of them.
use flowra.Base.{
  ℕ, zero, suc, ◌<◌, Text, same, same_iff, true, false, Bool-cases, Option, none, some, List, [],
  ◌∷◌, ◌++◌, append_assoc, ◌≡◌, refl, ap, ◌∙◌, arith, inl, inr, All, is_empty, length,
  length-append, exists,
}
use mathlib.Core.Path.{subst}
use flowra.Text.{
  is_space, trim_left, trim_right, snoc_trimmed, trim_space, cut, cut_pair, has_prefix,
}
use flowra.Tag.Types.{ParsedTag, Definition}
use flowra.Tag.Parser.{
  known_tags, is_known_tag, hash, space, starts_hash, starts_letter, next_tag, parse_value,
  parse_name, parse_one_tag, kept, parse_tags,
}

-- A tag as a user writes it, with what follows it on the line, behind the "#".
abbrev pub written_behind : ParsedTag → List ParsedTag → Text
written_behind t [] = t.key ++ space ∷ t.value
written_behind t (u ∷ ts) = t.key ++ space ∷ (t.value ++ space ∷ hash ∷ written_behind u ts)

-- Tags on one line, with a space between two of them.
abbrev pub written : List ParsedTag → Text
written [] = []
written (t ∷ ts) = hash ∷ written_behind t ts

-- A tag with a known key and a value that is not empty, has no spaces at its ends, does not begin with "#" and
-- has no " #" in it.
pub record IsWritable (t : ParsedTag) : Type 0 where
  pub known : is_known_tag t.key ≡ true
  pub filled : is_empty t.value ≡ false
  pub trimmed_left : trim_left t.value ≡ t.value
  pub trimmed_right : trim_right t.value ≡ t.value
  pub no_hash : starts_hash t.value ≡ false
  pub no_tag : cut_pair space hash t.value ≡ none

cut-append : (c : ℕ) (k r : Text) → cut c k ≡ none → cut c (k ++ c ∷ r) ≡ some (k, r)
unfolding cut
cut-append c [] r h = ground arith
cut-append c (x ∷ k) r h = ground (arith, cut-append c k r)

cut_pair-append :
    (v a : Text)
    → cut_pair space hash v ≡ none
    → cut_pair space hash (v ++ space ∷ hash ∷ a) ≡ some (v, a)
unfolding cut_pair has_prefix
cut_pair-append [] a h = refl
cut_pair-append (c ∷ []) a h = ground arith
cut_pair-append (c ∷ d ∷ v) a h = ground (arith, cut_pair-append (d ∷ v) a)

-- What ends with no space stays whole behind anything.
trim_right-append :
    (a v : Text)
    → trim_right v ≡ v
    → is_empty v ≡ false
    → (trim_right (a ++ v) ≡ a ++ v) × (is_empty (a ++ v) ≡ false)
unfolding trim_right snoc_trimmed
trim_right-append [] v h n = (h, n)
trim_right-append (c ∷ a) v h n =
    let (q, m) = trim_right-append a v h n in (ap (snoc_trimmed c) q ∙ filled (a ++ v) m, refl)
  where
    filled : (s : Text) → is_empty s ≡ false → snoc_trimmed c s ≡ c ∷ s
    filled [] e = cc
    filled (x ∷ s) e = refl

behind_lem :
    (t : ParsedTag) (ts : List ParsedTag)
    → All IsWritable (t ∷ ts)
    → (trim_right (written_behind t ts) ≡ written_behind t ts)
      × (is_empty (written_behind t ts) ≡ false)
behind_lem t [] w =
    subst (λ x. (trim_right x ≡ x) × (is_empty x ≡ false)) (append_assoc t.key (space ∷ []) t.value)
      (trim_right-append (t.key ++ space ∷ []) t.value w.0.trimmed_right w.0.filled)
behind_lem t (u ∷ ts) w =
    let (q, n) = behind_lem u ts w.1 in
    let front = t.key ++ space ∷ (t.value ++ space ∷ hash ∷ []) in
    let whole : front ++ written_behind u ts ≡ written_behind t (u ∷ ts) =
      append_assoc t.key (space ∷ (t.value ++ space ∷ hash ∷ [])) (written_behind u ts)
      ∙ ap (λ x. t.key ++ space ∷ x)
          (append_assoc t.value (space ∷ hash ∷ []) (written_behind u ts)) in
    subst (λ x. (trim_right x ≡ x) × (is_empty x ≡ false)) whole
      (trim_right-append front (written_behind u ts) q n)

-- A written line has no spaces at its ends, and one in front of it goes.
pub trim-written :
    (t : ParsedTag) (ts : List ParsedTag)
    → All IsWritable (t ∷ ts)
    → (trim_space (written (t ∷ ts)) ≡ written (t ∷ ts))
      × (trim_space (space ∷ written (t ∷ ts)) ≡ written (t ∷ ts))
unfolding trim_space trim_left is_space
trim-written t ts w =
    let (q, n) = behind_lem t ts w in
    let (k, _) = trim_right-append (hash ∷ []) (written_behind t ts) q n in (k, k)

-- A known key has no space and begins with a letter.
abbrev IsName : Text → Type 0
IsName k = (cut space k ≡ none) × (starts_letter k ≡ true)

exists-IsName :
    (ds : List Definition) (k : Text)
    → All (λ d. IsName d.name) ds
    → exists (λ d. same d.name k) ds ≡ true
    → IsName k
exists-IsName [] k a h = cc
exists-IsName (d ∷ ds) k a h = elim (Bool-cases (same d.name k)) [
  | inl e ↦ subst IsName ((same_iff d.name k).0 e) a.0
  | inr e ↦ exists-IsName ds k a.1 (ground arith)
]

known-IsName : (k : Text) → is_known_tag k ≡ true → IsName k
unfolding is_known_tag cut
known-IsName k h =
    exists-IsName known_tags k
      (
        (refl, refl),
        (
          (refl, refl),
          (
            (refl, refl),
            (
              (refl, refl),
              (
                (refl, refl),
                (
                  (refl, refl),
                  (
                    (refl, refl),
                    (
                      (refl, refl),
                      (
                        (refl, refl),
                        (
                          (refl, refl),
                          ((refl, refl), ((refl, refl), ((refl, refl), ((refl, refl), tt)))),
                        ),
                      ),
                    ),
                  ),
                ),
              ),
            ),
          ),
        ),
      )
      h

letter-append : (k r : Text) → starts_letter k ≡ true → starts_letter (k ++ r) ≡ true
letter-append [] r h = cc
letter-append (c ∷ k) r h = h

behind-letter :
    (t : ParsedTag) (ts : List ParsedTag)
    → IsWritable t
    → starts_letter (written_behind t ts) ≡ true
behind-letter t [] w = letter-append t.key (space ∷ t.value) (known-IsName t.key w.known).1
behind-letter t (u ∷ ts) w =
    letter-append t.key (space ∷ (t.value ++ space ∷ hash ∷ written_behind u ts))
      (known-IsName t.key w.known).1

pub value_trimmed : (t : ParsedTag) → IsWritable t → trim_space t.value ≡ t.value
unfolding trim_space
value_trimmed t w = ap trim_right w.trimmed_left ∙ w.trimmed_right

next_tag-none :
    (fuel : ℕ) (v : Text) → cut_pair space hash v ≡ none → next_tag (suc fuel) [] v ≡ none
unfolding next_tag
next_tag-none fuel v h = rw (h, next_tag) refl

next_tag-some :
    (fuel : ℕ) (s v a : Text)
    → cut_pair space hash s ≡ some (v, a)
    → starts_letter a ≡ true
    → next_tag (suc fuel) [] s ≡ some (v, space ∷ hash ∷ a)
unfolding next_tag
next_tag-some fuel s v a h l = rw (h, l, next_tag) refl

-- The value of the last tag of a line.
parse_value-last : (t : ParsedTag) → IsWritable t → parse_value t.key t.value ≡ (t, [])
unfolding parse_value
parse_value-last t w =
    rw (w.no_hash, next_tag-none (length t.value) t.value w.no_tag, value_trimmed t w) refl

hash-append : (v r : Text) → is_empty v ≡ false → starts_hash (v ++ r) ≡ starts_hash v
hash-append [] r h = cc
hash-append (c ∷ v) r h = refl

-- The value of a tag in front of another.
parse_value-next :
    (t u : ParsedTag) (ts : List ParsedTag)
    → All IsWritable (t ∷ u ∷ ts)
    → parse_value t.key (t.value ++ space ∷ written (u ∷ ts)) ≡ (t, written (u ∷ ts))
unfolding parse_value
parse_value-next t u ts w =
    let s = t.value ++ space ∷ written (u ∷ ts) in
    rw
      (
        hash-append t.value (space ∷ written (u ∷ ts)) w.0.filled,
        w.0.no_hash,
        next_tag-some (length s) s t.value (written_behind u ts)
            (cut_pair-append t.value (written_behind u ts) w.0.no_tag) (behind-letter u ts w.1.0),
        value_trimmed t w.0,
        (trim-written u ts w.1).1,
      )
      refl

parse_name-key :
    (t : ParsedTag) (rest r : Text)
    → IsWritable t
    → parse_value t.key rest ≡ (t, r)
    → parse_name (t.key ++ space ∷ rest) ≡ (t, r)
unfolding parse_name
parse_name-key t rest r w h =
    rw (cut-append space t.key rest (known-IsName t.key w.known).0, parse_name) h

parse_name-written :
    (t : ParsedTag) (rest r : Text)
    → IsWritable t
    → parse_value t.key rest ≡ (t, r)
    → parse_one_tag (hash ∷ (t.key ++ space ∷ rest)) ≡ (some t, r)
unfolding parse_one_tag
parse_name-written t rest r w h =
    ap (λ (p : ParsedTag × Text). (some p.0, p.1)) (parse_name-key t rest r w h)

kept-known : (t : ParsedTag) → IsWritable t → kept (some t) ≡ t ∷ []
unfolding kept
kept-known t w = rw w.known refl

-- One round of the loop.
parse_tags-round :
    (fuel : ℕ) (t : ParsedTag) (rest r : Text) (ts : List ParsedTag)
    → IsWritable t
    → parse_value t.key rest ≡ (t, r)
    → parse_tags fuel (trim_space r) ≡ (ts, [])
    → parse_tags (suc fuel) (hash ∷ (t.key ++ space ∷ rest)) ≡ (t ∷ ts, [])
unfolding parse_tags
parse_tags-round fuel t rest r ts w h e =
    ap
      (λ (p : Option ParsedTag × Text).
        (kept p.0 ++ (parse_tags fuel (trim_space p.1)).0, (parse_tags fuel (trim_space p.1)).1))
      (parse_name-written t rest r w h)
    ∙ rw (e, kept-known t w) refl

parse_tags-nothing : (fuel : ℕ) → parse_tags fuel (trim_space []) ≡ ([], [])
unfolding parse_tags trim_space trim_left trim_right
parse_tags-nothing zero = refl
parse_tags-nothing (suc fuel) = refl

behind_longer :
    (t u : ParsedTag) (ts : List ParsedTag)
    → length (written_behind u ts) < length (written_behind t (u ∷ ts))
behind_longer t u ts = omega (
  arith,
  length-append t.key (space ∷ (t.value ++ space ∷ hash ∷ written_behind u ts)),
  length-append t.value (space ∷ hash ∷ written_behind u ts),
)

pub parse_tags-written :
    (fuel : ℕ) (t : ParsedTag) (ts : List ParsedTag)
    → length (written_behind t ts) < fuel
    → All IsWritable (t ∷ ts)
    → parse_tags fuel (written (t ∷ ts)) ≡ (t ∷ ts, [])
parse_tags-written zero t ts l w = absurd (omega (arith, l))
parse_tags-written (suc fuel) t [] l w =
    parse_tags-round fuel t t.value [] [] w.0 (parse_value-last t w.0) (parse_tags-nothing fuel)
parse_tags-written (suc fuel) t (u ∷ ts) l w =
    parse_tags-round fuel t (t.value ++ space ∷ written (u ∷ ts)) (written (u ∷ ts)) (u ∷ ts) w.0
      (parse_value-next t u ts w)
      (ap (parse_tags fuel) (trim-written u ts w.1).0
        ∙ parse_tags-written fuel u ts (omega (arith, l, behind_longer t u ts)) w.1)
