-- ===== src/Tag/Printing.antt =====
-- Messages as users write them, and what Parse of internal/domain/tag/parser.go makes of them.
use flowra.Base.{
  suc, Text, false, List, [], ◌∷◌, ◌++◌, ◌≡◌, refl, ap, ◌∙◌, arith, All, map, is_empty, length,
  if◌then◌else◌,
}
use flowra.Text.{trim_left, trim_right, trim_space, split}
use flowra.Tag.Types.{ParsedTag}
use flowra.Tag.Parser.{starts_hash, newline, parse_tags_from_line, parse}
use flowra.Tag.Written.{written, IsWritable, trim-written, parse_tags-written}
use flowra.Tag.Lines.{tags_of, text_of, line_tags, line_text, tags_of-cons, text_of-cons, parse_lem}

-- A line of a message: tags, or text.
pub data Line : Type 0 where
  tag_line : List ParsedTag → Line
  text_line : Text → Line

abbrev pub line_of : Line → Text
line_of (tag_line ts) = written ts
line_of (text_line s) = s

-- The tags can be written, and a line of text does not begin with "#" behind its spaces.
abbrev pub IsLine : Line → Type 0
IsLine (tag_line ts) = All IsWritable ts
IsLine (text_line s) = starts_hash (trim_space s) ≡ false

-- The tags of a message, and its text without the lines of spaces alone.
unfoldable pub tags_in : List Line → List ParsedTag
tags_in [] = []
tags_in (tag_line ts ∷ ls) = ts ++ tags_in ls
tags_in (text_line s ∷ ls) = tags_in ls

unfoldable pub text_in : List Line → Text
text_in [] = []
text_in (tag_line ts ∷ ls) = text_in ls
text_in (text_line s ∷ ls) =
    let rest = text_in ls in if is_empty (trim_space s) then rest else s ++ newline ++ rest

line_tags-written : (ts : List ParsedTag) → All IsWritable ts → line_tags (written ts) ≡ ts
unfolding line_tags parse_tags_from_line
line_tags-written [] w = unfold trim_space in unfold trim_left in unfold trim_right in refl
line_tags-written (t ∷ ts) w =
    rw (trim-written t ts w).0
      (ap (λ p. p.0) (parse_tags-written (suc (length (written (t ∷ ts)))) t ts (omega arith) w))

line_text-written : (ts : List ParsedTag) → All IsWritable ts → line_text (written ts) ≡ []
unfolding line_text
line_text-written [] w = unfold trim_space in unfold trim_left in unfold trim_right in refl
line_text-written (t ∷ ts) w = rw (trim-written t ts w).0 refl

tags_of-lines : (ls : List Line) → All IsLine ls → tags_of (map line_of ls) ≡ tags_in ls
unfolding tags_of tags_in
tags_of-lines [] w = refl
tags_of-lines (tag_line ts ∷ ls) w =
    rw (tags_of-cons (written ts) (map line_of ls), line_tags-written ts w.0, tags_of-lines ls w.1)
      refl
tags_of-lines (text_line s ∷ ls) w = rw (w.0, tags_of-lines ls w.1) refl

text_of-lines : (ls : List Line) → All IsLine ls → text_of (map line_of ls) ≡ text_in ls
unfolding text_of text_in
text_of-lines [] w = refl
text_of-lines (tag_line ts ∷ ls) w =
    rw (text_of-cons (written ts) (map line_of ls), line_text-written ts w.0, text_of-lines ls w.1)
      refl
text_of-lines (text_line s ∷ ls) w = rw (w.0, text_of-lines ls w.1) refl

-- What a user writes is what Parse reads: where each line of a message is text that does not begin with "#"
-- behind its spaces, or tags one after the other with a space between, whose keys are known and whose values are not empty,
-- have no spaces at their ends, do not begin with "#" and have no " #" in them, Parse gives these tags, with these
-- values and in this order, and as the plain text the lines of text that are not blank, without the spaces at
-- the two ends.
pub parse-written :
    (content : Text) (ls : List Line)
    → split b'\n' content ≡ map line_of ls
    → All IsLine ls
    → ((parse content).tags ≡ tags_in ls) × ((parse content).plain_text ≡ trim_space (text_in ls))
parse-written content ls h w =
    let (p, q) = parse_lem content in
    (
      p ∙ ap tags_of h ∙ tags_of-lines ls w,
      q ∙ ap (λ x. trim_space (text_of x)) h ∙ ap trim_space (text_of-lines ls w),
    )
