-- ===== src/Tag/Lines.antt =====
-- Parse by lines: which lines give tags and which the plain text.
use flowra.Base.{
  ℕ, suc, Text, true, false, ◌||◌, Bool-cases, List, [], ◌∷◌, ◌++◌, append-nil, append_assoc, ◌≡◌,
  refl, ap, sym, arith, inl, inr, is_empty, length, ltb, if◌then◌else◌,
}
use flowra.Text.{trim_space, split}
use flowra.Tag.Types.{ParsedTag}
use flowra.Tag.Parser.{
  starts_hash, newline, parse_tags_from_line, Gathered, parse_line, parse_lines, parse,
}
use flowra.Tag.Remaining.{parse_tags-rest, starts_hash-IsRest}

-- The tags of the lines that begin with "#" behind their spaces, in the order of the lines.
unfoldable pub tags_of : List Text → List ParsedTag
tags_of [] = []
tags_of (line ∷ lines) =
    let rest = tags_of lines in
    if starts_hash (trim_space line)
    then (parse_tags_from_line (trim_space line)).0 ++ rest
    else rest

-- The other lines, without those of spaces alone.
unfoldable pub text_of : List Text → Text
text_of [] = []
text_of (line ∷ lines) =
    let rest = text_of lines in
    if is_empty (trim_space line)
    then rest
    else if starts_hash (trim_space line)
    then rest
    else line ++ newline ++ rest

parse_tags_from_line-rest :
    (line : Text) → starts_hash line ≡ true → (parse_tags_from_line line).1 ≡ []
unfolding parse_tags_from_line
parse_tags_from_line-rest line h =
    parse_tags-rest (suc (length line)) line (omega arith) (starts_hash-IsRest line h)

-- One line's tags and its part of the text.
unfoldable pub line_tags : Text → List ParsedTag
line_tags line =
    if starts_hash (trim_space line) then (parse_tags_from_line (trim_space line)).0 else []

unfoldable pub line_text : Text → Text
line_text line =
    if is_empty (trim_space line)
    then []
    else if starts_hash (trim_space line)
    then []
    else line ++ newline

nothing-no_tag : (s : Text) → is_empty s ≡ true → starts_hash s ≡ false
nothing-no_tag [] h = refl
nothing-no_tag (c ∷ s) h = cc

-- One round gathers the line's tags and its text, where the guard on the mode lets it.
parse_line_lem :
    (i : ℕ) (line : Text) (g : Gathered)
    → (g.in_tag_mode || ltb 0 i) ≡ true
    → ((parse_line i line g).found ≡ g.found ++ line_tags line)
      × ((parse_line i line g).plain ≡ g.plain ++ line_text line)
unfolding parse_line line_tags line_text
parse_line_lem i line g m = elim (Bool-cases (is_empty (trim_space line))) [
  | inl p ↦
      let q = nothing-no_tag (trim_space line) p in
      rw (p, q) (sym (append-nil g.found), sym (append-nil g.plain))
  | inr p ↦ elim (Bool-cases (starts_hash (trim_space line))) [
    | inl q ↦
        let r = parse_tags_from_line-rest (trim_space line) q in
        rw (p, q, m, r) (refl, sym (append-nil g.plain))
    | inr q ↦ rw (p, q) (sym (append-nil g.found), append_assoc g.plain line newline)
  ]
]

pub tags_of-cons :
    (line : Text) (lines : List Text) → tags_of (line ∷ lines) ≡ line_tags line ++ tags_of lines
unfolding tags_of line_tags
tags_of-cons line lines = elim (Bool-cases (starts_hash (trim_space line))) [
  | inl p ↦ rw p refl
  | inr p ↦ rw p refl
]

pub text_of-cons :
    (line : Text) (lines : List Text) → text_of (line ∷ lines) ≡ line_text line ++ text_of lines
unfolding text_of line_text
text_of-cons line lines = elim (Bool-cases (is_empty (trim_space line))) [
  | inl p ↦ rw p refl
  | inr p ↦ elim (Bool-cases (starts_hash (trim_space line))) [
    | inl q ↦ rw (p, q) refl
    | inr q ↦ rw (p, q) refl
  ]
]

parse_lines_lem :
    (i : ℕ) (lines : List Text) (g : Gathered)
    → (g.in_tag_mode || ltb 0 i) ≡ true
    → ((parse_lines i lines g).found ≡ g.found ++ tags_of lines)
      × ((parse_lines i lines g).plain ≡ g.plain ++ text_of lines)
unfolding parse_lines tags_of text_of
parse_lines_lem i [] g m = (sym (append-nil g.found), sym (append-nil g.plain))
parse_lines_lem i (line ∷ lines) g m =
    let (p, q) = parse_line_lem i line g m in
    let (r, s) = parse_lines_lem (suc i) lines (parse_line i line g) ground arith in
    (
      rw (tags_of-cons line lines, r, p) (append_assoc g.found (line_tags line) (tags_of lines)),
      rw (text_of-cons line lines, s, q) (append_assoc g.plain (line_text line) (text_of lines)),
    )

-- Parse splits a message by its lines: the tags are those of the lines that begin with "#" behind
-- their spaces, wherever these stand, and the plain text is the other lines that are not blank, without
-- the spaces at its two ends. Nothing of a line with tags gets into the text.
pub parse_lem :
    (content : Text)
    → ((parse content).tags ≡ tags_of (split b'\n' content))
      × ((parse content).plain_text ≡ trim_space (text_of (split b'\n' content)))
unfolding parse
parse_lem content =
    let (p, q) =
      parse_lines_lem 0 (split b'\n' content)
        (record { found = []; plain = []; in_tag_mode = true }) refl in
    (p, ap trim_space q)
