-- ===== src/Tag/Parser.antt =====
-- internal/domain/tag/parser.go. Characters are code points; the byte tests of the source look only at
-- ASCII characters, which are single bytes.
use Prim.Native.String.{String}
use flowra.Base.{
  ℕ, zero, suc, Text, text, same, Bool, true, false, ◌&&◌, ◌||◌, Option, none, some, List, [], ◌∷◌,
  ◌++◌, is_empty, length, leb, ltb, ◌==◌, exists, if◌then◌else◌,
}
use flowra.Text.{trim_space, split, cut, cut_pair, after_first}
use flowra.Tag.Types.{
  ParsedTag, ParseResult, Definition, ValueType, string_value, username_value, date_value,
  enum_value, no_value,
}

abbrev defined : String → Bool → ValueType → List Text → Definition
defined n req ty vals = record {
  name = text n;
  requires_value = req;
  value_type = ty;
  allowed_values = vals;
}

-- NewParser
abbrev pub known_tags : List Definition
known_tags =
    defined "task" true string_value []
    ∷ defined "bug" true string_value []
    ∷ defined "epic" true string_value []
    ∷ defined "status" true enum_value []
    ∷ defined "assignee" false username_value []
    ∷ defined "priority" true enum_value (text "High" ∷ text "Medium" ∷ text "Low" ∷ [])
    ∷ defined "due" false date_value []
    ∷ defined "title" true string_value []
    ∷ defined "severity" true enum_value
        (text "Critical" ∷ text "Major" ∷ text "Minor" ∷ text "Trivial" ∷ [])
    ∷ defined "invite" true username_value []
    ∷ defined "remove" true username_value []
    ∷ defined "close" false no_value []
    ∷ defined "reopen" false no_value []
    ∷ defined "delete" false no_value []
    ∷ []

-- isKnownTag
unfoldable pub is_known_tag : Text → Bool
is_known_tag k = exists (λ d. same d.name k) known_tags

abbrev pub hash : ℕ
hash = b'#'

abbrev pub space : ℕ
space = b' '

-- strings.HasPrefix(s, "#")
abbrev pub starts_hash : Text → Bool
starts_hash [] = false
starts_hash (c ∷ s) = c == hash

-- The test that a Latin letter a-z stands at the position.
abbrev pub starts_letter : Text → Bool
starts_letter [] = false
starts_letter (c ∷ s) = leb b'a' c && leb c b'z'

-- The search loop of parseOneTag: the value in front of the next " #" that a letter follows, and what
-- follows from that " #" on. `seen` is what the search has passed; every round passes two characters.
unfoldable pub next_tag : ℕ → Text → Text → Option (Text × Text)
unfolding cut_pair
next_tag zero seen rest = none
next_tag (suc fuel) seen rest = elim (cut_pair space hash rest) [
  | none ↦ none
  | some (b, a) ↦ elim (starts_letter a) [
    | true ↦ some (seen ++ b, space ∷ hash ∷ a)
    | false ↦ next_tag fuel (seen ++ b ++ space ∷ hash ∷ []) a
  ]
]

-- The value and the rest, by the outcome of the search.
abbrev pub value_and_rest : Text → Option (Text × Text) → Text × Text
value_and_rest rest none = (trim_space rest, [])
value_and_rest rest (some (v, r)) = (trim_space v, trim_space r)

abbrev pub tag_of : Text → Text → ParsedTag
tag_of k v = record { key = k; value = v }

-- What follows the tag name, after the space.
unfoldable pub parse_value : Text → Text → ParsedTag × Text
unfolding next_tag
parse_value name rest =
    if starts_hash rest
    then (tag_of name [], rest)
    else (let (v, r) = value_and_rest rest (next_tag (suc (length rest)) [] rest) in
        (tag_of name v, r))

-- parseOneTag behind its "#"
unfoldable pub parse_name : Text → ParsedTag × Text
unfolding parse_value cut
parse_name s = elim (cut space s) [
  | none ↦ (tag_of s [], [])
  | some (name, rest) ↦ parse_value name rest
]

-- parseOneTag: no tag where the text does not begin with "#".
unfoldable pub parse_one_tag : Text → Option ParsedTag × Text
unfolding parse_name
parse_one_tag s =
    if starts_hash s
    then (let (t, rest) = parse_name (after_first s) in (some t, rest))
    else (none, s)

-- The tag as parseTagsFromLine keeps it: an unknown tag is dropped.
unfoldable pub kept : Option ParsedTag → List ParsedTag
unfolding is_known_tag
kept none = []
kept (some t) = if is_known_tag t.key then t ∷ [] else []

-- parseTagsFromLine, on fuel.
unfoldable pub parse_tags : ℕ → Text → List ParsedTag × Text
unfolding parse_one_tag trim_space kept
parse_tags zero line = ([], line)
parse_tags (suc fuel) line = elim (starts_hash line) [
  | false ↦ ([], line)
  | true ↦
      let (t, rest) = parse_one_tag line in
      let (ts, remaining) = parse_tags fuel (trim_space rest) in (kept t ++ ts, remaining)
]

-- The text shortens in each round, so its length is fuel enough.
unfoldable pub parse_tags_from_line : Text → List ParsedTag × Text
unfolding parse_tags
parse_tags_from_line line = parse_tags (suc (length line)) line

-- What Parse has gathered, with inTagMode.
pub record Gathered : Type 0 where
  pub found : List ParsedTag
  pub plain : Text
  pub in_tag_mode : Bool

abbrev pub newline : Text
newline = b'\n' ∷ []

-- One round of Parse's loop.
unfoldable pub parse_line : ℕ → Text → Gathered → Gathered
unfolding parse_tags_from_line trim_space
parse_line i line g =
    let trimmed = trim_space line in
    if is_empty trimmed
    then g
    else if starts_hash trimmed && (g.in_tag_mode || ltb 0 i)
    then (let (ts, remaining) = parse_tags_from_line trimmed in
        if is_empty remaining then record g { found = g.found ++ ts } else record {
          found = g.found ++ ts;
          plain = g.plain ++ remaining ++ newline;
          in_tag_mode = false;
        })
    else record g { plain = g.plain ++ line ++ newline; in_tag_mode = false }

unfoldable pub parse_lines : ℕ → List Text → Gathered → Gathered
unfolding parse_line
parse_lines i [] g = g
parse_lines i (line ∷ lines) g = parse_lines (suc i) lines (parse_line i line g)

-- Parse
unfoldable pub parse : Text → ParseResult
unfolding parse_lines split
parse content =
    let g =
      parse_lines 0 (split b'\n' content) (record { found = []; plain = []; in_tag_mode = true }) in
    record { tags = g.found; plain_text = trim_space g.plain }
