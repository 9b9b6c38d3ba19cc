-- ===== src/Tag/Validators.antt =====
-- internal/domain/tag/validators.go. `time_parse` is time.Parse, by layout and value.
use flowra.Base.{
  ℕ, Text, text, same, Bool, false, not, ◌&&◌, ◌||◌, Option, none, some, List, [], ◌∷◌, is_empty,
  leb, ◌==◌, Result, ok, err, fail_if, if◌then◌else◌, exists, length,
}
use flowra.Text.{trim_space, equal_fold, has_prefix}
use flowra.Tag.Types.{
  EntityType, no_entity, task_entity, bug_entity, epic_entity, other_entity, TagFault,
  title_required, unknown_entity, invalid_status, invalid_username, invalid_priority,
  invalid_severity, invalid_date, empty_title,
}

abbrev pub task_statuses : List Text
task_statuses = text "To Do" ∷ text "In Progress" ∷ text "Done" ∷ []

abbrev pub bug_statuses : List Text
bug_statuses = text "New" ∷ text "Investigating" ∷ text "Fixed" ∷ text "Verified" ∷ []

abbrev pub epic_statuses : List Text
epic_statuses = text "Planned" ∷ text "In Progress" ∷ text "Completed" ∷ []

abbrev pub allowed_priorities : List Text
allowed_priorities = text "High" ∷ text "Medium" ∷ text "Low" ∷ []

abbrev pub allowed_severities : List Text
allowed_severities = text "Critical" ∷ text "Major" ∷ text "Minor" ∷ text "Trivial" ∷ []

-- [a-zA-Z0-9._-] of usernameRegex
unfoldable pub is_username_char : ℕ → Bool
is_username_char c =
    (leb b'a' c && leb c b'z')
    || (leb b'A' c && leb c b'Z')
    || (leb b'0' c && leb c b'9')
    || c == b'.'
    || c == b'_'
    || c == b'-'

-- usernameRegex, `^@[a-zA-Z0-9._-]+$`
unfoldable pub matches_username : Text → Bool
unfolding is_username_char
matches_username [] = false
matches_username (c ∷ s) =
    c == b'@' && not (is_empty s) && not (exists (λ d. not (is_username_char d)) s)

-- validateUsername
unfoldable pub validate_username : Text → Result TagFault (Unit {0})
unfolding matches_username
validate_username v =
    if is_empty v || same v (text "@none")
    then ok tt
    else if not (has_prefix v (text "@"))
    then err invalid_username
    else if length v == 1
    then err invalid_username
    else if not (matches_username v)
    then err invalid_username
    else ok tt

-- matchCaseInsensitive
unfoldable pub match_case_insensitive : Text → List Text → Option Text
match_case_insensitive v [] = none
match_case_insensitive v (a ∷ as') = if equal_fold v a then some a else match_case_insensitive v as'

-- The canonical value, or the error.
abbrev pub or_fault : Option Text → TagFault → Result TagFault Text
or_fault none f = err f
or_fault (some a) f = ok a

-- validatePriority
unfoldable pub validate_priority : Text → Result TagFault Text
validate_priority v = or_fault (match_case_insensitive v allowed_priorities) (invalid_priority v)

-- validateSeverity
unfoldable pub validate_severity : Text → Result TagFault Text
validate_severity v = or_fault (match_case_insensitive v allowed_severities) (invalid_severity v)

-- ValidateEntityCreation
unfoldable pub validate_entity_creation : Text → Text → Result TagFault (Unit {0})
validate_entity_creation k title = fail_if (is_empty (trim_space title)) (title_required k)

-- The list that ValidateStatus chooses.
abbrev pub statuses_for : EntityType → Option (List Text)
statuses_for task_entity = some task_statuses
statuses_for bug_entity = some bug_statuses
statuses_for epic_entity = some epic_statuses
statuses_for no_entity = none
statuses_for (other_entity _) = none

-- ValidateStatus
unfoldable pub validate_status : EntityType → Text → Result TagFault Text
validate_status e s = elim (statuses_for e) [
  | none ↦ err (unknown_entity e)
  | some allowed ↦ or_fault (match_case_insensitive s allowed) (invalid_status s e)
]

-- ValidateTitle
unfoldable pub validate_title : Text → Result TagFault (Unit {0})
validate_title t = fail_if (is_empty (trim_space t)) empty_title

-- The layouts of ValidateDueDate, time.RFC3339 written out.
abbrev pub layouts : List Text
layouts =
    text "2006-01-02"
    ∷ text "2006-01-02T15:04"
    ∷ text "2006-01-02T15:04:05"
    ∷ text "2006-01-02T15:04:05Z07:00"
    ∷ text "2006-01-02T15:04:05Z07:00"
    ∷ []

module _ (time_parse : Text → Text → Option ℕ) where
  -- The first layout that parses the value.
  unfoldable pub parse_date : List Text → Text → Option ℕ
  parse_date [] v = none
  parse_date (l ∷ ls) v = elim (time_parse l v) [ some t ↦ some t | none ↦ parse_date ls v ]

  abbrev date_or_fault : Option ℕ → Result TagFault (Option ℕ)
  date_or_fault none = err invalid_date
  date_or_fault (some t) = ok (some t)

  -- ValidateDueDate
  unfoldable pub validate_due_date : Text → Result TagFault (Option ℕ)
  validate_due_date v = if is_empty v then ok none else date_or_fault (parse_date layouts v)
