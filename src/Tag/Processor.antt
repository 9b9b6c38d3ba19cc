-- ===== src/Tag/Processor.antt =====
-- internal/domain/tag/processor.go. The chat's identity and the parser of dates are parameters.
use flowra.Base.{
  ℕ, Text, Uuid, text, same, true, Option, List, [], ◌∷◌, Result, ok, err, ◌>>=◌, if◌then◌else◌,
}
use flowra.Text.{trim_space}
use flowra.Tag.Types.{
  ParsedTag, ProcessingResult, EntityType, no_entity, task_entity, bug_entity, epic_entity, Command,
  create_task, create_bug, create_epic, change_status, assign_user, change_priority, set_due_date,
  change_title, set_severity, invite_user, remove_user, close_chat, reopen_chat, delete_chat,
  Severity, error_severity, warning_severity, TagFault, no_active_entity, severity_not_on_bug,
  unknown_tag, TagApplication, TagError,
}
use flowra.Tag.Validators.{
  validate_username, validate_priority, validate_severity, validate_entity_creation,
  validate_status, validate_title, validate_due_date,
}
use flowra.Tag.Parser.{parse}

-- The cases of the switch on the tag's key.
pub data Kind : Type 0 where
  task_tag bug_tag epic_tag status_tag assignee_tag priority_tag due_tag title_tag severity_tag :
      Kind
  invite_tag remove_tag close_tag reopen_tag delete_tag other_tag : Kind

unfoldable pub kind_of : Text → Kind
kind_of k =
    if same k (text "task")
    then task_tag
    else if same k (text "bug")
    then bug_tag
    else if same k (text "epic")
    then epic_tag
    else if same k (text "status")
    then status_tag
    else if same k (text "assignee")
    then assignee_tag
    else if same k (text "priority")
    then priority_tag
    else if same k (text "due")
    then due_tag
    else if same k (text "title")
    then title_tag
    else if same k (text "severity")
    then severity_tag
    else if same k (text "invite")
    then invite_tag
    else if same k (text "remove")
    then remove_tag
    else if same k (text "close")
    then close_tag
    else if same k (text "reopen")
    then reopen_tag
    else if same k (text "delete")
    then delete_tag
    else other_tag

abbrev applied : Text → Text → Command → Result TagFault TagApplication
applied k v cmd = ok (record { tag_key = k; tag_value = v; command = cmd; success = true })

-- The entity type for the tags that follow: that of an entity just created.
abbrev pub created_entity : Kind → EntityType → EntityType
created_entity task_tag e = task_entity
created_entity bug_tag e = bug_entity
created_entity epic_tag e = epic_entity
created_entity _ e = e

-- The tag's value as an error records it: the close case leaves it empty.
abbrev pub faulty_value : Kind → Text → Text
faulty_value close_tag v = []
faulty_value _ v = v

-- Only an unknown tag is a warning.
abbrev pub severity_of : Kind → Severity
severity_of other_tag = warning_severity
severity_of _ = error_severity

abbrev severity_tag_fault : EntityType → Result TagFault (Unit {0})
severity_tag_fault bug_entity = ok tt
severity_tag_fault e = err (severity_not_on_bug e)

abbrev entity_present : EntityType → Result TagFault (Unit {0})
entity_present no_entity = err no_active_entity
entity_present _ = ok tt

-- What one round of the loop adds to the result, and the entity type for the next round.
pub record Outcome : Type 0 where
  pub applied_tags : List TagApplication
  pub errors : List TagError

module _ (time_parse : Text → Text → Option ℕ) (chat_id : Uuid) where
  -- The cases of the switch in the loop of ProcessTags.
  unfoldable pub check_tag : Kind → EntityType → Text → Text → Result TagFault TagApplication
  check_tag task_tag e k v = do
    _ ← validate_entity_creation (text "task") v
    applied k v (create_task chat_id (trim_space v))
  check_tag bug_tag e k v = do
    _ ← validate_entity_creation (text "bug") v
    applied k v (create_bug chat_id (trim_space v))
  check_tag epic_tag e k v = do
    _ ← validate_entity_creation (text "epic") v
    applied k v (create_epic chat_id (trim_space v))
  check_tag status_tag e k v = do
    _ ← entity_present e
    s ← validate_status e v
    applied k s (change_status chat_id s)
  check_tag assignee_tag e k v = do _ ← validate_username v; applied k v (assign_user chat_id v)
  check_tag priority_tag e k v = do p ← validate_priority v; applied k p (change_priority chat_id p)
  check_tag due_tag e k v = do
    d ← validate_due_date time_parse v
    applied k v (set_due_date chat_id d)
  check_tag title_tag e k v = do
    _ ← validate_title v
    applied k v (change_title chat_id (trim_space v))
  check_tag severity_tag e k v = do
    _ ← severity_tag_fault e
    s ← validate_severity v
    applied k s (set_severity chat_id s)
  check_tag invite_tag e k v = do _ ← validate_username v; applied k v (invite_user chat_id v)
  check_tag remove_tag e k v = do _ ← validate_username v; applied k v (remove_user chat_id v)
  check_tag close_tag e k v = do _ ← entity_present e; applied k [] (close_chat chat_id)
  check_tag reopen_tag e k v = applied k [] (reopen_chat chat_id)
  check_tag delete_tag e k v = applied k [] (delete_chat chat_id)
  check_tag other_tag e k v = err (unknown_tag k)

  -- One tag's application or error in front of those of the tags after it. The entity type that the
  -- later tags see changes only where an entity was created.
  unfoldable pub process_tags : List ParsedTag → EntityType → Outcome
  process_tags [] e = record { applied_tags = []; errors = [] }
  process_tags (t ∷ ts) e = elim (check_tag (kind_of t.key) e t.key t.value) [
    | ok a ↦
        let rest = process_tags ts (created_entity (kind_of t.key) e) in
        record { applied_tags = a ∷ rest.applied_tags; errors = rest.errors }
    | err f ↦
        let rest = process_tags ts e in
        record {
          applied_tags = rest.applied_tags;
          errors =
              record {
                tag_key = t.key;
                tag_value = faulty_value (kind_of t.key) t.value;
                fault = f;
                severity = severity_of (kind_of t.key);
              }
              ∷ rest.errors;
        }
  ]

  -- ProcessMessage
  unfoldable pub process_message : Text → EntityType → ProcessingResult
  unfolding process_tags parse
  process_message message e =
      let parsed = parse message in
      let result = process_tags parsed.tags e in
      record {
        original_message = message;
        plain_text = parsed.plain_text;
        applied_tags = result.applied_tags;
        errors = result.errors;
      }
