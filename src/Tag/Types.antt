-- ===== src/Tag/Types.antt =====
-- internal/domain/tag: types.go, commands.go, result.go.
use flowra.Base.{ℕ, Text, Uuid, Bool, Option, List}

pub record ParsedTag : Type 0 where
  pub key : Text
  pub value : Text

pub record ParseResult : Type 0 where
  pub tags : List ParsedTag
  pub plain_text : Text

pub data ValueType : Type 0 where
  string_value username_value date_value enum_value no_value : ValueType

-- Definition, without its validator, which nothing calls through the definition.
pub record Definition : Type 0 where
  pub name : Text
  pub requires_value : Bool
  pub value_type : ValueType
  pub allowed_values : List Text

-- The entity type as ProcessTags takes it: "", "Task", "Bug", "Epic", or any other string.
pub data EntityType : Type 0 where
  no_entity task_entity bug_entity epic_entity : EntityType
  other_entity : Text → EntityType

pub data Command : Type 0 where
  create_task create_bug create_epic : Uuid → Text → Command
  change_status : Uuid → Text → Command
  assign_user : Uuid → Text → Command
  change_priority : Uuid → Text → Command
  set_due_date : Uuid → Option ℕ → Command
  change_title : Uuid → Text → Command
  set_severity : Uuid → Text → Command
  invite_user remove_user : Uuid → Text → Command
  close_chat reopen_chat delete_chat : Uuid → Command

pub data Severity : Type 0 where
  error_severity warning_severity : Severity

-- The errors of validators.go and processor.go, with what their texts name.
pub data TagFault : Type 0 where
  title_required : Text → TagFault
  no_active_entity : TagFault
  unknown_entity : EntityType → TagFault
  invalid_status : Text → EntityType → TagFault
  invalid_username : TagFault
  invalid_priority invalid_severity : Text → TagFault
  invalid_date : TagFault
  empty_title : TagFault
  severity_not_on_bug : EntityType → TagFault
  unknown_tag : Text → TagFault

pub record TagApplication : Type 0 where
  pub tag_key : Text
  pub tag_value : Text
  pub command : Command
  pub success : Bool

pub record TagError : Type 0 where
  pub tag_key : Text
  pub tag_value : Text
  pub fault : TagFault
  pub severity : Severity

pub record ProcessingResult : Type 0 where
  pub original_message : Text
  pub plain_text : Text
  pub applied_tags : List TagApplication
  pub errors : List TagError
