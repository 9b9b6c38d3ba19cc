-- ===== src/Chat/Types.antt =====
-- The data of internal/domain/chat: chat.go, participant.go, attachment.go, events.go, and of
-- internal/domain/event: base_event.go, metadata.go. Times are instants, numbered by ℕ.
use flowra.Base.{ℤ, ℕ, Text, Uuid, Bool, true, false, Option, none, List, []}

-- chat.go, `type Type string`: the four constants, and any other string.
pub data ChatType : Type 0 where
  discussion task bug epic : ChatType
  unknown : Text → ChatType

abbrev pub is_discussion : ChatType → Bool
is_discussion discussion = true
is_discussion _ = false

abbrev pub is_bug : ChatType → Bool
is_bug bug = true
is_bug _ = false

-- isValidChatType
abbrev pub is_valid_chat_type : ChatType → Bool
is_valid_chat_type (unknown _) = false
is_valid_chat_type _ = true

-- participant.go, `type Role string`: the two constants, and any other string.
pub data Role : Type 0 where
  member admin : Role
  other : Text → Role

pub record Participant : Type 0 where
  pub user_id : Uuid
  pub role : Role
  pub joined_at : ℕ

abbrev pub role_is_admin : Role → Bool
role_is_admin admin = true
role_is_admin _ = false

abbrev pub is_admin : Participant → Bool
is_admin p = role_is_admin p.role

pub record Attachment : Type 0 where
  pub file_id : Uuid
  pub file_name : Text
  pub file_size : ℤ
  pub mime_type : Text

-- metadata.go: the fields that the aggregate fills in; the others keep their zero value.
pub record Metadata : Type 0 where
  pub user_id : Text
  pub correlation_id : Text
  pub causation_id : Text

-- event.Metadata{}
abbrev pub no_metadata : Metadata
no_metadata = record { user_id = []; correlation_id = []; causation_id = [] }

-- events.go: what each event carries beside the base event.
pub data Payload : Type 0 where
  created : Uuid → ChatType → Bool → Uuid → ℕ → Payload
  participant_added : Uuid → Role → ℕ → Payload
  participant_removed : Uuid → Payload
  type_changed : ChatType → ChatType → Text → Payload
  status_changed : Text → Text → Uuid → Payload
  user_assigned : Uuid → Uuid → Payload
  assignee_removed : Uuid → Uuid → Payload
  priority_set : Text → Text → Uuid → Payload
  due_date_set : Option ℕ → ℕ → Uuid → Payload
  due_date_removed : ℕ → Uuid → Payload
  attachment_added : Uuid → Text → ℤ → Text → Uuid → Payload
  attachment_removed : Uuid → Uuid → Payload
  renamed : Text → Text → Uuid → Payload
  severity_set : Text → Text → Uuid → Payload
  deleted : Uuid → ℕ → Payload
  closed : Uuid → Text → ℕ → Payload
  reopened : Uuid → Text → ℕ → Payload
  -- an event of a type that the aggregate does not know
  unknown_event : Text → Payload

-- base_event.go: the event and aggregate types are told by the payload.
pub record Event : Type 0 where
  pub aggregate_id : Uuid
  pub version : ℕ
  pub occurred_at : ℕ
  pub metadata : Metadata
  pub payload : Payload

pub record Chat : Type 0 where
  pub id : Uuid
  pub workspace_id : Uuid
  pub chat_type : ChatType
  pub is_public : Bool
  pub created_by : Uuid
  pub created_at : ℕ
  pub participants : List Participant
  pub title : Text
  pub status : Text
  pub priority : Text
  pub assignee_id : Option Uuid
  pub due_date : Option ℕ
  pub severity : Text
  pub attachments : List Attachment
  pub is_deleted : Bool
  pub deleted_at : Option ℕ
  pub deleted_by : Option Uuid
  pub version : ℕ
  pub uncommitted_events : List Event

-- NewEmptyChat, and the zero value `Chat{}`.
abbrev pub empty_chat : Chat
empty_chat = record {
  id = [];
  workspace_id = [];
  chat_type = unknown [];
  is_public = false;
  created_by = [];
  created_at = 0;
  participants = [];
  title = [];
  status = [];
  priority = [];
  assignee_id = none;
  due_date = none;
  severity = [];
  attachments = [];
  is_deleted = false;
  deleted_at = none;
  deleted_by = none;
  version = 0;
  uncommitted_events = [];
}

-- What a method reads of its surroundings while it raises one event: time.Now of the method, of
-- NewBaseEvent and of NewParticipant, and the results of uuid.NewUUID.
pub record Env : Type 0 where
  pub now : ℕ
  pub occurred_at : ℕ
  pub joined_at : ℕ
  pub new_id : Uuid
  pub correlation_id : Uuid
  pub causation_id : Uuid
