-- ===== src/Task/Document.antt =====
-- internal/infrastructure/projector/chat_to_task_read_model_projector.go: the document of a chat in tasks_read_model and
-- the comparison of two documents; and the constants of internal/domain/task/entity_state.go.
use flowra.Base.{
  ℤ, pos, negsuc, ℕ, Text, text, same, is_empty, Bool, true, false, ◌&&◌, ◌||◌, not, Option, none,
  some, List, [], ◌∷◌, map, leb, ◌+◌, ◌==◌, if◌then◌else◌, Result, ok, err, ◌>>=◌, ◌>>◌, fail_if,
}
use flowra.Text.{trim_space}
use flowra.Chat.Types.{
  ChatType, discussion, task, bug, epic, unknown, is_discussion, is_bug, Attachment, Chat,
}

-- EntityType, Status, Priority
pub data EntityType : Type 0 where
  task_entity bug_entity epic_entity : EntityType

pub data Status : Type 0 where
  backlog to_do in_progress in_review done cancelled : Status

pub data Priority : Type 0 where
  low medium high critical : Priority

-- The errors of the projector.
pub data ProjectionError : Type 0 where
  missing load_failed unsupported_type database_failed invalid_chat_id : ProjectionError

-- taskProjectionDocument, with the chat's attachments as they are: taskProjectionAttachment has the same four fields.
pub record Document : Type 0 where
  pub task_id : Text
  pub chat_id : Text
  pub title : Text
  pub entity_type : EntityType
  pub status : Status
  pub priority : Priority
  pub severity : Option Text
  pub assigned_to : Option Text
  pub due_date : Option ℕ
  pub created_by : Text
  pub created_at : ℕ
  pub version : ℕ
  pub attachments : List Attachment

-- unicode.ToLower, as far as it gives an ASCII letter
unfoldable pub lower : ℕ → ℕ
lower c =
    if leb b'A' c && leb c b'Z'
    then c + 32
    else if c == 0x212a
    then b'k'
    else if c == 0x130
    then b'i'
    else c

-- strings.ToLower(strings.TrimSpace(s)), for a comparison with ASCII texts
unfoldable pub normalized : Text → Text
unfolding lower trim_space
normalized s = map lower (trim_space s)

-- A switch over string literals: the value of the first case that has the text.
unfoldable pub switch {ℓ} : {A : Type ℓ} → List (Text × A) → A → Text → A
switch [] default s = default
switch ((k, a) ∷ cases) default s = if same s k then a else switch cases default s

abbrev pub status_cases : List (Text × Status)
status_cases =
    ([], to_do)
    ∷ (text "new", to_do)
    ∷ (text "planned", to_do)
    ∷ (text "investigating", in_progress)
    ∷ (text "fixed", in_review)
    ∷ (text "verified", done)
    ∷ (text "completed", done)
    ∷ (text "closed", done)
    ∷ (text "backlog", backlog)
    ∷ (text "to do", to_do)
    ∷ (text "in progress", in_progress)
    ∷ (text "in review", in_review)
    ∷ (text "done", done)
    ∷ (text "cancelled", cancelled)
    ∷ []

-- normalizeTaskStatus
unfoldable pub normalize_task_status : Text → Status
unfolding switch normalized
normalize_task_status s = switch status_cases to_do (normalized s)

abbrev pub priority_cases : List (Text × Priority)
priority_cases =
    (text "low", low)
    ∷ (text "medium", medium)
    ∷ (text "high", high)
    ∷ (text "critical", critical)
    ∷ []

-- normalizeTaskPriority
unfoldable pub normalize_task_priority : Text → Priority
unfolding switch normalized
normalize_task_priority s = switch priority_cases medium (normalized s)

-- mapChatTypeToTaskEntityType
unfoldable pub map_chat_type : ChatType → Result ProjectionError EntityType
map_chat_type task = ok task_entity
map_chat_type bug = ok bug_entity
map_chat_type epic = ok epic_entity
map_chat_type discussion = err unsupported_type
map_chat_type (unknown _) = err unsupported_type

-- The document of a chat that has one.
unfoldable pub document_of : EntityType → Chat → Document
document_of e c = record {
  task_id = c.id;
  chat_id = c.id;
  title = c.title;
  entity_type = e;
  status = normalize_task_status c.status;
  priority = normalize_task_priority c.priority;
  severity =
      if is_bug c.chat_type && not (is_empty (trim_space c.severity))
      then some c.severity
      else none;
  assigned_to = c.assignee_id;
  due_date = c.due_date;
  created_by = c.created_by;
  created_at = c.created_at;
  version = c.version;
  attachments = c.attachments;
}

-- buildTaskProjectionDocument: no document where the task should not exist.
unfoldable pub build_task_projection_document : Chat → Result ProjectionError (Option Document)
build_task_projection_document c = do
  fail_if (is_empty c.id) missing
  if is_discussion c.chat_type || c.is_deleted
      then ok none
      else (do e ← map_chat_type c.chat_type; ok (some (document_of e c)))

-- equalStringPtr
unfoldable pub equal_string : Option Text → Option Text → Bool
equal_string none none = true
equal_string (some a) (some b) = same a b
equal_string _ _ = false

-- equalTimePtr
unfoldable pub equal_time : Option ℕ → Option ℕ → Bool
equal_time none none = true
equal_time (some a) (some b) = a == b
equal_time _ _ = false

unfoldable pub equal_size : ℤ → ℤ → Bool
equal_size (pos m) (pos n) = m == n
equal_size (negsuc m) (negsuc n) = m == n
equal_size _ _ = false

unfoldable pub equal_attachment : Attachment → Attachment → Bool
unfolding equal_size
equal_attachment a b =
    same a.file_id b.file_id
    && same a.file_name b.file_name
    && equal_size a.file_size b.file_size
    && same a.mime_type b.mime_type

-- equalTaskProjectionAttachments
unfoldable pub equal_attachments : List Attachment → List Attachment → Bool
unfolding equal_attachment
equal_attachments [] [] = true
equal_attachments (a ∷ as') (b ∷ bs) = equal_attachment a b && equal_attachments as' bs
equal_attachments _ _ = false

unfoldable pub equal_entity_type : EntityType → EntityType → Bool
equal_entity_type task_entity task_entity = true
equal_entity_type bug_entity bug_entity = true
equal_entity_type epic_entity epic_entity = true
equal_entity_type _ _ = false

unfoldable pub equal_status : Status → Status → Bool
equal_status backlog backlog = true
equal_status to_do to_do = true
equal_status in_progress in_progress = true
equal_status in_review in_review = true
equal_status done done = true
equal_status cancelled cancelled = true
equal_status _ _ = false

unfoldable pub equal_priority : Priority → Priority → Bool
equal_priority low low = true
equal_priority medium medium = true
equal_priority high high = true
equal_priority critical critical = true
equal_priority _ _ = false

-- compareTaskProjectionDocuments, of two documents that are there
unfoldable pub compare_task_projection_documents : Document → Document → Bool
compare_task_projection_documents a b =
    same a.task_id b.task_id
    && same a.chat_id b.chat_id
    && same a.title b.title
    && equal_entity_type a.entity_type b.entity_type
    && equal_status a.status b.status
    && equal_priority a.priority b.priority
    && same a.created_by b.created_by
    && a.version == b.version
    && a.created_at == b.created_at
    && equal_string a.severity b.severity
    && equal_string a.assigned_to b.assigned_to
    && equal_time a.due_date b.due_date
    && equal_attachments a.attachments b.attachments
