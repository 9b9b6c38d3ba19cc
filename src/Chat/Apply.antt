-- ===== src/Chat/Apply.antt =====
-- chat.go, the event sourcing methods: Apply and its handlers, applyEvent, MarkEventsAsCommitted,
-- and the loop that restores a chat from its events (chat_repository.go, Load).
use flowra.Base.{
  ℕ, Text, Uuid, text, same, Bool, true, false, not, Option, none, some, List, [], ◌∷◌, ◌++◌,
  if◌then◌else◌, keep, exists,
}
use flowra.Chat.Types.{
  ChatType, discussion, task, bug, epic, unknown, Participant, is_admin, Attachment, Payload,
  created, participant_added, participant_removed, type_changed, status_changed, user_assigned,
  assignee_removed, priority_set, due_date_set, due_date_removed, attachment_added,
  attachment_removed, renamed, severity_set, deleted, closed, reopened, unknown_event, Event, Chat,
  empty_chat,
}

-- StatusClosed
abbrev pub status_closed : Text
status_closed = text "Closed"

-- getDefaultStatus
abbrev pub get_default_status : ChatType → Text
get_default_status task = text "To Do"
get_default_status bug = text "New"
get_default_status epic = text "Planned"
get_default_status discussion = []
get_default_status (unknown _) = []

-- HasParticipant
abbrev pub has_participant : List Participant → Uuid → Bool
has_participant ps u = exists (λ p. same p.user_id u) ps

-- IsParticipantAdmin
abbrev pub is_participant_admin : List Participant → Uuid → Bool
is_participant_admin ps u = exists (λ p. if same p.user_id u then is_admin p else false) ps

-- FindParticipant
abbrev pub find_participant : List Participant → Uuid → Option Participant
find_participant [] u = none
find_participant (p ∷ ps) u = if same p.user_id u then some p else find_participant ps u

-- The loop of applyParticipantRemoved.
abbrev pub without_participant : List Participant → Uuid → List Participant
without_participant ps u = keep (λ p. not (same p.user_id u)) ps

-- The search loop of AddAttachment, RemoveAttachment and applyAttachmentAdded.
abbrev pub has_attachment : List Attachment → Uuid → Bool
has_attachment as' f = exists (λ a. same a.file_id f) as'

-- The loop of applyAttachmentRemoved.
abbrev pub without_attachment : List Attachment → Uuid → List Attachment
without_attachment as' f = keep (λ a. not (same a.file_id f)) as'

-- The handlers applyCreated, applyParticipantAdded and so on, by the type switch of Apply. The first
-- argument is time.Now as NewParticipant reads it.
unfoldable pub apply_payload : ℕ → Event → Payload → Chat → Chat
apply_payload now e (created ws ty pub' by at) c = record c {
  id = e.aggregate_id;
  workspace_id = ws;
  chat_type = ty;
  is_public = pub';
  created_by = by;
  created_at = at;
  version = e.version;
}
apply_payload now e (participant_added u r at) c = record c {
  participants = c.participants ++ record { user_id = u; role = r; joined_at = now } ∷ [];
  version = e.version;
}
apply_payload now e (participant_removed u) c = record c {
  participants = without_participant c.participants u;
  version = e.version;
}
apply_payload now e (type_changed old new title) c = record c {
  chat_type = new;
  title = title;
  status = get_default_status new;
  version = e.version;
}
apply_payload now e (status_changed old new by) c = record c { status = new; version = e.version }
apply_payload now e (user_assigned u by) c = record c { assignee_id = some u; version = e.version }
apply_payload now e (assignee_removed u by) c = record c { assignee_id = none; version = e.version }
apply_payload now e (priority_set old new by) c = record c { priority = new; version = e.version }
apply_payload now e (due_date_set old new by) c = record c {
  due_date = some new;
  version = e.version;
}
apply_payload now e (due_date_removed old by) c = record c { due_date = none; version = e.version }
apply_payload now e (attachment_added f name size mime by) c =
    if has_attachment c.attachments f then record c { version = e.version } else record c {
      attachments =
          c.attachments
          ++ record { file_id = f; file_name = name; file_size = size; mime_type = mime } ∷ [];
      version = e.version;
    }
apply_payload now e (attachment_removed f by) c = record c {
  attachments = without_attachment c.attachments f;
  version = e.version;
}
apply_payload now e (renamed old new by) c = record c { title = new; version = e.version }
apply_payload now e (severity_set old new by) c = record c { severity = new; version = e.version }
apply_payload now e (deleted by at) c = record c {
  is_deleted = true;
  deleted_at = some at;
  deleted_by = some by;
  version = e.version;
}
apply_payload now e (closed by old at) c = record c { status = status_closed; version = e.version }
apply_payload now e (reopened by new at) c = record c { status = new; version = e.version }
apply_payload now e (unknown_event name) c = record c { version = e.version }

-- Apply never fails.
unfoldable pub apply : ℕ → Event → Chat → Chat
unfolding apply_payload
apply now e c = apply_payload now e e.payload c

-- applyEvent, and ApplyAndTrack
unfoldable pub apply_event : ℕ → Event → Chat → Chat
unfolding apply
apply_event now e c =
    let d = apply now e c in record d { uncommitted_events = d.uncommitted_events ++ e ∷ [] }

-- MarkEventsAsCommitted
abbrev pub mark_events_as_committed : Chat → Chat
mark_events_as_committed c = record c { uncommitted_events = [] }

-- The loop of Load; `clock` gives the time that NewParticipant reads at each event.
unfoldable pub apply_all : (Event → ℕ) → List Event → Chat → Chat
apply_all clock [] c = c
apply_all clock (e ∷ es) c = apply_all clock es (apply (clock e) e c)

-- `&chatdomain.Chat{}`, then the loop.
unfoldable pub replay : (Event → ℕ) → List Event → Chat
unfolding apply_all
replay clock es = apply_all clock es empty_chat
