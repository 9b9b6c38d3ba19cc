-- ===== src/Store/ReadModel.antt =====
-- internal/infrastructure/repository/mongodb/chat_repository.go, buildChatReadModelMutation: the update
-- of the denormalised chat document, which is sent to the database as one upsert.
use flowra.Base.{ℕ, Text, Uuid, is_empty, Bool, Option, none, some, List, map, if◌then◌else◌}
use flowra.Chat.Types.{ChatType, is_discussion, is_bug, Participant, Chat}

-- What a mutation does to an optional field: `$set`, or `$unset`.
pub data Change {ℓ} (A : Type ℓ) : Type ℓ where
  set_to : A → Change A
  unset : Change A

pub record Mutation : Type 0 where
  pub chat_id : Uuid
  pub workspace_id : Uuid
  pub chat_type : ChatType
  pub title : Text
  pub is_public : Bool
  pub created_by : Uuid
  pub created_at : ℕ
  pub participants : List Uuid
  pub status : Change Text
  pub priority : Change Text
  pub assigned_to : Change Uuid
  pub due_date : Change ℕ
  pub severity : Change Text

abbrev change_of {ℓ} : {A : Type ℓ} → Option A → Change A
change_of none = unset
change_of (some a) = set_to a

-- The severity of a bug, if it has one.
severity_change : ChatType → Text → Change Text
severity_change ty s = if is_bug ty then (if is_empty s then unset else set_to s) else unset

abbrev if_typed {ℓ} : {A : Type ℓ} → ChatType → Change A → Change A
if_typed ty ch = if is_discussion ty then unset else ch

unfoldable pub build_mutation : Chat → Mutation
unfolding severity_change
build_mutation c = record {
  chat_id = c.id;
  workspace_id = c.workspace_id;
  chat_type = c.chat_type;
  title = c.title;
  is_public = c.is_public;
  created_by = c.created_by;
  created_at = c.created_at;
  participants = map (λ (p : Participant). p.user_id) c.participants;
  status = if_typed c.chat_type (set_to c.status);
  priority = if_typed c.chat_type (set_to c.priority);
  assigned_to = if_typed c.chat_type (change_of c.assignee_id);
  due_date = if_typed c.chat_type (change_of c.due_date);
  severity = if_typed c.chat_type (severity_change c.chat_type c.severity);
}
