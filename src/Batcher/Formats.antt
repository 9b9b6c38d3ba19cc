-- ===== src/Batcher/Formats.antt =====
-- internal/service/change_batcher.go: a change, a batch of changes, and the text of the message that tells of them.
use flowra.Base.{ℕ, Text, Uuid, text, is_empty, List, [], ◌∷◌, ◌++◌, map, if◌then◌else◌}

-- ChangeType: the five constants, and any other string
pub data ChangeType : Type 0 where
  status priority assignee due_date title : ChangeType
  other : Text → ChangeType

pub record Change : Type 0 where
  pub change_type : ChangeType
  pub value : Text
  pub timestamp : ℕ

-- PendingBatch; its timer is told by the last time.
pub record PendingBatch : Type 0 where
  pub actor_id : Uuid
  pub chat_id : Uuid
  pub actor_name : Text
  pub changes : List Change
  pub first_time : ℕ
  pub last_time : ℕ

-- formatChangeAction
unfoldable pub format_change_action : ChangeType → Text → Text
format_change_action status v = text "changed status to " ++ v
format_change_action priority v = text "set priority to " ++ v
format_change_action assignee v =
    if is_empty v then text "removed the assignee" else text "assigned this to " ++ v
format_change_action due_date v =
    if is_empty v then text "removed the due date" else text "set due date to " ++ v
format_change_action title v = text "changed title to: " ++ v
format_change_action (other _) v = text "made a change"

-- The start of a message, with the actor's name if there is one.
unfoldable pub message_start : Text → Text
message_start name = text "✅ " ++ (if is_empty name then [] else name ++ text " ")

-- formatSingleChange: the same phrase behind the start of the message
unfoldable pub format_single_change : Text → Change → Text
unfolding message_start format_change_action
format_single_change name c = message_start name ++ format_change_action c.change_type c.value

-- What stands behind the first of several parts: commas, and "and" before the last; of two parts without a comma.
unfoldable pub join_more : List Text → Text
join_more [] = []
join_more (p ∷ []) = text ", and " ++ p
join_more (p ∷ q ∷ ps) = text ", " ++ (p ++ join_more (q ∷ ps))

unfoldable pub join_parts : List Text → Text
unfolding join_more
join_parts [] = []
join_parts (p ∷ []) = p
join_parts (p ∷ q ∷ []) = p ++ (text " and " ++ q)
join_parts (p ∷ q ∷ r ∷ ps) = p ++ join_more (q ∷ r ∷ ps)

-- formatBatchMessage, by the changes
unfoldable pub format_changes : Text → List Change → Text
unfolding format_single_change join_parts message_start format_change_action
format_changes name [] = []
format_changes name (c ∷ []) = format_single_change name c
format_changes name (c ∷ d ∷ cs) =
    message_start name
    ++ join_parts (map (λ (e : Change). format_change_action e.change_type e.value) (c ∷ d ∷ cs))

-- formatBatchMessage
unfoldable pub format_batch_message : PendingBatch → Text
unfolding format_changes
format_batch_message b = format_changes b.actor_name b.changes
