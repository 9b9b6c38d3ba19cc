-- ===== src/Chat/Invariant.antt =====
-- What holds of every chat that NewChat and the methods can make.
use flowra.Base.{
  ℤ, Text, Uuid, same, same_iff, same_refl, contains-mem, Among, Bool, true, false, none, List, [],
  ◌∷◌, ◌++◌, ◌≡◌, refl, ◌⊎◌, inl, inr, arith, ok, Unique, Unique-snoc, Unique-without,
}
use mathlib.Core.Path.{subst, sym}
use flowra.Chat.Types.{
  ChatType, discussion, task, bug, epic, unknown, is_discussion, is_bug, is_valid_chat_type,
  Participant, Attachment, Metadata, Payload, created, participant_added, participant_removed,
  type_changed, status_changed, priority_set, attachment_added, attachment_removed, severity_set,
  reopened, Chat, Env,
}
use flowra.Chat.Apply.{
  status_closed, get_default_status, without_participant, has_attachment, is_participant_admin,
  apply_event,
}
use flowra.Chat.Methods.{raise, new_chat}
use flowra.Chat.Entity.{
  task_statuses, bug_statuses, epic_statuses, priorities, severities, validate_status,
  validate_priority, validate_severity,
}
use flowra.Chat.Lifecycle.{Call, run}
use flowra.Chat.Steps.{Allowed, run_cases}

abbrev pub statuses : ChatType → List Text
statuses task = task_statuses
statuses bug = bug_statuses
statuses epic = epic_statuses
statuses discussion = []
statuses (unknown _) = []

-- Nothing that only a typed chat may have.
pub record IsPlain (c : Chat) : Type 0 where
  pub no_status : c.status ≡ []
  pub no_priority : c.priority ≡ []
  pub no_assignee : c.assignee_id ≡ none
  pub no_due_date : c.due_date ≡ none
  pub no_severity : c.severity ≡ []
  pub no_attachments : c.attachments ≡ []

pub record IsValid (c : Chat) : Type 0 where
  pub type_known : is_valid_chat_type c.chat_type ≡ true
  pub users_unique : Unique (λ (p : Participant). p.user_id) c.participants
  pub creator_is_admin : is_participant_admin c.participants c.created_by ≡ true
  pub files_unique : Unique (λ (a : Attachment). a.file_id) c.attachments
  pub discussion_plain : (is_discussion c.chat_type ≡ false) ⊎ IsPlain c
  pub status_known :
      (c.status ≡ []) ⊎ (c.status ≡ status_closed) ⊎ Among (statuses c.chat_type) c.status
  pub priority_known : (c.priority ≡ []) ⊎ Among priorities c.priority
  pub severity_known :
      (c.severity ≡ []) ⊎ ((is_bug c.chat_type ≡ true) × Among severities c.severity)

validate_status-Among :
    (ty : ChatType) (s : Text) → validate_status ty s ≡ ok tt → Among (statuses ty) s
unfolding validate_status
validate_status-Among task s h = ground (arith, contains-mem task_statuses s)
validate_status-Among bug s h = ground (arith, contains-mem bug_statuses s)
validate_status-Among epic s h = ground (arith, contains-mem epic_statuses s)
validate_status-Among discussion s h = cc
validate_status-Among (unknown _) s h = cc

validate_priority-Among : (s : Text) → validate_priority s ≡ ok tt → Among priorities s
unfolding validate_priority
validate_priority-Among s h = ground (arith, contains-mem priorities s)

validate_severity-Among : (s : Text) → validate_severity s ≡ ok tt → Among severities s
unfolding validate_severity
validate_severity-Among s h = ground (arith, contains-mem severities s)

get_default_status_known :
    (ty : ChatType) → (get_default_status ty ≡ []) ⊎ Among (statuses ty) (get_default_status ty)
get_default_status_known task = inr (inl refl)
get_default_status_known bug = inr (inl refl)
get_default_status_known epic = inr (inl refl)
get_default_status_known discussion = inl refl
get_default_status_known (unknown _) = inl refl

admin-snoc :
    (ps : List Participant) (p : Participant) (u : Uuid)
    → is_participant_admin ps u ≡ true
    → is_participant_admin (ps ++ p ∷ []) u ≡ true
admin-snoc [] p u h = cc
admin-snoc (q ∷ ps) p u h = ground (arith, admin-snoc ps p u)

admin-without :
    (ps : List Participant) (v u : Uuid)
    → same v u ≡ false
    → is_participant_admin ps u ≡ true
    → is_participant_admin (without_participant ps v) u ≡ true
admin-without [] v u ne h = cc
admin-without (q ∷ ps) v u ne h =
    ground (arith, admin-without ps v u, same_iff q.user_id v, same_iff q.user_id u, same_iff v u)

attachments-raise :
    (env : Env) (m : Metadata) (f : Uuid) (n : Text) (s : ℤ) (b : Text) (u : Uuid) (c : Chat)
    → has_attachment c.attachments f ≡ false
    → (raise env m (attachment_added f n s b u) c).attachments
      ≡ c.attachments ++ record { file_id = f; file_name = n; file_size = s; mime_type = b } ∷ []
unfolding raise
attachments-raise env m f n s b u c h = rw (h, raise) refl

raise-IsValid :
    (env : Env) (m : Metadata) (p : Payload) (c : Chat)
    → Allowed c p
    → IsValid c
    → IsValid (raise env m p c)
unfolding raise
raise-IsValid env m (created ws ty pub' by at) c a v = absurd a
raise-IsValid env m (participant_added u r at) c a v = ground (
  arith,
  Unique-snoc (λ (p : Participant). p.user_id) c.participants
      (record { user_id = u; role = r; joined_at = env.joined_at }),
  admin-snoc c.participants (record { user_id = u; role = r; joined_at = env.joined_at })
      c.created_by,
)
raise-IsValid env m (participant_removed u) c a v = ground (
  arith,
  Unique-without (λ (p : Participant). p.user_id) c.participants u,
  admin-without c.participants u c.created_by,
)
raise-IsValid env m (type_changed old new t) c a v = ground (arith, get_default_status_known new)
raise-IsValid env m (status_changed old new u) c a v =
    ground (arith, validate_status-Among c.chat_type new)
raise-IsValid env m (priority_set old new u) c a v = ground (arith, validate_priority-Among new)
raise-IsValid env m (severity_set old new u) c a v = ground (arith, validate_severity-Among new)
raise-IsValid env m (attachment_added f n s b u) c a v = ground (
  arith,
  subst (Unique (λ (x : Attachment). x.file_id)) (sym (attachments-raise env m f n s b u c a.1)) (
      Unique-snoc (λ (x : Attachment). x.file_id) c.attachments
        (record { file_id = f; file_name = n; file_size = s; mime_type = b }) a.1 v.files_unique),
)
raise-IsValid env m (attachment_removed f u) c a v =
    ground (arith, Unique-without (λ (x : Attachment). x.file_id) c.attachments f)
raise-IsValid env m (reopened u new at) c a v = ground (arith, get_default_status_known c.chat_type)
raise-IsValid env m p c a v = ground arith

-- A chat made by NewChat is valid: its type is one of the four, its creator is an administrator, and
-- it has no status, priority, severity or attachment yet.
pub new_chat-IsValid :
    (env env' : Env) (ws : Uuid) (ty : ChatType) (pub' : Bool) (by : Uuid) {c : Chat}
    → new_chat env env' ws ty pub' by ≡ ok c
    → IsValid c
unfolding new_chat raise apply_event
new_chat-IsValid env env' ws ty pub' by h = ground (arith, same_refl by)

-- Every chat that NewChat makes stays valid under any calls of its methods, in any order and with any
-- outcome: no user and no file is listed twice, the creator is a participant and administrator, a
-- discussion has none of the fields of a typed chat, the status of a typed chat is empty, "Closed" or
-- one of its type, the priority is empty or known, and only a bug has a severity, a known one.
pub run-new_chat-IsValid :
    (env env' : Env) (ws : Uuid) (ty : ChatType) (pub' : Bool) (by : Uuid) {c : Chat}
    (calls : List (Env × Call))
    → new_chat env env' ws ty pub' by ≡ ok c
    → IsValid (run calls c)
run-new_chat-IsValid env env' ws ty pub' by calls h =
    run_cases IsValid raise-IsValid calls _ (new_chat-IsValid env env' ws ty pub' by h)

-- What no call changes.
pub record Keeps (c d : Chat) : Type 0 where
  pub same_id : d.id ≡ c.id
  pub same_workspace : d.workspace_id ≡ c.workspace_id
  pub same_creator : d.created_by ≡ c.created_by
  pub same_created_at : d.created_at ≡ c.created_at
  pub same_visibility : d.is_public ≡ c.is_public
  pub typed_for_good : (is_discussion c.chat_type ≡ true) ⊎ (d.chat_type ≡ c.chat_type)
  pub deleted_for_good :
      (c.is_deleted ≡ false)
      ⊎ ((d.is_deleted ≡ true) × (d.deleted_at ≡ c.deleted_at) × (d.deleted_by ≡ c.deleted_by))

raise-Keeps :
    (env : Env) (m : Metadata) (p : Payload) (c d : Chat)
    → Allowed d p
    → Keeps c d
    → Keeps c (raise env m p d)
unfolding raise
raise-Keeps env m (created ws ty pub' by at) c d a k = absurd a
raise-Keeps env m p c d a k = ground arith

-- No call changes the identity, the workspace, the creator, the creation time or the visibility of a
-- chat; once it is a task, a bug or an epic its type stays, and once deleted it stays deleted, by the
-- same user at the same time.
pub run-Keeps : (calls : List (Env × Call)) (c : Chat) → Keeps c (run calls c)
run-Keeps calls c =
    run_cases (Keeps c) (λ env m p d a k. raise-Keeps env m p c d a k) calls c (ground arith)
