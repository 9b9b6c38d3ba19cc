-- ===== src/Chat/Steps.antt =====
-- The one rule by which properties of the methods are proved: a call leaves the chat as it was, or
-- raises one event under a condition that the rule passes on.
use flowra.Base.{
  ℕ, Uuid, same, is_empty, Bool, true, false, Option, none, some, Option-cases, inl, inr, List, [],
  ◌∷◌, ◌≡◌, ◌==◌, arith, ok,
}
use flowra.Chat.Types.{
  task, bug, epic, is_discussion, is_bug, is_valid_chat_type, Metadata, no_metadata, Payload,
  participant_added, participant_removed, type_changed, status_changed, user_assigned,
  assignee_removed, priority_set, due_date_set, due_date_removed, attachment_added,
  attachment_removed, renamed, severity_set, deleted, closed, reopened, Chat, Env,
}
use flowra.Chat.Apply.{status_closed, get_default_status, has_participant, has_attachment}
use flowra.Chat.Methods.{
  raise, by_user, add_participant, remove_participant, convert_to_task, convert_to_bug,
  convert_to_epic,
}
use flowra.Chat.Entity.{
  validate_status, validate_priority, validate_severity, change_status, assign_user, set_priority,
  set_due_date, set_severity, add_attachment, remove_attachment,
}
use flowra.Chat.Lifecycle.{
  Call, add_participant_call, remove_participant_call, convert_to_task_call, convert_to_bug_call,
  convert_to_epic_call, change_status_call, assign_user_call, set_priority_call, set_due_date_call,
  set_severity_call, add_attachment_call, remove_attachment_call, rename_call, delete_call,
  close_call, reopen_call, rename, delete, close, reopen, step, after, run,
}

-- The tests `c.assigneeID != nil && *c.assigneeID == a` and `c.dueDate != nil && c.dueDate.Equal(d)`.
abbrev pub is_assigned : Option Uuid → Uuid → Bool
is_assigned none a = false
is_assigned (some old) a = same old a

abbrev pub is_due : Option ℕ → ℕ → Bool
is_due none d = false
is_due (some old) d = old == d

-- What holds of the chat at which a method raises an event: the conditions of the method, and that
-- the event names the value that it replaces, which differs from the new one.
abbrev pub Allowed : Chat → Payload → Type 0
Allowed c (participant_added u r at) =
    (is_empty u ≡ false) × (has_participant c.participants u ≡ false)
Allowed c (participant_removed u) =
    (has_participant c.participants u ≡ true) × (same u c.created_by ≡ false)
Allowed c (type_changed old new t) =
    (old ≡ c.chat_type)
    × (is_discussion old ≡ true)
    × (is_discussion new ≡ false)
    × (is_valid_chat_type new ≡ true)
    × (is_empty t ≡ false)
Allowed c (status_changed old new u) =
    (old ≡ c.status)
    × (same old new ≡ false)
    × (is_discussion c.chat_type ≡ false)
    × (validate_status c.chat_type new ≡ ok tt)
Allowed c (user_assigned a u) =
    (is_discussion c.chat_type ≡ false) × (is_assigned c.assignee_id a ≡ false)
Allowed c (assignee_removed a u) = (is_discussion c.chat_type ≡ false) × (c.assignee_id ≡ some a)
Allowed c (priority_set old new u) =
    (old ≡ c.priority)
    × (same old new ≡ false)
    × (is_discussion c.chat_type ≡ false)
    × (validate_priority new ≡ ok tt)
Allowed c (due_date_set old new u) =
    (old ≡ c.due_date) × (is_discussion c.chat_type ≡ false) × (is_due c.due_date new ≡ false)
Allowed c (due_date_removed old u) = (is_discussion c.chat_type ≡ false) × (c.due_date ≡ some old)
Allowed c (attachment_added f n s m u) =
    (is_discussion c.chat_type ≡ false) × (has_attachment c.attachments f ≡ false)
Allowed c (attachment_removed f u) =
    (is_discussion c.chat_type ≡ false) × (has_attachment c.attachments f ≡ true)
Allowed c (renamed old new u) = (old ≡ c.title) × (same old new ≡ false) × (is_empty new ≡ false)
Allowed c (severity_set old new u) =
    (old ≡ c.severity)
    × (same old new ≡ false)
    × (is_bug c.chat_type ≡ true)
    × (validate_severity new ≡ ok tt)
Allowed c (deleted u at) = c.is_deleted ≡ false
Allowed c (closed u old at) =
    (old ≡ c.status) × (is_discussion c.chat_type ≡ false) × (same old status_closed ≡ false)
Allowed c (reopened u new at) =
    (new ≡ get_default_status c.chat_type) × (same c.status status_closed ≡ true)
Allowed c _ = ⊥

module _ {ℓ} (P : Chat → Type ℓ) (env : Env) (c : Chat) (stay : P c)
    (go : (m : Metadata) (p : Payload) → Allowed c p → P (raise env m p c)) where
  pub step_cases : (call : Call) → P (after c (step env call c))
  unfolding step
  step_cases (add_participant_call u r) =
      unfold add_participant in ground (arith, go no_metadata (participant_added u r env.now))
  step_cases (remove_participant_call u) =
      unfold remove_participant in ground (arith, go no_metadata (participant_removed u))
  step_cases (convert_to_task_call t u) =
      unfold convert_to_task in ground (arith, go (by_user env u) (type_changed c.chat_type task t))
  step_cases (convert_to_bug_call t u) =
      unfold convert_to_bug in ground (arith, go (by_user env u) (type_changed c.chat_type bug t))
  step_cases (convert_to_epic_call t u) =
      unfold convert_to_epic in ground (arith, go (by_user env u) (type_changed c.chat_type epic t))
  step_cases (change_status_call s u) =
      unfold change_status in ground (arith, go (by_user env u) (status_changed c.status s u))
  step_cases (assign_user_call none u) =
      unfold assign_user in
      elim (Option-cases c.assignee_id) [
        | inl e ↦ ground arith
        | inr (old, e) ↦ ground (arith, go (by_user env u) (assignee_removed old u))
      ]
  step_cases (assign_user_call (some a) u) =
      unfold assign_user in ground (arith, go (by_user env u) (user_assigned a u))
  step_cases (set_priority_call p u) =
      unfold set_priority in ground (arith, go (by_user env u) (priority_set c.priority p u))
  step_cases (set_due_date_call none u) =
      unfold set_due_date in
      elim (Option-cases c.due_date) [
        | inl e ↦ ground arith
        | inr (old, e) ↦ ground (arith, go (by_user env u) (due_date_removed old u))
      ]
  step_cases (set_due_date_call (some d) u) =
      unfold set_due_date in ground (arith, go (by_user env u) (due_date_set c.due_date d u))
  step_cases (set_severity_call s u) =
      unfold set_severity in ground (arith, go (by_user env u) (severity_set c.severity s u))
  step_cases (add_attachment_call f n s m u) =
      unfold add_attachment in ground (arith, go (by_user env u) (attachment_added f n s m u))
  step_cases (remove_attachment_call f u) =
      unfold remove_attachment in ground (arith, go (by_user env u) (attachment_removed f u))
  step_cases (rename_call t u) =
      unfold rename in ground (arith, go (by_user env u) (renamed c.title t u))
  step_cases (delete_call u) = unfold delete in ground (arith, go no_metadata (deleted u env.now))
  step_cases (close_call u) =
      unfold close in ground (arith, go no_metadata (closed u c.status env.now))
  step_cases (reopen_call u) =
      unfold reopen in
      ground (arith, go no_metadata (reopened u (get_default_status c.chat_type) env.now))

-- A property that every allowed event keeps holds after any calls.
module _ {ℓ} (P : Chat → Type ℓ)
    (keeps : (env : Env) (m : Metadata) (p : Payload) (c : Chat)
      → Allowed c p
      → P c
      → P (raise env m p c)) where
  pub run_cases : (calls : List (Env × Call)) (c : Chat) → P c → P (run calls c)
  unfolding run
  run_cases [] c h = h
  run_cases ((env, call) ∷ calls) c h =
      run_cases calls (after c (step env call c))
        (step_cases P env c h (λ m p ok'. keeps env m p c ok' h) call)
