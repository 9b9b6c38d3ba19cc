-- ===== src/Chat/Idempotence.antt =====
-- What happens when an event is applied twice, or a call is made twice.
use flowra.Base.{
  ℕ, Text, same_refl, Bool, true, false, none, some, List, [], ◌∷◌, ◌++◌, ◌≡◌, refl, ap, arith, ok,
  without_key, Unique, has_key-snoc, has_key-without,
}
use flowra.Chat.Types.{
  Participant, Attachment, Payload, created, participant_added, participant_removed,
  attachment_added, attachment_removed, Event, Chat, Env,
}
use flowra.Chat.Apply.{apply_payload, apply, apply_event}
use flowra.Chat.Methods.{raise}
use flowra.Chat.Entity.{
  change_status, assign_user, set_priority, set_due_date, set_severity, add_attachment,
  remove_attachment,
}
use flowra.Chat.Lifecycle.{
  Call, change_status_call, assign_user_call, set_priority_call, set_due_date_call,
  set_severity_call, add_attachment_call, remove_attachment_call, rename_call, rename, step,
}

module _ {ℓ} {A : Type ℓ} (key : A → Text) where
  without_key_idem :
      (xs : List A) (k : Text) → without_key key (without_key key xs k) k ≡ without_key key xs k
  without_key_idem [] k = refl
  without_key_idem (x ∷ xs) k = ground (arith, without_key_idem xs k)

abbrev pub is_participant_added : Payload → Bool
is_participant_added (participant_added u r at) = true
is_participant_added _ = false

payload_twice :
    (now now' : ℕ) (e : Event) (p : Payload) (c : Chat)
    → is_participant_added p ≡ false
    → apply_payload now' e p (apply_payload now e p c) ≡ apply_payload now e p c
unfolding apply_payload
payload_twice now now' e (participant_added u r at) c h = cc
payload_twice now now' e (participant_removed u) c h =
    ap (λ (ps : List Participant). record c { participants = ps; version = e.version })
      (without_key_idem (λ (p : Participant). p.user_id) c.participants u)
payload_twice now now' e (attachment_removed f u) c h =
    ap (λ (as' : List Attachment). record c { attachments = as'; version = e.version })
      (without_key_idem (λ (a : Attachment). a.file_id) c.attachments f)
payload_twice now now' e (attachment_added f n s m u) c h = ground (
  arith,
  same_refl f,
  has_key-snoc (λ (a : Attachment). a.file_id) c.attachments
      (record { file_id = f; file_name = n; file_size = s; mime_type = m }) f,
)
payload_twice now now' e p c h = ground arith

-- Apply is idempotent on every event but ParticipantAdded: a second application of the same event, at
-- any time, changes nothing.
pub apply_twice :
    (now now' : ℕ) (e : Event) (c : Chat)
    → is_participant_added e.payload ≡ false
    → apply now' e (apply now e c) ≡ apply now e c
unfolding apply
apply_twice now now' e c h = payload_twice now now' e e.payload c h

not-Unique_twice :
    (ps : List Participant) (p q : Participant)
    → p.user_id ≡ q.user_id
    → ¬ Unique (λ (x : Participant). x.user_id) ((ps ++ p ∷ []) ++ q ∷ [])
not-Unique_twice [] p q h u = ground (arith, same_refl p.user_id)
not-Unique_twice (x ∷ ps) p q h u = not-Unique_twice ps p q h u.1

payload_twice_participant :
    (now now' : ℕ) (e : Event) (p : Payload) (c : Chat)
    → is_participant_added p ≡ true
    → ¬ Unique
        (λ (x : Participant). x.user_id)
        (apply_payload now' e p (apply_payload now e p c)).participants
unfolding apply_payload
payload_twice_participant now now' e (participant_added u r at) c h =
    not-Unique_twice c.participants (record { user_id = u; role = r; joined_at = now })
      (record { user_id = u; role = r; joined_at = now' }) refl
payload_twice_participant now now' e (created ws ty pub' by at) c h = cc
payload_twice_participant now now' e p c h = absurd (ground arith)

-- Apply is not idempotent on ParticipantAdded: whatever the chat, after a second application of the same
-- event, at any time, a user is listed twice.
pub apply_twice_participant_added :
    (now now' : ℕ) (e : Event) (c : Chat)
    → is_participant_added e.payload ≡ true
    → ¬ Unique (λ (x : Participant). x.user_id) (apply now' e (apply now e c)).participants
unfolding apply
apply_twice_participant_added now now' e c h = payload_twice_participant now now' e e.payload c h

-- The calls that set a value, or ask for a file to be there or not.
abbrev pub is_setter : Call → Bool
is_setter (change_status_call s u) = true
is_setter (assign_user_call a u) = true
is_setter (set_priority_call p u) = true
is_setter (set_due_date_call d u) = true
is_setter (set_severity_call s u) = true
is_setter (add_attachment_call f n s m u) = true
is_setter (remove_attachment_call f u) = true
is_setter (rename_call t u) = true
is_setter _ = false

-- A call that sets a value, made again right after it succeeded, succeeds and raises no event.
pub step_twice :
    (env env' : Env) (call : Call) (c : Chat) {d : Chat}
    → is_setter call ≡ true
    → step env call c ≡ ok d
    → step env' call d ≡ ok d
unfolding step raise apply_event
step_twice env env' (change_status_call s u) c k h =
    unfold change_status in ground (arith, same_refl s)
step_twice env env' (assign_user_call none u) c k h = unfold assign_user in ground arith
step_twice env env' (assign_user_call (some a) u) c k h =
    unfold assign_user in ground (arith, same_refl a)
step_twice env env' (set_priority_call p u) c k h =
    unfold set_priority in ground (arith, same_refl p)
step_twice env env' (set_due_date_call none u) c k h = unfold set_due_date in ground arith
step_twice env env' (set_due_date_call (some d) u) c k h = unfold set_due_date in ground arith
step_twice env env' (set_severity_call s u) c k h =
    unfold set_severity in ground (arith, same_refl s)
step_twice env env' (add_attachment_call f n s m u) c k h =
    unfold add_attachment in
    ground (
      arith,
      same_refl f,
      has_key-snoc (λ (a : Attachment). a.file_id) c.attachments
          (record { file_id = f; file_name = n; file_size = s; mime_type = m }) f,
    )
step_twice env env' (remove_attachment_call f u) c k h =
    unfold remove_attachment in
    ground (arith, same_refl f, has_key-without (λ (a : Attachment). a.file_id) c.attachments f f)
step_twice env env' (rename_call t u) c k h = unfold rename in ground (arith, same_refl t)
step_twice env env' call c k h = absurd (ground arith)
