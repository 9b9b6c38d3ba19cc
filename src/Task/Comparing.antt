-- ===== src/Task/Comparing.antt =====
-- The comparison of two documents of tasks (chat_to_task_read_model_projector.go) is equality.
use flowra.Base.{
  ℤ, pos, negsuc, ℕ, Text, same_iff, true, Option, none, some, List, [], ◌∷◌, ◌≡◌, refl, arith, ◌↔◌,
}
use flowra.Chat.Types.{Attachment}
use flowra.Task.Document.{
  EntityType, Status, Priority, Document, equal_string, equal_time, equal_size, equal_attachment,
  equal_attachments, equal_entity_type, equal_status, equal_priority,
  compare_task_projection_documents,
}

equal_string_iff : (a b : Option Text) → (equal_string a b ≡ true) ↔ (a ≡ b)
unfolding equal_string
equal_string_iff none none = (λ h. refl, λ h. refl)
equal_string_iff (some a) (some b) =
    (λ h. ground (arith, same_iff a b), λ h. ground (arith, same_iff a b))
equal_string_iff none (some b) = (λ h. cc, λ h. cc)
equal_string_iff (some a) none = (λ h. cc, λ h. cc)

equal_time_iff : (a b : Option ℕ) → (equal_time a b ≡ true) ↔ (a ≡ b)
unfolding equal_time
equal_time_iff none none = (λ h. refl, λ h. refl)
equal_time_iff (some a) (some b) = (λ h. ground arith, λ h. ground arith)
equal_time_iff none (some b) = (λ h. cc, λ h. cc)
equal_time_iff (some a) none = (λ h. cc, λ h. cc)

equal_size_iff : (a b : ℤ) → (equal_size a b ≡ true) ↔ (a ≡ b)
unfolding equal_size
equal_size_iff (pos a) (pos b) = (λ h. ground arith, λ h. ground arith)
equal_size_iff (negsuc a) (negsuc b) = (λ h. ground arith, λ h. ground arith)
equal_size_iff (pos a) (negsuc b) = (λ h. cc, λ h. cc)
equal_size_iff (negsuc a) (pos b) = (λ h. cc, λ h. cc)

equal_attachment_iff : (a b : Attachment) → (equal_attachment a b ≡ true) ↔ (a ≡ b)
unfolding equal_attachment
equal_attachment_iff a b = (
  λ h. ground (
    arith,
    same_iff a.file_id b.file_id,
    same_iff a.file_name b.file_name,
    same_iff a.mime_type b.mime_type,
    equal_size_iff a.file_size b.file_size,
  ),
  λ h. ground (
    arith,
    same_iff a.file_id b.file_id,
    same_iff a.file_name b.file_name,
    same_iff a.mime_type b.mime_type,
    equal_size_iff a.file_size b.file_size,
  ),
)

equal_attachments_iff : (as' bs : List Attachment) → (equal_attachments as' bs ≡ true) ↔ (as' ≡ bs)
unfolding equal_attachments
equal_attachments_iff [] [] = (λ h. refl, λ h. refl)
equal_attachments_iff (a ∷ as') (b ∷ bs) = (
  λ h. ground (arith, equal_attachment_iff a b, equal_attachments_iff as' bs),
  λ h. ground (arith, equal_attachment_iff a b, equal_attachments_iff as' bs),
)
equal_attachments_iff [] (b ∷ bs) = (λ h. cc, λ h. cc)
equal_attachments_iff (a ∷ as') [] = (λ h. cc, λ h. cc)

equal_entity_type-eq : (a b : EntityType) → equal_entity_type a b ≡ true → a ≡ b
unfolding equal_entity_type
equal_entity_type-eq a b h = ground arith

equal_entity_type_refl : (a : EntityType) → equal_entity_type a a ≡ true
unfolding equal_entity_type
equal_entity_type_refl a = ground arith

equal_status-eq : (a b : Status) → equal_status a b ≡ true → a ≡ b
unfolding equal_status
equal_status-eq a b h = ground arith

equal_status_refl : (a : Status) → equal_status a a ≡ true
unfolding equal_status
equal_status_refl a = ground arith

equal_priority-eq : (a b : Priority) → equal_priority a b ≡ true → a ≡ b
unfolding equal_priority
equal_priority-eq a b h = ground arith

equal_priority_refl : (a : Priority) → equal_priority a a ≡ true
unfolding equal_priority
equal_priority_refl a = ground arith

pub compare_refl : (a : Document) → compare_task_projection_documents a a ≡ true
unfolding compare_task_projection_documents
compare_refl a = ground (
  arith,
  same_iff a.task_id a.task_id,
  same_iff a.chat_id a.chat_id,
  same_iff a.title a.title,
  equal_entity_type_refl a.entity_type,
  equal_status_refl a.status,
  equal_priority_refl a.priority,
  same_iff a.created_by a.created_by,
  equal_string_iff a.severity a.severity,
  equal_string_iff a.assigned_to a.assigned_to,
  equal_time_iff a.due_date a.due_date,
  equal_attachments_iff a.attachments a.attachments,
)

pub compare-eq : (a b : Document) → compare_task_projection_documents a b ≡ true → a ≡ b
unfolding compare_task_projection_documents
compare-eq a b h = ground (
  arith,
  same_iff a.task_id b.task_id,
  same_iff a.chat_id b.chat_id,
  same_iff a.title b.title,
  equal_entity_type-eq a.entity_type b.entity_type,
  equal_status-eq a.status b.status,
  equal_priority-eq a.priority b.priority,
  same_iff a.created_by b.created_by,
  equal_string_iff a.severity b.severity,
  equal_string_iff a.assigned_to b.assigned_to,
  equal_time_iff a.due_date b.due_date,
  equal_attachments_iff a.attachments b.attachments,
)
