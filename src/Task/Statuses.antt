-- ===== src/Task/Statuses.antt =====
-- What the document of a chat keeps of its status, priority and severity (chat_to_task_read_model_projector.go).
use flowra.Base.{
  Text, text, same, is_empty, Among, Bool, true, false, ◌&&◌, not, none, some, [], ◌≡◌, ◌≢◌, ◌↔◌,
  ◌⊎◌, inl, inr, refl, sym, ap, ◌∙◌, arith, if◌then◌else◌, ok,
}
use mathlib.Core.Path.{subst}
use flowra.Text.{is_space, trim_left, trim_right, snoc_trimmed, trim_space}
use flowra.Chat.Types.{ChatType, discussion, task, bug, epic, unknown, is_bug, Chat}
use flowra.Chat.Apply.{status_closed}
use flowra.Chat.Entity.{priorities, severities}
use flowra.Chat.Invariant.{IsValid, statuses}
use flowra.Task.Document.{
  done, Priority, low, medium, high, critical, Document, normalize_task_status,
  normalize_task_priority, switch, normalized, lower, document_of, build_task_projection_document,
  map_chat_type,
}

-- The string constants of internal/domain/task/entity_state.go
abbrev pub priority_text : Priority → Text
priority_text low = text "Low"
priority_text medium = text "Medium"
priority_text high = text "High"
priority_text critical = text "Critical"

-- The last of the statuses of a type.
abbrev pub final_status : ChatType → Text
final_status task = text "Done"
final_status bug = text "Verified"
final_status epic = text "Completed"
final_status discussion = []
final_status (unknown _) = []

abbrev is_known : ChatType → Bool
is_known task = true
is_known bug = true
is_known epic = true
is_known _ = false

abbrev pub IsFinished : ChatType → Text → Type 0
IsFinished ty s = (s ≡ status_closed) ⊎ (s ≡ final_status ty)

abbrev SaysDone : ChatType → Text → Type 0
SaysDone ty s = (normalize_task_status s ≡ done) ↔ IsFinished ty s

done_at_final :
    (ty : ChatType) (k s : Text)
    → s ≡ k
    → normalize_task_status k ≡ done
    → IsFinished ty k
    → SaysDone ty s
done_at_final ty k s e h f = subst (SaysDone ty) (sym e) (λ _. f, λ _. h)

not_finished :
    (ty : ChatType) (s : Text) → s ≢ status_closed → s ≢ final_status ty → IsFinished ty s → ⊥
not_finished ty s c f (inl e) = c e
not_finished ty s c f (inr e) = f e

done_elsewhere :
    (ty : ChatType) (k s : Text)
    → s ≡ k
    → normalize_task_status k ≢ done
    → k ≢ status_closed
    → k ≢ final_status ty
    → SaysDone ty s
done_elsewhere ty k s e n c f =
    subst (SaysDone ty) (sym e) (λ d. absurd (n d), λ h. absurd (not_finished ty k c f h))

done_known : (ty : ChatType) (s : Text) → Among (statuses ty) s → SaysDone ty s
unfolding normalize_task_status normalized switch lower same trim_space trim_left trim_right
    is_space snoc_trimmed
done_known task s (inl e) = done_elsewhere task _ s e (λ h. cc) (λ h. cc) (λ h. cc)
done_known task s (inr (inl e)) = done_elsewhere task _ s e (λ h. cc) (λ h. cc) (λ h. cc)
done_known task s (inr (inr (inl e))) = done_at_final task _ s e refl (inr refl)
done_known bug s (inl e) = done_elsewhere bug _ s e (λ h. cc) (λ h. cc) (λ h. cc)
done_known bug s (inr (inl e)) = done_elsewhere bug _ s e (λ h. cc) (λ h. cc) (λ h. cc)
done_known bug s (inr (inr (inl e))) = done_elsewhere bug _ s e (λ h. cc) (λ h. cc) (λ h. cc)
done_known bug s (inr (inr (inr (inl e)))) = done_at_final bug _ s e refl (inr refl)
done_known epic s (inl e) = done_elsewhere epic _ s e (λ h. cc) (λ h. cc) (λ h. cc)
done_known epic s (inr (inl e)) = done_elsewhere epic _ s e (λ h. cc) (λ h. cc) (λ h. cc)
done_known epic s (inr (inr (inl e))) = done_at_final epic _ s e refl (inr refl)
done_known task s (inr (inr (inr m))) = absurd m
done_known bug s (inr (inr (inr (inr m)))) = absurd m
done_known epic s (inr (inr (inr m))) = absurd m
done_known discussion s m = absurd m
done_known (unknown _) s m = absurd m

done_empty : (ty : ChatType) (s : Text) → final_status ty ≢ [] → s ≡ [] → SaysDone ty s
unfolding normalize_task_status normalized switch lower same trim_space trim_left trim_right
    is_space snoc_trimmed
done_empty ty s f e = done_elsewhere ty _ s e (λ h. cc) (λ h. cc) (λ h. f (sym h))

done_closed : (ty : ChatType) (s : Text) → s ≡ status_closed → SaysDone ty s
unfolding normalize_task_status normalized switch lower same trim_space trim_left trim_right
    is_space snoc_trimmed
done_closed ty s e = done_at_final ty _ s e refl (inl refl)

-- The priority of the document and that of the chat.
abbrev KeepsPriority : Text → Type 0
KeepsPriority s =
    priority_text (normalize_task_priority s) ≡ (if is_empty s then text "Medium" else s)

priority_kept : (s : Text) → (s ≡ []) ⊎ Among priorities s → KeepsPriority s
unfolding normalize_task_priority normalized switch lower same trim_space trim_left trim_right
    is_space snoc_trimmed
priority_kept s (inl e) = subst KeepsPriority (sym e) refl
priority_kept s (inr (inl e)) = subst KeepsPriority (sym e) refl
priority_kept s (inr (inr (inl e))) = subst KeepsPriority (sym e) refl
priority_kept s (inr (inr (inr (inl e)))) = subst KeepsPriority (sym e) refl
priority_kept s (inr (inr (inr (inr (inl e))))) = subst KeepsPriority (sym e) refl
priority_kept s (inr (inr (inr (inr (inr m))))) = absurd m

abbrev KeepsSeverity : Text → Type 0
KeepsSeverity s = is_empty (trim_space s) ≡ is_empty s

severity_kept : (s : Text) → (s ≡ []) ⊎ Among severities s → KeepsSeverity s
unfolding trim_space trim_left trim_right is_space snoc_trimmed
severity_kept s (inl e) = subst KeepsSeverity (sym e) refl
severity_kept s (inr (inl e)) = subst KeepsSeverity (sym e) refl
severity_kept s (inr (inr (inl e))) = subst KeepsSeverity (sym e) refl
severity_kept s (inr (inr (inr (inl e)))) = subst KeepsSeverity (sym e) refl
severity_kept s (inr (inr (inr (inr (inl e))))) = subst KeepsSeverity (sym e) refl
severity_kept s (inr (inr (inr (inr (inr m))))) = absurd m

-- What the document of a valid chat says of it.
pub record IsFaithful (c : Chat) (d : Document) : Type 0 where
  pub done_iff : (d.status ≡ done) ↔ IsFinished c.chat_type c.status
  pub priority_same :
      priority_text d.priority ≡ (if is_empty c.priority then text "Medium" else c.priority)
  pub severity_same : d.severity ≡ (if is_empty c.severity then none else some c.severity)

final_known : (ty : ChatType) → is_known ty ≡ true → final_status ty ≢ []
final_known task h = λ e. cc
final_known bug h = λ e. cc
final_known epic h = λ e. cc
final_known discussion h = λ e. cc
final_known (unknown _) h = λ e. cc

typed :
    (c : Chat) (d : Document)
    → build_task_projection_document c ≡ ok (some d)
    → is_known c.chat_type ≡ true
unfolding build_task_projection_document map_chat_type
typed c d h = ground arith

build-parts :
    (c : Chat) (d : Document)
    → build_task_projection_document c ≡ ok (some d)
    → (d.status ≡ normalize_task_status c.status)
      × (d.priority ≡ normalize_task_priority c.priority)
      × (d.severity ≡ (
          if is_bug c.chat_type && not (is_empty (trim_space c.severity))
          then some c.severity
          else none))
      × (final_status c.chat_type ≢ [])
unfolding build_task_projection_document document_of
build-parts c d h =
    (ground arith, ground arith, ground arith, final_known c.chat_type (typed c d h))

-- The document of a valid chat has the status Done exactly if the chat is closed or in the last status of its type
-- ("Done", "Verified" or "Completed"); it has the chat's priority, "Medium" if none is set, and the chat's severity.
pub build-IsFaithful :
    (c : Chat) (d : Document)
    → IsValid c
    → build_task_projection_document c ≡ ok (some d)
    → IsFaithful c d
build-IsFaithful c d v h =
    let (st, pr, se, fin) = build-parts c d h in
    record {
      done_iff =
          subst (λ x. (x ≡ done) ↔ IsFinished c.chat_type c.status) (sym st)
            (finished v.status_known fin);
      priority_same = ap priority_text pr ∙ priority_kept c.priority v.priority_known;
      severity_same = se ∙ severity_of v.severity_known;
    }
  where
    finished :
        (c.status ≡ []) ⊎ (c.status ≡ status_closed) ⊎ Among (statuses c.chat_type) c.status
        → final_status c.chat_type ≢ []
        → SaysDone c.chat_type c.status
    finished (inl e) f = done_empty c.chat_type c.status f e
    finished (inr (inl e)) f = done_closed c.chat_type c.status e
    finished (inr (inr m)) f = done_known c.chat_type c.status m

    severity_of :
        (c.severity ≡ []) ⊎ ((is_bug c.chat_type ≡ true) × Among severities c.severity)
        → (if is_bug c.chat_type && not (is_empty (trim_space c.severity))
            then some c.severity
            else none)
          ≡ (if is_empty c.severity then none else some c.severity)
    severity_of (inl e) = ground (arith, severity_kept c.severity (inl e))
    severity_of (inr (b, m)) = ground (arith, severity_kept c.severity (inr m))
