-- ===== src/Chat/Closing.antt =====
-- Closing and reopening a chat.
use flowra.Base.{
  Text, Uuid, same, same_iff, false, List, [], ◌∷◌, ◌≡◌, refl, arith, ok, err, exists, Among,
  Among-contains,
}
use flowra.Errs.{chat_not_closed}
use flowra.Chat.Types.{
  ChatType, discussion, task, bug, epic, unknown, is_discussion, status_changed, Chat, Env,
}
use flowra.Chat.Apply.{status_closed, apply_event}
use flowra.Chat.Methods.{raise, by_user}
use flowra.Chat.Entity.{task_statuses, bug_statuses, epic_statuses, validate_status, change_status}
use flowra.Chat.Lifecycle.{reopen}
use flowra.Chat.Invariant.{statuses}

statuses-validate_status :
    (ty : ChatType) (s : Text) → Among (statuses ty) s → validate_status ty s ≡ ok tt
unfolding validate_status
statuses-validate_status task s m = rw (Among-contains task_statuses s m)
statuses-validate_status bug s m = rw (Among-contains bug_statuses s m)
statuses-validate_status epic s m = rw (Among-contains epic_statuses s m)
statuses-validate_status discussion s m = absurd m
statuses-validate_status (unknown _) s m = absurd m

Among-exists :
    (xs : List Text) (k s : Text)
    → exists (λ x. same x k) xs ≡ false
    → Among xs s
    → same s k ≡ false
Among-exists [] k s h m = absurd m
Among-exists (x ∷ xs) k s h m = ground (arith, Among-exists xs k s)

statuses-not_closed :
    (ty : ChatType) (s : Text) → Among (statuses ty) s → same s status_closed ≡ false
unfolding same
statuses-not_closed task s m = Among-exists task_statuses status_closed s refl m
statuses-not_closed bug s m = Among-exists bug_statuses status_closed s refl m
statuses-not_closed epic s m = Among-exists epic_statuses status_closed s refl m
statuses-not_closed discussion s m = absurd m
statuses-not_closed (unknown _) s m = absurd m

statuses-not_discussion :
    (ty : ChatType) (s : Text) → Among (statuses ty) s → is_discussion ty ≡ false
statuses-not_discussion discussion s m = absurd m
statuses-not_discussion _ s m = refl

-- ChangeStatus takes a closed chat to any status of its type as well, without a reopening; the chat
-- then counts as open, and Reopen refuses it.
pub closed_change_status :
    (env env' : Env) (s : Text) (u by : Uuid) (c : Chat)
    → c.status ≡ status_closed
    → Among (statuses c.chat_type) s
    → (d : Chat) × (change_status env s u c ≡ ok d)
      × (d.status ≡ s)
      × (reopen env' by d ≡ err chat_not_closed)
unfolding change_status reopen raise apply_event
closed_change_status env env' s u by c h m =
    let not_closed = statuses-not_closed c.chat_type s m in
    let typed = statuses-not_discussion c.chat_type s m in
    let listed = statuses-validate_status c.chat_type s m in
    let differs : same c.status s ≡ false =
      ground (arith, same_iff c.status s, same_iff s status_closed) in
    (
      raise env (by_user env u) (status_changed c.status s u) c,
      ground arith,
      ground arith,
      ground arith,
    )
