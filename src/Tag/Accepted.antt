-- ===== src/Tag/Accepted.antt =====
-- What the chat does with the values that the processor of tags has accepted.
use flowra.Base.{
  ℕ, Text, Uuid, text, true, false, Bool-cases, Option, some, List, [], ◌∷◌, ◌≡◌, refl, arith,
  Result, ok, err, contains, same, same_refl, same_iff, map, inl, inr, Option-cases,
}
use flowra.Errs.{Error, invalid_input}
use flowra.Chat.Types.{ChatType, is_discussion, task, bug, epic, Chat, Env}
use flowra.Chat.Entity
use flowra.Tag.Types.{
  EntityType, no_entity, task_entity, bug_entity, epic_entity, other_entity, TagApplication,
  change_status, change_priority, set_severity,
}
use flowra.Text.{equal_fold, fold}
use flowra.Tag.Validators.{match_case_insensitive}
use flowra.Tag.Validators
use flowra.Tag.Processor.{status_tag, priority_tag, severity_tag, check_tag}

-- The chat type whose chats an entity type names.
abbrev pub Names : EntityType → ChatType → Type 0
Names task_entity t = t ≡ task
Names bug_entity t = t ≡ bug
Names epic_entity t = t ≡ epic
Names no_entity t = ⊥
Names (other_entity _) t = ⊥

-- A value matched without regard to case is returned in the spelling of the list.
match_case_insensitive-contains :
    (v : Text) (allowed : List Text) (s : Text)
    → match_case_insensitive v allowed ≡ some s
    → contains allowed s ≡ true
unfolding match_case_insensitive contains
match_case_insensitive-contains v [] s e = cc
match_case_insensitive-contains v (a ∷ allowed) s e = elim (Bool-cases (equal_fold v a)) [
  | inl p ↦ ground (arith, same_refl a)
  | inr p ↦ ground (arith, match_case_insensitive-contains v allowed s)
]

-- What is no error is a result.
accepted : (r : Result Error Chat) → ((f : Error) → r ≡ err f → ⊥) → (c : Chat) × (r ≡ ok c)
accepted (ok c) never = (c, refl)
accepted (err f) never = elim (never f refl) [ ]

-- The folded text decides what a value matches.
match_trivial :
    (v : Text)
    → equal_fold v (text "Trivial") ≡ true
    → match_case_insensitive v Validators.allowed_severities ≡ some (text "Trivial")
unfolding match_case_insensitive equal_fold same fold
match_trivial v h = let p = (same_iff (map fold v) (map fold (text "Trivial"))).0 h in rw (p)

module _ (time_parse : Text → Text → Option ℕ) (chat_id : Uuid) where
  -- A status tag that the processor accepts for the chat's own entity type carries a status that the
  -- chat accepts.
  pub status_accepted :
      (env : Env) (u : Uuid) (c : Chat) (e : EntityType) (k v : Text) (a : TagApplication)
      → Names e c.chat_type
      → check_tag time_parse chat_id status_tag e k v ≡ ok a
      → (s : Text) × (a.command ≡ change_status chat_id s)
        × ((c' : Chat) × (Entity.change_status env s u c ≡ ok c'))
  unfolding check_tag Validators.validate_status Entity.change_status Entity.validate_status
      Entity.one_of
  status_accepted env u c task_entity k v a n h =
      elim (Option-cases (match_case_insensitive v Validators.task_statuses)) [
        | inl p ↦ ground arith
        | inr (s, p) ↦
            let m = match_case_insensitive-contains v Validators.task_statuses s p in
            (s, ground arith, accepted (Entity.change_status env s u c) (λ f e. ground arith))
      ]
  status_accepted env u c bug_entity k v a n h =
      elim (Option-cases (match_case_insensitive v Validators.bug_statuses)) [
        | inl p ↦ ground arith
        | inr (s, p) ↦
            let m = match_case_insensitive-contains v Validators.bug_statuses s p in
            (s, ground arith, accepted (Entity.change_status env s u c) (λ f e. ground arith))
      ]
  status_accepted env u c epic_entity k v a n h =
      elim (Option-cases (match_case_insensitive v Validators.epic_statuses)) [
        | inl p ↦ ground arith
        | inr (s, p) ↦
            let m = match_case_insensitive-contains v Validators.epic_statuses s p in
            (s, ground arith, accepted (Entity.change_status env s u c) (λ f e. ground arith))
      ]
  status_accepted env u c no_entity k v a n h = elim n [ ]
  status_accepted env u c (other_entity _) k v a n h = elim n [ ]

  -- A priority tag that the processor accepts carries a priority that every chat but a discussion
  -- accepts.
  pub priority_accepted :
      (env : Env) (u : Uuid) (c : Chat) (e : EntityType) (k v : Text) (a : TagApplication)
      → is_discussion c.chat_type ≡ false
      → check_tag time_parse chat_id priority_tag e k v ≡ ok a
      → (s : Text) × (a.command ≡ change_priority chat_id s)
        × ((c' : Chat) × (Entity.set_priority env s u c ≡ ok c'))
  unfolding check_tag Validators.validate_priority Entity.set_priority Entity.validate_priority
      Entity.one_of contains
  priority_accepted env u c e k v a n h =
      elim (Option-cases (match_case_insensitive v Validators.allowed_priorities)) [
        | inl p ↦ ground arith
        | inr (s, p) ↦
            let m = match_case_insensitive-contains v Validators.allowed_priorities s p in
            (s, ground arith, accepted (Entity.set_priority env s u c) (λ f e. ground arith))
      ]

  -- The severity tag `Trivial`, in any mix of cases, is accepted for a bug, and the severity of the
  -- command it becomes is invalid input to every bug.
  pub trivial_severity_refused :
      (env : Env) (u : Uuid) (c : Chat) (k v : Text)
      → equal_fold v (text "Trivial") ≡ true
      → c.chat_type ≡ bug
      → (a : TagApplication) × (check_tag time_parse chat_id severity_tag bug_entity k v ≡ ok a)
        × (a.command ≡ set_severity chat_id (text "Trivial"))
        × (Entity.set_severity env (text "Trivial") u c ≡ err invalid_input)
  unfolding check_tag Validators.validate_severity Entity.set_severity Entity.validate_severity
      contains same
  trivial_severity_refused env u c k v h b = (
    record {
      tag_key = k;
      tag_value = text "Trivial";
      command = set_severity chat_id (text "Trivial");
      success = true;
    },
    (rw (match_trivial v h)),
    refl,
    (rw (b)),
  )
