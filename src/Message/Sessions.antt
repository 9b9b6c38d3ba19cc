-- ===== src/Message/Sessions.antt =====
-- What users' messages leave stored, over any sequence of the use cases of internal/application/message.
use flowra.Base.{
  Uuid, is_empty, same, same_iff, true, Bool-cases, Option, Option-cases, none, some, ◌≡◌, ap, sym,
  ◌∙◌, ◌⊎◌, inl, inr, arith, ok,
}
use mathlib.Core.Path.{subst}
use flowra.Chat.Types.{ChatType}
use flowra.Message.Types.{or_user, Message}
use flowra.Message.Methods.{
  new_message_with_type, edit_content, delete, add_reaction, remove_reaction, add_attachment, Call,
  edit_content_call, delete_call, add_reaction_call, remove_reaction_call, add_attachment_call,
  step,
}
use flowra.Message.Invariant.{IsValid, step-IsValid, new_message-IsValid}
use flowra.Message.Commands.{SendMessageCommand, MessageCommand, message_id_of, call_of}
use flowra.Message.UseCases.{MessageRepository, ReadModel, Env, changed, check_parent, sent}

-- No method changes the identity, the chat or the parent of a message.
step-same :
    (c : Call) (m n : Message)
    → step c m ≡ ok n
    → (n.id ≡ m.id) × (n.chat_id ≡ m.chat_id) × (n.parent_message_id ≡ m.parent_message_id)
unfolding step edit_content delete add_reaction remove_reaction add_attachment
step-same (edit_content_call now content by) m n h = ground arith
step-same (delete_call now by) m n h = ground arith
step-same (add_reaction_call now u e) m n h = ground arith
step-same (remove_reaction_call u e) m n h = ground arith
step-same (add_attachment_call f k s t) m n h = ground arith

module _ (repo : MessageRepository) where
  open repo use {State, find_by_id, save, find-save}

  -- A message that is stored under the identity, in the chat.
  abbrev pub Stored : State → Uuid → Uuid → Type 0
  Stored s id chat = (m : Message) × (find_by_id s id ≡ some m) × (m.chat_id ≡ chat)

  -- Every stored message stands under its own identity and is valid, and what it replies to is stored, in the same chat.
  pub record IsSound (s : State) : Type 0 where
    pub keyed : (id : Uuid) (m : Message) → find_by_id s id ≡ some m → m.id ≡ id
    pub valid : (id : Uuid) (m : Message) → find_by_id s id ≡ some m → IsValid m
    pub parents :
        (id : Uuid) (m : Message)
        → find_by_id s id ≡ some m
        → (is_empty m.parent_message_id ≡ true) ⊎ Stored s m.parent_message_id m.chat_id

  pub save-Stored :
      (s t : State) (n : Message) (id chat : Uuid)
      → save s n ≡ some t
      → (find_by_id s n.id ≡ none) ⊎ Stored s n.id n.chat_id
      → Stored s id chat
      → Stored t id chat
  save-Stored s t n id chat h old (m, p, q) = elim (Bool-cases (same n.id id)) [
    | inl e ↦ (n, ground (arith, find-save s t n id h), ground (arith, same_iff n.id id))
    | inr e ↦ (m, ground (arith, find-save s t n id h), q)
  ]

  carried :
      (s t : State) (n : Message) (id chat : Uuid)
      → save s n ≡ some t
      → (find_by_id s n.id ≡ none) ⊎ Stored s n.id n.chat_id
      → (is_empty id ≡ true) ⊎ Stored s id chat
      → (is_empty id ≡ true) ⊎ Stored t id chat
  carried s t n id chat h old (inl e) = inl e
  carried s t n id chat h old (inr p) = inr (save-Stored s t n id chat h old p)

  save-found :
      (s t : State) (n m : Message) (id : Uuid)
      → save s n ≡ some t
      → find_by_id t id ≡ some m
      → ((m ≡ n) × (n.id ≡ id)) ⊎ (find_by_id s id ≡ some m)
  save-found s t n m id h p = ground (arith, find-save s t n id h, same_iff n.id id)

  -- A valid message replaces one of its chat, or is new.
  save-IsSound :
      (s t : State) (n : Message)
      → IsSound s
      → save s n ≡ some t
      → IsValid n
      → (find_by_id s n.id ≡ none) ⊎ Stored s n.id n.chat_id
      → (is_empty n.parent_message_id ≡ true) ⊎ Stored s n.parent_message_id n.chat_id
      → IsSound t
  save-IsSound s t n sound h v old parent = record {
    keyed = λ id m p. elim (save-found s t n m id h p) [
      | inl (e, f) ↦ ap (λ x. x.id) e ∙ f
      | inr q ↦ sound.keyed id m q
    ];
    valid = λ id m p. elim (save-found s t n m id h p) [
      | inl (e, f) ↦ subst IsValid (sym e) v
      | inr q ↦ sound.valid id m q
    ];
    parents = λ id m p. elim (save-found s t n m id h p) [
      | inl (e, f) ↦
          subst
            (λ x. (is_empty x.parent_message_id ≡ true) ⊎ Stored t x.parent_message_id x.chat_id)
            (sym e) (carried s t n n.parent_message_id n.chat_id h old parent)
      | inr q ↦ carried s t n m.parent_message_id m.chat_id h old (sound.parents id m q)
    ];
  }

  changed_lem :
      (env : Env) (cmd : MessageCommand) (s t : State) (n : Message)
      → changed repo env cmd s ≡ ok (n, t)
      → (m : Message) × (find_by_id s (message_id_of cmd) ≡ some m)
        × (step (call_of env.now cmd) m ≡ ok n)
        × (save s n ≡ some t)
  unfolding changed
  changed_lem env cmd s t n h = elim (Option-cases (find_by_id s (message_id_of cmd))) [
    | inl p ↦ ground arith
    | inr (m, p) ↦ (m, p, ground arith, ground arith)
  ]

  parent_lem :
      (s : State) (chat parent : Uuid)
      → check_parent repo s chat parent ≡ ok tt
      → (is_empty parent ≡ true) ⊎ Stored s parent chat
  unfolding check_parent
  parent_lem s chat parent h = elim (Option-cases (find_by_id s parent)) [
    | inl p ↦ inl (ground arith)
    | inr (m, p) ↦ elim (Bool-cases (is_empty parent)) [
      | inl e ↦ inl e
      | inr e ↦ inr (m, p, ground (arith, same_iff m.chat_id chat))
    ]
  ]

  sent_lem :
      (chats : Uuid → Option ReadModel) (env : Env) (cmd : SendMessageCommand) (s t : State)
      (ty : ChatType) (m : Message)
      → sent repo chats env cmd s ≡ ok (ty, m, t)
      → (new_message_with_type env.now env.new_id cmd.chat_id cmd.author_id cmd.content
            cmd.parent_message_id
            (or_user cmd.msg_type)
            cmd.actor_id
          ≡ ok m)
        × (save s m ≡ some t)
        × (check_parent repo s cmd.chat_id cmd.parent_message_id ≡ ok tt)
  unfolding sent
  sent_lem chats env cmd s t ty m h = ground arith

  pub changed-IsSound :
      (env : Env) (cmd : MessageCommand) (s t : State) (n : Message)
      → IsSound s
      → changed repo env cmd s ≡ ok (n, t)
      → IsSound t × (save s n ≡ some t) × Stored s n.id n.chat_id
  changed-IsSound env cmd s t n sound h =
      let (m, p, q, r) = changed_lem env cmd s t n h in
      let (i, c, k) = step-same (call_of env.now cmd) m n q in
      let there : Stored s n.id n.chat_id =
        (m, ap (find_by_id s) (i ∙ sound.keyed (message_id_of cmd) m p) ∙ p, sym c) in
      (
        save-IsSound s t n sound r
            (step-IsValid (call_of env.now cmd) m n q (sound.valid (message_id_of cmd) m p))
            (inr there)
            (subst (λ x. (is_empty x ≡ true) ⊎ Stored s x n.chat_id) (sym k)
              (subst (λ x. (is_empty m.parent_message_id ≡ true) ⊎ Stored s m.parent_message_id x)
                (sym c) (sound.parents (message_id_of cmd) m p))),
        r,
        there,
      )

  new_message_lem :
      (env : Env) (cmd : SendMessageCommand) (m : Message)
      → new_message_with_type env.now env.new_id cmd.chat_id cmd.author_id cmd.content
          cmd.parent_message_id
          (or_user cmd.msg_type)
          cmd.actor_id
        ≡ ok m
      → (m.id ≡ env.new_id)
        × (m.chat_id ≡ cmd.chat_id)
        × (m.parent_message_id ≡ cmd.parent_message_id)
  unfolding new_message_with_type
  new_message_lem env cmd m h = ground arith

  pub sent-IsSound :
      (chats : Uuid → Option ReadModel) (env : Env) (cmd : SendMessageCommand) (s t : State)
      (ty : ChatType) (m : Message)
      → IsSound s
      → find_by_id s env.new_id ≡ none
      → sent repo chats env cmd s ≡ ok (ty, m, t)
      → IsSound t × (save s m ≡ some t) × (find_by_id s m.id ≡ none)
  sent-IsSound chats env cmd s t ty m sound fresh h =
      let (p, q, r) = sent_lem chats env cmd s t ty m h in
      let (i, c, k) = new_message_lem env cmd m p in
      let new = ap (find_by_id s) i ∙ fresh in
      (
        save-IsSound s t m sound q
            (new_message-IsValid env.now env.new_id cmd.chat_id cmd.author_id cmd.content
              cmd.parent_message_id (or_user cmd.msg_type) cmd.actor_id m p)
            (inl new)
            (subst (λ x. (is_empty x ≡ true) ⊎ Stored s x m.chat_id) (sym k)
              (subst
                (λ x. (is_empty cmd.parent_message_id ≡ true) ⊎ Stored s cmd.parent_message_id x)
                (sym c) (parent_lem s cmd.chat_id cmd.parent_message_id r))),
        q,
        new,
      )
