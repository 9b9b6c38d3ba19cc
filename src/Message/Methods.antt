-- ===== src/Message/Methods.antt =====
-- internal/domain/message/message.go: the constructor and the methods of a message. `now` is what time.Now gives in
-- the call, `new_id` what uuid.NewUUID gives.
use flowra.Base.{
  ℕ, ◌+◌, ℤ, Text, Uuid, is_empty, same, Bool, true, false, ◌&&◌, ◌||◌, not, Option, none, some,
  List, [], ◌∷◌, ◌++◌, Result, ok, err, ◌>>=◌, ◌>>◌, fail_if, if◌then◌else◌,
}
use flowra.Errs.{Error, invalid_input, invalid_state, forbidden, already_exists, not_found}
use flowra.Message.Types.{
  MessageType, is_system, or_user, Reaction, Message, new_reaction, new_attachment,
}

-- NewMessageWithType
unfoldable pub new_message_with_type :
    ℕ → Uuid → Uuid → Uuid → Text → Uuid → MessageType → Option Uuid → Result Error Message
new_message_with_type now new_id chat author content parent ty actor = do
  fail_if (is_empty chat) invalid_input
  fail_if (is_empty author) invalid_input
  fail_if (is_empty content && not (is_system ty)) invalid_input
  ok (record {
    id = new_id;
    chat_id = chat;
    author_id = author;
    content = content;
    msg_type = or_user ty;
    actor_id = actor;
    parent_message_id = parent;
    created_at = now;
    edited_at = none;
    is_deleted = false;
    deleted_at = none;
    attachments = [];
    reactions = [];
  })

-- CanBeEditedBy
abbrev pub can_be_edited_by : Uuid → Message → Bool
can_be_edited_by u m = same m.author_id u

-- EditContent
unfoldable pub edit_content : ℕ → Text → Uuid → Message → Result Error Message
edit_content now content by m = do
  fail_if m.is_deleted invalid_state
  fail_if (is_empty content) invalid_input
  fail_if (not (can_be_edited_by by m)) forbidden
  ok (record m { content = content; edited_at = some now })

-- Delete
unfoldable pub delete : ℕ → Uuid → Message → Result Error Message
delete now by m = do
  fail_if m.is_deleted invalid_state
  fail_if (not (can_be_edited_by by m)) forbidden
  ok (record m { is_deleted = true; deleted_at = some now })

-- `r.UserID() == userID && r.EmojiCode() == emojiCode`
abbrev pub is_of : Uuid → Text → Reaction → Bool
is_of u e r = same r.user_id u && same r.emoji_code e

-- HasReaction
unfoldable pub has_reaction : List Reaction → Uuid → Text → Bool
has_reaction [] u e = false
has_reaction (r ∷ rs) u e = if is_of u e r then true else has_reaction rs u e

-- The loop of RemoveReaction.
unfoldable pub without_reaction : List Reaction → Uuid → Text → List Reaction
without_reaction [] u e = []
without_reaction (r ∷ rs) u e =
    let rest = without_reaction rs u e in
    if not (same r.user_id u) || not (same r.emoji_code e) then r ∷ rest else rest

-- AddReaction
unfoldable pub add_reaction : ℕ → Uuid → Text → Message → Result Error Message
add_reaction now u e m = do
  fail_if m.is_deleted invalid_state
  fail_if (has_reaction m.reactions u e) already_exists
  r ← new_reaction now u e
  ok (record m { reactions = m.reactions ++ r ∷ [] })

-- RemoveReaction
unfoldable pub remove_reaction : Uuid → Text → Message → Result Error Message
remove_reaction u e m = do
  fail_if (not (has_reaction m.reactions u e)) not_found
  ok (record m { reactions = without_reaction m.reactions u e })

-- AddAttachment
unfoldable pub add_attachment : Uuid → Text → ℤ → Text → Message → Result Error Message
add_attachment f n s t m = do
  fail_if m.is_deleted invalid_state
  a ← new_attachment f n s t
  ok (record m { attachments = m.attachments ++ a ∷ [] })

-- The loop of GetReactionCount.
unfoldable pub count_reactions : List Reaction → Text → ℕ
count_reactions [] e = 0
count_reactions (r ∷ rs) e =
    let rest = count_reactions rs e in if same r.emoji_code e then 1 + rest else rest

-- GetReactionCount
abbrev pub get_reaction_count : Text → Message → ℕ
get_reaction_count e m = count_reactions m.reactions e

-- A call of a method that changes a message.
pub data Call : Type 0 where
  edit_content_call : ℕ → Text → Uuid → Call
  delete_call : ℕ → Uuid → Call
  add_reaction_call : ℕ → Uuid → Text → Call
  remove_reaction_call : Uuid → Text → Call
  add_attachment_call : Uuid → Text → ℤ → Text → Call

unfoldable pub step : Call → Message → Result Error Message
step (edit_content_call now content by) m = edit_content now content by m
step (delete_call now by) m = delete now by m
step (add_reaction_call now u e) m = add_reaction now u e m
step (remove_reaction_call u e) m = remove_reaction u e m
step (add_attachment_call f n s t) m = add_attachment f n s t m

-- The message after a call, which leaves it alone where it fails.
abbrev pub after : Result Error Message → Message → Message
after (ok n) m = n
after (err e) m = m

unfoldable pub run : List Call → Message → Message
run [] m = m
run (c ∷ cs) m = run cs (after (step c m) m)
