-- ===== src/Message/Types.antt =====
-- internal/domain/message: the data of message.go, reaction.go and attachment.go, and the constructors of the
-- values. Times are instants, numbered by ℕ.
use flowra.Base.{
  ℕ, ℤ, is_not_positive, Text, Uuid, is_empty, Bool, true, false, Option, List, [], Result, ok,
  ◌>>◌, fail_if,
}
use flowra.Errs.{Error, invalid_input}

-- `type Type string`: the three constants, and any other string.
pub data MessageType : Type 0 where
  user system bot : MessageType
  other : Text → MessageType

abbrev pub is_system : MessageType → Bool
is_system system = true
is_system _ = false

-- TypeUser in place of the empty string
abbrev pub or_user : MessageType → MessageType
or_user (other []) = user
or_user ty = ty

pub record Reaction : Type 0 where
  pub user_id : Uuid
  pub emoji_code : Text
  pub added_at : ℕ

pub record Attachment : Type 0 where
  pub file_id : Uuid
  pub file_name : Text
  pub file_size : ℤ
  pub mime_type : Text

pub record Message : Type 0 where
  pub id : Uuid
  pub chat_id : Uuid
  pub author_id : Uuid
  pub content : Text
  pub msg_type : MessageType
  pub actor_id : Option Uuid
  pub parent_message_id : Uuid
  pub created_at : ℕ
  pub edited_at : Option ℕ
  pub is_deleted : Bool
  pub deleted_at : Option ℕ
  pub attachments : List Attachment
  pub reactions : List Reaction

-- NewReaction
unfoldable pub new_reaction : ℕ → Uuid → Text → Result Error Reaction
new_reaction now u e = do
  fail_if (is_empty u) invalid_input
  fail_if (is_empty e) invalid_input
  ok (record { user_id = u; emoji_code = e; added_at = now })

-- NewAttachment
unfoldable pub new_attachment : Uuid → Text → ℤ → Text → Result Error Attachment
new_attachment f n s t = do
  fail_if (is_empty f) invalid_input
  fail_if (is_empty n) invalid_input
  fail_if (is_not_positive s) invalid_input
  fail_if (is_empty t) invalid_input
  ok (record { file_id = f; file_name = n; file_size = s; mime_type = t })
