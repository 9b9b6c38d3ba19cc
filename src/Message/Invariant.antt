-- ===== src/Message/Invariant.antt =====
-- What holds of every message that NewMessageWithType and the methods can make.
use flowra.Base.{
  ℕ, ℤ, is_not_positive, Text, Uuid, is_empty, same-sym, Bool, true, false, ◌&&◌, not, Option, none,
  some, List, [], ◌∷◌, ◌++◌, ◌≡◌, refl, inl, inr, arith, Result, ok, err, Result-cases,
  if◌then◌else◌,
}
use flowra.Errs.{Error}
use flowra.Message.Types.{
  MessageType, user, system, bot, other, is_system, or_user, Reaction, Attachment, Message,
  new_reaction, new_attachment,
}
use flowra.Message.Methods.{
  new_message_with_type, edit_content, delete, is_of, has_reaction, without_reaction, add_reaction,
  remove_reaction, add_attachment, Call, edit_content_call, delete_call, add_reaction_call,
  remove_reaction_call, add_attachment_call, step, after, run,
}

-- No user reacts twice with one emoji, and no reaction lacks its user or its emoji.
abbrev pub Reactions : List Reaction → Type 0
Reactions [] = Unit {0}
Reactions (r ∷ rs) =
    (has_reaction rs r.user_id r.emoji_code ≡ false)
    × (is_empty r.user_id ≡ false)
    × (is_empty r.emoji_code ≡ false)
    × Reactions rs

-- An attachment names its file, its size and its type.
abbrev pub Attachments : List Attachment → Type 0
Attachments [] = Unit {0}
Attachments (a ∷ rest) =
    (is_empty a.file_id ≡ false)
    × (is_empty a.file_name ≡ false)
    × (is_not_positive a.file_size ≡ false)
    × (is_empty a.mime_type ≡ false)
    × Attachments rest

-- A deleted message has the time of its deletion, another has none.
abbrev pub Deletion : Bool → Option ℕ → Type 0
Deletion true (some at) = Unit
Deletion true none = ⊥
Deletion false (some at) = ⊥
Deletion false none = Unit

pub record IsValid (m : Message) : Type 0 where
  pub chat_known : is_empty m.chat_id ≡ false
  pub author_known : is_empty m.author_id ≡ false
  pub content_known : (is_empty m.content && not (is_system m.msg_type)) ≡ false
  pub type_known : or_user m.msg_type ≡ m.msg_type
  pub deletion : Deletion m.is_deleted m.deleted_at
  pub reactions_known : Reactions m.reactions
  pub attachments_known : Attachments m.attachments

has_reaction-snoc :
    (rs : List Reaction) (r : Reaction) (u : Uuid) (e : Text)
    → has_reaction (rs ++ r ∷ []) u e ≡ (if has_reaction rs u e then true else is_of u e r)
unfolding has_reaction
has_reaction-snoc [] r u e = ground arith
has_reaction-snoc (q ∷ rs) r u e = ground (arith, has_reaction-snoc rs r u e)

has_reaction-without :
    (rs : List Reaction) (u v : Uuid) (e f : Text)
    → has_reaction rs v f ≡ false
    → has_reaction (without_reaction rs u e) v f ≡ false
unfolding has_reaction without_reaction
has_reaction-without [] u v e f h = refl
has_reaction-without (r ∷ rs) u v e f h = ground (arith, has_reaction-without rs u v e f)

Reactions-snoc :
    (rs : List Reaction) (r : Reaction)
    → Reactions rs
    → has_reaction rs r.user_id r.emoji_code ≡ false
    → is_empty r.user_id ≡ false
    → is_empty r.emoji_code ≡ false
    → Reactions (rs ++ r ∷ [])
unfolding has_reaction
Reactions-snoc [] r k h u e = ground arith
Reactions-snoc (q ∷ rs) r k h u e = ground (
  arith,
  Reactions-snoc rs r k.3,
  has_reaction-snoc rs r q.user_id q.emoji_code,
  same-sym q.user_id r.user_id,
  same-sym q.emoji_code r.emoji_code,
)

Reactions-without :
    (rs : List Reaction) (u : Uuid) (e : Text) → Reactions rs → Reactions (without_reaction rs u e)
unfolding without_reaction
Reactions-without [] u e k = tt
Reactions-without (r ∷ rs) u e k =
    ground (arith, Reactions-without rs u e k.3, has_reaction-without rs u r.user_id e r.emoji_code)

Attachments-snoc :
    (rest : List Attachment) (f : Uuid) (n : Text) (s : ℤ) (t : Text) (a : Attachment)
    → new_attachment f n s t ≡ ok a
    → Attachments rest
    → Attachments (rest ++ a ∷ [])
unfolding new_attachment
Attachments-snoc [] f n s t a h k = ground arith
Attachments-snoc (b ∷ rest) f n s t a h k = ground (arith, Attachments-snoc rest f n s t a h)

add_reaction-IsValid :
    (now : ℕ) (u : Uuid) (e : Text) (m n : Message)
    → add_reaction now u e m ≡ ok n
    → IsValid m
    → IsValid n
unfolding add_reaction new_reaction
add_reaction-IsValid now u e m n h v = ground (
  arith,
  Reactions-snoc m.reactions (record { user_id = u; emoji_code = e; added_at = now })
      v.reactions_known,
)

add_attachment-IsValid :
    (f : Uuid) (n : Text) (s : ℤ) (t : Text) (m k : Message)
    → add_attachment f n s t m ≡ ok k
    → IsValid m
    → IsValid k
unfolding add_attachment
add_attachment-IsValid f n s t m k h v = elim (Result-cases (new_attachment f n s t)) [
  | inl (a, p) ↦ ground (arith, Attachments-snoc m.attachments f n s t a p v.attachments_known)
  | inr (e, p) ↦ ground arith
]

pub step-IsValid : (c : Call) (m n : Message) → step c m ≡ ok n → IsValid m → IsValid n
unfolding step edit_content delete remove_reaction
step-IsValid (edit_content_call now content by) m n h v = ground arith
step-IsValid (delete_call now by) m n h v = ground arith
step-IsValid (add_reaction_call now u e) m n h v = add_reaction-IsValid now u e m n h v
step-IsValid (remove_reaction_call u e) m n h v =
    ground (arith, Reactions-without m.reactions u e v.reactions_known)
step-IsValid (add_attachment_call f k s t) m n h v = add_attachment-IsValid f k s t m n h v

after-IsValid :
    (m : Message) (r : Result Error Message)
    → ((n : Message) → r ≡ ok n → IsValid n)
    → IsValid m
    → IsValid (after r m)
after-IsValid m (ok n) h v = h n refl
after-IsValid m (err e) h v = v

run-IsValid : (cs : List Call) (m : Message) → IsValid m → IsValid (run cs m)
unfolding run
run-IsValid [] m v = v
run-IsValid (c ∷ cs) m v =
    run-IsValid cs (after (step c m) m)
      (after-IsValid m (step c m) (λ n h. step-IsValid c m n h v) v)

or_user-lem :
    (ty : MessageType)
    → (or_user (or_user ty) ≡ or_user ty) × (is_system (or_user ty) ≡ is_system ty)
or_user-lem user = (refl, refl)
or_user-lem system = (refl, refl)
or_user-lem bot = (refl, refl)
or_user-lem (other []) = (refl, refl)
or_user-lem (other (x ∷ t)) = (refl, refl)

pub new_message-IsValid :
    (now : ℕ) (id chat author : Uuid) (content : Text) (parent : Uuid) (ty : MessageType)
    (actor : Option Uuid) (m : Message)
    → new_message_with_type now id chat author content parent ty actor ≡ ok m
    → IsValid m
unfolding new_message_with_type
new_message-IsValid now id chat author content parent ty actor m h = ground (arith, or_user-lem ty)

-- Whatever calls follow NewMessageWithType, in any order, by anybody: the message has its chat, its author and a
-- content, which only a system message may lack; it has a type; it is deleted exactly where it has the
-- time of its deletion; no user reacts twice with one emoji; and no reaction or attachment lacks a part.
pub run-new_message-IsValid :
    (now : ℕ) (id chat author : Uuid) (content : Text) (parent : Uuid) (ty : MessageType)
    (actor : Option Uuid) (m : Message) (cs : List Call)
    → new_message_with_type now id chat author content parent ty actor ≡ ok m
    → IsValid (run cs m)
run-new_message-IsValid now id chat author content parent ty actor m cs h =
    run-IsValid cs m (new_message-IsValid now id chat author content parent ty actor m h)
