-- ===== src/Batcher/Told.antt =====
-- The changes that ChangeBatcher (internal/service/change_batcher.go) was given and those that it told, by their keys.
use mathlib.Core.Path.{subst}
use flowra.Base.{
  ℕ, ◌-◌, ◌<◌, All, Text, Uuid, same, same_iff, true, ◌&&◌, Option, none, some, List, [], ◌∷◌, ◌++◌,
  ◌≡◌, refl, arith, if◌then◌else◌, append_assoc, Bool-cases, inl, inr,
}
use flowra.Batcher.Formats.{Change, PendingBatch}
use flowra.Batcher.Batches.{
  has_key, Sent, abandoned_after, ChangeBatcher, new_batcher, find, put, drop, extended, add_change,
  message_of, flush_batch, cleanup_abandoned_batches,
}

-- A change, with the actor and the chat.
pub record Added : Type 0 where
  pub actor : Uuid
  pub chat : Uuid
  pub change : Change

-- The changes that were added under a key.
unfoldable pub added_under : List Added → Uuid → Uuid → List Change
added_under [] actor chat = []
added_under (a ∷ as') actor chat =
    let rest = added_under as' actor chat in
    if same a.actor actor && same a.chat chat then a.change ∷ rest else rest

-- How a batch ended: told by a message, or dropped by a clean-up at an instant.
pub data Ended : Type 0 where
  told : PendingBatch → Ended
  dropped : ℕ → PendingBatch → Ended

unfoldable pub batch_of : Ended → PendingBatch
batch_of (told b) = b
batch_of (dropped now b) = b

-- The changes of the batches under a key, one batch after the other.
unfoldable pub ended_under : List Ended → Uuid → Uuid → List Change
ended_under [] actor chat = []
ended_under (e ∷ es) actor chat =
    let rest = ended_under es actor chat in
    if has_key (batch_of e) actor chat then (batch_of e).changes ++ rest else rest

-- The messages of those that were told.
unfoldable pub messages_of : List Ended → List Sent
messages_of [] = []
messages_of (told b ∷ es) = message_of b ∷ messages_of es
messages_of (dropped now b ∷ es) = messages_of es

-- A batch that was dropped had been left alone for more than ten seconds.
abbrev pub IsAbandoned : Ended → Type 0
IsAbandoned (told b) = Unit {0}
IsAbandoned (dropped now b) = abandoned_after < now - b.last_time

-- The changes that wait under a key.
abbrev pub changes_of : Option PendingBatch → List Change
changes_of none = []
changes_of (some b) = b.changes

-- Changes, timers and clean-ups in any order, at any times.
pub data Run : ChangeBatcher → List Added → Type 0 where
  start : Run new_batcher []
  change :
      {s : ChangeBatcher} {as' : List Added} (actor chat : Uuid) (name : Text) (c : Change)
      → Run s as'
      → Run
          (add_change actor chat name c s)
          (as' ++ record { actor = actor; chat = chat; change = c } ∷ [])
  flush :
      {s : ChangeBatcher} {as' : List Added} (actor chat : Uuid)
      → Run s as'
      → Run (flush_batch actor chat s) as'
  cleanup :
      {s : ChangeBatcher} {as' : List Added} (now : ℕ)
      → Run s as'
      → Run (cleanup_abandoned_batches now s) as'

-- No two batches have one key.
abbrev pub Unique : List PendingBatch → Type 0
Unique [] = Unit {0}
Unique (b ∷ bs) = (find bs b.actor_id b.chat_id ≡ none) × Unique bs

-- The messages tell of the batches that were told, and under each key the ended batches and the waiting one have the
-- changes that were added.
pub record Conserves (s : ChangeBatcher) (as' : List Added) (es : List Ended) : Type 0 where
  pub messages : s.sent ≡ messages_of es
  pub abandoned : All IsAbandoned es
  pub kept :
      (actor chat : Uuid)
      → ended_under es actor chat ++ changes_of (find s.batches actor chat)
        ≡ added_under as' actor chat
  pub unique : Unique s.batches

pub has_key_iff :
    (b : PendingBatch) (a c : Uuid) → has_key b a c ≡ true → (b.actor_id ≡ a) × (b.chat_id ≡ c)
has_key_iff b a c h = (ground (arith, same_iff b.actor_id a), ground (arith, same_iff b.chat_id c))

pub added_under-snoc :
    (as' : List Added) (x : Added) (a c : Uuid)
    → added_under (as' ++ x ∷ []) a c
      ≡ added_under as' a c ++ (if same x.actor a && same x.chat c then x.change ∷ [] else [])
unfolding added_under
added_under-snoc [] x a c = refl
added_under-snoc (y ∷ as') x a c = ground (arith, added_under-snoc as' x a c)

pub ended_under-append :
    (es fs : List Ended) (a c : Uuid)
    → ended_under (es ++ fs) a c ≡ ended_under es a c ++ ended_under fs a c
unfolding ended_under
ended_under-append [] fs a c = refl
ended_under-append (e ∷ es) fs a c = ground (
  arith,
  ended_under-append es fs a c,
  append_assoc (batch_of e).changes (ended_under es a c) (ended_under fs a c),
)

pub messages_of-append :
    (es fs : List Ended) → messages_of (es ++ fs) ≡ messages_of es ++ messages_of fs
unfolding messages_of
messages_of-append [] fs = refl
messages_of-append (told b ∷ es) fs = ground (arith, messages_of-append es fs)
messages_of-append (dropped now b ∷ es) fs = messages_of-append es fs

pub find-put :
    (bs : List PendingBatch) (b : PendingBatch) (a c : Uuid)
    → find (put bs b) a c ≡ (if has_key b a c then some b else find bs a c)
unfolding find put
find-put [] b a c = refl
find-put (x ∷ bs) b a c = ground (
  arith,
  find-put bs b a c,
  same_iff x.actor_id b.actor_id,
  same_iff x.chat_id b.chat_id,
  same_iff x.actor_id a,
  same_iff x.chat_id c,
  same_iff b.actor_id a,
  same_iff b.chat_id c,
)

pub find-drop :
    (bs : List PendingBatch) (k l a c : Uuid)
    → find (drop bs k l) a c ≡ (if same k a && same l c then none else find bs a c)
unfolding find drop
find-drop [] k l a c = ground arith
find-drop (x ∷ bs) k l a c = ground (
  arith,
  find-drop bs k l a c,
  same_iff x.actor_id k,
  same_iff x.chat_id l,
  same_iff x.actor_id a,
  same_iff x.chat_id c,
  same_iff k a,
  same_iff l c,
)

-- What is found has the key.
pub find-key :
    (bs : List PendingBatch) (a c : Uuid) (b : PendingBatch)
    → find bs a c ≡ some b
    → (b.actor_id ≡ a) × (b.chat_id ≡ c)
unfolding find
find-key [] a c b h = cc
find-key (x ∷ bs) a c b h = elim (Bool-cases (has_key x a c)) [
  | inl e ↦
      (let found : x ≡ b = ground arith in
        subst (λ y. (y.actor_id ≡ a) × (y.chat_id ≡ c)) found (has_key_iff x a c e))
  | inr n ↦ find-key bs a c b (ground arith)
]

pub extended-key :
    (a c : Uuid) (name : Text) (x : Change) (o : Option PendingBatch)
    → ((b : PendingBatch) → o ≡ some b → (b.actor_id ≡ a) × (b.chat_id ≡ c))
    → ((extended a c name x o).actor_id ≡ a)
      × ((extended a c name x o).chat_id ≡ c)
      × ((extended a c name x o).changes ≡ changes_of o ++ x ∷ [])
unfolding extended
extended-key a c name x none k = (refl, refl, refl)
extended-key a c name x (some b) k = ((k b refl).0, (k b refl).1, refl)
