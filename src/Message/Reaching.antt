-- ===== src/Message/Reaching.antt =====
-- The worlds that users' use of the messages can reach, and what holds of them all.
use flowra.Base.{
  Uuid, Bool, true, false, Option, none, some, List, [], ◌∷◌, ◌≡◌, refl, sym, ◌⊎◌, inl, inr, Result,
  ok, err, same_refl, arith, All, if◌then◌else◌,
}
use mathlib.Core.Path.{subst}
use flowra.Chat.Types.{ChatType}
use flowra.Message.Types.{Message}
use flowra.Message.Commands.{
  AppError, SendMessageCommand, MessageCommand, edit_message_command, delete_message_command,
  add_reaction_command, remove_reaction_command, add_attachment_command,
}
use flowra.Message.UseCases.{
  MessageRepository, ReadModel, Env, MessageEvent, World, event_of, announced, changed, execute,
  created_event, handed_on, sent, send_message,
}
use flowra.Message.Sessions.{Stored, IsSound, save-Stored, changed-IsSound, sent-IsSound}

All-map {ℓ κ ι} :
    {A : Type ℓ} {P : A → Type κ} {Q : A → Type ι}
    → ((a : A) → P a → Q a)
    → (xs : List A) → All P xs
    → All Q xs
All-map f [] a = tt
All-map f (x ∷ xs) a = (f x a.0, All-map f xs a.1)

event_of-id :
    (env : Env) (cmd : MessageCommand) (n : Message) → (event_of env cmd n).aggregate_id ≡ n.id
unfolding event_of
event_of-id env (edit_message_command id c by) n = refl
event_of-id env (delete_message_command id by) n = refl
event_of-id env (add_reaction_command id e u) n = refl
event_of-id env (remove_reaction_command id e u) n = refl
event_of-id env (add_attachment_command id f k s t u) n = refl

module _ (repo : MessageRepository) where
  open repo use {State, find_by_id, save, find-save}

  -- A stored message that the event is about.
  abbrev pub Concerned : State → MessageEvent → Type 0
  Concerned s e = (c : Uuid) × Stored repo s e.aggregate_id c

  abbrev pub Waiting : State → Message × ChatType → Type 0
  Waiting s p = Stored repo s p.0.id p.0.chat_id

  -- The stored messages are sound, and every event on the bus and every message whose tags wait to be processed is about a
  -- stored message.
  pub record IsSoundWorld (w : World repo) : Type 0 where
    pub stored : IsSound repo w.store
    pub events : All (Concerned w.store) w.published
    pub waiting : All (Waiting w.store) w.detached

  -- One use case after another, from a store with no message; uuid.NewUUID gives an identity that no message has.
  pub data Reach : World repo → Type 0 where
    start :
        (s : State)
        → ((id : Uuid) → find_by_id s id ≡ none)
        → Reach (record { store = s; published = []; detached = [] })
    changing :
        {w : World repo} (env : Env) (delivered : Bool) (cmd : MessageCommand)
        → Reach w
        → Reach (execute repo env delivered cmd w).1
    sending :
        {w : World repo} (chats : Uuid → Option ReadModel) (has_tags delivered : Bool) (env : Env)
        (cmd : SendMessageCommand)
        → find_by_id w.store env.new_id ≡ none
        → Reach w
        → Reach (send_message repo chats has_tags delivered env cmd w).1

  -- The lists survive a Save.
  kept :
      (w : World repo) (t : State) (n : Message)
      → IsSoundWorld w
      → save w.store n ≡ some t
      → (find_by_id w.store n.id ≡ none) ⊎ Stored repo w.store n.id n.chat_id
      → All (Concerned t) w.published × All (Waiting t) w.detached
  kept w t n v h old = (
    All-map (λ e p. (p.0, save-Stored repo w.store t n e.aggregate_id p.0 h old p.1)) w.published
        v.events,
    All-map (λ p q. save-Stored repo w.store t n p.0.id p.0.chat_id h old q) w.detached v.waiting,
  )

  cons_event :
      (b : Bool) (s : State) (e : MessageEvent) (es : List MessageEvent)
      → Concerned s e
      → All (Concerned s) es
      → All (Concerned s) (if b then e ∷ es else es)
  cons_event true s e es p a = (p, a)
  cons_event false s e es p a = a

  cons_waiting :
      (b : Bool) (s : State) (m : Message × ChatType) (ms : List (Message × ChatType))
      → Waiting s m
      → All (Waiting s) ms
      → All (Waiting s) (if b then m ∷ ms else ms)
  cons_waiting true s m ms p a = (p, a)
  cons_waiting false s m ms p a = a

  saved-Stored : (s t : State) (n : Message) → save s n ≡ some t → Stored repo t n.id n.chat_id
  saved-Stored s t n h = (n, ground (arith, find-save s t n n.id h, same_refl n.id), refl)

  announced-IsSound :
      (env : Env) (b : Bool) (cmd : MessageCommand) (w : World repo)
      (r : Result AppError (Message × State))
      → changed repo env cmd w.store ≡ r
      → IsSoundWorld w
      → IsSoundWorld (announced repo b (event_of env cmd) w r).1
  announced-IsSound env b cmd w (err e) h v = v
  announced-IsSound env b cmd w (ok (n, t)) h v =
      let (sound, saved, there) = changed-IsSound repo env cmd w.store t n v.stored h in
      let (es, ms) = kept w t n v saved (inr there) in
      let e : Concerned t (event_of env cmd n) = (
        n.chat_id,
        subst (λ i. Stored repo t i n.chat_id) (sym (event_of-id env cmd n))
            (saved-Stored w.store t n saved),
      ) in
      record {
        stored = sound;
        events = cons_event b t (event_of env cmd n) w.published e es;
        waiting = ms;
      }

  handed_on-IsSound :
      (chats : Uuid → Option ReadModel) (has_tags b : Bool) (env : Env) (cmd : SendMessageCommand)
      (w : World repo) (r : Result AppError (ChatType × Message × State))
      → sent repo chats env cmd w.store ≡ r
      → find_by_id w.store env.new_id ≡ none
      → IsSoundWorld w
      → IsSoundWorld (handed_on repo has_tags b env cmd w r).1
  handed_on-IsSound chats has_tags b env cmd w (err e) h fresh v = v
  handed_on-IsSound chats has_tags b env cmd w (ok (ty, m, t)) h fresh v =
      let (sound, saved, new) = sent-IsSound repo chats env cmd w.store t ty m v.stored fresh h in
      let (es, ms) = kept w t m v saved (inl new) in
      let there = saved-Stored w.store t m saved in
      record {
        stored = sound;
        events = cons_event b t (created_event repo env cmd m) w.published (m.chat_id, there) es;
        waiting = cons_waiting has_tags t (m, ty) w.detached there ms;
      }

  -- In every world that the use cases of the messages reach, by any users in any order, failed commands and failed events
  -- included: each stored message stands under its own identity and is valid; what a message replies to is
  -- stored and in the same chat; and each event on the bus and each message handed to the processing of
  -- tags is about a stored message.
  pub Reach-IsSoundWorld : (w : World repo) → Reach w → IsSoundWorld w
  unfolding execute send_message
  Reach-IsSoundWorld w (start s empty) = record {
    stored = record {
      keyed = λ id m p. ground (arith, empty id);
      valid = λ id m p. ground (arith, empty id);
      parents = λ id m p. ground (arith, empty id);
    };
    events = tt;
    waiting = tt;
  }
  Reach-IsSoundWorld w (changing {w = v} env delivered cmd r) =
      announced-IsSound env delivered cmd v (changed repo env cmd v.store) refl
        (Reach-IsSoundWorld v r)
  Reach-IsSoundWorld w (sending {w = v} chats has_tags delivered env cmd fresh r) =
      handed_on-IsSound chats has_tags delivered env cmd v (sent repo chats env cmd v.store) refl
        fresh (Reach-IsSoundWorld v r)
