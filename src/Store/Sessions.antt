-- ===== src/Store/Sessions.antt =====
-- Many users of one repository: each holds chats in memory, and the steps of all of them interleave in
-- any order. A step is what a use case of internal/application/chat does between two calls of the
-- repository: NewChat, Load, a method of the chat, Save.
use flowra.Base.{
  ℕ, ◌≤◌, ◌==◌, Uuid, Bool, true, Option, none, some, List, [], ◌∷◌, ◌≡◌, ◌⊎◌, ok, length,
  if◌then◌else◌,
}
use flowra.Chat.Types.{ChatType, Event, Chat, Env}
use flowra.Chat.Methods.{new_chat}
use flowra.Chat.Lifecycle.{Call, step, after}
use flowra.Chat.Versions.{IsNumbered}
use flowra.Store.Events.{EventStore}
use flowra.Store.Histories.{is_created, IsHistory}
use flowra.Store.Repository.{Config, Answers, Repo, load, save}

-- The unsaved events of a chat that is not stored yet.
abbrev pub StartsChat : List Event → Type 0
StartsChat [] = ⊥
StartsChat (e ∷ es) = is_created e.payload ≡ true

module _ (es : EventStore) (cfg : Config) where
  open es use {State, history}

  -- Session `k` holds at most one chat.
  pub record World : Type 0 where
    pub repo : Repo es
    pub sessions : ℕ → Option Chat

  abbrev pub holding : World → ℕ → Chat → ℕ → Option Chat
  holding w k c j = if k == j then some c else w.sessions j

  pub data Step (w w' : World) : Type 0 where
    -- NewChat, with an identity that no stored chat has
    create :
        (k : ℕ) (env env' : Env) (ws : Uuid) (ty : ChatType) (pub' : Bool) (by : Uuid) (c : Chat)
        → new_chat env env' ws ty pub' by ≡ ok c
        → history w.repo.store env.new_id ≡ []
        → w' ≡ record w { sessions = holding w k c }
        → Step w w'
    open_chat :
        (k : ℕ) (clock : Event → ℕ) (id : Uuid) (c : Chat)
        → load es clock w.repo.store id ≡ ok c
        → w' ≡ record w { sessions = holding w k c }
        → Step w w'
    call_method :
        (k : ℕ) (c : Chat) (env : Env) (call : Call)
        → w.sessions k ≡ some c
        → w' ≡ record w { sessions = holding w k (after c (step env call c)) }
        → Step w w'
    commit :
        (k : ℕ) (c : Chat) (ans : Answers) (r' : Repo es) (c' : Chat)
        → w.sessions k ≡ some c
        → save es cfg ans w.repo c ≡ ok (r', c')
        → w' ≡ record { repo = r'; sessions = holding w k c' }
        → Step w w'

  pub data Reach (w : World) : World → Type 0 where
    start : Reach w w
    next : {u v : World} → Reach w u → Step u v → Reach w v

  -- A chat in memory follows some version that its history has reached.
  pub record IsSession (s : State) (c : Chat) : Type 0 where
    pub base : ℕ
    pub numbered_from : IsNumbered base c
    pub reached : base ≤ length (history s c.id)
    pub starts : (1 ≤ base) ⊎ StartsChat c.uncommitted_events

  abbrev pub Follows : State → Option Chat → Type 0
  Follows s none = Unit {0}
  Follows s (some c) = IsSession s c

  pub record IsSound (w : World) : Type 0 where
    pub histories : (id : Uuid) → IsHistory id (history w.repo.store id)
    pub sessions_follow : (k : ℕ) → Follows w.repo.store (w.sessions k)
