-- ===== src/Store/Examples.antt =====
-- The theorems on the stores, at the in-memory store.
use flowra.Base.{
  ℕ, text, same, true, false, none, List, [], ◌∷◌, ◌++◌, ◌≡◌, ◌≢◌, refl, ◌∙◌, Result, ok, err, Uuid,
  length, pos, equals_ℕ, is_empty,
}
use mathlib.Core.Path.{subst, sym}
use flowra.Errs.{Error, concurrent_modification}
use flowra.Chat.Types.{task, Event, Chat, Env}
use flowra.Chat.Apply.{apply_event, apply_all, replay, mark_events_as_committed}
use flowra.Chat.Methods.{new_chat, raise}
use flowra.Chat.Lifecycle.{Call, rename, close, close_call, rename_call, step, run}
use flowra.Chat.Replay.{forget, Replays}
use flowra.Chat.Versions.{IsNumbered, new_chat-IsNumbered, run-IsNumbered}
use flowra.Chat.Examples.{an_env, a_chat, made-a_chat, saved_chat}
use flowra.Store.InMemory.{or_empty, new_store, in_memory, find, put, save_events}
use flowra.Store.Repository.{
  Config, Answers, Repo, load, save, stored, with_read_model, with_delivery,
}
use flowra.Store.Histories.{IsHistory, Tracks}
use flowra.Store.Sessions.{World, holding, create, commit, Reach, start, next, IsSound}
use flowra.Store.Interleaving.{Reach-IsSound}
use flowra.Store.RoundTrip.{load-save, second_save_refused}

abbrev pub a_config : Config
a_config = record { has_outbox = true; has_event_bus = true; has_repair_queue = true }

abbrev pub all_well : Answers
all_well = record {
  read_model_updated = true;
  repair_added = true;
  outbox_added = true;
  published = λ e. true;
}

abbrev pub empty_repo : Repo in_memory
empty_repo = record { store = new_store; updates = []; repairs = []; outbox = []; bus = [] }

abbrev pub a_clock : Event → ℕ
a_clock e = e.version

a_chat-id : a_chat.id ≡ text "c1"
unfolding new_chat raise apply_event
a_chat-id = refl

nothing_stored : (id : Uuid) → in_memory.history empty_repo.store id ≡ []
unfolding find
nothing_stored id = refl

a_chat-IsNumbered : IsNumbered (length (in_memory.history empty_repo.store a_chat.id)) a_chat
a_chat-IsNumbered =
    subst (λ (l : List Event). IsNumbered (length l) a_chat) (sym (nothing_stored a_chat.id))
      (new_chat-IsNumbered an_env an_env (text "w1") task true (text "ann") made-a_chat).0

a_chat-unsaved : a_chat.uncommitted_events ≢ []
unfolding new_chat raise apply_event
a_chat-unsaved e = cc

-- The repository after the first save.
abbrev pub repo_after : Result Error (Repo in_memory × Chat) → Repo in_memory
repo_after (ok (r, c)) = r
repo_after (err e) = empty_repo

abbrev pub one_chat : Repo in_memory
one_chat = repo_after (save in_memory a_config all_well empty_repo a_chat)

-- Two users change the saved chat: one renames it, the other closes it.
abbrev renaming : List (Env × Call)
renaming = (an_env, rename_call (text "Plan") (text "bob")) ∷ []

abbrev renamed_chat : Chat
renamed_chat = run renaming saved_chat

abbrev closing : List (Env × Call)
closing = (an_env, close_call (text "ann")) ∷ []

abbrev closed_chat : Chat
closed_chat = run closing saved_chat

renamed_chat-unsaved : renamed_chat.uncommitted_events ≢ []
unfolding new_chat raise apply_event run step rename same
renamed_chat-unsaved e = cc

closed_chat-unsaved : closed_chat.uncommitted_events ≢ []
unfolding new_chat raise apply_event run step close same
closed_chat-unsaved e = cc

renamed_chat-id : renamed_chat.id ≡ text "c1"
unfolding new_chat raise apply_event run step rename same
renamed_chat-id = refl

closed_chat-id : closed_chat.id ≡ text "c1"
unfolding new_chat raise apply_event run step close same
closed_chat-id = refl

one_chat-version : length (in_memory.history one_chat.store (text "c1")) ≡ saved_chat.version
unfolding new_chat raise apply_event save stored with_read_model with_delivery save_events find put
    same
one_chat-version = refl

-- A chat that follows the first save follows the stored history.
follows :
    (c : Chat)
    → c.id ≡ text "c1"
    → IsNumbered saved_chat.version c
    → IsNumbered (length (in_memory.history one_chat.store c.id)) c
follows c i n =
    subst (λ id. IsNumbered (length (in_memory.history one_chat.store id)) c) (sym i)
      (subst (λ k. IsNumbered k c) (sym one_chat-version) n)

renamed_chat-IsNumbered :
    IsNumbered (length (in_memory.history one_chat.store renamed_chat.id)) renamed_chat
renamed_chat-IsNumbered =
    follows renamed_chat renamed_chat-id (run-IsNumbered renaming saved_chat refl)

closed_chat-IsNumbered :
    IsNumbered (length (in_memory.history one_chat.store closed_chat.id)) closed_chat
closed_chat-IsNumbered = follows closed_chat closed_chat-id (run-IsNumbered closing saved_chat refl)

second_save_refused_example :
    (r' : Repo in_memory) × (save in_memory a_config all_well one_chat renamed_chat
      ≡ ok (r', mark_events_as_committed renamed_chat))
    × (save in_memory a_config all_well r' closed_chat ≡ err concurrent_modification)
second_save_refused_example =
    second_save_refused in_memory a_config a_config all_well all_well one_chat renamed_chat
      closed_chat (closed_chat-id ∙ sym renamed_chat-id) renamed_chat-unsaved closed_chat-unsaved
      renamed_chat-IsNumbered closed_chat-IsNumbered

made-IsNumbered : IsNumbered 0 a_chat
made-IsNumbered =
    (new_chat-IsNumbered an_env an_env (text "w1") task true (text "ann") made-a_chat).0

a_chat-save :
    save in_memory a_config all_well empty_repo a_chat
    ≡ ok (one_chat, mark_events_as_committed a_chat)
unfolding new_chat raise apply_event save stored with_read_model with_delivery save_events find put
    same
a_chat-save = refl

c1-named : is_empty (text "c1") ≡ false
c1-named = refl

pub one_chat-stored : in_memory.history one_chat.store (text "c1") ≢ []
unfolding new_chat raise apply_event save stored with_read_model with_delivery save_events find put
    same
one_chat-stored e = cc

pub one_chat-IsHistory : IsHistory (text "c1") (in_memory.history one_chat.store (text "c1"))
unfolding new_chat raise apply_event save stored with_read_model with_delivery save_events find put
    same
one_chat-IsHistory = record { begins = refl; numbered = (refl, refl, (refl, refl, tt)) }

a_chat-named : is_empty a_chat.id ≡ false
unfolding new_chat raise apply_event
a_chat-named = refl

pub a_chat-to_store : in_memory.history empty_repo.store a_chat.id ++ a_chat.uncommitted_events ≢ []
unfolding new_chat raise apply_event find
a_chat-to_store e = cc

a_chat-IsHistory :
    IsHistory a_chat.id (in_memory.history empty_repo.store a_chat.id ++ a_chat.uncommitted_events)
unfolding new_chat raise apply_event find
a_chat-IsHistory = record { begins = refl; numbered = (refl, refl, (refl, refl, tt)) }

a_chat-restored :
    Replays a_clock (replay a_clock (in_memory.history empty_repo.store a_chat.id)) a_chat
unfolding new_chat raise apply_event find replay apply_all
a_chat-restored = refl

pub a_chat-Tracks : Tracks a_clock (in_memory.history empty_repo.store a_chat.id) a_chat
a_chat-Tracks = record { numbering = a_chat-IsNumbered; restores = a_chat-restored }

load-save_example :
    (r' : Repo in_memory) × (d : Chat) × (save in_memory a_config all_well empty_repo a_chat
      ≡ ok (r', mark_events_as_committed a_chat))
    × (load in_memory a_clock r'.store a_chat.id ≡ ok d)
    × (d.uncommitted_events ≡ [])
    × (forget d ≡ forget a_chat)
load-save_example =
    load-save in_memory a_clock a_clock a_config all_well empty_repo a_chat a_chat-named
      a_chat-Tracks a_chat-IsHistory a_chat-to_store

-- A user makes a chat and saves it.
abbrev idle_world : World in_memory a_config
idle_world = record { repo = empty_repo; sessions = λ k. none }

abbrev open_world : World in_memory a_config
open_world = record { repo = empty_repo; sessions = holding in_memory a_config idle_world 0 a_chat }

abbrev saved_world : World in_memory a_config
saved_world = record {
  repo = one_chat;
  sessions = holding in_memory a_config open_world 0 saved_chat;
}

two_steps : Reach in_memory a_config idle_world saved_world
two_steps =
    next
      (next start (
        create 0 an_env an_env (text "w1") task true (text "ann") a_chat made-a_chat
          (nothing_stored (text "c1")) refl))
      (commit 0 a_chat all_well one_chat saved_chat refl a_chat-save refl)

Reach-IsSound_example : IsSound in_memory a_config saved_world
Reach-IsSound_example = Reach-IsSound in_memory a_config nothing_stored (λ k. refl) two_steps

nothing_expected : equals_ℕ (pos 0) (length (or_empty (find new_store (text "c1")))) ≡ true
unfolding find
nothing_expected = refl
