-- ===== src/UseCase/Creating.antt =====
-- What the creation of a chat leaves behind.
use flowra.Base.{
  ℕ, ◌+◌, Text, Uuid, is_empty, Bool, false, List, [], ◌∷◌, ◌++◌, ◌≡◌, ◌≢◌, refl, sym, ap, ◌∙◌,
  arith, ok, same_iff,
}
use mathlib.Core.Path.{subst}
use flowra.Chat.Types.{
  ChatType, discussion, task, bug, epic, unknown, Event, Metadata, Payload, Chat, Env,
}
use flowra.Chat.Apply.{apply_event, apply_all, replay, mark_events_as_committed}
use flowra.Chat.Methods.{raise, new_chat, convert_to_task, convert_to_bug, convert_to_epic}
use flowra.Chat.Lifecycle.{
  Call, convert_to_task_call, convert_to_bug_call, convert_to_epic_call, rename_call, rename, step,
  run,
}
use flowra.Chat.Steps.{run_cases}
use flowra.Chat.Replay.{forget, run-new_chat-Replays, uncommitted-apply_event}
use flowra.Chat.Invariant.{run-Keeps}
use flowra.Chat.Versions.{IsNumbered, new_chat-IsNumbered, raise-IsNumbered}
use flowra.Store.Events.{EventStore}
use flowra.Store.Histories.{IsHistory, Tracks, BeginsCreated, saved-IsHistory}
use flowra.Store.Repository.{Config, Answers, Repo, load}
use flowra.Store.Sessions.{StartsChat}
use flowra.Store.Following.{StartsChat-append, StartsChat-ne, new_chat-StartsChat}
use flowra.Store.RoundTrip.{load-save}
use flowra.UseCase.Commands.{validate_required}
use flowra.UseCase.Create.{validate_create, apply_chat_type_and_title, create_chat}

-- The calls by which applyChatTypeAndTitle sets the type and the title.
creation_calls : Env → ChatType → Text → Uuid → List (Env × Call)
creation_calls env task title by = (env, convert_to_task_call title by) ∷ []
creation_calls env bug title by = (env, convert_to_bug_call title by) ∷ []
creation_calls env epic title by = (env, convert_to_epic_call title by) ∷ []
creation_calls env (unknown _) title by = []
creation_calls env discussion [] by = []
creation_calls env discussion (x ∷ title) by = (env, rename_call (x ∷ title) by) ∷ []

raise-StartsChat :
    (env : Env) (m : Metadata) (p : Payload) (c : Chat)
    → StartsChat c.uncommitted_events
    → StartsChat (raise env m p c).uncommitted_events
unfolding raise
raise-StartsChat env m p c h =
    let e : Event = record {
      aggregate_id = c.id;
      version = c.version + 1;
      occurred_at = env.occurred_at;
      metadata = m;
      payload = p;
    } in
    subst StartsChat (sym (uncommitted-apply_event env.joined_at e c))
      (StartsChat-append c.uncommitted_events (e ∷ []) h)

run-StartsChat :
    (calls : List (Env × Call)) (c : Chat)
    → StartsChat c.uncommitted_events
    → StartsChat (run calls c).uncommitted_events
run-StartsChat calls c h =
    run_cases (λ d. StartsChat d.uncommitted_events) (λ env m p d _ k. raise-StartsChat env m p d k)
      calls c h

run-IsNumbered_zero :
    (calls : List (Env × Call)) (c : Chat) → IsNumbered 0 c → IsNumbered 0 (run calls c)
run-IsNumbered_zero calls c h =
    run_cases (IsNumbered 0) (λ env m p d _ k. raise-IsNumbered 0 env m p d k) calls c h

apply_chat_type_and_title-run :
    (env : Env) (ws : Uuid) (ty : ChatType) (title : Text) (by : Uuid) (c : Chat)
    → validate_create ws ty title by ≡ ok tt
    → c.chat_type ≡ discussion
    → c.title ≡ []
    → let d = run (creation_calls env ty title by) c in
      (apply_chat_type_and_title env ty title by c ≡ ok d) × (d.chat_type ≡ ty) × (d.title ≡ title)
unfolding validate_create validate_required apply_chat_type_and_title creation_calls run step raise
    apply_event rename convert_to_task convert_to_bug convert_to_epic
apply_chat_type_and_title-run env ws task title by c v t n = ground arith
apply_chat_type_and_title-run env ws bug title by c v t n = ground arith
apply_chat_type_and_title-run env ws epic title by c v t n = ground arith
apply_chat_type_and_title-run env ws (unknown _) title by c v t n = ground arith
apply_chat_type_and_title-run env ws discussion [] by c v t n = ground arith
apply_chat_type_and_title-run env ws discussion (x ∷ title) by c v t n =
    ground (arith, same_iff c.title (x ∷ title))

-- NewChat succeeds on what the use case has validated.
new_chat_valid :
    (env env' : Env) (ws : Uuid) (ty : ChatType) (pub' : Bool) (title : Text) (by : Uuid)
    → validate_create ws ty title by ≡ ok tt
    → (c : Chat) × (new_chat env env' ws discussion pub' by ≡ ok c)
      × (c.chat_type ≡ discussion)
      × (c.title ≡ [])
unfolding validate_create validate_required new_chat raise apply_event
new_chat_valid env env' [] ty pub' title by v = cc
new_chat_valid env env' (w ∷ ws) ty pub' title [] v = cc
new_chat_valid env env' (w ∷ ws) ty pub' title (b ∷ by) v = (_, refl, refl, refl)

-- A chat made by NewChat and changed by any calls follows the empty history.
created-Tracks :
    (clock : Event → ℕ) (env env' : Env) (ws : Uuid) (pub' : Bool) (by : Uuid) (c : Chat)
    (calls : List (Env × Call))
    → new_chat env env' ws discussion pub' by ≡ ok c
    → Tracks clock [] (run calls c)
unfolding replay apply_all
created-Tracks clock env env' ws pub' by c calls n = record {
  numbering = run-IsNumbered_zero calls c (new_chat-IsNumbered env env' ws discussion pub' by n).0;
  restores = run-new_chat-Replays clock env env' ws discussion pub' by calls n;
}

StartsChat-begins : (es : List Event) → StartsChat es → BeginsCreated es
StartsChat-begins [] h = tt
StartsChat-begins (e ∷ es) h = h

module _ (es : EventStore) where
  open es use {State, history}

  -- CreateChat with valid fields and an identity that is not empty and no stored chat has makes and saves
  -- a chat of the type and title asked for, and the next load of it, at any clock, gives that chat, up to
  -- joining times.
  pub create_chat-load :
      (cfg : Config) (ans : Answers) (clock : Event → ℕ) (env env' env'' : Env) (ws : Uuid)
      (ty : ChatType) (pub' : Bool) (title : Text) (by : Uuid) (r : Repo es)
      → validate_create ws ty title by ≡ ok tt
      → is_empty env.new_id ≡ false
      → history r.store env.new_id ≡ []
      → (r' : Repo es) × (d : Chat) × (e : Chat) × (create_chat es cfg ans env env' env'' ws ty pub'
            title by r
          ≡ ok (r', d))
        × (d.chat_type ≡ ty)
        × (d.title ≡ title)
        × (load es clock r'.store env.new_id ≡ ok e)
        × (forget e ≡ forget d)
  unfolding create_chat
  create_chat-load cfg ans clock env env' env'' ws ty pub' title by r v named fresh =
      let (c, n, discussing, untitled) = new_chat_valid env env' ws ty pub' title by v in
      let calls = creation_calls env'' ty title by in
      let d = run calls c in
      let (done, typed, titled) =
        apply_chat_type_and_title-run env'' ws ty title by c v discussing untitled in
      let id : d.id ≡ env.new_id =
        (run-Keeps calls c).same_id ∙ (new_chat-IsNumbered env env' ws discussion pub' by n).2 in
      let starts = run-StartsChat calls c (new_chat-StartsChat env env' ws discussion pub' by n) in
      let unsaved = d.uncommitted_events in
      let tracks = created-Tracks clock env env' ws pub' by c calls n in
      let whole = saved-IsHistory clock [] d (StartsChat-begins unsaved starts) tt tracks in
      let none_before : [] ≡ history r.store d.id = sym (ap (history r.store) id ∙ fresh) in
      let (r', e, sv, ld, _, fe) =
        load-save es clock clock cfg ans r d (ap is_empty id ∙ named)
          (subst (λ h. Tracks clock h d) none_before tracks)
          (subst (λ h. IsHistory d.id (h ++ unsaved)) none_before whole)
          (subst (λ h. h ++ unsaved ≢ []) none_before (StartsChat-ne unsaved starts)) in
      (
        r',
        mark_events_as_committed d,
        e,
        rw (v, n, done, sv) refl,
        typed,
        titled,
        ap (load es clock r'.store) (sym id) ∙ ld,
        fe,
      )
