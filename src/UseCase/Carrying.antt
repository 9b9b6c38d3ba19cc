-- ===== src/UseCase/Carrying.antt =====
-- What a use case leaves behind: a command whose method succeeds is carried out, and is what the next
-- user of the chat sees.
use flowra.Base.{
  ℕ, Uuid, Bool, Option, List, [], ◌∷◌, ◌++◌, ◌≡◌, ◌≢◌, refl, sym, ap, ◌∙◌, arith, ok, is_empty,
  false, inl, inr, Bool-cases, length,
}
use mathlib.Core.Path.{subst}
use flowra.Chat.Types.{Event, Chat, Env}
use flowra.Chat.Apply.{apply_all, replay, mark_events_as_committed}
use flowra.Chat.Lifecycle.{Call, step, after, run}
use flowra.Chat.Replay.{forget, run-Replays, apply_all-forget}
use flowra.Chat.Versions.{IsNumbered, run-IsNumbered, step-Raises}
use flowra.Store.Events.{EventStore}
use flowra.Store.Histories.{IsHistory, Tracks, BeginsCreated, saved-IsHistory}
use flowra.Store.Repository.{Config, Answers, Repo, load, save}
use flowra.Store.RoundTrip.{load-Tracks, load-save}
use flowra.UseCase.Commands.{
  ChatCommand, call_of, chat_id_of, validate, validate_required, validate_assignee,
}
use flowra.UseCase.Execute.{execute}

-- A method called on a chat that has no unsaved events leaves it following its history.
step-Tracks :
    (clock : Event → ℕ) (hist : List Event) (env : Env) (call : Call) (c d : Chat)
    → c.uncommitted_events ≡ []
    → Tracks clock hist c
    → step env call c ≡ ok d
    → Tracks clock hist d
unfolding run apply_all
step-Tracks clock hist env call c d u t s =
    let ran : run ((env, call) ∷ []) c ≡ d = ap (after c) s in
    let numbered = run-IsNumbered ((env, call) ∷ []) c u in
    let version : c.version ≡ length hist =
      omega (arith, t.numbering.version_counts, ap length u) in
    let base : forget c ≡ forget (replay clock hist) =
      t.restores ∙ ap (λ us. forget (apply_all clock us (replay clock hist))) u in
    let raised =
      subst (λ x. forget x ≡ forget (apply_all clock x.uncommitted_events c)) ran
        (run-Replays clock ((env, call) ∷ []) c u) in
    record {
      numbering = subst (λ n. IsNumbered n d) version (subst (IsNumbered c.version) ran numbered);
      restores =
          raised ∙ apply_all-forget clock clock d.uncommitted_events c (replay clock hist) base;
    }

step-id : (env : Env) (call : Call) (c d : Chat) → step env call c ≡ ok d → d.id ≡ c.id
step-id env call c d s = elim (step-Raises env call c) [
  | inl same_chat ↦ ap (λ (x : Chat). x.id) (sym (ap (after c) s) ∙ same_chat)
  | inr (e, raised) ↦ ap (λ x. (after c x).id) (sym s) ∙ raised.kept_id
]

-- A valid command names a chat.
validate-named : (cmd : ChatCommand) → validate cmd ≡ ok tt → is_empty (chat_id_of cmd) ≡ false
unfolding validate validate_required
validate-named cmd v = elim (Bool-cases (is_empty (chat_id_of cmd))) [
  | inl e ↦ ground arith
  | inr e ↦ e
]

begins-more : (xs ys : List Event) → xs ≢ [] → BeginsCreated xs → BeginsCreated (xs ++ ys)
begins-more [] ys ne b = absurd (ne refl)
begins-more (x ∷ xs) ys ne b = b

append-ne : (xs ys : List Event) → xs ≢ [] → xs ++ ys ≢ []
append-ne [] ys ne e = ne refl
append-ne (x ∷ xs) ys ne e = cc

module _ (es : EventStore) (user_exists : Uuid → Option Bool) where
  open es use {State, history}

  execute-steps :
      (cfg : Config) (ans : Answers) (clock : Event → ℕ) (env : Env) (cmd : ChatCommand)
      (r r' : Repo es) (c d d' : Chat)
      → validate cmd ≡ ok tt
      → validate_assignee user_exists cmd ≡ ok tt
      → load es clock r.store (chat_id_of cmd) ≡ ok c
      → step env (call_of cmd) c ≡ ok d
      → save es cfg ans r d ≡ ok (r', d')
      → execute es user_exists cfg ans clock env cmd r ≡ ok (r', d')
  unfolding execute
  execute-steps cfg ans clock env cmd r r' c d d' v a l s sv = rw (v, a, l, s, sv) refl

  -- A valid command on a stored chat with a well-formed history, whose method succeeds on the chat as it
  -- is loaded, is carried out when no one else saves in between; and the next load of the chat, at any
  -- clock, gives the changed chat, up to joining times.
  pub execute-load :
      (cfg : Config) (ans : Answers) (clock clock' : Event → ℕ) (env : Env) (cmd : ChatCommand)
      (r : Repo es) (c d : Chat)
      → validate cmd ≡ ok tt
      → validate_assignee user_exists cmd ≡ ok tt
      → history r.store (chat_id_of cmd) ≢ []
      → IsHistory (chat_id_of cmd) (history r.store (chat_id_of cmd))
      → load es clock r.store (chat_id_of cmd) ≡ ok c
      → step env (call_of cmd) c ≡ ok d
      → (r' : Repo es) × (e : Chat) × (execute es user_exists cfg ans clock env cmd r
          ≡ ok (r', mark_events_as_committed d))
        × (load es clock' r'.store (chat_id_of cmd) ≡ ok e)
        × (e.uncommitted_events ≡ [])
        × (forget e ≡ forget d)
  execute-load cfg ans clock clock' env cmd r c d v a ne w l s =
      let id = chat_id_of cmd in
      let named = validate-named cmd v in
      let (x, lx, ix, ux, tx) = load-Tracks es clock r.store id named ne w in
      let loaded : x ≡ c = ground arith in
      let tracks = subst (Tracks clock (history r.store id)) loaded tx in
      let unsaved = ap (λ (y : Chat). y.uncommitted_events) (sym loaded) ∙ ux in
      let named_c = ap (λ (y : Chat). y.id) (sym loaded) ∙ ix in
      let same_id : d.id ≡ id = step-id env (call_of cmd) c d s ∙ named_c in
      let at_id = step-Tracks clock (history r.store id) env (call_of cmd) c d unsaved tracks s in
      let follows = subst (λ i. Tracks clock (history r.store i) d) (sym same_id) at_id in
      let before = subst (λ i. IsHistory i (history r.store i)) (sym same_id) w in
      let some_before = subst (λ i. history r.store i ≢ []) (sym same_id) ne in
      let hist = history r.store d.id in
      let after_it =
        saved-IsHistory clock hist d
          (begins-more hist d.uncommitted_events some_before before.begins) before.numbered
          follows in
      let (r', e, sv, ld, ue, fe) =
        load-save es clock clock' cfg ans r d (ap is_empty same_id ∙ named) follows after_it
          (append-ne hist d.uncommitted_events some_before) in
      (
        r',
        e,
        execute-steps cfg ans clock env cmd r r' c d (mark_events_as_committed d) v a l s sv,
        ap (load es clock' r'.store) (sym same_id) ∙ ld,
        ue,
        fe,
      )
