-- ===== src/Store/RoundTrip.antt =====
-- Loading what was saved, and two users of one chat.
use mathlib.Core.Path.{subst}
use mathlib.Core.List.{append-nil}
use flowra.Base.{
  ℕ, Uuid, same_iff, same_refl, is_empty, false, List, [], ◌∷◌, ◌++◌, ◌≡◌, ◌≢◌, refl, sym, ap, ◌∙◌,
  arith, ok, err, length, length-append, length-pos,
}
use flowra.Errs.{concurrent_modification, not_found}
use flowra.Chat.Types.{Event, Chat, empty_chat}
use flowra.Chat.Apply.{mark_events_as_committed, replay, apply_all}
use flowra.Chat.Replay.{forget, apply_all-forget}
use flowra.Chat.Versions.{IsNumbered}
use flowra.Store.Events.{EventStore}
use flowra.Store.Histories.{Tracks, Tracks-forget, IsHistory, replay_id}
use flowra.Store.Repository.{Config, Answers, Repo, load, save, load_some_chat, load_none_chat}
use flowra.Store.Saving.{save_accepted, save_refused}

pub replay-clock :
    (clock clock' : Event → ℕ) (es : List Event)
    → forget (replay clock es) ≡ forget (replay clock' es)
unfolding replay
replay-clock clock clock' es = apply_all-forget clock clock' es empty_chat empty_chat refl

module _ (es : EventStore) where
  open es use {State, history, load_events, load_some, load_none}

  -- Loading a chat whose history is well formed succeeds, with no unsaved events; the chat has the
  -- identity asked for and tracks the history.
  pub load-Tracks :
      (clock : Event → ℕ) (s : State) (id : Uuid)
      → is_empty id ≡ false
      → history s id ≢ []
      → IsHistory id (history s id)
      → (c : Chat) × (load es clock s id ≡ ok c)
        × (c.id ≡ id)
        × (c.uncommitted_events ≡ [])
        × Tracks clock (history s id) c
  load-Tracks clock s id h ne w = by_events (history s id) refl
    where
      by_events :
          (evs : List Event)
          → history s id ≡ evs
          → (c : Chat) × (load es clock s id ≡ ok c)
            × (c.id ≡ id)
            × (c.uncommitted_events ≡ [])
            × Tracks clock (history s id) c
      by_events [] e = absurd (ne e)
      by_events (x ∷ evs) e =
          let (i, v, _) = replay_id clock id x evs (subst (IsHistory id) e w) in
          (
            mark_events_as_committed (replay clock (x ∷ evs)),
            load_some_chat es clock s id x evs h (load_some s id x evs e),
            i,
            refl,
            subst (λ l. Tracks clock l (mark_events_as_committed (replay clock (x ∷ evs)))) (sym e)
                (record {
                  numbering = record { events_numbered = tt; version_counts = omega (arith, v) };
                  restores = unfold apply_all in refl;
                }),
          )

  -- A chat with no history is not found.
  pub load_missing :
      (clock : Event → ℕ) (s : State) (id : Uuid)
      → is_empty id ≡ false
      → history s id ≡ []
      → load es clock s id ≡ err not_found
  load_missing clock s id h e = load_none_chat es clock s id h (load_none s id e)

  -- What is saved is what is loaded: the save of a chat that tracks its history is accepted, and a
  -- load after it, at any clock, gives the same chat up to joining times, with no unsaved events.
  pub load-save :
      (clock clock' : Event → ℕ) (cfg : Config) (ans : Answers) (r : Repo es) (c : Chat)
      → is_empty c.id ≡ false
      → Tracks clock (history r.store c.id) c
      → IsHistory c.id (history r.store c.id ++ c.uncommitted_events)
      → history r.store c.id ++ c.uncommitted_events ≢ []
      → (r' : Repo es) × (d : Chat) × (save es cfg ans r c ≡ ok (r', mark_events_as_committed c))
        × (load es clock' r'.store c.id ≡ ok d)
        × (d.uncommitted_events ≡ [])
        × (forget d ≡ forget c)
  load-save clock clock' cfg ans r c h t w ne =
      let hist = history r.store c.id ++ c.uncommitted_events in
      let (r', sv, app) = save_accepted es cfg ans r c t.numbering in
      let now : history r'.store c.id ≡ hist = ground (arith, app c.id, same_refl c.id) in
      let (d, ld, i, u, td) =
        load-Tracks clock' r'.store c.id h (λ e. ne (sym now ∙ e))
          (subst (IsHistory c.id) (sym now) w) in
      let seen =
        Tracks-forget clock' (history r'.store c.id) d td
        ∙ ap (λ us. forget (replay clock' (history r'.store c.id ++ us))) u
        ∙ ap (λ l. forget (replay clock' l)) (append-nil (history r'.store c.id) ∙ now) in
      (
        r',
        d,
        sv,
        ld,
        u,
        seen
            ∙ replay-clock clock' clock hist
            ∙ sym (Tracks-forget clock (history r.store c.id) c t),
      )

  -- Of two users that loaded the same chat and changed it, the second to save is refused, whatever
  -- each of them did.
  pub second_save_refused :
      (cfg cfg' : Config) (ans ans' : Answers) (r : Repo es) (c d : Chat)
      → d.id ≡ c.id
      → c.uncommitted_events ≢ []
      → d.uncommitted_events ≢ []
      → IsNumbered (length (history r.store c.id)) c
      → IsNumbered (length (history r.store d.id)) d
      → (r' : Repo es) × (save es cfg ans r c ≡ ok (r', mark_events_as_committed c))
        × (save es cfg' ans' r' d ≡ err concurrent_modification)
  second_save_refused cfg cfg' ans ans' r c d i nc nd kc kd =
      let (r', sv, app) = save_accepted es cfg ans r c kc in
      let us = c.uncommitted_events in
      let grown : history r'.store d.id ≡ history r.store c.id ++ us =
        ground (arith, app d.id, same_iff c.id d.id) in
      (
        r',
        sv,
        save_refused es cfg' ans' r' d (length (history r.store d.id)) nd kd (λ e. omega (
          arith,
          e,
          ap length grown,
          ap (λ k. length (history r.store k)) i,
          length-append (history r.store c.id) us,
          length-pos us nc,
        )),
      )
