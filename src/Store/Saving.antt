-- ===== src/Store/Saving.antt =====
-- The repository over any event store: a save is accepted exactly at the version that the chat was
-- loaded at, and what is saved is what is loaded.
use mathlib.Core.Path.{subst}
use mathlib.Core.List.{append-nil}
use flowra.Base.{
  ℕ, ◌+◌, ◌==◌, Uuid, same, same_iff, false, List, [], ◌∷◌, ◌++◌, ◌≡◌, ◌≢◌, refl, sym, ap, ◌∙◌,
  arith, ok, err, length, sub_ℕ, equals_ℕ, if◌then◌else◌,
}
use flowra.Errs.{concurrent_modification}
use flowra.Chat.Types.{Event, Chat}
use flowra.Chat.Apply.{mark_events_as_committed}
use flowra.Chat.Versions.{IsNumbered}
use flowra.Store.Events.{EventStore}
use flowra.Store.Repository.{
  Config, Answers, Repo, save, save_none_lem, save_some_lem, accepted, stored, stored_ok_lem,
  store_accepted,
}

-- Save expects the version that precedes the unsaved events.
expected_lem : (version n k : ℕ) (h : ℕ) → version ≡ n + k → equals_ℕ (sub_ℕ version k) h ≡ (n == h)
expected_lem version n k h e = ground arith

module _ (es : EventStore) where
  open es use {State, history, save_events, get_version, save_current, save_stale}

  -- The histories after the events of `c` were appended to its own.
  abbrev pub Appended : State → Chat → State → Type 0
  Appended s c t =
      (j : Uuid)
      → history t j ≡ (if same c.id j then history s c.id ++ c.uncommitted_events else history s j)

  pub save_accepted :
      (cfg : Config) (ans : Answers) (r : Repo es) (c : Chat)
      → IsNumbered (length (history r.store c.id)) c
      → (r' : Repo es) × (save es cfg ans r c ≡ ok (r', mark_events_as_committed c))
        × Appended r.store c r'.store
  save_accepted cfg ans r c n = by_events c.uncommitted_events refl
    where
      by_events :
          (evs : List Event)
          → c.uncommitted_events ≡ evs
          → (r' : Repo es) × (save es cfg ans r c ≡ ok (r', mark_events_as_committed c))
            × Appended r.store c r'.store
      by_events [] e = (
        r,
        save_none_lem es cfg ans r c e,
        λ j. ground (arith, e, same_iff c.id j, append-nil (history r.store c.id)),
      )
      by_events (x ∷ evs) e =
          let counted =
            expected_lem c.version (length (history r.store c.id)) (length c.uncommitted_events)
              (length (history r.store c.id)) n.version_counts in
          let (t, st, app) =
            save_current r.store c.id c.uncommitted_events
              (sub_ℕ c.version (length c.uncommitted_events)) (ground (arith, counted))
              n.events_numbered in
          (
            accepted es cfg ans r c t,
            save_some_lem es cfg ans r c x evs e
                ∙ ap (stored es cfg ans r c) (
                    subst (λ us. save_events r.store c.id us (sub_ℕ c.version (length us)) ≡ ok t) e
                      st)
                ∙ stored_ok_lem es cfg ans r c t,
            λ j.
                subst
                  (λ s. history s j ≡ (
                    if same c.id j
                    then history r.store c.id ++ c.uncommitted_events
                    else history r.store j))
                  (sym (store_accepted es cfg ans r c t)) (app j),
          )

  -- A save of unsaved events at any other version is refused with ErrConcurrentModification.
  pub save_refused :
      (cfg : Config) (ans : Answers) (r : Repo es) (c : Chat) (n : ℕ)
      → c.uncommitted_events ≢ []
      → IsNumbered n c
      → n ≢ length (history r.store c.id)
      → save es cfg ans r c ≡ err concurrent_modification
  unfolding stored
  save_refused cfg ans r c n ne k d = by_events c.uncommitted_events refl
    where
      by_events :
          (evs : List Event)
          → c.uncommitted_events ≡ evs
          → save es cfg ans r c ≡ err concurrent_modification
      by_events [] e = absurd (ne e)
      by_events (x ∷ evs) e =
          let counted =
            expected_lem c.version n (length c.uncommitted_events) (length (history r.store c.id))
              k.version_counts in
          save_some_lem es cfg ans r c x evs e
          ∙ ap (stored es cfg ans r c) (
              save_stale r.store c.id x evs (sub_ℕ c.version (length (x ∷ evs))) (
                subst
                  (λ us.
                    equals_ℕ (sub_ℕ c.version (length us)) (length (history r.store c.id)) ≡ false)
                  e (ground (arith, counted))))
