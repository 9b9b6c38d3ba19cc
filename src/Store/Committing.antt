-- ===== src/Store/Committing.antt =====
-- A save keeps the stored histories and the chat that was saved in step.
use mathlib.Core.Path.{subst}
use mathlib.Core.List.{append-nil}
use native.Mathlib.Decide.{ℕ_discrete}
use flowra.Base.{
  ◌+◌, Uuid, same, same_iff, same_refl, Bool-cases, List, [], ◌∷◌, ◌++◌, ◌≡◌, ◌≢◌, refl, sym, ap,
  inl, inr, arith, ok, length, length-append, length-pos,
}
use flowra.Chat.Types.{Event, Chat}
use flowra.Chat.Apply.{mark_events_as_committed}
use flowra.Chat.Versions.{Numbered, Numbered-append, IsNumbered}
use flowra.Store.Events.{EventStore}
use flowra.Store.Histories.{IsHistory}
use flowra.Store.Repository.{Config, Answers, Repo, save, save_none_lem}
use flowra.Store.Saving.{Appended, save_accepted, save_refused}
use flowra.Store.Sessions.{StartsChat, IsSession}
use flowra.Store.Following.{StartsChat-ne, begins-append}

module _ (es : EventStore) (cfg : Config) where
  open es use {State, history}

  -- An accepted save appends the session's events to a history that they continue.
  pub record IsCommitted (s t : State) (c c' : Chat) : Type 0 where
    pub appends : Appended es s c t
    pub still_histories : (j : Uuid) → IsHistory j (history t j)
    pub still_session : IsSession es cfg t c'

  pub Appended-IsHistory :
      (s t : State) (c : Chat)
      → Appended es s c t
      → ((j : Uuid) → IsHistory j (history s j))
      → (v : IsSession es cfg s c) → v.base ≡ length (history s c.id)
      → (j : Uuid) → IsHistory j (history t j)
  Appended-IsHistory s t c app w v cur j = elim (Bool-cases (same c.id j)) [
    | inl h ↦
        let e : c.id ≡ j = (same_iff c.id j).0 h in
        let eq : history t j ≡ history s c.id ++ c.uncommitted_events = ground (arith, app j) in
        subst (IsHistory j) (sym eq)
          (subst (λ i. IsHistory i (history s c.id ++ c.uncommitted_events)) e whole)
    | inr h ↦
        let eq : history t j ≡ history s j = ground (arith, app j) in
        subst (IsHistory j) (sym eq) (w j)
  ]
    where
      whole : IsHistory c.id (history s c.id ++ c.uncommitted_events)
      whole = record {
        begins =
            begins-append (history s c.id) c.uncommitted_events (w c.id).begins (elim v.starts [
              | inl h ↦ λ e. absurd (omega (arith, h, cur, ap length e))
              | inr h ↦ λ _. h
            ]);
        numbered = Numbered-append c.id 0 (history s c.id) c.uncommitted_events (w c.id).numbered (
            subst (λ k. Numbered c.id k c.uncommitted_events) (omega (arith, cur))
              v.numbered_from.events_numbered);
      }

  pub accepted-IsCommitted :
      (s t : State) (c : Chat)
      → Appended es s c t
      → ((j : Uuid) → IsHistory j (history s j))
      → (v : IsSession es cfg s c) → v.base ≡ length (history s c.id)
      → IsCommitted s t c (mark_events_as_committed c)
  accepted-IsCommitted s t c app w v cur =
      let eq : history t c.id ≡ history s c.id ++ c.uncommitted_events =
        ground (arith, app c.id, same_refl c.id) in
      let grown : length (history t c.id) ≡ v.base + length c.uncommitted_events =
        omega (arith, cur, ap length eq, length-append (history s c.id) c.uncommitted_events) in
      record {
        appends = app;
        still_histories = Appended-IsHistory s t c app w v cur;
        still_session = record {
          base = length (history t c.id);
          numbered_from = record {
            events_numbered = tt;
            version_counts = omega (arith, grown, v.numbered_from.version_counts);
          };
          reached = omega arith;
          starts = elim v.starts [
            | inl h ↦ inl (omega (arith, grown, h))
            | inr h ↦ inl (
                omega (
                  arith,
                  grown,
                  length-pos c.uncommitted_events (StartsChat-ne c.uncommitted_events h),
                ))
          ];
        };
      }

  pub unsaved-IsCommitted :
      (s : State) (c : Chat)
      → c.uncommitted_events ≡ []
      → ((j : Uuid) → IsHistory j (history s j))
      → (v : IsSession es cfg s c) → IsCommitted s s c (mark_events_as_committed c)
  unsaved-IsCommitted s c e w v = record {
    appends = λ j. ground (arith, e, same_iff c.id j, append-nil (history s c.id));
    still_histories = w;
    still_session = record {
      base = v.base;
      numbered_from = record {
        events_numbered = tt;
        version_counts = omega (arith, v.numbered_from.version_counts, ap length e);
      };
      reached = v.reached;
      starts = elim v.starts [ inl h ↦ inl h | inr h ↦ absurd (subst StartsChat e h) ];
    };
  }

  pub save-IsCommitted :
      (ans : Answers) (r r' : Repo es) (c c' : Chat)
      → save es cfg ans r c ≡ ok (r', c')
      → ((j : Uuid) → IsHistory j (history r.store j))
      → IsSession es cfg r.store c
      → IsCommitted r.store r'.store c c'
  save-IsCommitted ans r r' c c' sv w v = elim (ℕ_discrete v.base (length (history r.store c.id))) [
    | yes cur ↦
        let (q, acc, app) =
          save_accepted es cfg ans r c (subst (λ n. IsNumbered n c) cur v.numbered_from) in
        let same_repo : q ≡ r' = cc in
        let same_chat : mark_events_as_committed c ≡ c' = cc in
        subst (λ x. IsCommitted r.store x.store c c') same_repo
          (subst (IsCommitted r.store q.store c) same_chat
            (accepted-IsCommitted r.store q.store c app w v cur))
    | no stale ↦ by_events stale c.uncommitted_events refl
  ]
    where
      by_events :
          v.base ≢ length (history r.store c.id)
          → (evs : List Event) → c.uncommitted_events ≡ evs
          → IsCommitted r.store r'.store c c'
      by_events stale [] e =
          let unsaved = save_none_lem es cfg ans r c e in
          let same_repo : r ≡ r' = cc in
          let same_chat : mark_events_as_committed c ≡ c' = cc in
          subst (λ x. IsCommitted r.store x.store c c') same_repo
            (subst (IsCommitted r.store r.store c) same_chat (unsaved-IsCommitted r.store c e w v))
      by_events stale (x ∷ evs) e =
          cc (save_refused es cfg ans r c v.base (λ z. cc) v.numbered_from stale)
