-- ===== src/Store/Delivery.antt =====
-- What an accepted save hands on to the read model, the repair queue, the outbox and the event bus.
use flowra.Base.{
  is_empty, Bool, ◌&&◌, not, List, [], ◌∷◌, ◌++◌, ◌≡◌, ◌≢◌, refl, sym, ◌∙◌, ap, arith, Result, ok,
  err, length, sub_ℕ, if◌then◌else◌, keep,
}
use mathlib.Core.Path.{subst}
use flowra.Chat.Types.{Event, Chat}
use flowra.Store.Events.{EventStore, StoreError, concurrency_conflict, aggregate_not_found}
use flowra.Store.ReadModel.{build_mutation}
use flowra.Store.Repository.{
  Config, Answers, Repo, accepted, with_read_model, with_delivery, save, stored, save_some_lem,
}

module _ (es : EventStore) where
  -- The chat's update reaches the read model, if the chat has an identity and the database takes it.
  abbrev pub updates_read_model : Answers → Chat → Bool
  updates_read_model ans c = not (is_empty c.id) && ans.read_model_updated

  pub record IsDelivered (cfg : Config) (ans : Answers) (r r' : Repo es) (c : Chat) : Type 0 where
    pub to_outbox : r'.outbox ≡ (
        if cfg.has_outbox && ans.outbox_added then r.outbox ++ c.uncommitted_events else r.outbox)
    pub to_bus : r'.bus ≡ (
        if not cfg.has_outbox && cfg.has_event_bus
        then r.bus ++ keep ans.published c.uncommitted_events
        else r.bus)
    pub to_read_model :
        r'.updates ≡ (if updates_read_model ans c then build_mutation c ∷ r.updates else r.updates)
    pub to_repair : r'.repairs ≡ (
        if not (updates_read_model ans c) && (cfg.has_repair_queue && ans.repair_added)
        then c.id ∷ r.repairs
        else r.repairs)

  accepted-IsDelivered :
      (cfg : Config) (ans : Answers) (r : Repo es) (c : Chat) (t : es.State)
      → IsDelivered cfg ans r (accepted es cfg ans r c t) c
  unfolding with_read_model with_delivery
  accepted-IsDelivered cfg ans r c t = record {
    to_outbox = ground arith;
    to_bus = ground arith;
    to_read_model = ground arith;
    to_repair = ground arith;
  }

  -- What an accepted save of unsaved events has handed on, by the answers of the other collaborators.
  -- With an outbox the events go there, all and in order, or none if it refuses, and never to the bus;
  -- without one those that the bus takes go there. The read model gets the chat's update, or else the
  -- repair queue, where there is one that takes it, a task for the chat.
  pub save-IsDelivered :
      (cfg : Config) (ans : Answers) (r r' : Repo es) (c c' : Chat)
      → c.uncommitted_events ≢ []
      → save es cfg ans r c ≡ ok (r', c')
      → IsDelivered cfg ans r r' c
  unfolding stored
  save-IsDelivered cfg ans r r' c c' ne sv = by_events c.uncommitted_events refl
    where
      by_result :
          (x : Event) (evs : List Event)
          → c.uncommitted_events ≡ x ∷ evs
          → (res : Result StoreError es.State)
          → es.save_events r.store c.id (x ∷ evs) (sub_ℕ c.version (length (x ∷ evs))) ≡ res
          → IsDelivered cfg ans r r' c
      by_result x evs e (ok t) h =
          let whole =
            sym (save_some_lem es cfg ans r c x evs e ∙ ap (stored es cfg ans r c) h) ∙ sv in
          let same_repo : accepted es cfg ans r c t ≡ r' = cc in
          subst (λ q. IsDelivered cfg ans r q c) same_repo (accepted-IsDelivered cfg ans r c t)
      by_result x evs e (err concurrency_conflict) h =
          let whole =
            sym (save_some_lem es cfg ans r c x evs e ∙ ap (stored es cfg ans r c) h) ∙ sv in
          cc whole
      by_result x evs e (err aggregate_not_found) h =
          let whole =
            sym (save_some_lem es cfg ans r c x evs e ∙ ap (stored es cfg ans r c) h) ∙ sv in
          cc whole

      by_events : (evs : List Event) → c.uncommitted_events ≡ evs → IsDelivered cfg ans r r' c
      by_events [] e = absurd (ne e)
      by_events (x ∷ evs) e = by_result x evs e _ refl
