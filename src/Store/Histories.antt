-- ===== src/Store/Histories.antt =====
-- The histories that the repository writes: they begin with ChatCreated and are numbered from 1. The
-- chat restored from one has its identity and its last version.
use flowra.Base.{
  ℕ, ◌+◌, Uuid, Bool, true, false, List, [], ◌∷◌, ◌++◌, ◌≡◌, refl, sym, ap, ◌∙◌, arith, length,
  length-append,
}
use mathlib.Core.Path.{subst}
use flowra.Chat.Types.{Payload, created, Event, Chat, empty_chat, participant_removed}
use flowra.Chat.Apply.{apply_payload, apply, apply_all, replay, mark_events_as_committed}
use flowra.Chat.Versions.{Numbered, Numbered-append, IsNumbered}
use flowra.Chat.Replay.{Replays, forget, apply_all-append}

abbrev pub is_created : Payload → Bool
is_created (created ws ty pub' by at) = true
is_created _ = false

abbrev pub BeginsCreated : List Event → Type 0
BeginsCreated [] = Unit {0}
BeginsCreated (e ∷ es) = is_created e.payload ≡ true

-- The saved events of one chat.
pub record IsHistory (id : Uuid) (es : List Event) : Type 0 where
  pub begins : BeginsCreated es
  pub numbered : Numbered id 0 es

pub begins-append : (xs ys : List Event) → BeginsCreated (xs ++ ys) → BeginsCreated xs
begins-append [] ys h = tt
begins-append (x ∷ xs) ys h = h

payload_id :
    (now : ℕ) (e : Event) (p : Payload) (c : Chat)
    → c.id ≡ e.aggregate_id
    → ((apply_payload now e p c).id ≡ e.aggregate_id)
      × ((apply_payload now e p c).version ≡ e.version)
      × ((apply_payload now e p c).uncommitted_events ≡ c.uncommitted_events)
unfolding apply_payload
payload_id now e (participant_removed u) c h = (h, refl, refl)
payload_id now e p c h = ground arith

-- The identity and version after the events of a chat that follow its version.
pub apply_all_id :
    (clock : Event → ℕ) (id : Uuid) (es : List Event) (c : Chat) (n : ℕ)
    → c.id ≡ id
    → c.version ≡ n
    → Numbered id n es
    → let d = apply_all clock es c in
      (d.id ≡ id) × (d.version ≡ n + length es) × (d.uncommitted_events ≡ c.uncommitted_events)
unfolding apply_all apply
apply_all_id clock id [] c n hi hv h = (hi, omega (arith, hv), refl)
apply_all_id clock id (e ∷ es) c n hi hv h =
    let (ai, av, au) = payload_id (clock e) e e.payload c (hi ∙ sym h.0) in
    let (i, v, u) =
      apply_all_id clock id es (apply (clock e) e c) (n + 1) (ai ∙ h.0) (av ∙ h.1) h.2 in
    (i, omega (arith, v), u ∙ au)

created_first :
    (now : ℕ) (e : Event) (p : Payload)
    → is_created p ≡ true
    → ((apply_payload now e p empty_chat).id ≡ e.aggregate_id)
      × ((apply_payload now e p empty_chat).version ≡ e.version)
      × ((apply_payload now e p empty_chat).uncommitted_events ≡ [])
unfolding apply_payload
created_first now e (created ws ty pub' by at) h = (refl, refl, refl)
created_first now e p h = absurd (ground arith)

-- The chat restored from a history that is not empty has its identity and its length as version.
pub replay_id :
    (clock : Event → ℕ) (id : Uuid) (e : Event) (es : List Event)
    → IsHistory id (e ∷ es)
    → let d = replay clock (e ∷ es) in
      (d.id ≡ id) × (d.version ≡ length (e ∷ es)) × (d.uncommitted_events ≡ [])
unfolding replay apply_all apply
replay_id clock id e es h =
    let (ai, av, au) = created_first (clock e) e e.payload h.begins in
    let (i, v, u) =
      apply_all_id clock id es (apply (clock e) e empty_chat) (0 + 1) (ai ∙ h.numbered.0)
        (av ∙ h.numbered.1) h.numbered.2 in
    (i, omega (arith, v), u ∙ au)

-- The chat in memory is the one that its saved and unsaved events restore, and its unsaved events
-- follow the saved ones.
pub record Tracks (clock : Event → ℕ) (hist : List Event) (c : Chat) : Type 0 where
  pub numbering : IsNumbered (length hist) c
  pub restores : Replays clock (replay clock hist) c

pub Tracks-saved :
    (clock : Event → ℕ) (hist : List Event) (c : Chat)
    → Tracks clock hist c
    → Tracks clock (hist ++ c.uncommitted_events) (mark_events_as_committed c)
unfolding apply_all replay
Tracks-saved clock hist c t = record {
  numbering = record {
    events_numbered = tt;
    version_counts =
        omega (arith, t.numbering.version_counts, length-append hist c.uncommitted_events);
  };
  restores =
      t.restores ∙ ap forget (sym (apply_all-append clock hist c.uncommitted_events empty_chat));
}

-- What the chat's own events add to its history is again a history.
pub saved-IsHistory :
    (clock : Event → ℕ) (hist : List Event) (c : Chat)
    → BeginsCreated (hist ++ c.uncommitted_events)
    → Numbered c.id 0 hist
    → Tracks clock hist c
    → IsHistory c.id (hist ++ c.uncommitted_events)
saved-IsHistory clock hist c b n t = record {
  begins = b;
  numbered =
      Numbered-append c.id 0 hist c.uncommitted_events n (
        subst (λ k. Numbered c.id k c.uncommitted_events) (omega arith)
          t.numbering.events_numbered);
}

-- A chat that tracks its history is what its saved and unsaved events together restore.
pub Tracks-forget :
    (clock : Event → ℕ) (hist : List Event) (c : Chat)
    → Tracks clock hist c
    → forget c ≡ forget (replay clock (hist ++ c.uncommitted_events))
unfolding replay
Tracks-forget clock hist c t =
    t.restores ∙ ap forget (sym (apply_all-append clock hist c.uncommitted_events empty_chat))
