-- ===== src/Chat/Versions.antt =====
-- The versions of a chat and of its events.
use flowra.Base.{
  ℕ, ◌+◌, Uuid, Bool, List, [], ◌∷◌, ◌++◌, ◌≡◌, refl, sym, ap, ◌⊎◌, inl, inr, arith, ok, length,
  length-append,
}
use mathlib.Core.Path.{subst}
use flowra.Chat.Types.{ChatType, Metadata, Payload, Event, Chat, Env, participant_removed}
use flowra.Chat.Apply.{apply_payload, apply_event}
use flowra.Chat.Methods.{raise, new_chat}
use flowra.Chat.Lifecycle.{Call, step, after, run}
use flowra.Chat.Steps.{step_cases, run_cases}
use flowra.Chat.Replay.{uncommitted-apply_event}

-- The events of the chat `id` that follow version `n`, one version apart.
abbrev pub Numbered : Uuid → ℕ → List Event → Type 0
Numbered id n [] = Unit {0}
Numbered id n (e ∷ es) = (e.aggregate_id ≡ id) × (e.version ≡ n + 1) × Numbered id (n + 1) es

pub Numbered-append :
    (id : Uuid) (n : ℕ) (xs ys : List Event)
    → Numbered id n xs
    → Numbered id (n + length xs) ys
    → Numbered id n (xs ++ ys)
Numbered-append id n [] ys hx hy = subst (λ k. Numbered id k ys) (omega arith) hy
Numbered-append id n (x ∷ xs) ys hx hy = (
  hx.0,
  hx.1,
  Numbered-append id (n + 1) xs ys hx.2 (subst (λ k. Numbered id k ys) (omega arith) hy),
)

-- The unsaved events of `c` follow version `n`, and the chat has the version of the last of them.
pub record IsNumbered (n : ℕ) (c : Chat) : Type 0 where
  pub events_numbered : Numbered c.id n c.uncommitted_events
  pub version_counts : c.version ≡ n + length c.uncommitted_events

payload_id :
    (now : ℕ) (e : Event) (p : Payload) (c : Chat)
    → c.id ≡ e.aggregate_id
    → ((apply_payload now e p c).id ≡ c.id) × ((apply_payload now e p c).version ≡ e.version)
unfolding apply_payload
payload_id now e (participant_removed u) c h = (refl, refl)
payload_id now e p c h = ground arith

pub apply_event_id :
    (now : ℕ) (e : Event) (c : Chat)
    → c.id ≡ e.aggregate_id
    → ((apply_event now e c).id ≡ c.id) × ((apply_event now e c).version ≡ e.version)
unfolding apply_event
apply_event_id now e c h = payload_id now e e.payload c h

-- A raised event is the only new one, carries the chat's identity and has its next version.
pub record Raises (c d : Chat) (e : Event) : Type 0 where
  pub appended : d.uncommitted_events ≡ c.uncommitted_events ++ e ∷ []
  pub event_id : e.aggregate_id ≡ c.id
  pub event_version : e.version ≡ c.version + 1
  pub new_version : d.version ≡ c.version + 1
  pub kept_id : d.id ≡ c.id

raise-Raises :
    (env : Env) (m : Metadata) (p : Payload) (c : Chat)
    → (e : Event) × (e.payload ≡ p) × Raises c (raise env m p c) e
unfolding raise
raise-Raises env m p c =
    let e : Event = record {
      aggregate_id = c.id;
      version = c.version + 1;
      occurred_at = env.occurred_at;
      metadata = m;
      payload = p;
    } in
    (
      e,
      refl,
      record {
        appended = uncommitted-apply_event env.joined_at e c;
        event_id = refl;
        event_version = refl;
        new_version = (apply_event_id env.joined_at e c refl).1;
        kept_id = (apply_event_id env.joined_at e c refl).0;
      },
    )

pub Raises-IsNumbered :
    (n : ℕ) (c d : Chat) (e : Event) → Raises c d e → IsNumbered n c → IsNumbered n d
Raises-IsNumbered n c d e r h = record {
  events_numbered =
      subst (λ i. Numbered i n d.uncommitted_events) (sym r.kept_id)
        (subst (Numbered c.id n) (sym r.appended) (
          Numbered-append c.id n c.uncommitted_events (e ∷ []) h.events_numbered
            (r.event_id, omega (arith, r.event_version, h.version_counts), tt)));
  version_counts = omega (
    arith,
    r.new_version,
    h.version_counts,
    ap length r.appended,
    length-append c.uncommitted_events (e ∷ []),
  );
}

pub raise-IsNumbered :
    (n : ℕ) (env : Env) (m : Metadata) (p : Payload) (c : Chat)
    → IsNumbered n c
    → IsNumbered n (raise env m p c)
raise-IsNumbered n env m p c h =
    let (e, _, r) = raise-Raises env m p c in Raises-IsNumbered n c (raise env m p c) e r h

-- A call leaves the chat as it was, or adds one event: the event carries the chat's identity, and the
-- event and the chat have the next version.
pub step-Raises :
    (env : Env) (call : Call) (c : Chat)
    → let d = after c (step env call c) in (d ≡ c) ⊎ ((e : Event) × Raises c d e)
step-Raises env call c =
    step_cases (λ d. (d ≡ c) ⊎ ((e : Event) × Raises c d e)) env c (inl refl)
      (λ m p _. let (e, _, r) = raise-Raises env m p c in inr (e, r)) call

-- After any calls on a chat that has no unsaved events, its unsaved events are numbered from the
-- version that the chat had, one apart, and its version is that of the last one.
pub run-IsNumbered :
    (calls : List (Env × Call)) (c : Chat)
    → c.uncommitted_events ≡ []
    → IsNumbered c.version (run calls c)
run-IsNumbered calls c h =
    run_cases (IsNumbered c.version) (λ env m p d _ k. raise-IsNumbered c.version env m p d k) calls
      c
      (record {
        events_numbered = subst (Numbered c.id c.version) (sym h) tt;
        version_counts = omega (arith, ap length h);
      })

pub new_chat-IsNumbered :
    (env env' : Env) (ws : Uuid) (ty : ChatType) (pub' : Bool) (by : Uuid) {c : Chat}
    → new_chat env env' ws ty pub' by ≡ ok c
    → IsNumbered 0 c × (c.version ≡ 2) × (c.id ≡ env.new_id)
unfolding new_chat raise apply_event
new_chat-IsNumbered env env' ws ty pub' by h = ground arith
