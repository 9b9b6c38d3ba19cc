-- ===== src/Store/Following.antt =====
-- The chats that users hold in memory follow the stored histories.
use mathlib.Core.Path.{subst}
use flowra.Base.{
  ℕ, ◌≤◌, Uuid, same_iff, is_empty, Bool, false, Bool-cases, List, [], ◌∷◌, ◌++◌, ◌≡◌, ◌≢◌, refl,
  sym, ap, inl, inr, arith, ok, length, length-append, length-pos,
}
use flowra.Chat.Types.{ChatType, Event, Chat, Env}
use flowra.Chat.Apply.{apply_event}
use flowra.Chat.Methods.{raise, new_chat}
use flowra.Chat.Lifecycle.{Call, step, after}
use flowra.Chat.Versions.{new_chat-IsNumbered, step-Raises, Raises-IsNumbered}
use flowra.Store.Events.{EventStore}
use flowra.Store.Histories.{BeginsCreated, IsHistory}
use flowra.Store.Repository.{Config, load, load_empty_lem}
use flowra.Store.Saving.{Appended}
use flowra.Store.RoundTrip.{load-Tracks, load_missing}
use flowra.Store.Sessions.{StartsChat, IsSession}

pub StartsChat-append : (xs ys : List Event) → StartsChat xs → StartsChat (xs ++ ys)
StartsChat-append [] ys h = absurd h
StartsChat-append (x ∷ xs) ys h = h

pub StartsChat-ne : (xs : List Event) → StartsChat xs → xs ≢ []
StartsChat-ne [] h e = absurd h
StartsChat-ne (x ∷ xs) h e = cc

pub begins-append :
    (xs ys : List Event) → BeginsCreated xs → (xs ≡ [] → StartsChat ys) → BeginsCreated (xs ++ ys)
begins-append [] [] b h = tt
begins-append [] (y ∷ ys) b h = h refl
begins-append (x ∷ xs) ys b h = b

pub new_chat-StartsChat :
    (env env' : Env) (ws : Uuid) (ty : ChatType) (pub' : Bool) (by : Uuid) {c : Chat}
    → new_chat env env' ws ty pub' by ≡ ok c
    → StartsChat c.uncommitted_events
unfolding new_chat raise apply_event
new_chat-StartsChat env env' ws ty pub' by h = ground arith

module _ (es : EventStore) (cfg : Config) where
  open es use {State, history}

  pub create-IsSession :
      (s : State) (env env' : Env) (ws : Uuid) (ty : ChatType) (pub' : Bool) (by : Uuid) (c : Chat)
      → new_chat env env' ws ty pub' by ≡ ok c
      → IsSession es cfg s c
  create-IsSession s env env' ws ty pub' by c h = record {
    base = 0;
    numbered_from = (new_chat-IsNumbered env env' ws ty pub' by h).0;
    reached = omega arith;
    starts = inr (new_chat-StartsChat env env' ws ty pub' by h);
  }

  pub load-IsSession :
      (clock : Event → ℕ) (s : State) (id : Uuid) (c : Chat)
      → ((j : Uuid) → IsHistory j (history s j))
      → load es clock s id ≡ ok c
      → IsSession es cfg s c
  load-IsSession clock s id c w l = elim (Bool-cases (is_empty id)) [
    | inl h ↦ cc (load_empty_lem es clock s id h)
    | inr h ↦ by_history h (history s id) refl
  ]
    where
      by_history :
          is_empty id ≡ false → (evs : List Event) → history s id ≡ evs → IsSession es cfg s c
      by_history h [] e = cc (load_missing es clock s id h e)
      by_history h (x ∷ evs) e =
          let filled : history s id ≢ [] = λ z. cc in
          let (d, ld, i, u, t) = load-Tracks es clock s id h filled (w id) in
          let same_chat : d ≡ c = cc in
          subst (IsSession es cfg s) same_chat (record {
            base = length (history s id);
            numbered_from = t.numbering;
            reached = omega (arith, ap (λ j. length (history s j)) i);
            starts = inl (length-pos (history s id) filled);
          })

  pub call-IsSession :
      (s : State) (c : Chat) (env : Env) (call : Call)
      → IsSession es cfg s c
      → IsSession es cfg s (after c (step env call c))
  call-IsSession s c env call v = elim (step-Raises env call c) [
    | inl e ↦ subst (IsSession es cfg s) (sym e) v
    | inr (e, r) ↦ record {
      base = v.base;
      numbered_from = Raises-IsNumbered v.base c (after c (step env call c)) e r v.numbered_from;
      reached = subst (λ i. v.base ≤ length (history s i)) (sym r.kept_id) v.reached;
      starts = elim v.starts [
        | inl h ↦ inl h
        | inr h ↦
            inr (
              subst StartsChat (sym r.appended) (StartsChat-append c.uncommitted_events (e ∷ []) h))
      ];
    }
  ]

  pub Appended-IsSession :
      (s t : State) (c d : Chat) → Appended es s c t → IsSession es cfg s d → IsSession es cfg t d
  Appended-IsSession s t c d app v = record {
    base = v.base;
    numbered_from = v.numbered_from;
    reached = ground (
      arith,
      v.reached,
      app d.id,
      same_iff c.id d.id,
      length-append (history s c.id) c.uncommitted_events,
    );
    starts = v.starts;
  }
