-- ===== src/Store/Interleaving.antt =====
-- Whatever the users of the repository do, and however their steps interleave, the stored histories
-- stay well formed.
use mathlib.Core.Path.{subst}
use flowra.Base.{ℕ, ◌==◌, Uuid, Bool-cases, Option, none, some, [], ◌≡◌, refl, sym, inl, inr, arith}
use flowra.Chat.Types.{Chat}
use flowra.Chat.Lifecycle.{step, after}
use flowra.Store.Events.{EventStore}
use flowra.Store.Histories.{IsHistory}
use flowra.Store.Repository.{Config}
use flowra.Store.Sessions.{
  World, holding, Step, create, open_chat, call_method, commit, Reach, start, next, IsSession,
  Follows, IsSound,
}
use flowra.Store.Following.{create-IsSession, load-IsSession, call-IsSession, Appended-IsSession}
use flowra.Store.Committing.{save-IsCommitted}

module _ (es : EventStore) (cfg : Config) where
  open es use {State, history}

  Follows-some :
      (s : State) (o : Option Chat) (c : Chat)
      → Follows es cfg s o
      → o ≡ some c
      → IsSession es cfg s c
  Follows-some s none c f e = cc
  Follows-some s (some d) c f e =
      let same_chat : d ≡ c = ground arith in subst (IsSession es cfg s) same_chat f

  some-Follows :
      (s : State) (o : Option Chat)
      → ((c : Chat) → o ≡ some c → IsSession es cfg s c)
      → Follows es cfg s o
  some-Follows s none f = tt
  some-Follows s (some c) f = f c refl

  one_follows :
      (w : World es cfg)
      → IsSound es cfg w
      → (k : ℕ) (c : Chat) → w.sessions k ≡ some c
      → IsSession es cfg w.repo.store c
  one_follows w v k c e = Follows-some w.repo.store (w.sessions k) c (v.sessions_follow k) e

  put-session :
      (w : World es cfg) (s : State) (k : ℕ) (c : Chat)
      → ((j : ℕ) (d : Chat) → w.sessions j ≡ some d → IsSession es cfg s d)
      → IsSession es cfg s c
      → (j : ℕ) → Follows es cfg s (holding es cfg w k c j)
  put-session w s k c old new j = some-Follows s (holding es cfg w k c j) (λ d e.
      elim (Bool-cases (k == j)) [
        | inl h ↦ let same_chat : c ≡ d = ground arith in subst (IsSession es cfg s) same_chat new
        | inr h ↦ old j d (ground arith)
      ])

  Step-IsSound : {w w' : World es cfg} → Step es cfg w w' → IsSound es cfg w → IsSound es cfg w'
  Step-IsSound {w} {w'} (create k env env' ws ty pub' by c n fresh e) v =
      subst (IsSound es cfg) (sym e) (record {
        histories = v.histories;
        sessions_follow =
            put-session w w.repo.store k c (one_follows w v)
              (create-IsSession es cfg w.repo.store env env' ws ty pub' by c n);
      })
  Step-IsSound {w} {w'} (open_chat k clock id c l e) v = subst (IsSound es cfg) (sym e) (record {
    histories = v.histories;
    sessions_follow =
        put-session w w.repo.store k c (one_follows w v)
          (load-IsSession es cfg clock w.repo.store id c v.histories l);
  })
  Step-IsSound {w} {w'} (call_method k c env call s e) v = subst (IsSound es cfg) (sym e) (record {
    histories = v.histories;
    sessions_follow =
        put-session w w.repo.store k (after c (step env call c)) (one_follows w v)
          (call-IsSession es cfg w.repo.store c env call (one_follows w v k c s));
  })
  Step-IsSound {w} {w'} (commit k c ans r' c' s sv e) v =
      let done =
        save-IsCommitted es cfg ans w.repo r' c c' sv v.histories (one_follows w v k c s) in
      subst (IsSound es cfg) (sym e) (record {
        histories = done.still_histories;
        sessions_follow =
            put-session w r'.store k c'
              (λ j d g.
                Appended-IsSession es cfg w.repo.store r'.store c d done.appends
                  (one_follows w v j d g))
              done.still_session;
      })

  -- From an empty store with no open chat, whatever steps the users make and however they interleave,
  -- each stored history begins with ChatCreated and its events are numbered 1, 2, 3 and so on under
  -- their chat's identity; and every chat in memory follows a version that its history has reached.
  pub Reach-IsSound :
      {w w' : World es cfg}
      → ((id : Uuid) → history w.repo.store id ≡ [])
      → ((k : ℕ) → w.sessions k ≡ none)
      → Reach es cfg w w'
      → IsSound es cfg w'
  Reach-IsSound {w} empty idle start = record {
    histories = λ id. subst (IsHistory id) (sym (empty id)) (record { begins = tt; numbered = tt });
    sessions_follow = λ k. subst (Follows es cfg w.repo.store) (sym (idle k)) tt;
  }
  Reach-IsSound empty idle (next r st) = Step-IsSound st (Reach-IsSound empty idle r)
