-- ===== src/Batcher/Lost.antt =====
-- What ChangeBatcher.cleanupAbandonedBatches (internal/service/change_batcher.go) drops, and that no two batches have one key.
use flowra.Base.{
  ℕ, ◌-◌, Bool, All, not, keep, ltb, ltb→lt, if-elim, Uuid, same_iff, none, List, [], ◌∷◌, ◌++◌,
  ◌≡◌, refl, arith, if◌then◌else◌, append-nil, Bool-cases, inl, inr,
}
use flowra.Batcher.Formats.{PendingBatch}
use flowra.Batcher.Batches.{has_key, abandoned_after, find, put}
use flowra.Batcher.Told.{
  dropped, Ended, batch_of, ended_under, messages_of, IsAbandoned, changes_of, Unique, has_key_iff,
  find-put,
}

pub put-Unique : (bs : List PendingBatch) (b : PendingBatch) → Unique bs → Unique (put bs b)
unfolding put
put-Unique [] b u = (unfold find in refl, tt)
put-Unique (x ∷ bs) b u =
    if-elim Unique (has_key x b.actor_id b.chat_id) (b ∷ bs) (x ∷ put bs b)
      (λ h. (ground (arith, u.0, has_key_iff x b.actor_id b.chat_id h), u.1))
      (λ h. (
        ground (
          arith,
          find-put bs b x.actor_id x.chat_id,
          u.0,
          same_iff x.actor_id b.actor_id,
          same_iff x.chat_id b.chat_id,
          same_iff b.actor_id x.actor_id,
          same_iff b.chat_id x.chat_id,
        ),
        put-Unique bs b u.1,
      ))

-- What is not there is not there among fewer.
find-keep :
    (p : PendingBatch → Bool) (bs : List PendingBatch) (a c : Uuid)
    → find bs a c ≡ none
    → find (keep p bs) a c ≡ none
unfolding find
find-keep p [] a c h = refl
find-keep p (x ∷ bs) a c h = ground (arith, find-keep p bs a c)

pub keep-Unique :
    (p : PendingBatch → Bool) (bs : List PendingBatch) → Unique bs → Unique (keep p bs)
keep-Unique p [] u = tt
keep-Unique p (x ∷ bs) u =
    if-elim Unique (p x) (x ∷ keep p bs) (keep p bs)
      (λ h. (find-keep p bs x.actor_id x.chat_id u.0, keep-Unique p bs u.1))
      (λ h. keep-Unique p bs u.1)

-- The batches that a clean-up drops.
unfoldable pub lost : ℕ → List PendingBatch → List Ended
lost now [] = []
lost now (b ∷ bs) =
    let rest = lost now bs in
    if ltb abandoned_after (now - b.last_time) then dropped now b ∷ rest else rest

pub lost-messages : (now : ℕ) (bs : List PendingBatch) → messages_of (lost now bs) ≡ []
unfolding messages_of lost
lost-messages now [] = refl
lost-messages now (b ∷ bs) = ground (arith, lost-messages now bs)

pub lost-IsAbandoned : (now : ℕ) (bs : List PendingBatch) → All IsAbandoned (lost now bs)
unfolding lost
lost-IsAbandoned now [] = tt
lost-IsAbandoned now (b ∷ bs) =
    if-elim (All IsAbandoned) (ltb abandoned_after (now - b.last_time))
      (dropped now b ∷ lost now bs) (lost now bs)
      (λ h. (ltb→lt abandoned_after (now - b.last_time) h, lost-IsAbandoned now bs))
      (λ h. lost-IsAbandoned now bs)

lost-none :
    (now : ℕ) (bs : List PendingBatch) (a c : Uuid)
    → find bs a c ≡ none
    → ended_under (lost now bs) a c ≡ []
unfolding lost find ended_under batch_of
lost-none now [] a c h = refl
lost-none now (b ∷ bs) a c h = ground (arith, lost-none now bs a c)

-- What waited under a key is dropped or waits on.
pub lost-find :
    (now : ℕ) (bs : List PendingBatch) (a c : Uuid)
    → Unique bs
    → ended_under (lost now bs) a c
        ++ changes_of (find (keep (λ b. not (ltb abandoned_after (now - b.last_time))) bs) a c)
      ≡ changes_of (find bs a c)
unfolding lost find ended_under batch_of
lost-find now [] a c u = refl
lost-find now (b ∷ bs) a c u = elim (Bool-cases (has_key b a c)) [
  | inl h ↦
      let gone : find bs a c ≡ none = ground (arith, u.0, has_key_iff b a c h) in
      ground (
        arith,
        lost-none now bs a c gone,
        find-keep (λ b. not (ltb abandoned_after (now - b.last_time))) bs a c gone,
        append-nil b.changes,
      )
  | inr h ↦ ground (arith, lost-find now bs a c u.1)
]
