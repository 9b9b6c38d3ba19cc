-- ===== src/Limiter/Window.antt =====
-- How many requests of one key pass within a window.
use flowra.Base.{
  ℕ, ◌+◌, ◌-◌, ◌≤◌, ◌<◌, Text, same, same_iff, Bool, true, false, Bool-cases, Option, none, some,
  Option-cases, List, [], ◌∷◌, ◌≡◌, refl, ap, ◌∙◌, inl, inr, arith, All, ltb, leb, if◌then◌else◌,
}
use mathlib.Core.Path.{subst, sym}
use flowra.Limiter.Limit.{
  RateLimitEntry, Counts, increment, RateLimitConfig, window_of, total_limit, Request, Outcome,
  passed, limited, is_skipped, rate_limit,
}

-- The request is counted under the key.
abbrev pub is_counted : RateLimitConfig → Text → Request → Bool
is_counted config k r = if is_skipped config r then false else same r.key k

-- How many of the requests are counted under the key.
unfoldable pub counted : RateLimitConfig → Text → List Request → ℕ
counted config k [] = 0
counted config k (r ∷ rs) = (if is_counted config k r then 1 else 0) + counted config k rs

-- 1 for a request that is counted and passes.
abbrev pub pass : Bool → Outcome → ℕ
pass true (passed l n ttl) = 1
pass _ _ = 0

-- How many of the requests that are counted under the key pass.
unfoldable pub passing : RateLimitConfig → Text → List Request → Counts → ℕ
passing config k [] m = 0
passing config k (r ∷ rs) m =
    let a = rate_limit config r m in pass (is_counted config k r) a.0 + passing config k rs a.1

-- The lesser of two.
abbrev pub min : ℕ → ℕ → ℕ
min a b = if leb a b then a else b

-- The requests come while the entry is valid.
abbrev pub Within : ℕ → Request → Type 0
Within until r = r.now < until

rate_limit-other :
    (config : RateLimitConfig) (k : Text) (r : Request) (m : Counts)
    → is_counted config k r ≡ false
    → (rate_limit config r m).1 k ≡ m k
unfolding rate_limit increment
rate_limit-other config k r m h = elim (Bool-cases (is_skipped config r)) [
  | inl p ↦ rw p refl
  | inr p ↦ elim (Option-cases (m r.key)) [ inl q ↦ ground arith | inr (e, q) ↦ ground arith ]
]

pass-judged :
    (n total left ttl : ℕ)
    → pass true (if ltb total n then limited total left ttl else passed total left ttl)
      ≡ (if leb n total then 1 else 0)
pass-judged n total left ttl = ground arith

rate_limit-counted :
    (config : RateLimitConfig) (k : Text) (r : Request) (m : Counts) (c until : ℕ)
    → is_counted config k r ≡ true
    → m k ≡ some (record { count = c; expires_at = until })
    → r.now < until
    → ((rate_limit config r m).1 k ≡ some (record { count = c + 1; expires_at = until }))
      × (pass true (rate_limit config r m).0 ≡ (if leb (c + 1) (total_limit config) then 1 else 0))
unfolding rate_limit increment
rate_limit-counted config k r m c until h e t =
    let skip : is_skipped config r ≡ false = ground arith in
    let key : same r.key k ≡ true = ground arith in
    let here : m r.key ≡ some (record { count = c; expires_at = until }) =
      ap m ((same_iff r.key k).0 key) ∙ e in
    let valid : ltb r.now until ≡ true = ground arith in
    rw (skip, here, valid, key) (refl, pass-judged (c + 1) (total_limit config) _ _)

passing-some :
    (config : RateLimitConfig) (k : Text) (rs : List Request) (m : Counts) (c until : ℕ)
    → m k ≡ some (record { count = c; expires_at = until })
    → All (Within until) rs
    → passing config k rs m ≡ min (counted config k rs) (total_limit config - c)
unfolding passing counted
passing-some config k [] m c until h a = ground arith
passing-some config k (r ∷ rs) m c until h a = elim (Bool-cases (is_counted config k r)) [
  | inl p ↦
      let (e, q) = rate_limit-counted config k r m c until p h a.0 in
      let ih = passing-some config k rs (rate_limit config r m).1 (c + 1) until e a.1 in
      rw (p, q, ih) (ground arith)
  | inr p ↦
      let e = rate_limit-other config k r m p ∙ h in
      rw (p, passing-some config k rs (rate_limit config r m).1 c until e a.1) (ground arith)
]

-- The limit is at least 1, also by default.
limit-positive : (config : RateLimitConfig) → 1 ≤ total_limit config
limit-positive config = ground arith

-- The entry of a key, if there is one, is not valid any more.
abbrev pub IsOver : ℕ → Option RateLimitEntry → Type 0
IsOver now none = Unit
IsOver now (some e) = e.expires_at ≤ now

rate_limit-first :
    (config : RateLimitConfig) (k : Text) (r : Request) (m : Counts)
    → is_counted config k r ≡ true
    → IsOver r.now (m k)
    → ((rate_limit config r m).1 k
        ≡ some (record { count = 1; expires_at = r.later + window_of config }))
      × (pass true (rate_limit config r m).0 ≡ (if leb 1 (total_limit config) then 1 else 0))
unfolding rate_limit increment
rate_limit-first config k r m h o =
    let skip : is_skipped config r ≡ false = ground arith in
    let key : same r.key k ≡ true = ground arith in
    let same_key = (same_iff r.key k).0 key in
    elim (Option-cases (m r.key)) [
      | inl q ↦ rw (skip, q, key) (refl, pass-judged 1 (total_limit config) _ _)
      | inr (e, q) ↦
          let old : ltb r.now e.expires_at ≡ false =
            let late : e.expires_at ≤ r.now = subst (IsOver r.now) (ap m (sym same_key) ∙ q) o in
            ground arith in
          rw (skip, q, old, key) (refl, pass-judged 1 (total_limit config) _ _)
    ]

-- Where no entry of the key is valid when the first request that is counted under it comes: of this request and those that
-- follow within the window, mixed with requests of any other keys and paths, as many pass as are counted
-- under the key, up to the total limit and no more.
pub passing-window :
    (config : RateLimitConfig) (k : Text) (r : Request) (rs : List Request) (m : Counts)
    → is_counted config k r ≡ true
    → IsOver r.now (m k)
    → All (Within (r.later + window_of config)) rs
    → passing config k (r ∷ rs) m ≡ min (counted config k (r ∷ rs)) (total_limit config)
unfolding passing counted
passing-window config k r rs m h o a =
    let (e, q) = rate_limit-first config k r m h o in
    let ih =
      passing-some config k rs (rate_limit config r m).1 1 (r.later + window_of config) e a in
    let l = limit-positive config in rw (h, q, ih) (ground (arith, l))
