-- ===== src/Limiter/Limit.antt =====
-- internal/middleware/rate_limit.go: the in-memory store of the counters and the middleware RateLimit. Instants and
-- durations are numbered by ℕ, and the sizes of the configuration are taken not to be negative.
use flowra.Base.{
  ℕ, ◌+◌, ◌-◌, Text, same, contains, Bool, true, false, Option, none, some, List, [], ◌∷◌, ltb,
  ◌==◌, if◌then◌else◌,
}

-- rateLimitEntry
pub record RateLimitEntry : Type 0 where
  pub count : ℕ
  pub expires_at : ℕ

-- MemoryRateLimitStore: the map of the entries by their keys.
abbrev pub Counts : Type 0
Counts = Text → Option RateLimitEntry

-- NewMemoryRateLimitStore, and Reset
abbrev pub new_memory_rate_limit_store : Counts
new_memory_rate_limit_store key = none

abbrev put : Text → RateLimitEntry → Counts → Counts
put key e m k = if same key k then some e else m k

-- A new entry of Increment: `later` is the clock when it is made.
abbrev pub restarted : ℕ → Text → ℕ → Counts → ℕ × Counts
restarted later key window m = (1, put key (record { count = 1; expires_at = later + window }) m)

-- Increment, by the entry of the key: `now` is the clock at the check.
abbrev pub incremented : ℕ → ℕ → Text → ℕ → Counts → Option RateLimitEntry → ℕ × Counts
incremented now later key window m none = restarted later key window m
incremented now later key window m (some e) =
    if ltb now e.expires_at
    then (e.count + 1, put key (record e { count = e.count + 1 }) m)
    else restarted later key window m

-- Increment
unfoldable pub increment : ℕ → ℕ → Text → ℕ → Counts → ℕ × Counts
increment now later key window m = incremented now later key window m (m key)

-- GetCount
abbrev pub get_count : ℕ → Text → Counts → ℕ
get_count now key m = elim (m key) [
  | none ↦ 0
  | some e ↦ if ltb e.expires_at now then 0 else e.count
]

-- GetTTL
abbrev pub get_ttl : ℕ → Text → Counts → ℕ
get_ttl now key m = elim (m key) [ none ↦ 0 | some e ↦ e.expires_at - now ]

-- RateLimitConfig, as far as the middleware decides by it; the store is the one in memory, where there is one.
pub record RateLimitConfig : Type 0 where
  pub limit : ℕ
  pub burst_size : ℕ
  pub window : ℕ
  pub skip_paths : List Text
  pub has_store : Bool

-- DefaultRateLimit
abbrev pub default_rate_limit : ℕ
default_rate_limit = 100

-- `config.Limit`, or its default
abbrev pub limit_of : RateLimitConfig → ℕ
limit_of config = if config.limit == 0 then default_rate_limit else config.limit

-- DefaultRateLimitWindow, one minute, in seconds
abbrev pub default_rate_limit_window : ℕ
default_rate_limit_window = 60

-- `config.Window`, or its default
abbrev pub window_of : RateLimitConfig → ℕ
window_of config = if config.window == 0 then default_rate_limit_window else config.window

-- totalLimit
abbrev pub total_limit : RateLimitConfig → ℕ
total_limit config = limit_of config + config.burst_size

-- A request: its path, its key, and the clock at the check, at the making of an entry and at GetTTL.
pub record Request : Type 0 where
  pub path : Text
  pub key : Text
  pub now : ℕ
  pub later : ℕ
  pub last : ℕ

-- What the middleware does: the next handler, with no header or with X-Ratelimit-Limit, X-Ratelimit-Remaining and the
-- duration until the reset; or the error 429 with that duration.
pub data Outcome : Type 0 where
  skipped : Outcome
  passed limited : ℕ → ℕ → ℕ → Outcome

-- The middleware leaves the request alone.
abbrev pub is_skipped : RateLimitConfig → Request → Bool
is_skipped config r =
    if contains config.skip_paths r.path then true else if config.has_store then false else true

-- The rest behind Increment.
abbrev pub judged : RateLimitConfig → Request → ℕ × Counts → Outcome × Counts
judged config r (count, m) =
    let limit = total_limit config in
    let ttl = get_ttl r.last r.key m in
    (
      if ltb limit count
          then limited limit (limit - count) ttl
          else passed limit (limit - count) ttl,
      m,
    )

-- RateLimit
unfoldable pub rate_limit : RateLimitConfig → Request → Counts → Outcome × Counts
rate_limit config r m =
    if is_skipped config r
    then (skipped, m)
    else judged config r (increment r.now r.later r.key (window_of config) m)

-- The outcomes of requests, one after another.
unfoldable pub serve : RateLimitConfig → List Request → Counts → List Outcome
serve config [] m = []
serve config (r ∷ rs) m = let a = rate_limit config r m in a.0 ∷ serve config rs a.1
