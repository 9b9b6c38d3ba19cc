-- ===== src/Limiter/Examples.antt =====
-- The theorem on the limit of requests, at a few requests.
use flowra.Base.{text, same, contains, List, [], ◌∷◌, ◌≡◌, refl, arith, true}
use flowra.Limiter.Limit.{Request, RateLimitConfig, new_memory_rate_limit_store}
use flowra.Limiter.Window.{is_counted, counted, passing, min, passing-window}

-- Two requests a minute, and one more at once.
abbrev a_config : RateLimitConfig
a_config = record {
  limit = 2;
  burst_size = 1;
  window = 60;
  skip_paths = text "/health" ∷ [];
  has_store = true;
}

abbrev a_request : Request
a_request = record { path = text "/chats"; key = text "u1"; now = 5; later = 5; last = 5 }

abbrev others : List Request
others =
    record a_request { now = 6 }
    ∷ record a_request { path = text "/health" }
    ∷ record a_request { key = text "u2" }
    ∷ record a_request { now = 60 }
    ∷ record a_request { now = 64 }
    ∷ []

first_counted : is_counted a_config (text "u1") a_request ≡ true
unfolding same contains
first_counted = refl

passing-window_example :
    passing a_config (text "u1") (a_request ∷ others) new_memory_rate_limit_store
    ≡ min (counted a_config (text "u1") (a_request ∷ others)) 3
passing-window_example =
    passing-window a_config (text "u1") a_request others new_memory_rate_limit_store first_counted
      tt (omega arith, (omega arith, (omega arith, (omega arith, (omega arith, tt)))))
