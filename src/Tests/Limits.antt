-- ===== src/Tests/Limits.antt =====
-- Examples for internal/riverbank/middleware.
use capyclaw.Prelude.{
  ℕ, String, String_eq, ◌==◌, ◌+◌, ◌-◌, ◌≤◌, refl, true, List, [], ◌∷◌, if◌then◌else◌,
}
use capyclaw.Action.{ok}
use capyclaw.Middleware.RateLimit.{Redis, RapidsConfig, minute_key}
use capyclaw.Middleware.RateLimit.Window.{InWindow, handed_on, handed_on-le}

-- a Redis whose state is the count of each key
abbrev counters : Redis (String → ℕ)
counters = record {
  incr = λ k w. (ok (w k + 1), λ j. if k == j then w k + 1 else w j);
  expire = λ k s w. w;
  ttl = λ k w. (30, w);
}

counters-InWindow : InWindow (String → ℕ) counters
counters-InWindow = record {
  count = λ k w. w k;
  incr_lem = λ k w. refl;
  incr_count = λ k j w. refl;
  expire_count = λ k j s w. refl;
  ttl_count = λ k j w. refl;
}

abbrev config : RapidsConfig
config = record { enabled = true; requests_per_minute = 2; requests_per_hour = 100 }

abbrev requests : List (String × String)
requests = ("t", "u") ∷ ("t", "v") ∷ ("t", "u") ∷ ("t", "u") ∷ []

handed_on-le_example : handed_on config counters (minute_key "t" "u") requests (λ k. 0) ≤ 2 - 0
unfolding counters-InWindow
handed_on-le_example =
    handed_on-le config counters counters-InWindow (minute_key "t" "u") requests (λ k. 0)
