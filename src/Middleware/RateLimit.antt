-- ===== src/Middleware/RateLimit.antt =====
-- internal/riverbank/middleware/ratelimit.go. The handler that comes next is not run here: the outcome
-- says whether it is. The limits and the counts of Redis are not negative, so they are plain
-- numbers.
pub mod Window
use capyclaw.Prelude.{
  ℕ, nat_eq, ltb, ◌-◌, ◌+◌, String, String_eq, ◌==◌, ◌||◌, Bool, true, false, Option, none, some,
  List, [], ◌∷◌, concat, if◌then◌else◌,
}
use capyclaw.Action.{Result, ok, err, panicked, Action, pure, attempt, ◌>>=◌, ◌>>◌}

-- `TTL` gives whole seconds, 0 beside an error; the result of `Expire` is dropped
pub record Redis (W : Type 0) : Type 0 where
  pub incr : String → Action W ℕ
  pub expire : String → ℕ → W → W
  pub ttl : String → W → ℕ × W

pub record RapidsConfig : Type 0 where
  pub enabled : Bool
  pub requests_per_minute : ℕ
  pub requests_per_hour : ℕ

-- the next handler runs, with the headers that were set, if any; or the request is answered with
-- 429, after how many seconds to try again, under which limit, and with which message
pub data Outcome : Type 0 where
  passed : Option (ℕ × ℕ) → Outcome
  limited : ℕ → ℕ → String → Outcome

abbrev pub minute_key : String → String → String
minute_key tenant user = concat ("ratelimit:" ∷ tenant ∷ ":" ∷ user ∷ ":min" ∷ [])

abbrev pub hour_key : String → String → String
hour_key tenant user = concat ("ratelimit:" ∷ tenant ∷ ":" ∷ user ∷ ":hr" ∷ [])

module _ {W : Type 0} (cfg : RapidsConfig) (redis : Redis W) where
  -- the first count of a window starts its expiry
  unfoldable pub start_window : String → ℕ → ℕ → W → W
  start_window key seconds count w = if nat_eq count 1 then redis.expire key seconds w else w

  unfoldable pub refuse : String → String → Action W Outcome
  refuse key message w =
      let (left, w') = redis.ttl key w in
      (ok (limited (left + 1) cfg.requests_per_minute message), w')

  -- with the count of the hour, or an error
  unfoldable pub check_hour : String → ℕ → Result ℕ → Action W Outcome
  check_hour key count (err e) w = (ok (passed none), w)
  check_hour key count panicked w = (panicked, w)
  check_hour key count (ok hours) w =
      let w' = start_window key 3600 hours w in
      if ltb cfg.requests_per_hour hours
      then refuse key "hourly rate limit exceeded" w'
      else (ok (passed (some (cfg.requests_per_minute, cfg.requests_per_minute - count))), w')

  -- with the count of the minute, or an error
  unfoldable pub check_minute : String → String → Result ℕ → Action W Outcome
  unfolding check_hour
  check_minute tenant user (err e) w = (ok (passed none), w)
  check_minute tenant user panicked w = (panicked, w)
  check_minute tenant user (ok count) w =
      let w' = start_window (minute_key tenant user) 60 count w in
      if ltb cfg.requests_per_minute count
      then refuse (minute_key tenant user) "rate limit exceeded" w'
      else let (r, w'') = redis.incr (hour_key tenant user) w' in
        check_hour (hour_key tenant user) count r w''

  unfoldable pub limit_request : String → String → Action W Outcome
  unfolding check_minute
  limit_request tenant user w =
      if tenant == "" || user == ""
      then (ok (passed none), w)
      else let (r, w') = redis.incr (minute_key tenant user) w in check_minute tenant user r w'

-- `RateLimit`: nothing is counted if it is not enabled or if there is no client of Redis
unfoldable pub rate_limit :
    {W : Type 0} → RapidsConfig → Option (Redis W) → String → String → Action W Outcome
unfolding limit_request
rate_limit cfg none tenant user w = (ok (passed none), w)
rate_limit cfg (some redis) tenant user w =
    if cfg.enabled then limit_request cfg redis tenant user w else (ok (passed none), w)
