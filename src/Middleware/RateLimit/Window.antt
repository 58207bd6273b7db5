-- ===== src/Middleware/RateLimit/Window.antt =====
-- How many requests pass within one window of the limit of a minute.
use mathlib.Core.Path.{subst}
use capyclaw.Prelude.{
  ℕ, ltb, ◌+◌, ◌-◌, ◌≤◌, ◌≡◌, refl, ==_refl, ◌∙◌, inl, inr, Bool-cases, String, String_eq, ◌==◌,
  ◌||◌, ◌&&◌, not, Bool, true, false, nat_eq, List, [], ◌∷◌, if◌then◌else◌, arith,
}
use capyclaw.Action.{Result, ok, err, panicked}
use capyclaw.Middleware.RateLimit.{
  Redis, RapidsConfig, Outcome, passed, limited, minute_key, hour_key, start_window, refuse,
  check_hour, check_minute, limit_request,
}

-- Redis while no key expires and no command fails: INCR adds one to its key's count and gives the
-- new count, and the other commands count nothing.
pub record InWindow (W : Type 0) (redis : Redis W) : Type 0 where
  pub count : String → W → ℕ
  pub incr_lem : (k : String) (w : W) → (redis.incr k w).0 ≡ ok (count k w + 1)
  pub incr_count :
      (k j : String) (w : W)
      → count j (redis.incr k w).1 ≡ (if k == j then count k w + 1 else count j w)
  pub expire_count : (k j : String) (s : ℕ) (w : W) → count j (redis.expire k s w) ≡ count j w
  pub ttl_count : (k j : String) (w : W) → count j (redis.ttl k w).1 ≡ count j w

-- 1 for a request that is handed on
abbrev pub hits : Result Outcome → ℕ
hits (ok (passed h)) = 1
hits (ok (limited s l m)) = 0
hits (err e) = 0
hits panicked = 0

hits-le : (r : Result Outcome) → hits r ≤ 1
hits-le (ok (passed h)) = omega arith
hits-le (ok (limited s l m)) = omega arith
hits-le (err e) = omega arith
hits-le panicked = omega arith

-- a request of a user of a tenant that is counted under `key`
abbrev pub counts : String → String × String → Bool
counts key (tenant, user) = not (tenant == "" || user == "") && minute_key tenant user == key

and_not : (a b : Bool) → (not a && b) ≡ true → (a ≡ false) × (b ≡ true)
and_not true b h = cc
and_not false b h = (refl, h)

room :
    (limit c c' h rest : ℕ)
    → h ≤ (if ltb limit (c + 1) then 0 else 1)
    → c + 1 ≤ c'
    → rest ≤ limit - c'
    → h + rest ≤ limit - c
room limit c c' h rest p q r = ground arith

module _ {W : Type 0} (cfg : RapidsConfig) (redis : Redis W) where
  -- the requests under `key` that are handed on, of those that arrive one after the other
  unfoldable pub handed_on : String → List (String × String) → W → ℕ
  handed_on key [] w = 0
  handed_on key ((tenant, user) ∷ rs) w =
      let (r, w') = limit_request cfg redis tenant user w in
      (if counts key (tenant, user) then hits r else 0) + handed_on key rs w'

  module _ (o : InWindow W redis) where
    open o use {count, incr_lem, incr_count, expire_count, ttl_count}

    incr-le : (k j : String) (w : W) → count j w ≤ count j (redis.incr k w).1
    incr-le k j w = elim (Bool-cases (k == j)) [
      | inl same ↦
          let e : k ≡ j = (String_eq.same_iff k j).0 same in
          rw (incr_count k j w) (rw same (subst (λ i. count i w ≤ count k w + 1) e (omega arith)))
      | inr other ↦ rw (incr_count k j w) (rw other (omega arith))
    ]

    start_window-count :
        (k j : String) (s n : ℕ) (w : W) → count j (start_window cfg redis k s n w) ≡ count j w
    unfolding start_window
    start_window-count k j s n w = elim (Bool-cases (nat_eq n 1)) [
      | inl first ↦ rw first (expire_count k j s w)
      | inr again ↦ rw again refl
    ]

    refuse-count : (k j m : String) (w : W) → count j (refuse cfg redis k m w).1 ≡ count j w
    unfolding refuse
    refuse-count k j m w = ttl_count k j w

    check_hour-count :
        (k j : String) (n : ℕ) (r : Result ℕ) (w : W)
        → count j (check_hour cfg redis k n r w).1 ≡ count j w
    unfolding check_hour
    check_hour-count k j n (err e) w = refl
    check_hour-count k j n panicked w = refl
    check_hour-count k j n (ok hours) w = elim (Bool-cases (ltb cfg.requests_per_hour hours)) [
      | inl over ↦ rw over (refuse-count k j _ _ ∙ start_window-count k j 3600 hours w)
      | inr under ↦ rw under (start_window-count k j 3600 hours w)
    ]

    check_minute-le :
        (tenant user j : String) (n : ℕ) (w : W)
        → count j w ≤ count j (check_minute cfg redis tenant user (ok n) w).1
    unfolding check_minute
    check_minute-le tenant user j n w =
        let started = start_window cfg redis (minute_key tenant user) 60 n w in
        let same = start_window-count (minute_key tenant user) j 60 n w in
        elim (Bool-cases (ltb cfg.requests_per_minute n)) [
          | inl over ↦
              rw over
                (rw (refuse-count (minute_key tenant user) j _ started) (rw same (omega arith)))
          | inr under ↦ rw under (
              rw (check_hour-count (hour_key tenant user) j n _ _)
                (omega (arith, incr-le (hour_key tenant user) j started, same)))
        ]

    check_minute-hits :
        (tenant user : String) (n : ℕ) (w : W)
        → hits (check_minute cfg redis tenant user (ok n) w).0
          ≤ (if ltb cfg.requests_per_minute n then 0 else 1)
    unfolding check_minute
    check_minute-hits tenant user n w = elim (Bool-cases (ltb cfg.requests_per_minute n)) [
      | inl over ↦ rw over (unfold refuse in omega arith)
      | inr under ↦ rw under (hits-le _)
    ]

    limit_request-le :
        (tenant user j : String) (w : W)
        → count j w ≤ count j (limit_request cfg redis tenant user w).1
    unfolding limit_request
    limit_request-le tenant user j w =
        let k = minute_key tenant user in
        elim (Bool-cases (tenant == "" || user == "")) [
          | inl anonymous ↦ rw anonymous (omega arith)
          | inr known ↦ rw known (
              rw (incr_lem k w) (
                omega (
                  arith,
                  incr-le k j w,
                  check_minute-le tenant user j (count k w + 1) (redis.incr k w).1,
                )))
        ]

    incr-count_self : (k : String) (w : W) → count k (redis.incr k w).1 ≡ count k w + 1
    incr-count_self k w = rw (incr_count k k w) (rw (==_refl k))

    -- a request that is counted
    limit_request-counted :
        (tenant user : String) (w : W)
        → (tenant == "" || user == "") ≡ false
        → (hits (limit_request cfg redis tenant user w).0
            ≤ (if ltb cfg.requests_per_minute (count (minute_key tenant user) w + 1) then 0 else 1))
          × (count (minute_key tenant user) w + 1
              ≤ count (minute_key tenant user) (limit_request cfg redis tenant user w).1)
    unfolding limit_request
    limit_request-counted tenant user w known =
        let k = minute_key tenant user in
        rw known (
          rw (incr_lem k w) (
            check_minute-hits tenant user (count k w + 1) (redis.incr k w).1,
            omega (
              arith,
              incr-count_self k w,
              check_minute-le tenant user k (count k w + 1) (redis.incr k w).1,
            ),
          ))

    -- While no key expires and no command of Redis fails, at most as many requests under one
    -- tenant's and user's key are handed on as the limit of a minute leaves after those that were
    -- counted before, whatever other requests arrive among them.
    pub handed_on-le :
        (key : String) (rs : List (String × String)) (w : W)
        → handed_on key rs w ≤ cfg.requests_per_minute - count key w
    unfolding handed_on
    handed_on-le key [] w = omega arith
    handed_on-le key ((tenant, user) ∷ rs) w =
        let w' = (limit_request cfg redis tenant user w).1 in
        elim (Bool-cases (counts key (tenant, user))) [
          | inl counted ↦
              let known =
                and_not (tenant == "" || user == "") (minute_key tenant user == key) counted in
              let e : minute_key tenant user ≡ key =
                (String_eq.same_iff (minute_key tenant user) key).0 known.1 in
              let step =
                subst
                  (λ k.
                    (hits (limit_request cfg redis tenant user w).0
                      ≤ (if ltb cfg.requests_per_minute (count k w + 1) then 0 else 1))
                    × (count k w + 1 ≤ count k w'))
                  e (limit_request-counted tenant user w known.0) in
              rw counted (
                room cfg.requests_per_minute (count key w) (count key w') _ _ step.0 step.1
                  (handed_on-le key rs w'))
          | inr other ↦
              rw other (omega (arith, handed_on-le key rs w', limit_request-le tenant user key w))
        ]
