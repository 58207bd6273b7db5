-- ===== src/Instinct/Context.antt =====
-- internal/burrow/instinct/context.go
use capyclaw.Prelude.{
  ℕ, ◌-◌, ◌^◌, ◌<◌, ◌≡◌, Bool, Int64, Float64, FloatOps, sub_int, int_lt, if◌then◌else◌, arith,
}

pub record ContextManager : Type 0 where
  pub max_tokens : Int64
  pub trigger_threshold : Float64

unfoldable pub should_compact : FloatOps → ContextManager → Int64 → Bool
should_compact float m current_tokens =
    let threshold = float.mul (float.of_int m.max_tokens) m.trigger_threshold in
    float.lt threshold (float.of_int current_tokens)

unfoldable pub remaining_tokens : ContextManager → Int64 → Int64
remaining_tokens m current_tokens =
    let remaining = sub_int m.max_tokens current_tokens in
    if int_lt remaining 0 then 0 else remaining

-- For a window and a count that are not negative as 64-bit integers, what remains is their
-- difference, cut off at 0.
pub remaining_tokens-eq-sub :
    (m : ContextManager) (n : ℕ)
    → m.max_tokens < 2 ^ 63
    → n < 2 ^ 63
    → remaining_tokens m n ≡ m.max_tokens - n
unfolding remaining_tokens
remaining_tokens-eq-sub m n h k = ground arith
