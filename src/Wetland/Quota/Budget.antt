-- ===== src/Wetland/Quota/Budget.antt =====
-- When a use is within a tenant's budget.
use capyclaw.Prelude.{◌+◌, ◌≤◌, ◌^◌, ◌≡◌, ◌⊎◌, Int64}

-- the tokens fit: there is no budget, or the sum is within it, or the sum does not fit in an int64
abbrev pub TokensFit : Int64 → Int64 → Int64 → Type 0
TokensFit budget current used =
    (budget ≡ 0) ⊎ ((current + used ≤ budget) ⊎ (2 ^ 63 ≤ current + used))
