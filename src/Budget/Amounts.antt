-- ===== src/Budget/Amounts.antt =====
-- The amount that `est_max_micro_usd` of domain/budget.py reserves covers what the call can cost.
use geoji_agent.Base.{ℕ, ◌+◌, ◌*◌, ◌≤◌, ◌<◌, arith}
use geoji_agent.Budget.{est_max_micro_usd}

mul_mono : (a b c : ℕ) → a ≤ b → a * c ≤ b * c
mul_mono a b c h = grind arith

-- A call with at most the tokens that were reserved for costs, at the same prices and in millionths of
-- a micro-USD, at most what was reserved; and the reserve exceeds the exact maximum by less than one
-- micro-USD.
pub est_max_micro_usd-covers :
    (prompt output max_output price_in price_out used : ℕ)
    → used ≤ prompt
    → output ≤ max_output
    → (used * price_in + output * price_out
        ≤ est_max_micro_usd prompt max_output price_in price_out * 1_000_000)
      × (est_max_micro_usd prompt max_output price_in price_out * 1_000_000
          < prompt * price_in + max_output * price_out + 1_000_000)
unfolding est_max_micro_usd
est_max_micro_usd-covers prompt output max_output price_in price_out used h k =
    omega (arith, mul_mono used prompt price_in h, mul_mono output max_output price_out k)
