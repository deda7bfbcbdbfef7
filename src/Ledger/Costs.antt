-- ===== src/Ledger/Costs.antt =====
-- Usage and Cost of src/geoji_ai/ports/llm.py, and the settled amount of
-- src/geoji_ai/domain/budget.py.
use geoji_agent.Base.{ℕ, ◌/◌, Option, none, some}

pub record Usage : Type 0 where
  pub prompt_tokens : ℕ
  pub completion_tokens : ℕ
  pub reasoning_tokens : ℕ
  pub cached_tokens : ℕ

pub record Cost : Type 0 where
  pub ticks : Option ℕ
  pub micro_usd : Option ℕ

-- The token columns of a call, NULL until a response reports them.
pub record Tokens : Type 0 where
  pub prompt : Option ℕ
  pub completion : Option ℕ
  pub reasoning : Option ℕ
  pub cached : Option ℕ

abbrev pub no_tokens : Tokens
no_tokens = record { prompt = none; completion = none; reasoning = none; cached = none }

abbrev pub coalesce {ℓ} : {A : Type ℓ} → Option A → Option A → Option A
coalesce none b = b
coalesce (some a) b = some a

-- `_usage_params` and the COALESCE of _CLOSE_CALL_SQL.
abbrev pub merge : Option Usage → Tokens → Tokens
merge none t = t
merge (some u) t = record {
  prompt = some u.prompt_tokens;
  completion = some u.completion_tokens;
  reasoning = some u.reasoning_tokens;
  cached = some u.cached_tokens;
}

abbrev pub ticks_of : Option Cost → Option ℕ
ticks_of none = none
ticks_of (some c) = c.ticks

abbrev pub micro_of : Option Cost → Option ℕ
micro_of none = none
micro_of (some c) = c.micro_usd

abbrev pub ticks_per_micro_usd : ℕ
ticks_per_micro_usd = 10_000

-- Ticks are never negative here, where the source raises on a negative one.
abbrev pub ticks_to_micro_usd : ℕ → ℕ
ticks_to_micro_usd ticks = ticks / ticks_per_micro_usd

abbrev pub resolve_actual_micro_usd : Option ℕ → Option ℕ → Option ℕ
resolve_actual_micro_usd (some m) ticks = some m
resolve_actual_micro_usd none (some t) = some (ticks_to_micro_usd t)
resolve_actual_micro_usd none none = none
