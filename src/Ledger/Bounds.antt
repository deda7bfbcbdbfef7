-- ===== src/Ledger/Bounds.antt =====
-- What `reserve` of postgres_call_ledger.py promises of the cap, and what it does when it refuses.
use mathlib.Core.Option
use geoji_agent.Base.{
  ℕ, ◌+◌, ◌≡◌, refl, sym, ap, false, some, arith, ◌==◌, find, find-update_where, find-key,
  Option-cases, inl, inr, ◌∙◌,
}
use geoji_agent.Base.Int.{ℤ, pos, ◌+ℤ◌, ◌≤ℤ◌, +ℤ_parts}
use geoji_agent.Ledger.{
  Budget, Books, CallSpec, budget_key, reserve, granted, ensure_budget, add_reserved, over_cap,
  book_call,
}

-- What a budget has committed: `spent + reserved`.
abbrev pub committed : Budget → ℤ
committed b = pos b.spent_micro_usd +ℤ b.reserved_micro_usd

-- What is granted fits: after a reservation the budget of its key has a row in which spent and
-- reserved together are at most the cap.
pub reserve_within_cap :
    (top id k : ℕ) (s : CallSpec) (now : ℕ) (l m : Books)
    → reserve top id k s now l ≡ granted m
    → (b : Budget) × (find budget_key k m.budgets ≡ some b) × (committed b ≤ℤ pos b.cap_micro_usd)
unfolding reserve over_cap
reserve_within_cap top id k s now l m e =
    let bs = ensure_budget k top l.budgets in
    elim (Option-cases (find budget_key k bs)) [
      | inl miss ↦ ground arith
      | inr (b, there) ↦
          let f =
            find-update_where budget_key (λ x. x.post_id == k) (add_reserved s.est_max_micro_usd)
              (λ x. refl) k bs in
          let same : book_call id k s now bs l.calls ≡ m = ground arith in
          (
            add_reserved s.est_max_micro_usd b,
            ap (λ (x : Books). find budget_key k x.budgets) (sym same)
                ∙ f
                ∙ ap (Option.map _) there
                ∙ ground (arith, find-key budget_key k bs b there),
            fits b (ground arith),
          )
    ]
  where
    fits :
        (b : Budget)
        → over_cap b s.est_max_micro_usd ≡ false
        → committed (add_reserved s.est_max_micro_usd b) ≤ℤ pos b.cap_micro_usd
    fits b h = ground (
      arith,
      +ℤ_parts (pos b.spent_micro_usd) (b.reserved_micro_usd +ℤ pos s.est_max_micro_usd),
      +ℤ_parts b.reserved_micro_usd (pos s.est_max_micro_usd),
      +ℤ_parts (pos (b.spent_micro_usd + s.est_max_micro_usd)) b.reserved_micro_usd,
    )
