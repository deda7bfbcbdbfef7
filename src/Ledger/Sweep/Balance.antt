-- ===== src/Ledger/Sweep/Balance.antt =====
-- `sweep_unknown` of postgres_call_ledger.py keeps the books balanced, moves money without making or
-- losing any, and has nothing to do when it is run again.

use geoji_agent.Base.{
  ℕ, ◌+◌, ◌≡◌, ◌≤◌, refl, subst, sym, ap, ◌∙◌, Bool, false, some, List, [], ◌∷◌, arith,
  update_where, select_where, sum_of, sum_same, sum_cleared, find, IsKeyed-update_where,
  Option-cases, inl, inr, All, All-update_where, any, any_cleared, select_where_none, rowcount_none,
  update_where_none,
}
use geoji_agent.Base.Int.{pos, int_laws}
use geoji_agent.Ledger.{Budget, CallRow, Books, budget_key, call_key, unknown_row}
use geoji_agent.Ledger.Sweep.{
  stale, sweepable, mark_swept, sweep_unknown, SweepReport, move_budget, move_budgets, per_key_from,
  sorted, moved_keys,
}
use geoji_agent.Ledger.Sweep.Amounts.{
  amount, est_under, amount-rows, find-move_budgets, find-move_budgets-none, IsKeyed-move_budgets,
}
use geoji_agent.Ledger.Close.{less}
use geoji_agent.Ledger.Bounds.{committed}
use geoji_agent.Ledger.Balance.{held_by, held, reserved_in, reserved_of, CallOk, IsBalanced}

module _ (older now : ℕ) (cs : List CallRow) where
  abbrev marked : List CallRow
  marked = update_where (stale older now) (unknown_row now) cs

  abbrev rows : List CallRow
  rows = select_where (sweepable older now) marked

  held-marked : (k : ℕ) → All CallOk cs → held k marked ≡ held k cs
  held-marked k ok =
      sum_same (held_by k) (stale older now) (unknown_row now) CallOk (λ x h t. ground arith) cs ok

  -- What a sweepable row holds is its estimate.
  held-rows :
      (k : ℕ) (ds : List CallRow)
      → sum_of (held_by k) (select_where (sweepable older now) ds)
        ≡ sum_of (est_under k) (select_where (sweepable older now) ds)
  held-rows k [] = refl
  held-rows k (c ∷ ds) = ground (arith, held-rows k ds)

  held-swept :
      (k : ℕ)
      → All CallOk cs
      → held k (update_where (sweepable older now) mark_swept marked) + sum_of (est_under k) rows
        ≡ held k cs
  held-swept k ok = omega (
    arith,
    sum_cleared (held_by k) (sweepable older now) mark_swept (λ x t. ground arith) marked,
    held-rows k marked,
    held-marked k ok,
  )

-- The budgets after the moves, against what the calls still hold.
reserved_of-move_budgets :
    (k h h' : ℕ) (d : List (ℕ × ℕ)) (bs : List Budget)
    → reserved_of k bs ≡ pos h
    → h' + amount k d ≡ h
    → reserved_of k (move_budgets d bs) ≡ pos h'
reserved_of-move_budgets k h h' d bs e f = elim (Option-cases (find budget_key k bs)) [
  | inl n ↦ ap reserved_in (find-move_budgets-none k d bs n) ∙ ap pos (ground (arith, e, n))
  | inr (b, n) ↦
      ap reserved_in (find-move_budgets k d bs b n)
      ∙ less b.reserved_micro_usd h h' (amount k d) (sym (ap reserved_in n) ∙ e) f
]

-- On balanced books the sweep, with a positive age, keeps the balance: what it takes from `reserved`
-- of each key is what the calls that it settles held under that key.
pub sweep_unknown-IsBalanced :
    (older now : ℕ) (l m : Books) (r : SweepReport)
    → IsBalanced l
    → sweep_unknown older now l ≡ some (r, m)
    → IsBalanced m
unfolding sweep_unknown
sweep_unknown-IsBalanced older now l m r v e =
    let d = sorted (per_key_from [] (rows older now l.calls)) in
    let same : record {
      budgets = move_budgets d l.budgets;
      calls = update_where (sweepable older now) mark_swept (marked older now l.calls);
    }
        ≡ m =
      ground arith in
    subst IsBalanced same (record {
      keyed_budgets = IsKeyed-move_budgets d l.budgets v.keyed_budgets;
      keyed_calls =
          IsKeyed-update_where call_key _ _ (λ x. refl) (marked older now l.calls)
            (IsKeyed-update_where call_key _ _ (λ x. refl) l.calls v.keyed_calls);
      calls_ok =
          All-update_where CallOk (sweepable older now) mark_swept (λ x h t o. ground arith)
            (marked older now l.calls)
            (All-update_where CallOk (stale older now) (unknown_row now) (λ x h t o. cc) l.calls
              v.calls_ok);
      balance = λ k. reserved_of-move_budgets k _ _ d l.budgets (v.balance k) (
          omega (
            arith,
            amount-rows k (rows older now l.calls),
            held-swept older now l.calls k v.calls_ok,
          ));
    })

-- A sweep makes and loses no money: every budget keeps its cap and the sum of spent and reserved, and
-- what it has spent does not fall.
pub sweep_unknown-conserves :
    (older now k : ℕ) (l m : Books) (r : SweepReport) (b : Budget)
    → sweep_unknown older now l ≡ some (r, m)
    → find budget_key k l.budgets ≡ some b
    → (c : Budget) × (find budget_key k m.budgets ≡ some c)
      × (committed c ≡ committed b)
      × (c.cap_micro_usd ≡ b.cap_micro_usd)
      × (b.spent_micro_usd ≤ c.spent_micro_usd)
unfolding sweep_unknown
sweep_unknown-conserves older now k l m r b e there =
    let d = sorted (per_key_from [] (rows older now l.calls)) in
    let same : move_budgets d l.budgets ≡ m.budgets = ground arith in
    (
      move_budget (amount k d) b,
      ap (find budget_key k) (sym same) ∙ find-move_budgets k d l.budgets b there,
      moved (amount k d),
      refl,
      omega arith,
    )
  where
    moved : (n : ℕ) → committed (move_budget n b) ≡ committed b
    moved n = omega int_laws

any_same :
    (p q : CallRow → Bool) (f : CallRow → CallRow)
    → ((c : CallRow) → p (f c) ≡ p c)
    → (cs : List CallRow) → any p (update_where q f cs) ≡ any p cs
any_same p q f e [] = refl
any_same p q f e (c ∷ cs) = ground (arith, e c, any_same p q f e cs)

-- A second sweep at the same time finds nothing: it reports zeros and leaves the books as they are, so
-- that no amount is moved twice.
pub sweep_unknown_twice :
    (older now : ℕ) (l m : Books) (r : SweepReport)
    → sweep_unknown older now l ≡ some (r, m)
    → sweep_unknown older now m
      ≡ some (record { calls = 0; micro_usd = 0; budget_keys = 0; reserved_calls = 0 }, m)
unfolding sweep_unknown move_budgets moved_keys sorted per_key_from
sweep_unknown_twice older now l m r e =
    let ms = marked older now l.calls in
    let swept = update_where (sweepable older now) mark_swept ms in
    let same : swept ≡ m.calls = ground arith in
    let none_stale : any (stale older now) m.calls ≡ false =
      ap (any (stale older now)) (sym same)
      ∙ any_same (stale older now) (sweepable older now) mark_swept (λ c. refl) ms
      ∙ any_cleared (stale older now) (unknown_row now) (λ c h. ground arith) l.calls in
    let none_due : any (sweepable older now) m.calls ≡ false =
      ap (any (sweepable older now)) (sym same)
      ∙ any_cleared (sweepable older now) mark_swept (λ c h. ground arith) ms in
    ground (
      arith,
      update_where_none (stale older now) (unknown_row now) m.calls none_stale,
      rowcount_none (stale older now) (unknown_row now) m.calls none_stale,
      select_where_none (sweepable older now) m.calls none_due,
      update_where_none (sweepable older now) mark_swept m.calls none_due,
    )
