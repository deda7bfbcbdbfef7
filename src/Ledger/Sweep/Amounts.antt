-- ===== src/Ledger/Sweep/Amounts.antt =====
-- The sums that `sweep_unknown` of postgres_call_ledger.py builds for each key, and what moving them
-- does to the budgets.
use mathlib.Core.Option
use geoji_agent.Base.{
  ℕ, ◌+◌, ◌≡◌, refl, ap, ◌∙◌, none, some, List, [], ◌∷◌, arith, ◌==◌, if◌then◌else◌, eq_col, sum_of,
  find, find-update_where, IsKeyed, Option-cases, Bool-cases, inl, inr, sym, find-key,
  IsKeyed-update_where,
}
use geoji_agent.Base.Int.{ℤ, pos, ◌-ℤ◌, int_laws}
use geoji_agent.Ledger.{Budget, CallRow, budget_key}
use geoji_agent.Ledger.Sweep.{
  add_amount, add_call, per_key_from, place, sorted, move_budget, move_budgets,
}

abbrev pub amount : ℕ → List (ℕ × ℕ) → ℕ
amount k d = sum_of (λ e. if e.0 == k then e.1 else 0) d

abbrev pub est_under : ℕ → CallRow → ℕ
est_under k c = if eq_col c.post_id k then c.estimated_max_micro_usd else 0

amount-add_amount :
    (k j n : ℕ) (d : List (ℕ × ℕ))
    → amount k (add_amount j n d) ≡ amount k d + (if j == k then n else 0)
unfolding add_amount
amount-add_amount k j n [] = ground arith
amount-add_amount k j n (e ∷ d) = ground (arith, amount-add_amount k j n d)

amount-add_call :
    (k : ℕ) (c : CallRow) (d : List (ℕ × ℕ)) → amount k (add_call c d) ≡ amount k d + est_under k c
amount-add_call k c d = elim (Option-cases c.post_id) [
  | inl e ↦ ground arith
  | inr (j, e) ↦ ground (arith, amount-add_amount k j c.estimated_max_micro_usd d)
]

amount-per_key_from :
    (k : ℕ) (d : List (ℕ × ℕ)) (cs : List CallRow)
    → amount k (per_key_from d cs) ≡ amount k d + sum_of (est_under k) cs
unfolding per_key_from
amount-per_key_from k d [] = omega arith
amount-per_key_from k d (c ∷ cs) =
    omega (arith, amount-per_key_from k (add_call c d) cs, amount-add_call k c d)

amount-place : (k : ℕ) (e : ℕ × ℕ) (d : List (ℕ × ℕ)) → amount k (place e d) ≡ amount k (e ∷ d)
unfolding place
amount-place k e [] = refl
amount-place k e (f ∷ d) = ground (arith, amount-place k e d)

amount-sorted : (k : ℕ) (d : List (ℕ × ℕ)) → amount k (sorted d) ≡ amount k d
unfolding sorted
amount-sorted k [] = refl
amount-sorted k (e ∷ d) = ground (arith, amount-place k e (sorted d), amount-sorted k d)

-- The sums that are moved are those of the rows.
pub amount-rows :
    (k : ℕ) (cs : List CallRow) → amount k (sorted (per_key_from [] cs)) ≡ sum_of (est_under k) cs
amount-rows k cs = omega (arith, amount-sorted k (per_key_from [] cs), amount-per_key_from k [] cs)

sub_zero : (a : ℤ) → a -ℤ pos 0 ≡ a
sub_zero a = omega int_laws

sub_sub : (a : ℤ) (m n : ℕ) → a -ℤ pos m -ℤ pos n ≡ a -ℤ pos (m + n)
sub_sub a m n = omega int_laws

move_zero : (b : Budget) → move_budget 0 b ≡ b
move_zero b = ground (arith, sub_zero b.reserved_micro_usd)

move_move : (m n : ℕ) (b : Budget) → move_budget n (move_budget m b) ≡ move_budget (m + n) b
move_move m n b = ground (arith, sub_sub b.reserved_micro_usd m n)

-- A budget after the moves: what left `reserved` is in `spent`.
pub find-move_budgets :
    (k : ℕ) (d : List (ℕ × ℕ)) (bs : List Budget) (b : Budget)
    → find budget_key k bs ≡ some b
    → find budget_key k (move_budgets d bs) ≡ some (move_budget (amount k d) b)
unfolding move_budgets
find-move_budgets k [] bs b e = e ∙ ap some (sym (move_zero b))
find-move_budgets k ((j, n) ∷ d) bs b e =
    let f = find-update_where budget_key (λ x. x.post_id == j) (move_budget n) (λ x. refl) k bs in
    elim (Bool-cases (j == k)) [
      | inl hit ↦
          find-move_budgets k d _ (move_budget n b)
            (f ∙ ground (arith, find-key budget_key k bs b e))
          ∙ rw hit (ap some (move_move n (amount k d) b))
      | inr miss ↦
          find-move_budgets k d _ b (f ∙ ground (arith, find-key budget_key k bs b e))
          ∙ rw miss (ap (λ (m : ℕ). some (move_budget m b)) (omega arith))
    ]

pub find-move_budgets-none :
    (k : ℕ) (d : List (ℕ × ℕ)) (bs : List Budget)
    → find budget_key k bs ≡ none
    → find budget_key k (move_budgets d bs) ≡ none
unfolding move_budgets
find-move_budgets-none k [] bs e = e
find-move_budgets-none k ((j, n) ∷ d) bs e = find-move_budgets-none k d _ (
    find-update_where budget_key (λ x. x.post_id == j) (move_budget n) (λ x. refl) k bs
    ∙ ap (Option.map _) e)

pub IsKeyed-move_budgets :
    (d : List (ℕ × ℕ)) (bs : List Budget)
    → IsKeyed budget_key bs
    → IsKeyed budget_key (move_budgets d bs)
unfolding move_budgets
IsKeyed-move_budgets [] bs u = u
IsKeyed-move_budgets ((j, n) ∷ d) bs u =
    IsKeyed-move_budgets d _ (IsKeyed-update_where budget_key _ _ (λ x. refl) bs u)
