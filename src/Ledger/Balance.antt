-- ===== src/Ledger/Balance.antt =====
-- The balance of postgres_call_ledger.py: what a key has reserved is the sum of the estimates of its
-- calls that are open, or UNKNOWN and not yet swept.
use mathlib.Core.Option
use geoji_agent.Base.{
  ℕ, ◌+◌, ◌≡◌, refl, ap, max, subst, ◌∙◌, Bool, true, ◌&&◌, ◌||◌, Option, none, some, List, arith,
  ◌==◌, if◌then◌else◌, eq_col, is_null, update_where, sum_of, find, find-update_where, find-key,
  IsKeyed, IsKeyed-update_where, All, Option-cases, inl, inr, ◌≢◌,
}
use geoji_agent.Base.Int.{ℤ, pos, ◌+ℤ◌, int_laws}
use geoji_agent.Ledger.{
  Budget, CallRow, Books, CallSpec, budget_key, call_key, is_open, reserve, granted, ensure_budget,
  upsert_budget, add_reserved, book_call,
}
use geoji_agent.Ledger.Sweep.{is_unknown}

-- The call's estimate still counts against its budget.
abbrev pub holds : CallRow → Bool
holds c = is_open c.status || (is_unknown c.status && is_null c.actual_micro_usd)

abbrev pub held_by : ℕ → CallRow → ℕ
held_by k c = if holds c && eq_col c.post_id k then c.estimated_max_micro_usd else 0

abbrev pub held : ℕ → List CallRow → ℕ
held k cs = sum_of (held_by k) cs

abbrev pub reserved_in : Option Budget → ℤ
reserved_in none = pos 0
reserved_in (some b) = b.reserved_micro_usd

abbrev pub reserved_of : ℕ → List Budget → ℤ
reserved_of k bs = reserved_in (find budget_key k bs)

-- An open call has no settled amount yet.
abbrev pub CallOk : CallRow → Type 0
CallOk c = is_open c.status ≡ true → c.actual_micro_usd ≡ none

pub record IsBalanced (l : Books) : Type 0 where
  pub keyed_budgets : IsKeyed budget_key l.budgets
  pub keyed_calls : IsKeyed call_key l.calls
  pub calls_ok : All CallOk l.calls
  pub balance : (k : ℕ) → reserved_of k l.budgets ≡ pos (held k l.calls)

add_zero : (a : ℤ) → a +ℤ pos 0 ≡ a
add_zero a = omega int_laws

pos_add : (a b : ℕ) → pos a +ℤ pos b ≡ pos (b + a)
pos_add a b = omega int_laws

-- A new key starts at zero, and raising a cap moves no money.
module _ (j top k : ℕ) (bs : List Budget) where
  reserved_of-upsert_budget :
      (o : Option Budget)
      → find budget_key j bs ≡ o
      → reserved_of k (upsert_budget j top bs o) ≡ reserved_of k bs
  reserved_of-upsert_budget none e = ground arith
  reserved_of-upsert_budget (some b) e =
      ap reserved_in (
        find-update_where budget_key (λ x. x.post_id == j)
          (λ x. record x { cap_micro_usd = max x.cap_micro_usd top }) (λ x. refl) k bs)
      ∙ same (find budget_key k bs)
    where
      same :
          (o : Option Budget)
          → reserved_in (
              Option.map
                (λ x.
                  if x.post_id == j
                  then record x { cap_micro_usd = max x.cap_micro_usd top }
                  else x)
                o)
            ≡ reserved_in o
      same none = refl
      same (some x) = ground arith

IsKeyed-upsert_budget :
    (j top : ℕ) (bs : List Budget) (o : Option Budget)
    → find budget_key j bs ≡ o
    → IsKeyed budget_key bs
    → IsKeyed budget_key (upsert_budget j top bs o)
IsKeyed-upsert_budget j top bs none e u = (e, u)
IsKeyed-upsert_budget j top bs (some b) e u = IsKeyed-update_where budget_key _ _ (λ x. refl) bs u

reserved_of-add_reserved :
    (j est k : ℕ) (bs : List Budget)
    → find budget_key j bs ≢ none
    → reserved_of k (update_where (λ b. b.post_id == j) (add_reserved est) bs)
      ≡ reserved_of k bs +ℤ pos (if j == k then est else 0)
reserved_of-add_reserved j est k bs there =
    let f =
      find-update_where budget_key (λ x. x.post_id == j) (add_reserved est) (λ x. refl) k bs in
    elim (Option-cases (find budget_key k bs)) [
      | inl e ↦ rw (f ∙ ap (Option.map _) e, e) (ground (arith, e, add_zero (pos 0)))
      | inr (b, e) ↦
          rw (f ∙ ap (Option.map _) e, e)
            (ground (arith, find-key budget_key k bs b e, add_zero b.reserved_micro_usd))
    ]

-- A reservation that is granted keeps the books balanced.
pub reserve-IsBalanced :
    (top id k : ℕ) (s : CallSpec) (now : ℕ) (l m : Books)
    → IsBalanced l
    → find call_key id l.calls ≡ none
    → reserve top id k s now l ≡ granted m
    → IsBalanced m
unfolding reserve
reserve-IsBalanced top id k s now l m v new e =
    let bs = ensure_budget k top l.budgets in
    elim (Option-cases (find budget_key k bs)) [
      | inl miss ↦ ground arith
      | inr (b, there) ↦
          let same : book_call id k s now bs l.calls ≡ m = ground arith in
          subst IsBalanced same (record {
            keyed_budgets =
                IsKeyed-update_where budget_key _ _ (λ x. refl) bs
                  (IsKeyed-upsert_budget k top l.budgets _ refl v.keyed_budgets);
            keyed_calls = (new, v.keyed_calls);
            calls_ok = ((λ _. refl), v.calls_ok);
            balance = λ i.
                reserved_of-add_reserved k s.est_max_micro_usd i bs (λ n. ground arith)
                ∙ ap (λ r. r +ℤ pos (if k == i then s.est_max_micro_usd else 0))
                    (reserved_of-upsert_budget k top i l.budgets _ refl ∙ v.balance i)
                ∙ pos_add _ _;
          })
    ]
