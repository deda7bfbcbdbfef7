-- ===== src/Ledger/Close.antt =====
-- `settle`, `fail` and `mark_unknown` of postgres_call_ledger.py keep the books balanced, and an
-- amount is settled once.
use mathlib.Core.Option
use geoji_agent.Base.{
  ℕ, ◌+◌, ◌≡◌, refl, sym, ap, ◌∙◌, Bool, true, false, ◌&&◌, Option, none, some, List, [], ◌∷◌,
  arith, if◌then◌else◌, eq_col, is_null, update_where, select_where, sum_same, sum_at_key,
  select_at_key, find, hit_row, rows_of, find-update_where, find-key, IsKeyed, IsKeyed-update_where,
  All-update_where, Option-cases, inl, inr, String, any, update_where_none, select_where_none,
  select_where_empty, any_cleared,
}
use geoji_agent.Base.Int.{ℤ, pos, ◌-ℤ◌, int_laws}
use geoji_agent.Ledger.Costs.{Usage, Cost, resolve_actual_micro_usd, micro_of, ticks_of}
use geoji_agent.Ledger.{
  Budget, CallRow, CallStatus, Books, budget_key, call_key, is_open, close, close_found, close_row,
  closable, settle_budget, charge_of, mark_unknown, unknown_row, settle, fail, complete, failed,
  head,
}
use geoji_agent.Ledger.Sweep.{is_unknown}
use geoji_agent.Ledger.Balance.{held_by, held, reserved_of, CallOk, IsBalanced}

closable_at : (id : ℕ) (c : CallRow) → closable id c ≡ true → call_key c ≡ id
closable_at id c h = ground arith

-- What `_close` finds: the row that its update returns.
pub closing : ℕ → List CallRow → Option CallRow
closing id cs = hit_row call_key (closable id) id cs

head-closable :
    (id : ℕ) (cs : List CallRow)
    → IsKeyed call_key cs
    → head (select_where (closable id) cs) ≡ closing id cs
unfolding closing
head-closable id cs u =
    rw (select_at_key call_key (closable id) id (closable_at id) cs u)
      (one (hit_row call_key (closable id) id cs))
  where
    one : (o : Option CallRow) → head (rows_of o) ≡ o
    one none = refl
    one (some c) = refl

closing-open :
    (id : ℕ) (cs : List CallRow) (c : CallRow)
    → closing id cs ≡ some c
    → (find call_key id cs ≡ some c) × (is_open c.status ≡ true)
unfolding closing
closing-open id cs c e = elim (Option-cases (find call_key id cs)) [
  | inl n ↦ ground arith
  | inr (d, n) ↦ ground arith
]

-- A budget that gives up what a call had reserved.
pub less : (r : ℤ) (h h' x : ℕ) → r ≡ pos h → h' + x ≡ h → r -ℤ pos x ≡ pos h'
less r h h' x e f = rw e (omega int_laws)

module _ (post : Option ℕ) (charge est : ℕ) (bs : List Budget) (k h h' : ℕ) where
  reserved_of-settle_budget :
      reserved_of k bs ≡ pos h
      → h' + (if eq_col post k then est else 0) ≡ h
      → reserved_of k (update_where (λ b. eq_col post b.post_id) (settle_budget charge est) bs)
        ≡ pos h'
  reserved_of-settle_budget e f =
      let g =
        find-update_where budget_key (λ x. eq_col post x.post_id) (settle_budget charge est)
          (λ x. refl) k bs in
      elim (Option-cases (find budget_key k bs)) [
        | inl n ↦ rw (g ∙ ap (Option.map _) n) (ground (arith, n, e))
        | inr (b, n) ↦
            rw (g ∙ ap (Option.map _) n) (
              ground
                (arith, n, e, find-key budget_key k bs b n, less b.reserved_micro_usd h h' est))
      ]

module _ (id : ℕ) (status : CallStatus) (usage : Option Usage) (actual ticks : Option ℕ)
    (request_id : Option String) (now : ℕ) (shut : is_open status ≡ false)
    (known : is_unknown status ≡ false) where
  closed : CallRow → CallRow
  closed = close_row status usage actual ticks request_id now

  -- Closing a call takes its estimate out of what its key holds.
  held-close :
      (k : ℕ) (cs : List CallRow) (c : CallRow)
      → IsKeyed call_key cs
      → closing id cs ≡ some c
      → held k (update_where (closable id) closed cs)
          + (if eq_col c.post_id k then c.estimated_max_micro_usd else 0)
        ≡ held k cs
  unfolding closing closed
  held-close k cs c u e = ground (
    arith,
    closing-open id cs c e,
    sum_at_key call_key (closable id) id (closable_at id) (held_by k) closed cs u,
  )

  close_found-IsBalanced :
      (no_response : Bool) (l : Books) (o : Option CallRow)
      → closing id l.calls ≡ o
      → IsBalanced l
      → IsBalanced (close_found id status usage actual ticks request_id no_response now l o)
  unfolding closed
  close_found-IsBalanced no_response l none e v = v
  close_found-IsBalanced no_response l (some c) e v = record {
    keyed_budgets = IsKeyed-update_where budget_key _ _ (λ x. refl) l.budgets v.keyed_budgets;
    keyed_calls = IsKeyed-update_where call_key _ _ (λ x. refl) l.calls v.keyed_calls;
    calls_ok =
        All-update_where CallOk (closable id) closed (λ x h t o. absurd (cc (o, shut))) l.calls
          v.calls_ok;
    balance = λ k.
        reserved_of-settle_budget c.post_id (charge_of no_response actual c.estimated_max_micro_usd)
          c.estimated_max_micro_usd l.budgets k (held k l.calls) _ (v.balance k)
          (held-close k l.calls c v.keyed_calls e);
  }

close-IsBalanced :
    (id : ℕ) (status : CallStatus) (usage : Option Usage) (cost : Option Cost)
    (request_id : Option String) (no_response : Bool) (now : ℕ) (l : Books)
    → is_open status ≡ false
    → is_unknown status ≡ false
    → IsBalanced l
    → IsBalanced (close id status usage cost request_id no_response now l)
unfolding close
close-IsBalanced id status usage cost request_id no_response now l shut known v =
    rw (head-closable id l.calls v.keyed_calls) (
      close_found-IsBalanced id status usage
        (resolve_actual_micro_usd (micro_of cost) (ticks_of cost)) (ticks_of cost) request_id now
        shut known no_response l (closing id l.calls) refl v)

mark_unknown-IsBalanced :
    (id now : ℕ) (l : Books) → IsBalanced l → IsBalanced (mark_unknown id now l)
unfolding mark_unknown
mark_unknown-IsBalanced id now l v = record {
  keyed_budgets = v.keyed_budgets;
  keyed_calls = IsKeyed-update_where call_key _ _ (λ x. refl) l.calls v.keyed_calls;
  calls_ok =
      All-update_where CallOk (closable id) (unknown_row now) (λ x h t o. cc) l.calls v.calls_ok;
  balance = λ k.
      v.balance k
      ∙ ap pos (
          sym (
            sum_same (held_by k) (closable id) (unknown_row now) CallOk (λ x h t. ground (arith, h))
              l.calls v.calls_ok));
}

-- The three ways to conclude a call.
pub data Ending : Type 0 where
  settled : Usage → Cost → Option String → Ending
  errored : Option Usage → Option Cost → Ending
  lost : Ending

abbrev pub conclude : ℕ → Ending → ℕ → Books → Books
conclude id (settled used spent request_id) now l = settle id used spent request_id now l
conclude id (errored usage cost) now l = fail id usage cost now l
conclude id lost now l = mark_unknown id now l

abbrev pub NoneLeft : ℕ → Books → Type 0
NoneLeft id l = any (closable id) l.calls ≡ false

module _ (id : ℕ) (status : CallStatus) (usage : Option Usage) (cost : Option Cost)
    (request_id : Option String) (no_response : Bool) (now : ℕ) (l : Books) where
  close_ends :
      is_open status ≡ false → NoneLeft id (close id status usage cost request_id no_response now l)
  unfolding close
  close_ends shut = found (select_where (closable id) l.calls) refl
    where
      found :
          (cs : List CallRow)
          → select_where (closable id) l.calls ≡ cs
          → any
              (closable id)
              (close_found id status usage
                (resolve_actual_micro_usd (micro_of cost) (ticks_of cost))
                (ticks_of cost)
                request_id
                no_response
                now
                l
                (head cs)).calls
            ≡ false
      found [] e = select_where_empty (closable id) l.calls e
      found (c ∷ cs) e =
          any_cleared (closable id)
            (close_row status usage (resolve_actual_micro_usd (micro_of cost) (ticks_of cost))
              (ticks_of cost) request_id now)
            (λ x h. ground arith) l.calls

  close_skips : NoneLeft id l → close id status usage cost request_id no_response now l ≡ l
  unfolding close
  close_skips h = rw (select_where_none (closable id) l.calls h) refl

mark_unknown_skips : (id now : ℕ) (l : Books) → NoneLeft id l → mark_unknown id now l ≡ l
unfolding mark_unknown
mark_unknown_skips id now l h =
    ap (λ cs. record l { calls = cs }) (update_where_none (closable id) (unknown_row now) l.calls h)

pub conclude_ends : (id : ℕ) (e : Ending) (now : ℕ) (l : Books) → NoneLeft id (conclude id e now l)
unfolding settle fail
conclude_ends id (settled used spent request_id) now l =
    close_ends id complete (some used) (some spent) request_id false now l refl
conclude_ends id (errored usage cost) now l =
    close_ends id failed usage cost none (is_null usage && is_null cost) now l refl
conclude_ends id lost now l =
    unfold mark_unknown in any_cleared (closable id) (unknown_row now) (λ x h. ground arith) l.calls

conclude_skips :
    (id : ℕ) (e : Ending) (now : ℕ) (l : Books) → NoneLeft id l → conclude id e now l ≡ l
unfolding settle fail
conclude_skips id (settled used spent request_id) now l h =
    close_skips id complete (some used) (some spent) request_id false now l h
conclude_skips id (errored usage cost) now l h =
    close_skips id failed usage cost none (is_null usage && is_null cost) now l h
conclude_skips id lost now l h = mark_unknown_skips id now l h

-- A call is concluded once: after it has been settled, failed or marked unknown, none of the three
-- changes the books again, so no amount is charged or given back twice.
pub conclude_once :
    (id : ℕ) (e e' : Ending) (now now' : ℕ) (l : Books)
    → conclude id e' now' (conclude id e now l) ≡ conclude id e now l
conclude_once id e e' now now' l =
    conclude_skips id e' now' (conclude id e now l) (conclude_ends id e now l)

-- Every ending keeps the books balanced.
pub conclude-IsBalanced :
    (id : ℕ) (e : Ending) (now : ℕ) (l : Books) → IsBalanced l → IsBalanced (conclude id e now l)
unfolding settle fail
conclude-IsBalanced id (settled used spent request_id) now l v =
    close-IsBalanced id complete (some used) (some spent) request_id false now l refl refl v
conclude-IsBalanced id (errored usage cost) now l v =
    close-IsBalanced id failed usage cost none (is_null usage && is_null cost) now l refl refl v
conclude-IsBalanced id lost now l v = mark_unknown-IsBalanced id now l v
