-- ===== src/Gateway/Books.antt =====
-- The effects of `scoped_call` on the ledger of postgres_call_ledger.py: the trace of llm_gateway.py
-- performed on the books, with the call that was booked.
use geoji_agent.Base.{
  ℕ, suc, ◌≡◌, refl, sym, subst, ◌∙◌, String, Bool, true, false, ◌||◌, Option, none, some, List, [],
  ◌∷◌, arith, any, Option-cases, inl, inr, ◌⊎◌,
}
use geoji_agent.Ledger.Costs.{Usage, Cost}
use geoji_agent.Ledger.{Books, CallSpec, reserve, granted, call_key}
use geoji_agent.Base.{find}
use geoji_agent.Ledger.Balance.{IsBalanced, reserve-IsBalanced}
use geoji_agent.Ledger.Close.{
  Ending, settled, errored, lost, conclude, NoneLeft, conclude_ends, conclude-IsBalanced,
}
use geoji_agent.Vendor.{Failures}
use geoji_agent.Gateway.{Event, Call, Turn, scoped_call, reserved}
use geoji_agent.Gateway.Closing.{
  Phase, follow, move, is_settled, fresh, cleared, waiting, asleep, rechecked, shut, over,
  is_ledgered, scoped_call-settled,
}

-- What `_close` is given besides the call's id: the result's or the error's usage and cost.
pub record Bill : Type 0 where
  pub usage : Usage
  pub cost : Cost
  pub request_id : Option String
  pub error_usage : Option Usage
  pub error_cost : Option Cost
  pub closed_at : ℕ

-- The ending that `_close` asks the ledger for; the other effects leave the books alone.
abbrev pub ending_of : Bill → Event → Option Ending
ending_of b Event.settled = some (settled b.usage b.cost b.request_id)
ending_of b Event.failed = some (errored b.error_usage b.error_cost)
ending_of b Event.marked_unknown = some lost
ending_of b _ = none

abbrev pub perform : ℕ → Bill → List Event → Books → Books
perform id b [] l = l
perform id b (e ∷ es) l =
    perform id b es (elim (ending_of b e) [ none ↦ l | some x ↦ conclude id x b.closed_at l ])

abbrev pub is_booking : Event → Bool
is_booking reserved = true
is_booking _ = false

abbrev pub is_active : Phase → Bool
is_active cleared = true
is_active waiting = true
is_active asleep = true
is_active rechecked = true
is_active _ = false

perform-IsBalanced :
    (id : ℕ) (b : Bill) (es : List Event) (l : Books)
    → IsBalanced l
    → IsBalanced (perform id b es l)
perform-IsBalanced id b [] l v = v
perform-IsBalanced id b (e ∷ es) l v = perform-IsBalanced id b es _ (step (ending_of b e))
  where
    step :
        (o : Option Ending)
        → IsBalanced (elim o [ none ↦ l | some x ↦ conclude id x b.closed_at l ])
    step none = v
    step (some x) = conclude-IsBalanced id x b.closed_at l v

abbrev is_after : Phase → Bool
is_after shut = true
is_after over = true
is_after _ = false

-- Each step that the machine allows closes the call, or leaves the ledger alone and an open call open.
move-cases :
    (b : Bill) (p q : Phase) (x : Event)
    → move p x ≡ some q
    → ((o : Ending) × (ending_of b x ≡ some o) × (is_after q ≡ true))
      ⊎ ((ending_of b x ≡ none)
          × ((is_active p || is_booking x) ≡ is_active q)
          × (is_after p ≡ true → is_after q ≡ true))
move-cases b p q x e = ground arith

follow-head :
    (p : Phase) (x : Event) (es : List Event)
    → is_settled (follow p (x ∷ es)) ≡ true
    → (q : Phase) × (move p x ≡ some q) × (is_settled (follow q es) ≡ true)
follow-head p x es e = elim (Option-cases (move p x)) [
  | inl n ↦ ground arith
  | inr (q, n) ↦ (q, n, ground arith)
]

module _ (id : ℕ) (b : Bill) (x : Event) (es : List Event) (l : Books) where
  perform_end :
      (o : Ending)
      → ending_of b x ≡ some o
      → perform id b (x ∷ es) l ≡ perform id b es (conclude id o b.closed_at l)
  perform_end o n = rw n refl

  perform-none : ending_of b x ≡ none → perform id b (x ∷ es) l ≡ perform id b es l
  perform-none n = rw n refl

perform_after :
    (id : ℕ) (b : Bill) (es : List Event) (l : Books) (p : Phase)
    → is_after p ≡ true
    → is_settled (follow p es) ≡ true
    → perform id b es l ≡ l
perform_after id b [] l p a e = refl
perform_after id b (x ∷ es) l p a e =
    let (q, m, f) = follow-head p x es e in
    elim (move-cases b p q x m) [
      | inl (o, n, c) ↦ ground arith
      | inr (n, c, d) ↦ rw n (perform_after id b es l q (d a) f)
    ]

perform-closes :
    (id : ℕ) (b : Bill) (es : List Event) (l : Books) (p : Phase)
    → is_settled (follow p es) ≡ true
    → (is_active p || any is_booking es) ≡ true
    → NoneLeft id (perform id b es l)
perform-closes id b [] l p e a = ground arith
perform-closes id b (x ∷ es) l p e a =
    let (q, m, f) = follow-head p x es e in
    elim (move-cases b p q x m) [
      | inl (o, n, c) ↦
          subst (NoneLeft id)
            (sym (
              perform_end id b x es l o n
              ∙ perform_after id b es (conclude id o b.closed_at l) q c f))
            (conclude_ends id o b.closed_at l)
      | inr (n, c, d) ↦
          subst (NoneLeft id) (sym (perform-none id b x es l n))
            (perform-closes id b es l q f (ground arith))
    ]

-- On books that are balanced, after a booking that the ledger granted under a new id: if the vendor's
-- errors are of kinds with a row in the ledger and the call reached its booking, then once its effects
-- are performed the books are balanced again and no open row of the call is left.
pub scoped_call-books :
    (call : Call) (world : ℕ → Turn)
    → ((n : ℕ) → is_ledgered (world n).reply ≡ true)
    → (n : ℕ) (h : Failures) (b : Bill) (top id k now : ℕ) (s : CallSpec) (l m : Books)
    → IsBalanced l
    → find call_key id l.calls ≡ none
    → reserve top id k s now l ≡ granted m
    → any is_booking (scoped_call call world (suc (suc n)) h).trace ≡ true
    → IsBalanced (perform id b (scoped_call call world (suc (suc n)) h).trace m)
      × NoneLeft id (perform id b (scoped_call call world (suc (suc n)) h).trace m)
scoped_call-books call world ok n h b top id k now s l m v new g reached =
    let trace = (scoped_call call world (suc (suc n)) h).trace in
    (
      perform-IsBalanced id b trace m (reserve-IsBalanced top id k s now l m v new g),
      perform-closes id b trace m fresh (scoped_call-settled call world ok n h) reached,
    )
