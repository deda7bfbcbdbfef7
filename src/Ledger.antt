-- ===== src/Ledger.antt =====
-- src/geoji_ai/adapters/postgres_call_ledger.py: the budgets `ai.case_budgets`, the calls
-- `ai.llm_calls` and the stored outputs `ai.node_results`, one function for each method. Budget keys,
-- uuids and times (`now()`, in microseconds) are numbers; amounts are micro-USD. `reserved_micro_usd`
-- is an integer, since no check of the table keeps it from going below zero.
pub mod Costs
pub mod Sweep
pub mod Balance
pub mod Close
pub mod Bounds
pub mod Cache
pub mod Tests
use text.Mathlib.Text.{◌==◌ as same_text}
use geoji_agent.Base.{
  ℕ, ◌+◌, ◌/◌, String, Bool, true, false, not, ◌&&◌, ◌||◌, Option, none, some, List, [], ◌∷◌, ltb,
  ◌==◌, if◌then◌else◌, eq_col, is_null, any, update_where, select_where, max, find,
}
use geoji_agent.Base.Int.{ℤ, pos, ◌+ℤ◌, ◌-ℤ◌, ltb_ℤ}
use Costs.{
  Usage, Cost, Tokens, no_tokens, merge, coalesce, resolve_actual_micro_usd, ticks_of, micro_of,
}

pub data CallStatus : Type 0 where
  reserved sent complete failed unknown : CallStatus

pub record Budget : Type 0 where
  pub post_id : ℕ
  pub cap_micro_usd : ℕ
  pub spent_micro_usd : ℕ
  pub reserved_micro_usd : ℤ

pub record CallRow : Type 0 where
  pub id : ℕ
  pub post_id : Option ℕ
  pub job_id : Option ℕ
  pub generation_id : Option ℕ
  pub node : String
  pub call_index : ℕ
  pub vendor : String
  pub model_id : String
  pub request_hash : String
  pub status : CallStatus
  pub estimated_max_micro_usd : ℕ
  pub actual_micro_usd : Option ℕ
  pub cost_ticks : Option ℕ
  pub tokens : Tokens
  pub provider_request_id : Option String
  pub started_at : Option ℕ
  pub finished_at : Option ℕ

pub record Books : Type 0 where
  pub budgets : List Budget
  pub calls : List CallRow

-- ports/ledger.py, CallSpec.
pub record CallSpec : Type 0 where
  pub node : String
  pub call_index : ℕ
  pub vendor : String
  pub model : String
  pub est_max_micro_usd : ℕ
  pub request_hash : String
  pub generation_id : Option ℕ
  pub job_id : Option ℕ

abbrev pub budget_key : Budget → ℕ
budget_key b = b.post_id

abbrev pub call_key : CallRow → ℕ
call_key c = c.id

-- _ENSURE_BUDGET_SQL: the cap of a row that is there is only ever raised.
abbrev pub upsert_budget : ℕ → ℕ → List Budget → Option Budget → List Budget
upsert_budget k top bs none =
    record { post_id = k; cap_micro_usd = top; spent_micro_usd = 0; reserved_micro_usd = pos 0 }
    ∷ bs
upsert_budget k top bs (some _) =
    update_where (λ b. b.post_id == k) (λ b. record b { cap_micro_usd = max b.cap_micro_usd top })
      bs

abbrev pub ensure_budget : ℕ → ℕ → List Budget → List Budget
ensure_budget k top bs = upsert_budget k top bs (find budget_key k bs)

-- _ADD_RESERVED_SQL
abbrev pub add_reserved : ℕ → Budget → Budget
add_reserved est b = record b { reserved_micro_usd = b.reserved_micro_usd +ℤ pos est }

-- UNIQUE (generation_id, node, call_index); NULLs are distinct.
abbrev pub same_slot : CallSpec → CallRow → Bool
same_slot s c =
    (elim s.generation_id [ none ↦ false | some g ↦ eq_col c.generation_id g ])
    && same_text c.node s.node
    && c.call_index == s.call_index

-- _INSERT_CALL_SQL
abbrev pub new_call : ℕ → ℕ → CallSpec → ℕ → CallRow
new_call id k s now = record {
  id = id;
  post_id = some k;
  job_id = s.job_id;
  generation_id = s.generation_id;
  node = s.node;
  call_index = s.call_index;
  vendor = s.vendor;
  model_id = s.model;
  request_hash = s.request_hash;
  status = reserved;
  estimated_max_micro_usd = s.est_max_micro_usd;
  actual_micro_usd = none;
  cost_ticks = none;
  tokens = no_tokens;
  provider_request_id = none;
  started_at = some now;
  finished_at = none;
}

-- How `reserve` ends: with the call's id, or with an exception and the transaction rolled back.
pub data Reservation : Type 0 where
  granted : Books → Reservation
  budget_exceeded : (cap spent : ℕ) → ℤ → (est : ℕ) → Reservation
  integrity_error : Reservation
  no_budget_row : Reservation

-- `spent + reserved + est_max > cap`
unfoldable pub over_cap : Budget → ℕ → Bool
over_cap b est = ltb_ℤ (pos b.cap_micro_usd) (pos (b.spent_micro_usd + est) +ℤ b.reserved_micro_usd)

abbrev pub book_call : ℕ → ℕ → CallSpec → ℕ → List Budget → List CallRow → Books
book_call id k s now bs cs = record {
  budgets = update_where (λ b. b.post_id == k) (add_reserved s.est_max_micro_usd) bs;
  calls = new_call id k s now ∷ cs;
}

unfoldable pub reserve : ℕ → ℕ → ℕ → CallSpec → ℕ → Books → Reservation
reserve top id k s now l =
    let bs = ensure_budget k top l.budgets in
    elim (find budget_key k bs) [
      | none ↦ no_budget_row
      | some b ↦
          if over_cap b s.est_max_micro_usd
          then budget_exceeded b.cap_micro_usd b.spent_micro_usd b.reserved_micro_usd
              s.est_max_micro_usd
          else if any (same_slot s) l.calls
          then integrity_error
          else granted (book_call id k s now bs l.calls)
    ]

-- _OPEN_STATUSES
abbrev pub is_open : CallStatus → Bool
is_open reserved = true
is_open sent = true
is_open _ = false

abbrev pub closable : ℕ → CallRow → Bool
closable id c = c.id == id && is_open c.status

-- _CLOSE_CALL_SQL, the SET list.
abbrev pub close_row :
    CallStatus → Option Usage → Option ℕ → Option ℕ → Option String → ℕ → CallRow → CallRow
close_row status usage actual ticks request_id now c = record c {
  status = status;
  actual_micro_usd = actual;
  cost_ticks = ticks;
  tokens = merge usage c.tokens;
  provider_request_id = coalesce request_id c.provider_request_id;
  finished_at = some now;
}

-- _SETTLE_BUDGET_SQL
abbrev pub settle_budget : ℕ → ℕ → Budget → Budget
settle_budget charge est b = record b {
  spent_micro_usd = b.spent_micro_usd + charge;
  reserved_micro_usd = b.reserved_micro_usd -ℤ pos est;
}

abbrev pub charge_of : Bool → Option ℕ → ℕ → ℕ
charge_of no_response actual est =
    if no_response then 0 else elim actual [ none ↦ est | some a ↦ a ]

abbrev pub head : List CallRow → Option CallRow
head [] = none
head (c ∷ _) = some c

-- `_close` after its first statement, given the row that it returned: `None` is left alone.
abbrev pub close_found :
    ℕ
    → CallStatus
    → Option Usage
    → Option ℕ
    → Option ℕ
    → Option String
    → Bool
    → ℕ
    → Books
    → Option CallRow
    → Books
close_found id status usage actual ticks request_id no_response now l none = l
close_found id status usage actual ticks request_id no_response now l (some c) = record {
  budgets =
      update_where (λ b. eq_col c.post_id b.post_id)
        (settle_budget (charge_of no_response actual c.estimated_max_micro_usd)
          c.estimated_max_micro_usd)
        l.budgets;
  calls = update_where (closable id) (close_row status usage actual ticks request_id now) l.calls;
}

-- `_close`
pub close : ℕ → CallStatus → Option Usage → Option Cost → Option String → Bool → ℕ → Books → Books
close id status usage cost request_id no_response now l =
    close_found id status usage (resolve_actual_micro_usd (micro_of cost) (ticks_of cost))
      (ticks_of cost) request_id no_response now l (head (select_where (closable id) l.calls))

pub settle : ℕ → Usage → Cost → Option String → ℕ → Books → Books
unfolding close
settle id usage cost request_id now =
    close id complete (some usage) (some cost) request_id false now

-- `fail`; an error with neither usage nor cost had no response.
pub fail : ℕ → Option Usage → Option Cost → ℕ → Books → Books
unfolding close
fail id usage cost now = close id failed usage cost none (is_null usage && is_null cost) now

-- _MARK_UNKNOWN_SQL
abbrev pub unknown_row : ℕ → CallRow → CallRow
unknown_row now c = record c { status = unknown; finished_at = some now }

pub mark_unknown : ℕ → ℕ → Books → Books
mark_unknown id now l = record l { calls = update_where (closable id) (unknown_row now) l.calls }
