-- ===== src/Ledger/Cache.antt =====
-- `get_node_result` and `put_node_result` of postgres_call_ledger.py: the stored outputs
-- `ai.node_results`. The jsonb values are their canonical texts; the clock that tests inject is an
-- option, and the database's `now()` an argument.
use text.Mathlib.Text.{◌==◌ as same_text}
use text.Mathlib.TextEquality.{eq_iff}
use geoji_agent.Base.{
  ℕ, ◌+◌, ◌<◌, ◌≡◌, refl, String, Bool, true, false, ◌&&◌, Option, none, some, List, [], ◌∷◌, arith,
  ltb, leb, ◌==◌, if◌then◌else◌, is_null, any, All, Among, inl, inr, ◌⊎◌, Option-cases,
}

pub record NodeResult : Type 0 where
  pub call_id : ℕ
  pub request_hash : String
  pub model_id : String
  pub prompt_version : String
  pub policy_version : String
  pub privacy_versions : String
  pub validated_output : String
  pub created_at : ℕ
  pub expires_at : ℕ
  pub invalidated_at : Option ℕ

-- domain/budget.py, NodeResultKey: the hash and the four versions.
pub record NodeResultKey : Type 0 where
  pub request_hash : String
  pub model_id : String
  pub prompt_version : String
  pub policy_version : String
  pub privacy_versions : String

-- 24 hours in microseconds.
abbrev pub node_result_ttl : ℕ
node_result_ttl = 86400000000

-- domain/budget.py
abbrev pub node_result_expires_at : ℕ → ℕ
node_result_expires_at now = now + node_result_ttl

abbrev pub or_now : Option ℕ → ℕ → ℕ
or_now none now = now
or_now (some t) now = t

-- The five equations of the WHERE.
abbrev pub same_key : NodeResultKey → NodeResult → Bool
same_key k r =
    same_text r.request_hash k.request_hash
    && same_text r.model_id k.model_id
    && same_text r.prompt_version k.prompt_version
    && same_text r.policy_version k.policy_version
    && same_text r.privacy_versions k.privacy_versions

abbrev pub usable : NodeResultKey → ℕ → NodeResult → Bool
usable k now r = same_key k r && is_null r.invalidated_at && ltb now r.expires_at

-- `ORDER BY created_at DESC LIMIT 1`
abbrev pub later : NodeResult → Option NodeResult → Option NodeResult
later r none = some r
later r (some s) = if leb s.created_at r.created_at then some r else some s

abbrev pub latest : NodeResultKey → ℕ → List NodeResult → Option NodeResult
latest k now [] = none
latest k now (r ∷ rs) = let best = latest k now rs in if usable k now r then later r best else best

abbrev pub output_of : Option NodeResult → Option String
output_of none = none
output_of (some r) = some r.validated_output

-- _GET_NODE_RESULT_SQL
unfoldable pub get_node_result : NodeResultKey → Option ℕ → ℕ → List NodeResult → Option String
get_node_result k clock now rs = output_of (latest k (or_now clock now) rs)

-- `COALESCE(:expires_at, now() + ttl)`, with the expiry that `clock` gives filled in before.
abbrev pub expiry_of : Option ℕ → Option ℕ → ℕ → ℕ
expiry_of none clock now = node_result_expires_at (or_now clock now)
expiry_of (some t) clock now = t

-- _PUT_NODE_RESULT_SQL: `ON CONFLICT (call_id) DO NOTHING`.
pub put_node_result :
    ℕ → NodeResultKey → String → Option ℕ → Option ℕ → ℕ → List NodeResult → List NodeResult
put_node_result call_id k output expires_at clock now rs =
    if any (λ r. r.call_id == call_id) rs
    then rs
    else record {
      call_id = call_id;
      request_hash = k.request_hash;
      model_id = k.model_id;
      prompt_version = k.prompt_version;
      policy_version = k.policy_version;
      privacy_versions = k.privacy_versions;
      validated_output = output;
      created_at = now;
      expires_at = expiry_of expires_at clock now;
      invalidated_at = none;
    }
      ∷ rs

same_text_refl : (v : String) → same_text v v ≡ true
same_text_refl v = (eq_iff v v).1 refl

latest-older :
    (k : NodeResultKey) (t now : ℕ) (rs : List NodeResult) (s : NodeResult)
    → All (λ r. r.created_at < now) rs
    → latest k t rs ≡ some s
    → s.created_at < now
latest-older k t now [] s h e = cc
latest-older k t now (r ∷ rs) s h e = elim (Option-cases (latest k t rs)) [
  | inl n ↦ ground (arith, h.0, n)
  | inr (x, n) ↦ ground (arith, h.0, n, latest-older k t now rs x h.1 n)
]

-- What a call stores is found again: with the same key, by every lookup within 24 hours, if the call
-- had nothing stored and the rows that are there are older.
pub put_node_result-get :
    (id : ℕ) (k : NodeResultKey) (output : String) (now later_on : ℕ) (rs : List NodeResult)
    → any (λ r. r.call_id == id) rs ≡ false
    → All (λ r. r.created_at < now) rs
    → later_on < now + node_result_ttl
    → get_node_result k none later_on (put_node_result id k output none none now rs) ≡ some output
unfolding get_node_result put_node_result
put_node_result-get id k output now later_on rs new old soon =
    elim (Option-cases (latest k later_on rs)) [
      | inl n ↦ ground (
        arith,
        new,
        n,
        same_text_refl k.request_hash,
        same_text_refl k.model_id,
        same_text_refl k.prompt_version,
        same_text_refl k.policy_version,
        same_text_refl k.privacy_versions,
      )
      | inr (s, n) ↦ ground (
        arith,
        new,
        n,
        latest-older k later_on now rs s old n,
        same_text_refl k.request_hash,
        same_text_refl k.model_id,
        same_text_refl k.prompt_version,
        same_text_refl k.policy_version,
        same_text_refl k.privacy_versions,
      )
    ]

latest-cases :
    (k : NodeResultKey) (t : ℕ) (r : NodeResult) (rs : List NodeResult) (s : NodeResult)
    → latest k t (r ∷ rs) ≡ some s
    → ((s ≡ r) × (usable k t r ≡ true)) ⊎ (latest k t rs ≡ some s)
latest-cases k t r rs s e = elim (Option-cases (latest k t rs)) [
  | inl n ↦ ground arith
  | inr (b, n) ↦ ground arith
]

latest-usable :
    (k : NodeResultKey) (t : ℕ) (rs : List NodeResult) (s : NodeResult)
    → latest k t rs ≡ some s
    → Among s rs × (usable k t s ≡ true)
latest-usable k t [] s e = absurd cc
latest-usable k t (r ∷ rs) s e = elim (latest-cases k t r rs s e) [
  | inl (same, u) ↦ (inl same, rw same u)
  | inr older ↦ let rest = latest-usable k t rs s older in (inr rest.0, rest.1)
]

-- A lookup returns the output of a stored row only if all five parts of the key agree, the row has not
-- been invalidated and has not expired.
pub get_node_result-usable :
    (k : NodeResultKey) (clock : Option ℕ) (now : ℕ) (rs : List NodeResult) (output : String)
    → get_node_result k clock now rs ≡ some output
    → (r : NodeResult) × Among r rs
      × (usable k (or_now clock now) r ≡ true)
      × (r.validated_output ≡ output)
unfolding get_node_result
get_node_result-usable k clock now rs output e =
    elim (Option-cases (latest k (or_now clock now) rs)) [
      | inl n ↦ absurd (ground arith)
      | inr (r, n) ↦
          let found = latest-usable k (or_now clock now) rs r n in
          (r, found.0, found.1, ground arith)
    ]
