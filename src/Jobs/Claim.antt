-- ===== src/Jobs/Claim.antt =====
-- CLAIM_SQL of postgres_jobs.py: which row it takes, and what it leaves alone.

use geoji_agent.Base.{
  ℕ, ◌≡◌, refl, inl, inr, Bool, true, false, ◌&&◌, Option, none, some, List, [], ◌∷◌, arith, All,
  All-map, find, IsKeyed, Bool-cases, Option-cases, ◌==◌, update_where,
}
use geoji_agent.Jobs.{Job, JobKind, key, precedes, earlier, first, candidate, start, claim}

precedes_irrefl : (a : Job) → precedes a a ≡ false
unfolding precedes
precedes_irrefl a = ground arith

precedes_trans : (a b c : Job) → precedes a b ≡ true → precedes b c ≡ true → precedes a c ≡ true
unfolding precedes
precedes_trans a b c p q = ground arith

-- No row that passes the test stands before `k`.
abbrev pub IsFirst : (Job → Bool) → Job → List Job → Type 0
IsFirst p k = All (λ j. p j ≡ true → precedes j k ≡ false)

IsFirst-shift :
    (p : Job → Bool) (j k : Job) (js : List Job)
    → precedes j k ≡ true
    → IsFirst p k js
    → IsFirst p j js
IsFirst-shift p j k js h =
    All-map _ _
      (λ x last px. elim (Bool-cases (precedes x j)) [
        | inl e ↦ absurd (cc (precedes_trans x j k e h, last px))
        | inr e ↦ e
      ])
      js

abbrev Chosen : (Job → Bool) → List Job → Option Job → Type 0
Chosen p js none = All (λ j. p j ≡ false) js
Chosen p js (some k) = (p k ≡ true) × IsFirst p k js

earlier-Chosen :
    (p : Job → Bool) (j : Job) (js : List Job) (r : Option Job)
    → Chosen p js r
    → Chosen p (j ∷ js) (earlier p j r)
earlier-Chosen p j js none h = elim (Bool-cases (p j)) [
  | inl e ↦ rw e (e, ((λ _. precedes_irrefl j), All-map _ _ (λ x f t. absurd (cc (f, t))) js h))
  | inr e ↦ rw e (e, h)
]
earlier-Chosen p j js (some k) h = elim (Bool-cases (p j && precedes j k)) [
  | inl e ↦
      rw e (ground arith, ((λ _. precedes_irrefl j), IsFirst-shift p j k js (ground arith) h.1))
  | inr e ↦ rw e (h.0, ((λ pj. ground arith), h.1))
]

first-Chosen : (p : Job → Bool) (js : List Job) → Chosen p js (first p js)
unfolding first
first-Chosen p [] = tt
first-Chosen p (j ∷ js) = earlier-Chosen p j js (first p js) (first-Chosen p js)

find-first :
    (p : Job → Bool) (js : List Job) (k : Job)
    → IsKeyed key js
    → first p js ≡ some k
    → find key k.id js ≡ some k
unfolding first
find-first p [] k u e = cc
find-first p (j ∷ js) k u e = elim (Option-cases (first p js)) [
  | inl n ↦ ground arith
  | inr (m, n) ↦ ground (arith, find-first p js m u.1 n)
]

-- What a claim does to the table: nothing, if no row passes; else it starts the first that does.
pub data Claimed (p : Job → Bool) (f : Job → Job) (t : List Job)
    : Option Job × List Job → Type 0 where
  idle : All (λ j. p j ≡ false) t → Claimed p f t (none, t)
  took :
      (k : Job) (u : List Job)
      → find key k.id t ≡ some k
      → p k ≡ true
      → IsFirst p k t
      → u ≡ update_where (λ j. j.id == k.id) f t
      → Claimed p f t (some (f k), u)

-- Every claim on a keyed table starts the first candidate in the statement's order, or finds that
-- there is no candidate and changes nothing.
pub claim-Claimed :
    (kinds : List JobKind) (w g lease_s : ℕ) (locked : ℕ → Bool) (now : ℕ) (t : List Job)
    → IsKeyed key t
    → Claimed
        (candidate kinds locked now)
        (start w g lease_s now)
        t
        (claim kinds w g lease_s locked now t)
unfolding claim
claim-Claimed kinds w g lease_s locked now t u =
    let p = candidate kinds locked now in
    let best = first-Chosen p t in
    elim (Option-cases (first p t)) [
      | inl e ↦ rw (e, claim) (idle (rw e at best))
      | inr (k, e) ↦
          let chosen = rw e at best in
          rw (e, claim) (took k _ (find-first p t k u e) chosen.0 chosen.1 refl)
    ]
