-- ===== src/Jobs/Count.antt =====
-- How often a row is run: the `attempts` column counts the claims of a row, less the releases.
use geoji_agent.Base.{
  ℕ, ◌+◌, ◌≤◌, ◌≡◌, refl, ◌∙◌, inl, inr, Bool, ◌&&◌, Option, none, some, List, [], ◌∷◌, arith, find,
  IsKeyed, ◌==◌, if◌then◌else◌, find-key, Bool-cases, rowcount_at_key, All-true, any_at_key, sym,
  some_eq, find-update_where,
}
use geoji_agent.Jobs.{
  Job, Call, claims, beats, completes, cancels, fails, releases, reaps, key, owned, own, claim,
  start, release, run, step, claim,
}
use geoji_agent.Jobs.Claim.{Claimed, idle, took, claim-Claimed}
use geoji_agent.Jobs.Change.{Change, step-Change, step-IsKeyed, run-keeps}
use geoji_agent.Jobs.Invariant.{RowOk, Change-RowOk}

-- 1 if the claim hands out the row `i`.
abbrev pub hit : ℕ → Option Job → ℕ
hit i none = 0
hit i (some r) = if r.id == i then 1 else 0

unfoldable pub taken : ℕ → List Job → ℕ × Call → ℕ
taken i t (now, claims kinds w g lease_s locked) = hit i (claim kinds w g lease_s locked now t).0
taken i t _ = 0

-- 1 if the release of the row `i` reports that it hit the row.
abbrev pub returned : Option (Bool × List Job) → ℕ
returned none = 0
returned (some (b, _)) = if b then 1 else 0

unfoldable pub given : ℕ → List Job → ℕ × Call → ℕ
given i t (now, releases id w g) = if id == i then returned (release id w g now t) else 0
given i t _ = 0

unfoldable pub claims_of : ℕ → List Job → List (ℕ × Call) → ℕ
claims_of i t [] = 0
claims_of i t (c ∷ es) = taken i t c + claims_of i (step t c) es

unfoldable pub releases_of : ℕ → List Job → List (ℕ × Call) → ℕ
releases_of i t [] = 0
releases_of i t (c ∷ es) = given i t c + releases_of i (step t c) es

abbrev Counts : ℕ → List Job → ℕ × Call → Job → Job → Type 0
Counts i t c j k = k.attempts + given i t c ≡ j.attempts + taken i t c

empties : ℕ → ℕ → ℕ → ℕ → Job → Bool
empties id w g now j = owned id w g now j && j.attempts == 0

module _ (t : List Job) (i : ℕ) (j : Job) (u : IsKeyed key t) (e : find key i t ≡ some j)
    (v : RowOk j) where
  claim-Counts :
      (p : Job → Bool) (w g lease_s now : ℕ) (r : Option Job × List Job) (k : Job)
      → Claimed p (start w g lease_s now) t r
      → find key i r.1 ≡ some k
      → k.attempts + 0 ≡ j.attempts + hit i r.0
  claim-Counts p w g lease_s now r k (idle none_fits) e' = ground arith
  claim-Counts p w g lease_s now r k (took m x at fits best eq) e' =
      let f = find-update_where key (λ y. y.id == m.id) (start w g lease_s now) (λ y. refl) i t in
      let here : find key i x ≡ some (if j.id == m.id then start w g lease_s now j else j) =
        rw (eq, f, e) refl in
      let became : (if j.id == m.id then start w g lease_s now j else j) ≡ k =
        some_eq (sym here ∙ e') in
      ground (arith, became, find-key key i t j e)

  release-Counts :
      (now id w g : ℕ) (k : Job)
      → Change (now, releases id w g) j k
      → Counts i t (now, releases id w g) j k
  unfolding given taken release own owned empties
  release-Counts now id w g k c = elim (Bool-cases (id == i)) [
    | inl hit ↦
        let at : i ≡ id = ground arith in
        let here : find key id t ≡ some j = rw at at e in
        ground (
          arith,
          v.shaped,
          any_at_key key (empties id w g now) id (λ x h. ground arith) t u,
          rowcount_at_key key (owned id w g now) id (λ x h. ground arith) t u,
        )
    | inr other ↦ ground (arith, find-key key i t j e)
  ]

  step-Counts :
      (c : ℕ × Call) (k : Job) → find key i (step t c) ≡ some k → Change c j k → Counts i t c j k
  unfolding given taken step
  step-Counts (now, claims kinds w' g' lease_s locked) k f c =
      claim-Counts _ w' g' lease_s now _ k (claim-Claimed kinds w' g' lease_s locked now t u) f
  step-Counts (now, beats id w' g' lease_s) k f c = ground arith
  step-Counts (now, completes id w' g') k f c = ground arith
  step-Counts (now, cancels id w' g' code) k f c = ground arith
  step-Counts (now, fails id w' g' code retry) k f c = ground arith
  step-Counts (now, releases id w' g') k f c = release-Counts now id w' g' k c
  step-Counts (now, reaps) k f c = ground arith

-- Over any history, the attempts of a row have grown by the claims that it was handed out in, less
-- the releases that gave an attempt back.
pub run-attempts :
    (es : List (ℕ × Call)) (t : List Job) (i : ℕ) (j k : Job)
    → IsKeyed key t
    → find key i t ≡ some j
    → RowOk j
    → find key i (run t es) ≡ some k
    → k.attempts + releases_of i t es ≡ j.attempts + claims_of i t es
unfolding run claims_of releases_of
run-attempts [] t i j k u e v f = ground arith
run-attempts (c ∷ es) t i j k u e v f =
    let (m, e', change) = step-Change t i j u e c in
    omega (
      arith,
      step-Counts t i j u e v c m e' change,
      run-attempts es (step t c) i m k (step-IsKeyed t c u) e' (Change-RowOk c j m v change) f,
    )

Change-max : (c : ℕ × Call) (j k : Job) → Change c j k → k.max_attempts ≡ j.max_attempts
Change-max (now, claims kinds w g lease_s locked) j k h = ground arith
Change-max (now, beats id w g lease_s) j k h = ground arith
Change-max (now, completes id w g) j k h = ground arith
Change-max (now, cancels id w g code) j k h = ground arith
Change-max (now, fails id w g code retry) j k h = ground arith
Change-max (now, releases id w g) j k h = ground arith
Change-max (now, reaps) j k h = ground arith

abbrev Capped : ℕ → Job → Type 0
Capped cap x = (x.max_attempts ≡ cap) × RowOk x

-- A fresh row is handed to a worker at most `max_attempts` times, and once more for each release
-- that gave an attempt back, whatever the workers and the reaper do.
pub claims_bounded :
    (es : List (ℕ × Call)) (t : List Job) (i : ℕ) (j : Job)
    → IsKeyed key t
    → find key i t ≡ some j
    → RowOk j
    → j.attempts ≡ 0
    → claims_of i t es ≤ j.max_attempts + releases_of i t es
claims_bounded es t i j u e v fresh =
    let (k, e', capped) =
      run-keeps (Capped j.max_attempts) (λ _. Unit {0})
        (λ c x y _ h change. (Change-max c x y change ∙ h.0, Change-RowOk c x y h.1 change)) es t i
        j (All-true es) u e (refl, v) in
    omega (arith, run-attempts es t i j k u e v e', capped.0, capped.1.counted)
