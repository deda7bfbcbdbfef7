-- ===== src/Jobs/Change.antt =====
-- One statement of postgres_jobs.py seen from one row: what it may do to the row that a key names.
-- The later proofs read the queue through `step-Change` and leave the statements shut.
use mathlib.Core.Option
use geoji_agent.Base.{
  ℕ, ◌≡◌, refl, sym, ◌∙◌, ap, ◌⊎◌, inl, inr, Bool, true, false, not, ◌&&◌, Option, some, List, [],
  ◌∷◌, arith, All, any, find, IsKeyed, find-update_where, IsKeyed-update_where, any_at_key,
  find-key, Bool-cases, some_eq, ◌==◌, if◌then◌else◌, update_where,
}
use geoji_agent.Jobs.{
  Job, Call, claims, beats, completes, cancels, fails, releases, reaps, key, candidate, start,
  claim, owned, own, beat_row, complete_row, cancel_row, fail_row, release_row, retry_delay, lapsed,
  reap_row, heartbeat, complete, cancel, fail, release, reap, step, run,
}
use geoji_agent.Jobs.Claim.{Claimed, idle, took, claim-Claimed}

abbrev pub Change : ℕ × Call → Job → Job → Type 0
Change (now, claims kinds w g lease_s locked) j k =
    (k ≡ j) ⊎ ((candidate kinds locked now j ≡ true) × (k ≡ start w g lease_s now j))
Change (now, beats id w g lease_s) j k =
    k ≡ (if owned id w g now j then beat_row lease_s now j else j)
Change (now, completes id w g) j k = k ≡ (if owned id w g now j then complete_row now j else j)
Change (now, cancels id w g code) j k =
    k ≡ (if owned id w g now j then cancel_row code now j else j)
Change (now, fails id w g code retry) j k =
    k ≡ (if owned id w g now j then fail_row code (retry_delay retry) now j else j)
Change (now, releases id w g) j k =
    k ≡ (if owned id w g now j && not (j.attempts == 0) then release_row now j else j)
Change (now, reaps) j k = k ≡ (if lapsed now j then reap_row now j else j)

abbrev pub Becomes : ℕ × Call → List Job → ℕ → Job → Type 0
Becomes e t i j = (k : Job) × (find key i (step t e) ≡ some k) × Change e j k

module _ (t : List Job) (i : ℕ) (j : Job) (u : IsKeyed key t) (e : find key i t ≡ some j) where
  updated :
      (p : Job → Bool) (f : Job → Job)
      → ((x : Job) → key (f x) ≡ key x)
      → find key i (update_where p f t) ≡ some (if p j then f j else j)
  updated p f same = find-update_where key p f same i t ∙ ap (Option.map _) e

  claim-Change :
      (p : Job → Bool) (f : Job → Job)
      → ((x : Job) → key (f x) ≡ key x)
      → (r : Option Job × List Job) → Claimed p f t r
      → (k : Job) × (find key i r.1 ≡ some k) × ((k ≡ j) ⊎ ((p j ≡ true) × (k ≡ f j)))
  claim-Change p f same r (idle none_fits) = (j, e, inl refl)
  claim-Change p f same r (took k v at fits _ eq) = elim (Bool-cases (j.id == k.id)) [
    | inl hit ↦ (
      f j,
      rw eq (updated (λ x. x.id == k.id) f same ∙ rw hit refl),
      inr (rw (same_row (ground arith)) fits, refl),
    )
    | inr miss ↦ (j, rw eq (updated (λ x. x.id == k.id) f same ∙ rw miss refl), inl refl)
  ]
    where
      same_row : j.id ≡ k.id → j ≡ k
      same_row h = some_eq (sym e ∙ ap (λ n. find key n t) (sym (find-key key i t j e) ∙ h) ∙ at)

  module _ (now id w g : ℕ) where
    empties : Job → Bool
    empties x = owned id w g now x && x.attempts == 0

    -- The release raises exactly if the row that it would hit has no attempt to give back.
    empties_here : owned id w g now j ≡ true → any empties t ≡ (j.attempts == 0)
    unfolding empties owned
    empties_here o =
        let at : i ≡ id = ground (arith, find-key key i t j e) in
        let here : find key id t ≡ some j = rw at at e in
        ground (arith, any_at_key key empties id (λ x h. ground arith) t u)

  release-Change :
      (now id w g : ℕ)
      → (any (empties now id w g) t ≡ true) ⊎ (any (empties now id w g) t ≡ false)
      → Becomes (now, releases id w g) t i j
  unfolding step release own empties
  release-Change now id w g (inl raised) =
      (j, rw (raised, release) e, ground (arith, empties_here now id w g))
  release-Change now id w g (inr ran) = (
    if owned id w g now j then release_row now j else j,
    rw (ran, release) (updated (owned id w g now) (release_row now) (λ x. refl)),
    ground (arith, empties_here now id w g),
  )

  -- Under the key `i` a statement changes the row by the change that its call allows.
  pub step-Change : (c : ℕ × Call) → Becomes c t i j
  unfolding step claim heartbeat complete cancel fail release reap own
  step-Change (now, claims kinds w g lease_s locked) =
      claim-Change _ _ (λ x. refl) _ (claim-Claimed kinds w g lease_s locked now t u)
  step-Change (now, beats id w g lease_s) =
      (_, updated (owned id w g now) (beat_row lease_s now) (λ x. refl), refl)
  step-Change (now, completes id w g) =
      (_, updated (owned id w g now) (complete_row now) (λ x. refl), refl)
  step-Change (now, cancels id w g code) =
      (_, updated (owned id w g now) (cancel_row code now) (λ x. refl), refl)
  step-Change (now, fails id w g code retry) =
      (_, updated (owned id w g now) (fail_row code (retry_delay retry) now) (λ x. refl), refl)
  step-Change (now, releases id w g) =
      release-Change now id w g (Bool-cases (any (empties now id w g) t))
  step-Change (now, reaps) = (_, updated (lapsed now) (reap_row now) (λ x. refl), refl)

pub step-IsKeyed : (t : List Job) (c : ℕ × Call) → IsKeyed key t → IsKeyed key (step t c)
unfolding step claim heartbeat complete cancel fail release reap own
step-IsKeyed t (now, claims kinds w g lease_s locked) u =
    started (claim-Claimed kinds w g lease_s locked now t u)
  where
    started :
        {p : Job → Bool} {r : Option Job × List Job}
        → Claimed p (start w g lease_s now) t r
        → IsKeyed key r.1
    started (idle none_fits) = u
    started (took k v at fits best eq) = rw eq (IsKeyed-update_where key _ _ (λ x. refl) t u)
step-IsKeyed t (now, beats id w g lease_s) u = IsKeyed-update_where key _ _ (λ x. refl) t u
step-IsKeyed t (now, completes id w g) u = IsKeyed-update_where key _ _ (λ x. refl) t u
step-IsKeyed t (now, cancels id w g code) u = IsKeyed-update_where key _ _ (λ x. refl) t u
step-IsKeyed t (now, fails id w g code retry) u = IsKeyed-update_where key _ _ (λ x. refl) t u
step-IsKeyed t (now, releases id w g) u =
    ground (arith, u, IsKeyed-update_where key (owned id w g now) (release_row now) (λ x. refl) t u)
step-IsKeyed t (now, reaps) u = IsKeyed-update_where key _ _ (λ x. refl) t u

pub run-IsKeyed : (t : List Job) (es : List (ℕ × Call)) → IsKeyed key t → IsKeyed key (run t es)
unfolding run
run-IsKeyed t [] u = u
run-IsKeyed t (c ∷ es) u = run-IsKeyed (step t c) es (step-IsKeyed t c u)

-- What each allowed change keeps of a row, a history of allowed calls keeps.
module _ {ℓ κ} (P : Job → Type ℓ) (Allowed : ℕ × Call → Type κ)
    (keep : (c : ℕ × Call) (j k : Job) → Allowed c → P j → Change c j k → P k) where
  pub run-keeps :
      (es : List (ℕ × Call)) (t : List Job) (i : ℕ) (j : Job)
      → All Allowed es
      → IsKeyed key t
      → find key i t ≡ some j
      → P j
      → (k : Job) × (find key i (run t es) ≡ some k) × P k
  unfolding run
  run-keeps [] t i j ok u e h = (j, e, h)
  run-keeps (c ∷ es) t i j ok u e h =
      let (k, e', change) = step-Change t i j u e c in
      run-keeps es (step t c) i k ok.1 (step-IsKeyed t c u) e' (keep c j k ok.0 h change)
