-- ===== src/Jobs/Lease.antt =====
-- The lease protocol of postgres_jobs.py (02 §3.2): a live lease is exclusive, and a generation that
-- has lost its row can never write to it again.
use geoji_agent.Base.{
  ℕ, ◌≤◌, ◌≡◌, ◌≢◌, refl, ap, ◌∙◌, ◌⊎◌, false, Option, some, List, arith, find, IsKeyed, All, any,
  any_and, any_at_key, update_where_none, rowcount_none, String, ◌&&◌, ◌==◌,
}
use geoji_agent.Jobs.{
  Job, running, Call, claims, beats, completes, cancels, fails, releases, reaps, key, claimable,
  owned, own, lapsed, heartbeat, complete, cancel, fail, release, release_row, run,
}
use geoji_agent.Jobs.Change.{Change, run-keeps, run-IsKeyed}

-- Worker `w` holds the row under generation `g` until the time `end`.
pub record IsHeld (w g end : ℕ) (j : Job) : Type 0 where
  pub is_running : j.status ≡ running
  pub owner : j.owner_id ≡ some w
  pub generation : j.generation_id ≡ some g
  pub lease : j.lease_until ≡ some end

-- The call is not the holder's own, and a reaper's call is not later than the lease.
abbrev pub Spares : ℕ → ℕ → ℕ → ℕ × Call → Type 0
Spares i g end (now, claims _ _ _ _ _) = Unit
Spares i g end (now, beats id _ g' _) = (id ≢ i) ⊎ (g' ≢ g)
Spares i g end (now, completes id _ g') = (id ≢ i) ⊎ (g' ≢ g)
Spares i g end (now, cancels id _ g' _) = (id ≢ i) ⊎ (g' ≢ g)
Spares i g end (now, fails id _ g' _ _) = (id ≢ i) ⊎ (g' ≢ g)
Spares i g end (now, releases id _ g') = (id ≢ i) ⊎ (g' ≢ g)
Spares i g end (now, reaps) = now ≤ end

module _ (w g end : ℕ) (j : Job) (held : IsHeld w g end j) where
  Change-held : (c : ℕ × Call) (x k : Job) → Spares j.id g end c → x ≡ j → Change c x k → k ≡ j
  unfolding claimable owned lapsed
  Change-held (now, claims kinds w' g' lease_s locked) x k s e c = ground arith
  Change-held (now, beats id w' g' lease_s) x k s e c = ground arith
  Change-held (now, completes id w' g') x k s e c = ground arith
  Change-held (now, cancels id w' g' code) x k s e c = ground arith
  Change-held (now, fails id w' g' code retry) x k s e c = ground arith
  Change-held (now, releases id w' g') x k s e c = ground arith
  Change-held (now, reaps) x k s e c = ground arith

-- While a worker's lease runs, nobody else's statement touches its row: after any history of other
-- calls, whose reaper runs are not later than the lease, the row is the same in every column.
pub run-held :
    (es : List (ℕ × Call)) (t : List Job) (w g end : ℕ) (j : Job)
    → IsKeyed key t
    → find key j.id t ≡ some j
    → IsHeld w g end j
    → All (Spares j.id g end) es
    → find key j.id (run t es) ≡ some j
run-held es t w g end j u e held quiet =
    let (k, e', same) =
      run-keeps (λ k. k ≡ j) (Spares j.id g end) (Change-held w g end j held) es t j.id j quiet u e
        refl in
    e' ∙ ap some same

-- No claim draws the generation `g` again.
abbrev pub Draws : ℕ → ℕ × Call → Type 0
Draws g (now, claims _ _ g' _ _) = g' ≢ g
Draws g (now, _) = Unit

Change-lost :
    (g : ℕ) (c : ℕ × Call) (j k : Job)
    → Draws g c
    → j.generation_id ≢ some g
    → Change c j k
    → k.generation_id ≢ some g
Change-lost g (now, claims kinds w' g' lease_s locked) j k d h c = ground arith
Change-lost g (now, beats id w' g' lease_s) j k d h c = ground arith
Change-lost g (now, completes id w' g') j k d h c = ground arith
Change-lost g (now, cancels id w' g' code) j k d h c = ground arith
Change-lost g (now, fails id w' g' code retry) j k d h c = ground arith
Change-lost g (now, releases id w' g') j k d h c = ground arith
Change-lost g (now, reaps) j k d h c = ground arith

-- Each of the owner's statements reports that it hit no row, and leaves the table as it is.
abbrev pub IsFenced : ℕ → ℕ → List Job → Type 0
IsFenced i g t =
    (w now lease_s : ℕ) (code : String) (retry : Option ℕ)
    → (heartbeat i w g lease_s now t ≡ (false, t))
      × (complete i w g now t ≡ (false, t))
      × (cancel i w g code now t ≡ (false, t))
      × (fail i w g code retry now t ≡ (false, t))
      × (release i w g now t ≡ some (false, t))

module _ (i w g now : ℕ) (t : List Job) (k : Job) (u : IsKeyed key t) (e : find key i t ≡ some k)
    (lost : k.generation_id ≢ some g) where
  not_owned : any (owned i w g now) t ≡ false
  unfolding owned
  not_owned = ground (arith, any_at_key key (owned i w g now) i (λ x h. ground arith) t u)

  own_refused : (f : Job → Job) → own (owned i w g now) f t ≡ (false, t)
  unfolding own
  own_refused f = rw (
    rowcount_none (owned i w g now) f t not_owned,
    update_where_none (owned i w g now) f t not_owned,
  )

  release_refused : release i w g now t ≡ some (false, t)
  unfolding release own
  release_refused = ground (
    arith,
    not_owned,
    no_release,
    rowcount_none (owned i w g now) (release_row now) t not_owned,
    update_where_none (owned i w g now) (release_row now) t not_owned,
  )
    where
      no_release : any (λ x. owned i w g now x && x.attempts == 0) t ≡ false
      no_release = any_and (owned i w g now) (λ x. x.attempts == 0) t not_owned

-- A generation that no longer names its row (reaped, failed, released or claimed anew) and that no
-- later claim draws is fenced off for good: whatever happens in between, none of the statements
-- that its worker may still send, under any worker name and at any time, hits the row.
pub run-IsFenced :
    (es : List (ℕ × Call)) (t : List Job) (i g : ℕ) (j : Job)
    → IsKeyed key t
    → find key i t ≡ some j
    → j.generation_id ≢ some g
    → All (Draws g) es
    → IsFenced i g (run t es)
unfolding heartbeat complete cancel fail
run-IsFenced es t i g j u e lost fresh w now lease_s code retry =
    let (k, e', gone) =
      run-keeps (λ x. x.generation_id ≢ some g) (Draws g) (λ c x y. Change-lost g c x y) es t i j
        fresh u e lost in
    let v = run-IsKeyed t es u in
    let refused = own_refused i w g now (run t es) k v e' gone in
    (refused _, refused _, refused _, refused _, release_refused i w g now (run t es) k v e' gone)
