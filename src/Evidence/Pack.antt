-- ===== src/Evidence/Pack.antt =====
-- The pack that `build_evidence` of application/build_evidence.py makes.
use geoji_agent.Base.{
  ℕ, suc, zero, ◌+◌, ◌≤◌, ◌≡◌, refl, ap, ◌∙◌, Bool, none, some, List, [], ◌∷◌, arith, ltb,
  if◌then◌else◌, length, take, length-take-le,
}
use geoji_agent.Evidence.{
  Snapshot, Resolved, Phrases, RoomRule, Fact, Draft, drafts, this_case, label_from, build_evidence,
  resolve_label,
}

length-label_from :
    (uuids : ℕ → ℕ) (i : ℕ) (ds : List Draft) → length (label_from uuids i ds) ≡ length ds
length-label_from uuids i [] = refl
length-label_from uuids i (d ∷ ds) = ap suc (length-label_from uuids (suc i) ds)

resolve-label_from :
    (uuids : ℕ → ℕ) (n i : ℕ) (ds : List Draft)
    → resolve_label n (label_from uuids i ds)
      ≡ (if ltb n i then none else if ltb n (i + length ds) then some (uuids n) else none)
unfolding resolve_label
resolve-label_from uuids n i [] = ground arith
resolve-label_from uuids n i (d ∷ ds) = ground (arith, resolve-label_from uuids n (suc i) ds)

module _ (phrases : Phrases) (matcher : ℕ → RoomRule → Bool) (uuids : ℕ → ℕ) (pack_limit : ℕ)
    (s : Snapshot) (r : Resolved) (fs : List Fact) where
  abbrev packed : List Draft
  packed = take pack_limit (drafts phrases matcher s r)

  is_packed :
      build_evidence phrases matcher uuids pack_limit s r ≡ some fs → fs ≡ label_from uuids 0 packed
  unfolding build_evidence
  is_packed e = ground arith

  not_zero : build_evidence phrases matcher uuids pack_limit s r ≡ some fs → 1 ≤ pack_limit
  unfolding build_evidence
  not_zero e = ground arith

  -- A pack that is made is within its limit, and the case itself is its first fact, F0.
  pub build_evidence-limit :
      build_evidence phrases matcher uuids pack_limit s r ≡ some fs
      → (length fs ≤ pack_limit)
        × (rest : List Fact) × (fs
            ≡ record { label = 0; uuid = uuids 0; draft = this_case phrases matcher s } ∷ rest)
  build_evidence-limit e =
      let bound : length fs ≤ pack_limit = omega (
        arith,
        ap length (is_packed e),
        length-label_from uuids 0 packed,
        length-take-le pack_limit (drafts phrases matcher s r),
      ) in
      let (rest, first) = head_of pack_limit (not_zero e) in (bound, rest, is_packed e ∙ first)
    where
      head_of :
          (n : ℕ)
          → 1 ≤ n
          → (rest : List Fact) × (label_from uuids 0 (take n (drafts phrases matcher s r))
              ≡ record { label = 0; uuid = uuids 0; draft = this_case phrases matcher s } ∷ rest)
      head_of zero h = absurd (omega arith)
      head_of (suc n) h = (_, refl)

  -- The labels of a pack are F0, F1 and so on without a gap, and resolving a label gives the uuid of
  -- its fact, and nothing for a label that the pack does not have.
  pub build_evidence-resolve :
      (n : ℕ)
      → build_evidence phrases matcher uuids pack_limit s r ≡ some fs
      → resolve_label n fs ≡ (if ltb n (length fs) then some (uuids n) else none)
  build_evidence-resolve n e =
      rw (is_packed e)
        (ground (arith, resolve-label_from uuids n 0 packed, length-label_from uuids 0 packed))
