-- ===== src/Evidence/Scopes.antt =====
-- Who may read what: the visibility of a fact (domain/visibility.py) and the privacy epochs
-- (domain/privacy.py).
use geoji_agent.Base.{
  ℕ, ◌≡◌, refl, Bool, true, false, not, ◌&&◌, ◌||◌, List, [], ◌∷◌, ◌++◌, arith, ◌==◌, if◌then◌else◌,
  any, select_where, Among, inl, inr,
}
use geoji_agent.Evidence.{
  Scope, public, rooms, private, member, subset, usable, epoch_of, mismatched_from,
  mismatched_scopes, Fact, target_pack,
}

-- The description: a room sees a scope that is public, or that names it.
abbrev pub sees : ℕ → Scope → Bool
sees r scope = elim scope.visibility [
  | public ↦ true
  | rooms ↦ member r scope.room_ids
  | private ↦ false
]

subset-member :
    (r : ℕ) (ts rs : List ℕ) → subset ts rs ≡ true → member r ts ≡ true → member r rs ≡ true
subset-member r [] rs h m = ground arith
subset-member r (t ∷ ts) rs h m = ground (arith, subset-member r ts rs)

usable-sees :
    (scope : Scope) (target : List ℕ) (r : ℕ)
    → usable scope target ≡ true
    → member r target ≡ true
    → sees r scope ≡ true
unfolding usable
usable-sees scope target r u m = ground (arith, subset-member r target scope.room_ids)

-- No fact leaks: what a pack for some rooms holds, each of these rooms may see, since it is public or
-- names the room.
pub target_pack-sees :
    (target : List ℕ) (facts : List Fact) (f : Fact) (r : ℕ)
    → Among f (target_pack target facts)
    → member r target ≡ true
    → sees r f.draft.scope ≡ true
unfolding target_pack
target_pack-sees target [] f r among m = elim among [ ]
target_pack-sees target (g ∷ gs) f r among m =
    split (usable g.draft.scope target) refl (λ later. target_pack-sees target gs f r later m) among
  where
    split :
        (b : Bool)
        → usable g.draft.scope target ≡ b
        → (Among f (target_pack target gs) → sees r f.draft.scope ≡ true)
        → Among f (
            if b
            then g ∷ select_where (λ x. usable x.draft.scope target) gs
            else select_where (λ x. usable x.draft.scope target) gs)
        → sees r f.draft.scope ≡ true
    split true u rest (inl same) = rw same (usable-sees g.draft.scope target r u m)
    split true u rest (inr later) = rest later
    split false u rest later = rest later

-- The epoch of some pair with the key `k` differs from the current one.
abbrev pub differs : ℕ → List (ℕ × ℕ) → List (ℕ × ℕ) → Bool
differs k expected current =
    any (λ (e : ℕ × ℕ). e.0 == k && not (epoch_of k current == e.1)) expected

member-append : (k : ℕ) (xs ys : List ℕ) → member k (xs ++ ys) ≡ (member k xs || member k ys)
member-append k [] ys = refl
member-append k (x ∷ xs) ys = ground (arith, member-append k xs ys)

mismatched_from-member :
    (k : ℕ) (found : List ℕ) (expected current : List (ℕ × ℕ))
    → member k (mismatched_from found expected current)
      ≡ (member k found || differs k expected current)
unfolding mismatched_from
mismatched_from-member k found [] current = ground arith
mismatched_from-member k found ((j, epoch) ∷ es) current = ground (
  arith,
  mismatched_from-member k found es current,
  mismatched_from-member k (found ++ j ∷ []) es current,
  member-append k found (j ∷ []),
)

-- A scope key is listed exactly if the snapshot has it with an epoch other than the current one, where
-- a key without a row counts as epoch 0.
pub mismatched_scopes-member :
    (k : ℕ) (expected current : List (ℕ × ℕ))
    → member k (mismatched_scopes expected current) ≡ differs k expected current
unfolding mismatched_scopes
mismatched_scopes-member k expected current = mismatched_from-member k [] expected current
