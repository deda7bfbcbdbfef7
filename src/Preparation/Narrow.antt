-- ===== src/Preparation/Narrow.antt =====
-- Who may see a fact that a model infers from others: `_narrowest_scope` of graphs/preparation.py
-- against `usable` of domain/visibility.py.
use geoji_agent.Base.{
  ℕ, ◌≡◌, refl, sym, ap, ◌∙◌, Bool, true, false, not, ◌&&◌, List, [], ◌∷◌, arith, any, filter, inl,
  inr, Bool-cases, ◌==◌,
}
use geoji_agent.Evidence.{Scope, member, subset, is_empty, usable}
use geoji_agent.Texts.{all}
use geoji_agent.Preparation.{is_private, room_sets, intersection, among_rooms, narrowest_scope}

member-filter :
    (x : ℕ) (r s : List ℕ) → member x (filter (λ y. member y s) r) ≡ (member x r && member x s)
member-filter x [] s = refl
member-filter x (y ∷ r) s = ground (arith, member-filter x r s, same)
  where
    same : (y == x) ≡ true → member y s ≡ member x s
    same e = let p : y ≡ x = ground arith in ap (λ z. member z s) p

subset-filter :
    (target r s : List ℕ)
    → subset target (filter (λ y. member y s) r) ≡ (subset target r && subset target s)
subset-filter [] r s = refl
subset-filter (t ∷ ts) r s = ground (arith, member-filter t r s, subset-filter ts r s)

subset-intersection :
    (target r : List ℕ) (rs : List (List ℕ))
    → subset target (intersection r rs) ≡ (subset target r && all (subset target) rs)
subset-intersection target r [] = ground arith
subset-intersection target r (s ∷ rs) =
    ground
      (arith, subset-intersection target (filter (λ y. member y s) r) rs, subset-filter target r s)

-- Every one of the sets has the whole target.
fits : List ℕ → List (List ℕ) → Bool
fits target [] = true
fits target (r ∷ rs) = not (is_empty target) && subset target r && all (subset target) rs

fits-cons :
    (target r : List ℕ) (rs : List (List ℕ))
    → fits target (r ∷ rs) ≡ (not (is_empty target) && subset target r && fits target rs)
unfolding fits
fits-cons target r [] = ground arith
fits-cons target r (s ∷ rs) = ground arith

usable-fits :
    (target : List ℕ) (rs : List (List ℕ)) → usable (among_rooms rs) target ≡ fits target rs
unfolding usable fits
usable-fits target [] = refl
usable-fits target (r ∷ rs) = ground (arith, subset-intersection target r rs)

all-fits :
    (target : List ℕ) (ss : List Scope)
    → any is_private ss ≡ false
    → all (λ s. usable s target) ss ≡ fits target (room_sets ss)
unfolding usable
all-fits target [] h = unfold fits in refl
all-fits target (s ∷ ss) h =
    ground (arith, all-fits target ss, fits-cons target s.room_ids (room_sets ss))

none_sees :
    (target : List ℕ) (ss : List Scope)
    → any is_private ss ≡ true
    → all (λ s. usable s target) ss ≡ false
unfolding usable
none_sees target [] h = cc
none_sees target (s ∷ ss) h = ground (arith, none_sees target ss)

-- Some rooms may use the narrowest scope of some facts exactly if they may use each of the facts.
pub narrowest_scope-usable :
    (ss : List Scope) (target : List ℕ)
    → usable (narrowest_scope ss) target ≡ all (λ s. usable s target) ss
unfolding narrowest_scope usable
narrowest_scope-usable ss target = elim (Bool-cases (any is_private ss)) [
  | inl p ↦ rw p (sym (none_sees target ss p))
  | inr p ↦ rw p (usable-fits target (room_sets ss) ∙ sym (all-fits target ss p))
]
