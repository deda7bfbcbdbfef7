-- ===== src/Evidence/Visible.antt =====
-- src/geoji_ai/domain/visibility.py and src/geoji_ai/domain/privacy.py: who may see a fact, and which
-- privacy epochs have moved on.
use geoji_agent.Base.{
  ℕ, Bool, true, false, not, ◌&&◌, List, [], ◌∷◌, ◌++◌, ◌==◌, if◌then◌else◌, any,
}

pub data Visibility : Type 0 where
  public rooms private : Visibility

pub record Scope : Type 0 where
  pub visibility : Visibility
  pub room_ids : List ℕ

abbrev pub member : ℕ → List ℕ → Bool
member r rs = any (λ s. s == r) rs

abbrev pub subset : List ℕ → List ℕ → Bool
subset [] rs = true
subset (t ∷ ts) rs = member t rs && subset ts rs

abbrev pub is_empty {ℓ} : {A : Type ℓ} → List A → Bool
is_empty [] = true
is_empty (x ∷ xs) = false

-- visibility.usable
unfoldable pub usable : Scope → List ℕ → Bool
usable scope target = elim scope.visibility [
  | public ↦ true
  | rooms ↦ not (is_empty target) && subset target scope.room_ids
  | private ↦ false
]

unfoldable pub usable_for_share_card : Scope → Bool
usable_for_share_card scope = elim scope.visibility [ public ↦ true | _ ↦ false ]

-- `current.get(scope_key, 0)`
abbrev pub epoch_of : ℕ → List (ℕ × ℕ) → ℕ
epoch_of k [] = 0
epoch_of k ((j, n) ∷ es) = if j == k then n else epoch_of k es

-- privacy.mismatched_scopes, with the list built so far.
unfoldable pub mismatched_from : List ℕ → List (ℕ × ℕ) → List (ℕ × ℕ) → List ℕ
mismatched_from found [] current = found
mismatched_from found ((k, epoch) ∷ es) current =
    mismatched_from
      (if not (epoch_of k current == epoch) && not (member k found) then found ++ k ∷ [] else found)
      es current

unfoldable pub mismatched_scopes : List (ℕ × ℕ) → List (ℕ × ℕ) → List ℕ
unfolding mismatched_from
mismatched_scopes expected current = mismatched_from [] expected current
