-- ===== src/Base/Rows.antt =====
-- SQL's `UPDATE ... SET f WHERE p` on a table with a primary key: the rows, and how many it hit.
use Prim.Native.Nat.{ℕ, ◌+◌}
use mathlib.Core.Path.{◌≡◌, refl, subst}
use mathlib.Core.Logic.{inl, inr}
use mathlib.Core.Bool.{Bool, true, false}
use mathlib.Core.List.{List, [], ◌∷◌}
use mathlib.Core.Option
use mathlib.Core.Option.{Option, none, some}
use native.Mathlib.Omega.{arith}
use geoji_agent.Base.Tests.{if◌then◌else◌, ◌==◌, Bool-cases, some_eq}
use geoji_agent.Base.Lists.{All, Among, any}

module _ {ℓ} {A : Type ℓ} where
  abbrev pub update_where : (A → Bool) → (A → A) → List A → List A
  update_where p f [] = []
  update_where p f (x ∷ xs) = (if p x then f x else x) ∷ update_where p f xs

  abbrev pub rowcount : (A → Bool) → List A → ℕ
  rowcount p [] = 0
  rowcount p (x ∷ xs) = (if p x then 1 else 0) + rowcount p xs

  pub All-update_where {κ} :
      (P : A → Type κ) (p : A → Bool) (f : A → A)
      → ((x : A) → P x → p x ≡ true → P (f x))
      → (xs : List A) → All P xs
      → All P (update_where p f xs)
  All-update_where P p f keep [] h = tt
  All-update_where P p f keep (x ∷ xs) h =
      (ground (arith, h.0, keep x h.0), All-update_where P p f keep xs h.1)

module _ {ℓ} {A : Type ℓ} (key : A → ℕ) where
  abbrev pub find : ℕ → List A → Option A
  find i [] = none
  find i (x ∷ xs) = if key x == i then some x else find i xs

  -- The primary key: no two rows agree on it.
  abbrev pub IsKeyed : List A → Type ℓ
  IsKeyed [] = Unit
  IsKeyed (x ∷ xs) = (find (key x) xs ≡ none) × IsKeyed xs

  -- An update that keeps the key acts on the row that a key names.
  pub find-update_where :
      (p : A → Bool) (f : A → A)
      → ((x : A) → key (f x) ≡ key x)
      → (i : ℕ) (xs : List A)
      → find i (update_where p f xs) ≡ Option.map (λ x. if p x then f x else x) (find i xs)
  find-update_where p f same i [] = refl
  find-update_where p f same i (x ∷ xs) = ground (arith, same x, find-update_where p f same i xs)

  pub IsKeyed-update_where :
      (p : A → Bool) (f : A → A)
      → ((x : A) → key (f x) ≡ key x)
      → (xs : List A) → IsKeyed xs
      → IsKeyed (update_where p f xs)
  IsKeyed-update_where p f same [] u = tt
  IsKeyed-update_where p f same (x ∷ xs) u = (
    ground (arith, u.0, same x, find-update_where p f same (key x) xs),
    IsKeyed-update_where p f same xs u.1,
  )

  -- A test that passes only at the key `i` sees no row but the one that `i` names.
  pub any_at_key :
      (p : A → Bool) (i : ℕ)
      → ((x : A) → p x ≡ true → key x ≡ i)
      → (xs : List A) → IsKeyed xs
      → any p xs ≡ elim (find i xs) [ none ↦ false | some x ↦ p x ]
  any_at_key p i at [] u = refl
  any_at_key p i at (x ∷ xs) u = ground (arith, at x, any_at_key p i at xs u.1)

  pub rowcount_at_key :
      (p : A → Bool) (i : ℕ)
      → ((x : A) → p x ≡ true → key x ≡ i)
      → (xs : List A) → IsKeyed xs
      → rowcount p xs ≡ elim (find i xs) [ none ↦ 0 | some x ↦ if p x then 1 else 0 ]
  rowcount_at_key p i at [] u = refl
  rowcount_at_key p i at (x ∷ xs) u = ground (arith, at x, rowcount_at_key p i at xs u.1)

  pub find-key : (i : ℕ) (xs : List A) (x : A) → find i xs ≡ some x → key x ≡ i
  find-key i [] x e = cc
  find-key i (y ∷ xs) x e = ground (arith, find-key i xs x)

  pub find-Among : (xs : List A) (x : A) → IsKeyed xs → Among x xs → find (key x) xs ≡ some x
  find-Among [] x u m = elim m [ ]
  find-Among (y ∷ xs) x u (inl e) =
      let same : (key y == key y) ≡ true = ground arith in rw (e, same) refl
  find-Among (y ∷ xs) x u (inr m) = ground (arith, u.0, find-Among xs x u.1 m)

  pub find-All {κ} :
      (P : A → Type κ) (i : ℕ) (xs : List A) (x : A) → All P xs → find i xs ≡ some x → P x
  find-All P i [] x h e = cc
  find-All P i (y ∷ xs) x h e = elim (Bool-cases (key y == i)) [
    | inl hit ↦ subst P (some_eq (rw hit at e)) h.0
    | inr miss ↦ find-All P i xs x h.1 (rw miss at e)
  ]

module _ {ℓ} {A : Type ℓ} (p : A → Bool) (f : A → A) where
  -- An update that hits no row changes nothing.
  pub update_where_none : (xs : List A) → any p xs ≡ false → update_where p f xs ≡ xs
  update_where_none [] h = refl
  update_where_none (x ∷ xs) h = ground (arith, update_where_none xs)

  pub rowcount_none : (xs : List A) → any p xs ≡ false → rowcount p xs ≡ 0
  rowcount_none [] h = refl
  rowcount_none (x ∷ xs) h = ground (arith, rowcount_none xs)

module _ {ℓ} {A : Type ℓ} where
  -- The rows that a SELECT, or the RETURNING of an update, yields.
  abbrev pub select_where : (A → Bool) → List A → List A
  select_where p [] = []
  select_where p (x ∷ xs) = if p x then x ∷ select_where p xs else select_where p xs

  abbrev pub sum_of : (A → ℕ) → List A → ℕ
  sum_of f [] = 0
  sum_of f (x ∷ xs) = f x + sum_of f xs

-- The row that an update under the key `i` hits.
abbrev pub hit_row {ℓ} : {A : Type ℓ} → (A → ℕ) → (A → Bool) → ℕ → List A → Option A
hit_row key p i xs = elim (find key i xs) [ none ↦ none | some x ↦ if p x then some x else none ]

abbrev pub of_row {ℓ} : {A : Type ℓ} → (A → ℕ) → Option A → ℕ
of_row f none = 0
of_row f (some x) = f x

abbrev pub rows_of {ℓ} : {A : Type ℓ} → Option A → List A
rows_of none = []
rows_of (some x) = x ∷ []

module _ {ℓ} {A : Type ℓ} (key : A → ℕ) (p : A → Bool) (i : ℕ)
    (at : (x : A) → p x ≡ true → key x ≡ i) where
  pub select_at_key :
      (xs : List A) → IsKeyed key xs → select_where p xs ≡ rows_of (hit_row key p i xs)
  select_at_key [] u = refl
  select_at_key (x ∷ xs) u = ground (arith, at x, select_at_key xs u.1)

  -- What such an update does to a sum over the table.
  pub sum_at_key :
      (f : A → ℕ) (g : A → A) (xs : List A)
      → IsKeyed key xs
      → sum_of f (update_where p g xs) + of_row f (hit_row key p i xs)
        ≡ sum_of f xs + of_row (λ x. f (g x)) (hit_row key p i xs)
  sum_at_key f g [] u = refl
  sum_at_key f g (x ∷ xs) u = ground (arith, at x, sum_at_key f g xs u.1)

module _ {ℓ} {A : Type ℓ} (f : A → ℕ) (p : A → Bool) (g : A → A) where
  -- An update that keeps a quantity of each row that it hits keeps its sum.
  pub sum_same {κ} :
      (P : A → Type κ)
      → ((x : A) → P x → p x ≡ true → f (g x) ≡ f x)
      → (xs : List A) → All P xs
      → sum_of f (update_where p g xs) ≡ sum_of f xs
  sum_same P same [] h = refl
  sum_same P same (x ∷ xs) h = ground (arith, h.0, same x h.0, sum_same P same xs h.1)

  -- One that sets it to zero takes the sum over the selected rows away.
  pub sum_cleared :
      ((x : A) → p x ≡ true → f (g x) ≡ 0)
      → (xs : List A) → sum_of f (update_where p g xs) + sum_of f (select_where p xs) ≡ sum_of f xs
  sum_cleared zeroed [] = refl
  sum_cleared zeroed (x ∷ xs) = ground (arith, zeroed x, sum_cleared zeroed xs)

module _ {ℓ} {A : Type ℓ} (p : A → Bool) where
  pub select_where_none : (xs : List A) → any p xs ≡ false → select_where p xs ≡ []
  select_where_none [] h = refl
  select_where_none (x ∷ xs) h = ground (arith, select_where_none xs)

  pub select_where_empty : (xs : List A) → select_where p xs ≡ [] → any p xs ≡ false
  select_where_empty [] h = refl
  select_where_empty (x ∷ xs) h = ground (arith, select_where_empty xs)

  -- An update after which a row that it hit fails the test leaves no row that passes.
  pub any_cleared :
      (g : A → A)
      → ((x : A) → p x ≡ true → p (g x) ≡ false)
      → (xs : List A) → any p (update_where p g xs) ≡ false
  any_cleared g h [] = refl
  any_cleared g h (x ∷ xs) = ground (arith, h x, any_cleared g h xs)
