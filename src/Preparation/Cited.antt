-- ===== src/Preparation/Cited.antt =====
-- The facts that the labels of a model's answer name, in `merge_inferred_facts` of
-- graphs/preparation.py.
use geoji_agent.Base.{
  ℕ, ◌≡◌, refl, sym, ap, ◌∙◌, inl, inr, ◌⊎◌, Bool, true, false, not, Option, none, some, List, [],
  ◌∷◌, ◌++◌, arith, filter, if◌then◌else◌, Among, Nowhere, ◌==◌, Bool-cases, subst,
}
use geoji_agent.Evidence.{
  Fact, SourceType, same_source_type, post_source, verdict_source, rule_source, other_source,
}
use geoji_agent.Texts.{all}
use geoji_agent.Preparation.{
  fromkeys, by_label, or_else, with_fact, referenced, same_triple, all_sources,
}
use geoji_agent.Preparation.Sources.{Triple, has}

-- A fact that one of the labels names.
abbrev pub Cites : List Fact → List ℕ → Fact → Type 0
Cites known refs g = (l : ℕ) × Among l refs × (by_label known l ≡ some g)

Among-filter :
    {A : Type 0} (p : A → Bool) (a : A) (xs : List A) → Among a (filter p xs) → Among a xs
Among-filter p a [] h = h
Among-filter p a (x ∷ xs) h = split (p x) (Among-filter p a xs) h
  where
    split :
        (b : Bool)
        → (Among a (filter p xs) → Among a xs)
        → Among a (if b then x ∷ filter p xs else filter p xs)
        → Among a (x ∷ xs)
    split true rest (inl e) = inl e
    split true rest (inr m) = inr (rest m)
    split false rest m = inr (rest m)

pub Among-fromkeys :
    {A : Type 0} (eq : A → A → Bool) (a : A) (xs : List A) → Among a (fromkeys eq xs) → Among a xs
Among-fromkeys eq a [] h = h
Among-fromkeys eq a (x ∷ xs) (inl e) = inl e
Among-fromkeys eq a (x ∷ xs) (inr m) =
    inr (Among-fromkeys eq a xs (Among-filter (λ y. not (eq x y)) a (fromkeys eq xs) m))

filter-Among :
    {A : Type 0} (p : A → Bool) (a : A) (xs : List A)
    → Among a xs
    → p a ≡ true
    → Among a (filter p xs)
filter-Among p a [] m h = m
filter-Among p a (x ∷ xs) (inl e) h = let here : p x ≡ true = ap p (sym e) ∙ h in rw here (inl e)
filter-Among p a (x ∷ xs) (inr m) h = elim (Bool-cases (p x)) [
  | inl e ↦ rw e (inr (filter-Among p a xs m h))
  | inr e ↦ rw e (filter-Among p a xs m h)
]

pub fromkeys-Among : (l : ℕ) (xs : List ℕ) → Among l xs → Among l (fromkeys ◌==◌ xs)
fromkeys-Among l [] m = m
fromkeys-Among l (x ∷ xs) (inl e) = inl e
fromkeys-Among l (x ∷ xs) (inr m) = elim (Bool-cases (x == l)) [
  | inl e ↦ inl (ground (arith, e))
  | inr e ↦
      let other : not (x == l) ≡ true = ground (arith, e) in
      inr (filter-Among (λ y. not (x == y)) l (fromkeys ◌==◌ xs) (fromkeys-Among l xs m) other)
]

-- A fact that is found is one of the facts and has the label.
abbrev Found : List Fact → ℕ → Option Fact → Type 0
Found fs l none = Unit
Found fs l (some f) = Among f fs × (f.label ≡ l)

or_else-Found :
    (fs : List Fact) (l : ℕ) (a b : Option Fact)
    → Found fs l a
    → Found fs l b
    → Found fs l (or_else a b)
or_else-Found fs l (some f) b h k = h
or_else-Found fs l none b h k = k

Found-tail :
    (f : Fact) (fs : List Fact) (l : ℕ) (o : Option Fact) → Found fs l o → Found (f ∷ fs) l o
Found-tail f fs l none h = h
Found-tail f fs l (some g) h = (inr h.0, h.1)

by_label-Found : (fs : List Fact) (l : ℕ) → Found fs l (by_label fs l)
by_label-Found [] l = tt
by_label-Found (f ∷ fs) l =
    or_else-Found (f ∷ fs) l _ _ (Found-tail f fs l _ (by_label-Found fs l)) (here _ refl)
  where
    here : (b : Bool) → (f.label == l) ≡ b → Found (f ∷ fs) l (if b then some f else none)
    here true e = (inl refl, ground (arith, e))
    here false e = tt

pub by_label-Among :
    (fs : List Fact) (l : ℕ) (g : Fact) → by_label fs l ≡ some g → Among g fs × (g.label ≡ l)
by_label-Among fs l g e = subst (Found fs l) e (by_label-Found fs l)

-- The labels with the facts that they name, one by one.
abbrev pub Named : List Fact → List ℕ → List Fact → Type 0
Named known [] [] = Unit
Named known (l ∷ ls) (f ∷ fs) = (by_label known l ≡ some f) × Named known ls fs
Named known _ _ = Nowhere

abbrev pub NamedIf : List Fact → List ℕ → Option (List Fact) → Type 0
NamedIf known ls none = Unit
NamedIf known ls (some fs) = Named known ls fs

with_fact-NamedIf :
    (known : List Fact) (l : ℕ) (ls : List ℕ) (o : Option Fact) (r : Option (List Fact))
    → by_label known l ≡ o
    → NamedIf known ls r
    → NamedIf known (l ∷ ls) (with_fact o r)
with_fact-NamedIf known l ls none r e h = tt
with_fact-NamedIf known l ls (some f) none e h = tt
with_fact-NamedIf known l ls (some f) (some fs) e h = (e, h)

pub referenced-NamedIf : (known : List Fact) (ls : List ℕ) → NamedIf known ls (referenced known ls)
referenced-NamedIf known [] = tt
referenced-NamedIf known (l ∷ ls) =
    with_fact-NamedIf known l ls _ _ refl (referenced-NamedIf known ls)

pub referenced-some :
    (known : List Fact) (ls : List ℕ)
    → ((l : ℕ) → Among l ls → (g : Fact) × (by_label known l ≡ some g))
    → (fs : List Fact) × (referenced known ls ≡ some fs)
referenced-some known [] h = ([], refl)
referenced-some known (l ∷ ls) h =
    let (g, e) = h l (inl refl) in
    let (fs, f) = referenced-some known ls (λ x m. h x (inr m)) in (g ∷ fs, rw (e, f) refl)

module _ (known : List Fact) where
  pub Named-fact :
      (ls : List ℕ) (fs : List Fact) (l : ℕ)
      → Named known ls fs
      → Among l ls
      → (g : Fact) × Among g fs × (by_label known l ≡ some g)
  Named-fact [] fs l n m = elim m [ ]
  Named-fact (x ∷ ls) [] l n m = elim n [ ]
  Named-fact (x ∷ ls) (f ∷ fs) l n (inl e) = (f, inl refl, ap (by_label known) e ∙ n.0)
  Named-fact (x ∷ ls) (f ∷ fs) l n (inr m) =
      let (g, among, found) = Named-fact ls fs l n.1 m in (g, inr among, found)

  pub Named-Cites :
      (ls : List ℕ) (fs : List Fact) (g : Fact) → Named known ls fs → Among g fs → Cites known ls g
  Named-Cites ls [] g n m = elim m [ ]
  Named-Cites [] (f ∷ fs) g n m = elim n [ ]
  Named-Cites (x ∷ ls) (f ∷ fs) g n (inl e) = (x, inl refl, n.0 ∙ ap some (sym e))
  Named-Cites (x ∷ ls) (f ∷ fs) g n (inr m) =
      let (l, among, found) = Named-Cites ls fs g n.1 m in (l, inr among, found)

-- A test of all the facts, and their sources, one by one.
pub all-Among :
    (p : Fact → Bool) (g : Fact) (fs : List Fact) → all p fs ≡ true → Among g fs → p g ≡ true
all-Among p g [] h m = elim m [ ]
all-Among p g (f ∷ fs) h (inl e) = ap p e ∙ ground (arith, h)
all-Among p g (f ∷ fs) h (inr m) = all-Among p g fs (ground (arith, h)) m

pub all-intro :
    (p : Fact → Bool) (fs : List Fact) → ((g : Fact) → Among g fs → p g ≡ true) → all p fs ≡ true
all-intro p [] h = refl
all-intro p (f ∷ fs) h =
    let here : p f ≡ true = h f (inl refl) in rw here (all-intro p fs (λ g m. h g (inr m)))

Among-split : (x : Triple) (xs ys : List Triple) → Among x (xs ++ ys) → Among x xs ⊎ Among x ys
Among-split x [] ys m = inr m
Among-split x (y ∷ xs) ys (inl e) = inl (inl e)
Among-split x (y ∷ xs) ys (inr m) = elim (Among-split x xs ys m) [
  | inl k ↦ inl (inr k)
  | inr k ↦ inr k
]

same_source_type_refl : (a : SourceType) → same_source_type a a ≡ true
same_source_type_refl post_source = refl
same_source_type_refl verdict_source = refl
same_source_type_refl rule_source = refl
same_source_type_refl other_source = refl

has-Among : (x : Triple) (xs : List Triple) → Among x xs → has x xs ≡ true
has-Among x [] m = elim m [ ]
has-Among (a, i, v) (y ∷ xs) (inl e) =
    let first = same_source_type_refl a in
    let same : same_triple (a, i, v) (a, i, v) ≡ true = ground (arith, first) in
    let here : same_triple (a, i, v) y ≡ true = ap (same_triple (a, i, v)) (sym e) ∙ same in
    rw here refl
has-Among x (y ∷ xs) (inr m) = let rest = has-Among x xs m in rw rest (ground arith)

has-append :
    (x : Triple) (xs ys : List Triple)
    → (has x xs ≡ true) ⊎ (has x ys ≡ true)
    → has x (xs ++ ys) ≡ true
has-append x [] ys (inl h) = cc
has-append x [] ys (inr h) = h
has-append x (y ∷ xs) ys (inl h) = ground (arith, h, has-append x xs ys)
has-append x (y ∷ xs) ys (inr h) = let rest = has-append x xs ys (inr h) in rw rest (ground arith)

pub sources-Among :
    (x : Triple) (fs : List Fact)
    → Among x (all_sources fs)
    → (g : Fact) × Among g fs × Among x g.draft.sources
sources-Among x [] m = elim m [ ]
sources-Among x (f ∷ fs) m = elim (Among-split x f.draft.sources (all_sources fs) m) [
  | inl k ↦ (f, inl refl, k)
  | inr k ↦ let (g, among, found) = sources-Among x fs k in (g, inr among, found)
]

pub sources-has :
    (x : Triple) (g : Fact) (fs : List Fact)
    → Among g fs
    → Among x g.draft.sources
    → has x (all_sources fs) ≡ true
sources-has x g [] m k = elim m [ ]
sources-has x g (f ∷ fs) (inl e) k =
    has-append x f.draft.sources (all_sources fs)
      (inl (has-Among x f.draft.sources (subst (λ (h : Fact). Among x h.draft.sources) e k)))
sources-has x g (f ∷ fs) (inr m) k =
    has-append x f.draft.sources (all_sources fs) (inr (sources-has x g fs m k))
