-- ===== src/Preparation/Sources.antt =====
-- The sources of a fact through the table of sources, in postgres_preparation.py.
use geoji_agent.Base.{
  ℕ, ◌≡◌, refl, ◌∙◌, sym, ap, Bool, true, false, not, ◌||◌, List, [], ◌∷◌, ◌++◌, map, arith, ◌==◌,
  any, filter, Bool-cases, inl, inr, Among, subst,
}
use geoji_agent.Evidence.{
  Fact, SourceType, same_source_type, post_source, verdict_source, rule_source, other_source,
}
use geoji_agent.Preparation.{fromkeys, same_triple}
use geoji_agent.Preparation.Store.{
  SourceRow, EvidenceRow, evidence_ok, Keys, source_rows_of, source_rows,
}
use geoji_agent.Preparation.Loading.{insert_source, sources_of}

abbrev pub Triple : Type 0
Triple = SourceType × ℕ × ℕ

abbrev pub has : Triple → List Triple → Bool
has s xs = any (same_triple s) xs

same_source_type_eq : (a b : SourceType) → same_source_type a b ≡ true → a ≡ b
same_source_type_eq post_source post_source h = refl
same_source_type_eq verdict_source verdict_source h = refl
same_source_type_eq rule_source rule_source h = refl
same_source_type_eq other_source other_source h = refl
same_source_type_eq post_source verdict_source h = cc
same_source_type_eq post_source rule_source h = cc
same_source_type_eq post_source other_source h = cc
same_source_type_eq verdict_source post_source h = cc
same_source_type_eq verdict_source rule_source h = cc
same_source_type_eq verdict_source other_source h = cc
same_source_type_eq rule_source post_source h = cc
same_source_type_eq rule_source verdict_source h = cc
same_source_type_eq rule_source other_source h = cc
same_source_type_eq other_source post_source h = cc
same_source_type_eq other_source verdict_source h = cc
same_source_type_eq other_source rule_source h = cc

same_triple_eq : (x y : Triple) → same_triple x y ≡ true → x ≡ y
same_triple_eq (a, i, v) (b, j, w) h =
    let first : same_source_type a b ≡ true = ground (arith, h) in
    let second : i ≡ j = ground (arith, h) in
    let third : v ≡ w = ground (arith, h) in let e : a ≡ b = same_source_type_eq a b first in cc

has-filter :
    (s x : Triple) (ys : List Triple)
    → same_triple s x ≡ false
    → has s (filter (λ y. not (same_triple x y)) ys) ≡ has s ys
has-filter s x [] h = refl
has-filter s x (y ∷ ys) h = elim (Bool-cases (same_triple x y)) [
  | inl e ↦
      let other : same_triple s y ≡ false = ap (same_triple s) (sym (same_triple_eq x y e)) ∙ h in
      rw (e, other) (has-filter s x ys h)
  | inr e ↦ rw e (ap (λ b. same_triple s y || b) (has-filter s x ys h))
]

pub has-fromkeys : (s : Triple) (xs : List Triple) → has s (fromkeys same_triple xs) ≡ has s xs
has-fromkeys s [] = refl
has-fromkeys s (x ∷ xs) = elim (Bool-cases (same_triple s x)) [
  | inl e ↦ rw e refl
  | inr e ↦ rw e (has-filter s x (fromkeys same_triple xs) e ∙ has-fromkeys s xs)
]

module _ (keys : Keys) (s : Triple) (id : ℕ) where
  has-insert_source :
      (x : Triple) (xs : List Triple)
      → has s (insert_source keys x xs) ≡ (same_triple s x || has s xs)
  unfolding insert_source
  has-insert_source x [] = refl
  has-insert_source x (y ∷ ys) = elim (Bool-cases (keys.source_before x y)) [
    | inl e ↦ rw e refl
    | inr e ↦ rw (e, has-insert_source x ys) (ground arith)
  ]

  rows-same :
      (xs : List Triple) (rest : List SourceRow)
      → has s (sources_of keys id (map (λ x. record { evidence_id = id; source = x }) xs ++ rest))
        ≡ (has s xs || has s (sources_of keys id rest))
  unfolding sources_of
  rows-same [] rest = refl
  rows-same (x ∷ xs) rest =
      let same : (id == id) ≡ true = ground arith in
      rw (same, has-insert_source x _, rows-same xs rest) (ground arith)

  rows-other :
      (j : ℕ) (xs : List Triple) (rest : List SourceRow)
      → (j == id) ≡ false
      → sources_of keys id (map (λ x. record { evidence_id = j; source = x }) xs ++ rest)
        ≡ sources_of keys id rest
  unfolding sources_of
  rows-other j [] rest h = refl
  rows-other j (x ∷ xs) rest h = rw h (rows-other j xs rest h)

joined_up : (xs ys zs : List SourceRow) → (xs ++ ys) ++ zs ≡ xs ++ (ys ++ zs)
joined_up [] ys zs = refl
joined_up (x ∷ xs) ys zs = ap (x ∷◌) (joined_up xs ys zs)

module _ (keys : Keys) (s : Triple) (rest : List SourceRow) (f : Fact) where
  has-others :
      (fs : List Fact)
      → any (λ (g : Fact). g.uuid == f.uuid || g.label == f.label) fs ≡ false
      → has s (sources_of keys f.uuid (source_rows fs ++ rest))
        ≡ has s (sources_of keys f.uuid rest)
  has-others [] h = refl
  has-others (g ∷ fs) h =
      let other : (g.uuid == f.uuid) ≡ false = ground (arith, h) in
      let others : any (λ (g : Fact). g.uuid == f.uuid || g.label == f.label) fs ≡ false =
        ground (arith, h) in
      ap (λ rows. has s (sources_of keys f.uuid rows)) (joined_up (source_rows_of g) _ rest)
      ∙ ap (has s) (rows-other keys s f.uuid g.uuid (fromkeys same_triple g.draft.sources) _ other)
      ∙ has-others fs others

  abbrev IsFirst : Fact → List Fact → Type 0
  IsFirst g fs =
      any (λ (x : Fact). x.uuid == g.uuid || x.label == g.label) fs ≡ false
      → has s (sources_of keys f.uuid ((source_rows_of g ++ source_rows fs) ++ rest))
        ≡ has s f.draft.sources

  own-IsFirst : (fs : List Fact) → sources_of keys f.uuid rest ≡ [] → IsFirst f fs
  own-IsFirst fs n others =
      ap (λ rows. has s (sources_of keys f.uuid rows)) (joined_up (source_rows_of f) _ rest)
      ∙ rows-same keys s f.uuid (fromkeys same_triple f.draft.sources) _
      ∙ rw (has-others fs others, n, has-fromkeys s f.draft.sources) (ground arith)

  distinct :
      (g : Fact) (fs : List Fact)
      → any (λ (h : Fact). h.uuid == g.uuid || h.label == g.label) fs ≡ false
      → Among f fs
      → (g.uuid == f.uuid) ≡ false
  distinct g [] h k = elim k [ ]
  distinct g (x ∷ fs) h (inl e) = rw e (ground (arith, h))
  distinct g (x ∷ fs) h (inr k) = distinct g fs (ground (arith, h)) k

  -- The sources of a fact are read as they were written.
  pub has-saved :
      (rows : List EvidenceRow) (fs : List Fact)
      → Among f fs
      → evidence_ok rows fs ≡ true
      → sources_of keys f.uuid rest ≡ []
      → has s (sources_of keys f.uuid (source_rows fs ++ rest)) ≡ has s f.draft.sources
  has-saved rows [] k h n = elim k [ ]
  has-saved rows (g ∷ fs) (inl e) h n =
      let others : any (λ (x : Fact). x.uuid == g.uuid || x.label == g.label) fs ≡ false =
        ground (arith, h) in
      subst (λ x. IsFirst x fs) e (own-IsFirst fs n) others
  has-saved rows (g ∷ fs) (inr k) h n =
      let others : any (λ (x : Fact). x.uuid == g.uuid || x.label == g.label) fs ≡ false =
        ground (arith, h) in
      let ok : evidence_ok rows fs ≡ true = ground (arith, h) in
      ap (λ rows. has s (sources_of keys f.uuid rows)) (joined_up (source_rows_of g) _ rest)
      ∙ ap (has s) (
          rows-other keys s f.uuid g.uuid (fromkeys same_triple g.draft.sources) _
            (distinct g fs others k))
      ∙ has-saved rows fs k ok n
