-- ===== src/Report/Merging.antt =====
-- What the merging of graphs/sentencing.py keeps of the entries of a report, and when a rejected check
-- is forgiven.
use geoji_agent.Base.{
  ◌≡◌, ◌↔◌, refl, ap, inl, inr, Bool, true, false, not, ◌&&◌, ◌||◌, List, [], ◌∷◌, ◌++◌, arith,
  Bool-cases, All, filter, filter-All, ◌⊎◌, ==_iff, ◌∙◌,
}
use geoji_agent.Texts.{Intensity, mild, spicy, hell}
use geoji_agent.Report.{
  Pass, absent, not_boolean, stated, Violation, ViolationCode, ungrounded_claim, other_violation,
  Key, known, unlisted, Entry, same_key, has_key, both_pass, absorb, merge_onto, is_known,
  is_listed, merge_same_intensity, kept_violations, is_forgiven, is_none, forgive_entry,
}

abbrev is_pass : Pass → Bool
is_pass (stated b) = b
is_pass absent = false
is_pass not_boolean = false

-- Every entry of a key passes.
abbrev pub passes_at : Key → List Entry → Bool
passes_at k [] = true
passes_at k (e ∷ es) = (not (same_key k e.key) || is_pass e.passes) && passes_at k es

-- No two entries of a known intensity are of the same one.
abbrev pub NoRepeat : List Entry → Type 0
NoRepeat [] = Unit
NoRepeat (e ∷ es) = (is_known e ≡ true → has_key e.key es ≡ false) × NoRepeat es

same_key-eq : (a b : Key) → same_key a b ≡ true → a ≡ b
same_key-eq (known mild) (known mild) e = refl
same_key-eq (known mild) (known spicy) e = cc
same_key-eq (known mild) (known hell) e = cc
same_key-eq (known spicy) (known mild) e = cc
same_key-eq (known spicy) (known spicy) e = refl
same_key-eq (known spicy) (known hell) e = cc
same_key-eq (known hell) (known mild) e = cc
same_key-eq (known hell) (known spicy) e = cc
same_key-eq (known hell) (known hell) e = refl
same_key-eq (known i) (unlisted n) e = cc
same_key-eq (unlisted m) (known j) e = cc
same_key-eq (unlisted m) (unlisted n) e = ap unlisted ((==_iff m n).0 e)

is_pass-both : (p q : Pass) → is_pass (both_pass p q) ≡ (is_pass p && is_pass q)
is_pass-both (stated true) (stated b) = refl
is_pass-both (stated false) (stated b) = refl
is_pass-both (stated true) absent = refl
is_pass-both (stated false) absent = refl
is_pass-both (stated true) not_boolean = refl
is_pass-both (stated false) not_boolean = refl
is_pass-both absent q = refl
is_pass-both not_boolean q = refl

absorb-passes_at :
    (k : Key) (e : Entry) (ms : List Entry) → passes_at k (absorb e ms) ≡ passes_at k (e ∷ ms)
absorb-passes_at k e [] = refl
absorb-passes_at k e (m ∷ ms) = elim (Bool-cases (same_key e.key m.key)) [
  | inl q ↦ rw q (ground (arith, same_key-eq e.key m.key q, is_pass-both m.passes e.passes))
  | inr q ↦ rw q (ground (arith, absorb-passes_at k e ms))
]

absorb-has_key :
    (k : Key) (e : Entry) (ms : List Entry)
    → has_key k (absorb e ms) ≡ (same_key k e.key || has_key k ms)
absorb-has_key k e [] = refl
absorb-has_key k e (m ∷ ms) = elim (Bool-cases (same_key e.key m.key)) [
  | inl q ↦ rw q (ground (arith, same_key-eq e.key m.key q))
  | inr q ↦ rw q (ground (arith, absorb-has_key k e ms))
]

same_key_comm : (a b : Key) → same_key a b ≡ same_key b a
same_key_comm (known i) (known j) = ground arith
same_key_comm (known i) (unlisted n) = refl
same_key_comm (unlisted m) (known j) = refl
same_key_comm (unlisted m) (unlisted n) = ground arith

absorb-NoRepeat : (e : Entry) (ms : List Entry) → NoRepeat ms → NoRepeat (absorb e ms)
absorb-NoRepeat e [] h = (λ q. refl, tt)
absorb-NoRepeat e (m ∷ ms) h = elim (Bool-cases (same_key e.key m.key)) [
  | inl q ↦ rw q (h.0, h.1)
  | inr q ↦
      let far : same_key m.key e.key ≡ false = same_key_comm m.key e.key ∙ q in
      rw q (λ w. absorb-has_key m.key e ms ∙ ground (arith, far, h.0 w), absorb-NoRepeat e ms h.1)
]

merge_onto-passes_at :
    (k : Key) (done es : List Entry)
    → passes_at k (merge_onto done es) ≡ (passes_at k done && passes_at k es)
merge_onto-passes_at k done [] = ground arith
merge_onto-passes_at k done (e ∷ es) =
    merge_onto-passes_at k (absorb e done) es ∙ ground (arith, absorb-passes_at k e done)

merge_onto-has_key :
    (k : Key) (done es : List Entry)
    → has_key k (merge_onto done es) ≡ (has_key k done || has_key k es)
merge_onto-has_key k done [] = ground arith
merge_onto-has_key k done (e ∷ es) =
    merge_onto-has_key k (absorb e done) es ∙ ground (arith, absorb-has_key k e done)

merge_onto-NoRepeat : (done es : List Entry) → NoRepeat done → NoRepeat (merge_onto done es)
merge_onto-NoRepeat done [] h = h
merge_onto-NoRepeat done (e ∷ es) h =
    merge_onto-NoRepeat (absorb e done) es (absorb-NoRepeat e done h)

passes_at-append :
    (k : Key) (es fs : List Entry) → passes_at k (es ++ fs) ≡ (passes_at k es && passes_at k fs)
passes_at-append k [] fs = refl
passes_at-append k (e ∷ es) fs = ground (arith, passes_at-append k es fs)

has_key-append :
    (k : Key) (es fs : List Entry) → has_key k (es ++ fs) ≡ (has_key k es || has_key k fs)
has_key-append k [] fs = refl
has_key-append k (e ∷ es) fs = ground (arith, has_key-append k es fs)

-- What the entries of known intensities and the others hold of a known intensity.
abbrev IsSplit : Intensity → List Entry → Type 0
IsSplit i es =
    (passes_at (known i) (filter is_known es) ≡ passes_at (known i) es)
    × (passes_at (known i) (filter (λ e. not (is_known e)) es) ≡ true)
    × (has_key (known i) (filter is_known es) ≡ has_key (known i) es)
    × (has_key (known i) (filter (λ e. not (is_known e)) es) ≡ false)

IsSplit-next :
    (i : Intensity) (e : Entry) (es : List Entry) (k : Key)
    → e.key ≡ k
    → IsSplit i es
    → IsSplit i (e ∷ es)
IsSplit-next i e es (known j) q h = rw q (ground (arith, h.0), h.1, ground (arith, h.2), h.3)
IsSplit-next i e es (unlisted n) q h = rw q (h.0, ground (arith, h.1), h.2, ground (arith, h.3))

IsSplit-all : (i : Intensity) (es : List Entry) → IsSplit i es
IsSplit-all i [] = (refl, refl, refl, refl)
IsSplit-all i (e ∷ es) = IsSplit-next i e es e.key refl (IsSplit-all i es)

absent_from :
    (k : Key) (fs : List Entry)
    → is_listed k ≡ true
    → ((i : Intensity) → has_key (known i) fs ≡ false)
    → has_key k fs ≡ false
absent_from (known i) fs e h = h i
absent_from (unlisted n) fs e h = cc

NoRepeat-append :
    (es fs : List Entry)
    → NoRepeat es
    → ((i : Intensity) → has_key (known i) fs ≡ false)
    → NoRepeat fs
    → NoRepeat (es ++ fs)
NoRepeat-append [] fs h none_there k = k
NoRepeat-append (e ∷ es) fs h none_there k = (
  λ w. has_key-append e.key es fs ∙ ground (arith, h.0 w, absent_from e.key fs w none_there),
  NoRepeat-append es fs h.1 none_there k,
)

NoRepeat-unlisted :
    (es : List Entry) → All (λ (e : Entry). not (is_known e) ≡ true) es → NoRepeat es
NoRepeat-unlisted [] h = tt
NoRepeat-unlisted (e ∷ es) h = (λ w. ground (arith, h.0), NoRepeat-unlisted es h.1)

-- Whatever entries the evaluator returns, after the merging no two are of one known intensity; an
-- intensity has an entry exactly if it had one; and all its entries pass exactly if all of them did.
pub merge_same_intensity-passes :
    (es : List Entry)
    → NoRepeat (merge_same_intensity es)
      × ((i : Intensity) → has_key (known i) (merge_same_intensity es) ≡ has_key (known i) es)
      × ((i : Intensity) → passes_at (known i) (merge_same_intensity es) ≡ passes_at (known i) es)
unfolding merge_same_intensity
merge_same_intensity-passes es =
    let listed = filter is_known es in
    let others = filter (λ (e : Entry). not (is_known e)) es in
    (
      NoRepeat-append (merge_onto [] listed) others (merge_onto-NoRepeat [] listed tt)
          (λ i. (IsSplit-all i es).3)
          (NoRepeat-unlisted others (filter-All (λ (e : Entry). not (is_known e)) es)),
      λ i.
          let s = IsSplit-all i es in
          has_key-append (known i) (merge_onto [] listed) others
          ∙ ground (arith, merge_onto-has_key (known i) [] listed, s.2, s.3),
      λ i.
          let s = IsSplit-all i es in
          passes_at-append (known i) (merge_onto [] listed) others
          ∙ ground (arith, merge_onto-passes_at (known i) [] listed, s.0, s.1),
    )

abbrev pub IsAdvisory : Violation → Type 0
IsAdvisory v = v.code ≡ ungrounded_claim

IsAdvisory-next :
    (v : Violation) (vs : List Violation) (c : ViolationCode)
    → v.code ≡ c
    → (is_none (kept_violations vs) ≡ true) ↔ All IsAdvisory vs
    → (is_none (kept_violations (v ∷ vs)) ≡ true) ↔ All IsAdvisory (v ∷ vs)
IsAdvisory-next v vs ungrounded_claim q h = rw q (λ e. (refl, h.0 e), λ a. h.1 a.1)
IsAdvisory-next v vs (other_violation n) q h = rw q (λ e. cc, λ a. cc a.0)

IsAdvisory-only : (vs : List Violation) → (is_none (kept_violations vs) ≡ true) ↔ All IsAdvisory vs
IsAdvisory-only [] = (λ e. tt, λ a. refl)
IsAdvisory-only (v ∷ vs) = IsAdvisory-next v vs v.code refl (IsAdvisory-only vs)

-- A rejection whose violations, at least one, are all advisory.
abbrev pub IsForgivable : Entry → Type 0
IsForgivable e =
    (e.passes ≡ stated false) × (is_none e.violations ≡ false) × All IsAdvisory e.violations

forgiven : (e : Entry) → (is_forgiven e.passes e.violations ≡ true) ↔ IsForgivable e
forgiven e = (
  λ q. (ground arith, ground arith, (IsAdvisory-only e.violations).0 (ground arith)),
  λ h. ground (arith, h.0, h.1, (IsAdvisory-only e.violations).1 h.2),
)

-- An entry passes after the forgiving exactly if it passed before, or was rejected with at least one
-- violation and only such as are advisory.
pub forgive_entry-passes :
    (e : Entry)
    → ((forgive_entry e).passes ≡ stated true) ↔ ((e.passes ≡ stated true) ⊎ IsForgivable e)
unfolding forgive_entry
forgive_entry-passes e = (
  λ q. elim (Bool-cases (is_forgiven e.passes e.violations)) [
    | inl f ↦ inr ((forgiven e).0 f)
    | inr f ↦ inl (ground (arith, f, q))
  ],
  λ c. elim c [ inl p ↦ ground (arith, p) | inr h ↦ ground (arith, (forgiven e).1 h) ],
)
