-- ===== src/Rules/Limits.antt =====
-- Rules 3, 4 and 5 of domain/validation.py: what a draft without issues keeps to, and the tag.
use geoji_agent.Base.{
  ℕ, suc, ◌≤◌, ◌≡◌, ◌↔◌, refl, inl, inr, Bool, true, false, Option, none, some, List, [], ◌∷◌, map,
  max, arith, Bool-cases, Option-cases, length, All, append_nil, ◌==◌, if◌then◌else◌,
}
use geoji_agent.Texts.{
  Intensity, all, member, total_length, headline_max, statement_max, statement_total_max,
  SentencingDecision, Lexicon, TextDraft, WriterDraft, guilty_heavy,
}
use geoji_agent.Rules.{
  LabelMap, Jury, AllowedSentence, IssueCode, Issue, guilty, raised, rebuild_text, rebuild_issues,
  lexicon_rules, text_issues, issues_from, same_set, intensities, top_rank, rank_of, max_onto,
  both_equal, decided_rank, correct_meme_tag, apply_text_rules,
}

-- The limits on a text, and those of a draft for the targets.
abbrev pub IsWithin : TextDraft → Type 0
IsWithin t =
    (length t.headline ≤ headline_max)
    × (1 ≤ length t.statement)
    × (length t.statement ≤ statement_max)
    × (total_length t.statement ≤ statement_total_max)

-- No text has the intensity of an earlier one.
abbrev pub Fresh : List Intensity → List TextDraft → Type 0
Fresh seen [] = Unit
Fresh seen (t ∷ ts) = (member t.intensity seen ≡ false) × Fresh (t.intensity ∷ seen) ts

map_nil {ℓ} : {A B : Type ℓ} (f : A → B) (xs : List A) → map f xs ≡ [] → xs ≡ []
map_nil f [] e = refl
map_nil f (x ∷ xs) e = cc

raised_none : (r : List (Bool × IssueCode)) → raised r ≡ [] → All (λ p. p.0 ≡ false) r
unfolding raised
raised_none [] e = tt
raised_none ((true, c) ∷ r) e = cc
raised_none ((false, c) ∷ r) e = (refl, raised_none r e)

rebuild_issues-IsWithin :
    (lex : Lexicon) (labels : LabelMap) (t : TextDraft)
    → rebuild_issues lex labels t ≡ []
    → IsWithin (rebuild_text lex labels t)
unfolding rebuild_issues
rebuild_issues-IsWithin lex labels t e =
    let h = raised_none _ e in
    (
      ground (arith, h.1.0),
      ground (arith, h.1.1.1.0),
      ground (arith, h.1.1.1.0),
      ground (arith, h.1.1.0),
    )

-- What a text without issues gives.
text_issues_none :
    (lex : Lexicon) (labels : LabelMap) (seen : List Intensity) (n : ℕ) (t : TextDraft)
    → text_issues lex labels seen n t ≡ []
    → (member t.intensity seen ≡ false) × IsWithin (rebuild_text lex labels t)
unfolding text_issues
text_issues_none lex labels seen n t e =
    let a = append_nil _ _ (map_nil _ _ e) in
    let b =
      append_nil (rebuild_issues lex labels t) (lexicon_rules lex (rebuild_text lex labels t))
        a.1 in
    ((raised_none _ a.0).0, rebuild_issues-IsWithin lex labels t b.0)

issues_from_none :
    (lex : Lexicon) (labels : LabelMap) (seen : List Intensity) (n : ℕ) (ts : List TextDraft)
    → issues_from lex labels seen n ts ≡ []
    → Fresh seen ts × All IsWithin (map (rebuild_text lex labels) ts)
unfolding issues_from
issues_from_none lex labels seen n [] e = (tt, tt)
issues_from_none lex labels seen n (t ∷ ts) e =
    let a =
      append_nil (text_issues lex labels seen n t)
        (issues_from lex labels (t.intensity ∷ seen) (suc n) ts) e in
    let h = text_issues_none lex labels seen n t a.0 in
    let r = issues_from_none lex labels (t.intensity ∷ seen) (suc n) ts a.1 in
    ((h.0, r.0), (h.1, r.1))

all-All {ℓ} : {A : Type ℓ} (p : A → Bool) (xs : List A) → all p xs ≡ true → All (λ x. p x ≡ true) xs
all-All p [] e = tt
all-All p (x ∷ xs) e = (ground arith, all-All p xs (ground arith))

abbrev pub IsSameSet : List Intensity → List Intensity → Type 0
IsSameSet xs ys = All (λ x. member x ys ≡ true) xs × All (λ y. member y xs ≡ true) ys

same_set-IsSameSet : (xs ys : List Intensity) → same_set xs ys ≡ true → IsSameSet xs ys
same_set-IsSameSet xs ys e =
    (all-All (λ x. member x ys) xs (ground arith), all-All (λ y. member y xs) ys (ground arith))

set_issue_none : (b : Bool) (i : Issue) → (if b then [] else i ∷ []) ≡ [] → b ≡ true
set_issue_none true i e = refl
set_issue_none false i e = cc

-- If the text rules report nothing, every rebuilt text keeps to the limits on its headline, on its
-- number of statements and on their sum, no two texts are of one intensity, and the intensities of the
-- texts are the targets.
pub apply_text_rules-IsWithin :
    (lex : Lexicon) (labels : LabelMap) (d : Option SentencingDecision) (j : Jury)
    (targets : List Intensity) (w : WriterDraft)
    → (apply_text_rules lex labels d j targets w).issues ≡ []
    → All IsWithin (apply_text_rules lex labels d j targets w).draft.texts
      × Fresh [] w.texts
      × IsSameSet (intensities w.texts) targets
unfolding apply_text_rules
apply_text_rules-IsWithin lex labels d j targets w e =
    let a = append_nil (issues_from lex labels [] 0 w.texts) _ e in
    let h = issues_from_none lex labels [] 0 w.texts a.0 in
    (h.1, h.0, same_set-IsSameSet (intensities w.texts) targets (set_issue_none _ _ a.1))

abbrev AtMost : ℕ → AllowedSentence → Type 0
AtMost r s = s.rank ≤ r

-- A rank bounds the others, or what it bounds bounds it.
max_onto-le : (a r : ℕ) (o : Option ℕ) → o ≡ some r → (m : ℕ) × (max_onto a o ≡ some m) × (r ≤ m)
max_onto-le a r none e = cc
max_onto-le a r (some b) e = (max a b, refl, ground arith)

max_onto-here : (a : ℕ) (o : Option ℕ) → (m : ℕ) × (max_onto a o ≡ some m) × (a ≤ m)
max_onto-here a none = (a, refl, omega arith)
max_onto-here a (some b) = (max a b, refl, omega arith)

max_onto-AtMost :
    (a r m : ℕ) (o : Option ℕ)
    → max_onto a o ≡ some m
    → a ≤ r
    → ((n : ℕ) → o ≡ some n → n ≤ r)
    → m ≤ r
max_onto-AtMost a r m none e h k = ground arith
max_onto-AtMost a r m (some b) e h k = ground (arith, k b refl)

top_rank-le :
    (r m : ℕ) (ss : List AllowedSentence) → All (AtMost r) ss → top_rank ss ≡ some m → m ≤ r
top_rank-le r m [] h e = cc
top_rank-le r m (s ∷ ss) h e =
    max_onto-AtMost s.rank r m (top_rank ss) e h.0 (λ n q. top_rank-le r n ss h.1 q)

rank_of-le :
    (c r : ℕ) (ss : List AllowedSentence)
    → rank_of c ss ≡ some r
    → (m : ℕ) × (top_rank ss ≡ some m) × (r ≤ m)
rank_of-le c r [] e = cc
rank_of-le c r (s ∷ ss) e = elim (Bool-cases (s.code == c)) [
  | inl q ↦ let h = max_onto-here s.rank (top_rank ss) in (h.0, h.1, ground (arith, h.2))
  | inr q ↦
      let ih = rank_of-le c r ss (ground arith) in
      let h = max_onto-le s.rank ih.0 (top_rank ss) ih.1 in (h.0, h.1, omega (arith, h.2, ih.2))
]

max_onto-some : (a : ℕ) (o : Option ℕ) → max_onto a o ≡ none → false ≡ true
max_onto-some a none e = cc
max_onto-some a (some b) e = cc

AtMost-none : (r : ℕ) (ss : List AllowedSentence) → top_rank ss ≡ none → All (AtMost r) ss
AtMost-none r [] e = tt
AtMost-none r (s ∷ ss) e = cc (max_onto-some s.rank (top_rank ss) e)

top_rank-AtMost :
    (ss : List AllowedSentence) (m r : ℕ) → top_rank ss ≡ some m → m ≤ r → All (AtMost r) ss
top_rank-AtMost [] m r e le = tt
top_rank-AtMost (s ∷ ss) m r e le = elim (Option-cases (top_rank ss)) [
  | inl q ↦ (ground (arith, q), AtMost-none r ss q)
  | inr (n, q) ↦ (ground (arith, q), top_rank-AtMost ss n r q (ground (arith, q)))
]

-- The code of a decision is that of an allowed sentence whose rank no other exceeds.
abbrev pub IsTop : Option SentencingDecision → List AllowedSentence → Type 0
IsTop d allowed = (r : ℕ) × (decided_rank d allowed ≡ some r) × All (AtMost r) allowed

both_equal-some : (a b : Option ℕ) → both_equal a b ≡ true → (r : ℕ) × (a ≡ some r) × (b ≡ some r)
both_equal-some none b e = cc
both_equal-some (some a) none e = cc
both_equal-some (some a) (some b) e = (a, refl, ground arith)

both_equal-IsTop :
    (d : Option SentencingDecision) (allowed : List AllowedSentence)
    → both_equal (decided_rank d allowed) (top_rank allowed) ≡ true
    → IsTop d allowed
both_equal-IsTop d allowed e =
    let h = both_equal-some (decided_rank d allowed) (top_rank allowed) e in
    (h.0, h.1, top_rank-AtMost allowed h.0 h.0 h.2 (omega arith))

decided_rank-le :
    (d : Option SentencingDecision) (allowed : List AllowedSentence) (r : ℕ)
    → decided_rank d allowed ≡ some r
    → (m : ℕ) × (top_rank allowed ≡ some m) × (r ≤ m)
decided_rank-le none allowed r e = cc
decided_rank-le (some d) allowed r e = rank_of-le d.sentence r allowed e

IsTop-top :
    (d : Option SentencingDecision) (allowed : List AllowedSentence)
    → IsTop d allowed
    → both_equal (decided_rank d allowed) (top_rank allowed) ≡ true
IsTop-top d allowed h =
    let m = decided_rank-le d allowed h.0 h.1 in
    let le = top_rank-le h.0 m.0 allowed h.2 m.1 in rw (h.1, m.1) (ground (arith, le, m.2))

heavy-IsTop :
    (d : Option SentencingDecision) (j : Jury)
    → correct_meme_tag d j ≡ guilty_heavy
    → (j.result ≡ guilty) × IsTop d j.allowed_sentences
unfolding correct_meme_tag
heavy-IsTop d j e =
    let h : (j.result ≡ guilty)
        × (both_equal (decided_rank d j.allowed_sentences) (top_rank j.allowed_sentences) ≡ true) =
      ground arith in
    (h.0, both_equal-IsTop d j.allowed_sentences h.1)

IsTop-heavy :
    (d : Option SentencingDecision) (j : Jury)
    → (j.result ≡ guilty) × IsTop d j.allowed_sentences
    → correct_meme_tag d j ≡ guilty_heavy
unfolding correct_meme_tag
IsTop-heavy d j h = ground (arith, h.0, IsTop-top d j.allowed_sentences h.1)

-- Whatever tag the writer chose, the draft's tag after the text rules is the heavy one exactly if the
-- verdict is guilty and the sentence is an allowed one whose rank no allowed one exceeds.
pub apply_text_rules-heavy :
    (lex : Lexicon) (labels : LabelMap) (d : Option SentencingDecision) (j : Jury)
    (targets : List Intensity) (w : WriterDraft)
    → ((apply_text_rules lex labels d j targets w).draft.meme_tag ≡ guilty_heavy)
      ↔ ((j.result ≡ guilty) × IsTop d j.allowed_sentences)
unfolding apply_text_rules
apply_text_rules-heavy lex labels d j targets w = (heavy-IsTop d j, IsTop-heavy d j)
