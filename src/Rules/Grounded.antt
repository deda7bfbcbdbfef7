-- ===== src/Rules/Grounded.antt =====
-- Rules 1 and 2 of domain/validation.py: what a text may state after `_rebuild_text`, and what the
-- references to its evidence name.
use geoji_agent.Base.{
  ℕ, suc, ◌≤◌, ◌≡◌, refl, inl, inr, true, false, not, Option, none, some, List, [], ◌∷◌, map, arith,
  Bool-cases, Option-cases, is_null, length, All, All-map, All-append, All-filter, filter-All,
  map-All, filter, leb,
}
use geoji_agent.Texts.{
  Intensity, all, SentencingDecision, Lexicon, Statement, TextDraft, WriterDraft,
}
use geoji_agent.Rules.{
  LabelMap, Jury, needs_ground, grounded, is_kept, is_empty, kept_statements, strip_statement,
  without_ids, rebuild_text, EvidenceRef, evidence_refs, statement_refs, label_refs, ref_onto,
  all_refs, apply_text_rules, clean_headline,
}

abbrev pub Resolves : LabelMap → ℕ → Type 0
Resolves labels l = (e : ℕ) × (labels l ≡ some e)

-- A fact or a claim names evidence, and each label that it names stands for some.
abbrev pub IsGrounded : LabelMap → Statement → Type 0
IsGrounded labels s =
    needs_ground s.kind ≡ true
    → (1 ≤ length s.evidence_labels) × All (Resolves labels) s.evidence_labels

resolved :
    (labels : LabelMap) (ls : List ℕ)
    → all (λ l. not (is_null (labels l))) ls ≡ true
    → All (Resolves labels) ls
resolved labels [] h = tt
resolved labels (l ∷ ls) h = elim (Option-cases (labels l)) [
  | inl e ↦ ground (arith, e)
  | inr (v, e) ↦ ((v, e), resolved labels ls (ground arith))
]

grounded-IsGrounded :
    (labels : LabelMap) (ls : List ℕ)
    → grounded labels ls ≡ true
    → (1 ≤ length ls) × All (Resolves labels) ls
grounded-IsGrounded labels [] h = ground arith
grounded-IsGrounded labels (l ∷ ls) h = (omega arith, resolved labels (l ∷ ls) h)

is_kept-IsGrounded :
    (labels : LabelMap) (s : Statement) → is_kept labels s ≡ true → IsGrounded labels s
is_kept-IsGrounded labels s h n = grounded-IsGrounded labels s.evidence_labels (ground arith)

kept-IsGrounded :
    (labels : LabelMap) (ss : List Statement) → All (IsGrounded labels) (kept_statements labels ss)
kept-IsGrounded labels ss =
    All-map (λ (s : Statement). is_kept labels s ≡ true) (IsGrounded labels)
      (is_kept-IsGrounded labels) (kept_statements labels ss) (filter-All (is_kept labels) ss)

strip-IsGrounded :
    (lex : Lexicon) (labels : LabelMap) (s : Statement)
    → IsGrounded labels s
    → IsGrounded labels (strip_statement lex s)
strip-IsGrounded lex labels s h = elim (Bool-cases (lex.has_id s.text)) [
  | inl e ↦ rw e h
  | inr e ↦ rw e h
]

map-strip :
    (lex : Lexicon) (labels : LabelMap) (ss : List Statement)
    → All (IsGrounded labels) ss
    → All (IsGrounded labels) (map (strip_statement lex) ss)
map-strip lex labels [] h = tt
map-strip lex labels (s ∷ ss) h = (strip-IsGrounded lex labels s h.0, map-strip lex labels ss h.1)

without_ids-All :
    (lex : Lexicon) (P : Statement → Type 0) (ss : List Statement)
    → All P (filter (λ (s : Statement). not (lex.has_id s.text)) ss)
    → All P (filter (λ (s : Statement). not (is_empty s.text)) (map (strip_statement lex) ss))
    → All P (without_ids lex ss)
unfolding without_ids
without_ids-All lex P ss h k =
    elim (Bool-cases (leb 1 (length (filter (λ (s : Statement). not (lex.has_id s.text)) ss)))) [
      | inl e ↦ rw e h
      | inr e ↦ rw e k
    ]

without_ids-IsGrounded :
    (lex : Lexicon) (labels : LabelMap) (ss : List Statement)
    → All (IsGrounded labels) ss
    → All (IsGrounded labels) (without_ids lex ss)
without_ids-IsGrounded lex labels ss h =
    without_ids-All lex (IsGrounded labels) ss
      (All-filter (IsGrounded labels) (λ (s : Statement). not (lex.has_id s.text)) ss h)
      (All-filter (IsGrounded labels) (λ (s : Statement). not (is_empty s.text))
        (map (strip_statement lex) ss) (map-strip lex labels ss h))

abbrev pub IsGroundedText : LabelMap → TextDraft → Type 0
IsGroundedText labels t = All (IsGrounded labels) t.statement

rebuild_text-IsGroundedText :
    (lex : Lexicon) (labels : LabelMap) (t : TextDraft)
    → IsGroundedText labels (rebuild_text lex labels t)
unfolding rebuild_text
rebuild_text-IsGroundedText lex labels t =
    without_ids-IsGrounded lex labels (kept_statements labels t.statement)
      (kept-IsGrounded labels t.statement)

abbrev pub IsResolved : LabelMap → EvidenceRef → Type 0
IsResolved labels r = labels r.label ≡ some r.evidence_id

ref_onto-IsResolved :
    (labels : LabelMap) (i : Intensity) (n l : ℕ) (o : Option ℕ) (rest : List EvidenceRef)
    → labels l ≡ o
    → All (IsResolved labels) rest
    → All (IsResolved labels) (ref_onto i n l o rest)
ref_onto-IsResolved labels i n l none rest e h = h
ref_onto-IsResolved labels i n l (some v) rest e h = (e, h)

label_refs-IsResolved :
    (labels : LabelMap) (i : Intensity) (n : ℕ) (ls : List ℕ)
    → All (IsResolved labels) (label_refs labels i n ls)
label_refs-IsResolved labels i n [] = tt
label_refs-IsResolved labels i n (l ∷ ls) =
    ref_onto-IsResolved labels i n l (labels l) (label_refs labels i n ls) refl
      (label_refs-IsResolved labels i n ls)

statement_refs-IsResolved :
    (labels : LabelMap) (i : Intensity) (n : ℕ) (ss : List Statement)
    → All (IsResolved labels) (statement_refs labels i n ss)
statement_refs-IsResolved labels i n [] = tt
statement_refs-IsResolved labels i n (s ∷ ss) =
    All-append (IsResolved labels) (label_refs labels i n s.evidence_labels)
      (statement_refs labels i (suc n) ss) (label_refs-IsResolved labels i n s.evidence_labels)
      (statement_refs-IsResolved labels i (suc n) ss)

all_refs-IsResolved :
    (labels : LabelMap) (ts : List TextDraft) → All (IsResolved labels) (all_refs labels ts)
unfolding all_refs evidence_refs
all_refs-IsResolved labels [] = tt
all_refs-IsResolved labels (t ∷ ts) =
    All-append (IsResolved labels) (evidence_refs labels t) (all_refs labels ts)
      (statement_refs-IsResolved labels t.intensity 0 t.statement) (all_refs-IsResolved labels ts)

-- Whatever the draft, after the text rules each statement of each text that is a fact or a claim
-- names at least one label, and all its labels stand for evidence; and each reference that they
-- return names the evidence of its label.
pub apply_text_rules-IsGroundedText :
    (lex : Lexicon) (labels : LabelMap) (d : Option SentencingDecision) (j : Jury)
    (targets : List Intensity) (w : WriterDraft)
    → let r = apply_text_rules lex labels d j targets w in
      All (IsGroundedText labels) r.draft.texts × All (IsResolved labels) r.evidence_refs
unfolding apply_text_rules
apply_text_rules-IsGroundedText lex labels d j targets w = (
  map-All (IsGroundedText labels) (rebuild_text lex labels) (rebuild_text-IsGroundedText lex labels)
      w.texts,
  all_refs-IsResolved labels (map (rebuild_text lex labels) w.texts),
)

abbrev pub HidesIds : Lexicon → TextDraft → Type 0
HidesIds lex t =
    (lex.has_id t.headline ≡ false) × All (λ (s : Statement). lex.has_id s.text ≡ false) t.statement

module _ (lex : Lexicon) (strips : (t : List ℕ) → lex.has_id (lex.strip_ids t) ≡ false) where
  strip-hidden : (s : Statement) → lex.has_id (strip_statement lex s).text ≡ false
  strip-hidden s = elim (Bool-cases (lex.has_id s.text)) [
    | inl e ↦ rw e (strips s.text)
    | inr e ↦ rw e e
  ]

  clean-hidden : (h : List ℕ) → lex.has_id (clean_headline lex h) ≡ false
  clean-hidden h = elim (Bool-cases (lex.has_id h)) [ inl e ↦ rw e (strips h) | inr e ↦ rw e e ]

  rebuild_text-HidesIds :
      (labels : LabelMap) (t : TextDraft) → HidesIds lex (rebuild_text lex labels t)
  unfolding rebuild_text
  rebuild_text-HidesIds labels t =
      let kept = kept_statements labels t.statement in
      let has_none = λ (s : Statement). lex.has_id s.text ≡ false in
      let clean = λ (s : Statement). not (lex.has_id s.text) in
      (
        clean-hidden t.headline,
        without_ids-All lex has_none kept
            (All-map (λ (s : Statement). clean s ≡ true) has_none (λ s h. ground arith)
              (filter clean kept) (filter-All clean kept))
            (All-filter has_none (λ (s : Statement). not (is_empty s.text))
              (map (strip_statement lex) kept)
              (map-All has_none (strip_statement lex) strip-hidden kept)),
      )

-- Where the removal of ids leaves none in a text, no headline and no statement holds one after the
-- text rules.
pub apply_text_rules-HidesIds :
    (lex : Lexicon) (labels : LabelMap) (d : Option SentencingDecision) (j : Jury)
    (targets : List Intensity) (w : WriterDraft)
    → ((t : List ℕ) → lex.has_id (lex.strip_ids t) ≡ false)
    → All (HidesIds lex) (apply_text_rules lex labels d j targets w).draft.texts
unfolding apply_text_rules
apply_text_rules-HidesIds lex labels d j targets w strips =
    map-All (HidesIds lex) (rebuild_text lex labels) (rebuild_text-HidesIds lex strips labels)
      w.texts
