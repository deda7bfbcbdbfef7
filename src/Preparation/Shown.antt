-- ===== src/Preparation/Shown.antt =====
-- What the banter of graphs/preparation.py rests on.
use geoji_agent.Base.{
  ℕ, ◌≡◌, refl, inl, inr, Bool, true, false, Option, none, some, List, [], ◌∷◌, arith, All, Among,
  if◌then◌else◌, ◌==◌, All-map, ◌||◌,
}
use geoji_agent.Evidence.{Fact, member, usable, target_pack}
use geoji_agent.Texts.{Intensity, Lexicon}
use geoji_agent.Preparation.{Dossier, Candidate, Banter}
use geoji_agent.Preparation.Clean.{IsClean, filter_banter-IsClean}
use geoji_agent.Preparation.Graph.{Turn, went, threw, ◌>>=◌, State, Env}
use geoji_agent.Preparation.Run.{labels, allowed_labels, filter_all}

abbrev pub Ensures : {A : Type 0} → (A → Type 0) → Turn A → Type 0
Ensures P (went a) = P a
Ensures P (threw e) = Unit

pub bind-Ensures :
    {A B : Type 0} (P : A → Type 0) (Q : B → Type 0) (m : Turn A) (f : A → Turn B)
    → Ensures P m
    → ((a : A) → P a → Ensures Q (f a))
    → Ensures Q (m >>= f)
bind-Ensures P Q (went a) f h k = k a h
bind-Ensures P Q (threw e) f h k = tt

pub one_of :
    {A : Type 0} (P : A → Type 0) (b : Bool) (x y : Turn A)
    → Ensures P x
    → Ensures P y
    → Ensures P (if b then x else y)
one_of P true x y h k = h
one_of P false x y h k = k

-- A label stands for a fact that the rooms may use.
abbrev pub IsVisible : List ℕ → List Fact → ℕ → Type 0
IsVisible target facts l =
    (f : Fact) × Among f facts × (f.label ≡ l) × (usable f.draft.scope target ≡ true)

member-IsVisible :
    (target : List ℕ) (facts : List Fact) (l : ℕ)
    → member l (labels (target_pack target facts)) ≡ true
    → IsVisible target facts l
unfolding target_pack
member-IsVisible target [] l h = cc
member-IsVisible target (f ∷ fs) l h =
    split (usable f.draft.scope target) refl (member-IsVisible target fs l) h
  where
    later : IsVisible target fs l → IsVisible target (f ∷ fs) l
    later (g, m, e, u) = (g, inr m, e, u)

    here :
        (b : Bool)
        → (f.label == l) ≡ b
        → usable f.draft.scope target ≡ true
        → (member l (labels (target_pack target fs)) ≡ true → IsVisible target fs l)
        → (b || member l (labels (target_pack target fs))) ≡ true
        → IsVisible target (f ∷ fs) l
    here true e u rest h = (f, inl refl, ground arith, u)
    here false e u rest h = later (rest h)

    split :
        (b : Bool)
        → usable f.draft.scope target ≡ b
        → (member l (labels (target_pack target fs)) ≡ true → IsVisible target fs l)
        → member l (labels (if b then f ∷ target_pack target fs else target_pack target fs)) ≡ true
        → IsVisible target (f ∷ fs) l
    split true u rest h = here (f.label == l) refl u rest h
    split false u rest h = later (rest h)

-- A candidate that the run may show.
pub record IsShown (lex : Lexicon) (intensity : Intensity) (target : List ℕ) (facts : List Fact)
    (c : Candidate) : Type 0 where
  pub clean : IsClean lex intensity (labels (target_pack target facts)) c
  pub visible : All (IsVisible target facts) c.evidence_labels

abbrev pub AllShown : Lexicon → List ℕ → List Fact → Banter → Type 0
AllShown lex target facts b =
    All (λ (e : Intensity × List Candidate). All (IsShown lex e.0 target facts) e.1) b

abbrev pub IsFit : Lexicon → State → Option Dossier → Type 0
IsFit lex st none = st.banter ≡ []
IsFit lex st (some d) = AllShown lex st.case.snapshot.room_ids d.facts st.banter

module _ (env : Env) where
  -- Banter that has gone through the filter.
  filter_all-AllShown :
      (target : List ℕ) (facts : List Fact) (b : Banter)
      → AllShown env.lexicon target facts
          (filter_all env.lexicon (labels (target_pack target facts)) b)
  filter_all-AllShown target facts [] = tt
  filter_all-AllShown target facts ((i, cs) ∷ b) = (
    All-map (IsClean env.lexicon i allowed) (IsShown env.lexicon i target facts) shown _
        (filter_banter-IsClean env.lexicon cs i allowed),
    filter_all-AllShown target facts b,
  )
    where
      allowed : List ℕ
      allowed = labels (target_pack target facts)

      shown :
          (c : Candidate) → IsClean env.lexicon i allowed c → IsShown env.lexicon i target facts c
      shown c h = record {
        clean = h;
        visible =
            All-map (λ l. member l allowed ≡ true) (IsVisible target facts)
              (member-IsVisible target facts) c.evidence_labels h.cites;
      }

  pub validated-IsFit :
      (made : State) (d : Dossier) (o : Option Dossier)
      → o ≡ some d
      → IsFit env.lexicon
          (record made { banter = filter_all env.lexicon (allowed_labels made o) made.banter })
          o
  validated-IsFit made d none e = cc
  validated-IsFit made d (some d') e =
      filter_all-AllShown made.case.snapshot.room_ids d'.facts made.banter
