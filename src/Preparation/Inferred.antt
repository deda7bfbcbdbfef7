-- ===== src/Preparation/Inferred.antt =====
-- The facts that `merge_inferred_facts` of graphs/preparation.py makes from the items of an answer.
use geoji_agent.Base.{
  ℕ, ◌≡◌, refl, sym, ◌∙◌, ◌⊎◌, inl, inr, Bool, true, false, Option, none, some, List, [], ◌∷◌, map,
  arith, if◌then◌else◌, take, Among, ◌==◌, subst, some_eq,
}
use geoji_agent.Evidence.{
  Fact, Draft, FactType, rule, mitigation, model_inference, is_empty, usable, evidence_text_max,
}
use geoji_agent.Texts.{Text, all}
use geoji_agent.Preparation.{
  fromkeys, Kind, rule_hit, mitigation_kind, reason_analysis, Item, by_label, referenced,
  same_triple, all_sources, inferred, Added, dropped, fact_of, text_of, by_kind, has_words,
  grounded, checked, read_item, item_of,
}
use geoji_agent.Preparation.Narrow.{narrowest_scope-usable}
use geoji_agent.Preparation.Sources.{Triple, has, has-fromkeys}
use geoji_agent.Preparation.Cited.{
  Cites, Named, NamedIf, Among-fromkeys, fromkeys-Among, by_label-Among, referenced-NamedIf,
  referenced-some, Named-fact, Named-Cites, all-Among, all-intro, sources-Among, sources-has,
}

-- The kind of an item, as the type of its fact.
abbrev pub TypeOf : Option Kind → FactType → Type 0
TypeOf kind fact_type =
    ((kind ≡ some rule_hit) × (fact_type ≡ rule))
    ⊎ ((kind ≡ some mitigation_kind) × (fact_type ≡ mitigation))

-- A fact inferred from an item of the answer: all of the item's labels name known facts, of which
-- rooms may use every one exactly if they may use the fact, and whose sources are its sources.
pub record IsInferred (known : List Fact) (i : Item) (d : Draft) : Type 0 where
  pub refs : List ℕ
  pub said : i.source_refs ≡ some refs
  pub cites : is_empty refs ≡ false
  pub named :
      (l : ℕ)
      → Among l refs
      → (g : Fact) × (by_label known l ≡ some g) × Among g known × (g.label ≡ l)
  pub visible :
      (target : List ℕ) (g : Fact)
      → usable d.scope target ≡ true
      → Cites known refs g
      → usable g.draft.scope target ≡ true
  pub shown :
      (target : List ℕ)
      → ((g : Fact) → Cites known refs g → usable g.draft.scope target ≡ true)
      → usable d.scope target ≡ true
  pub sourced :
      (x : Triple) → Among x d.sources → (g : Fact) × Cites known refs g × Among x g.draft.sources
  pub complete :
      (x : Triple) (g : Fact)
      → Cites known refs g
      → Among x g.draft.sources
      → has x d.sources ≡ true
  pub typed : TypeOf i.kind d.fact_type
  pub body : Text
  pub told : i.text ≡ some body
  pub worded : has_words body ≡ true
  pub text : d.text ≡ take evidence_text_max body
  pub marked : d.epistemic_type ≡ model_inference

all_of_scopes :
    (target : List ℕ) (fs : List Fact)
    → all (λ s. usable s target) (map (λ f. f.draft.scope) fs)
      ≡ all (λ g. usable g.draft.scope target) fs
all_of_scopes target [] = refl
all_of_scopes target (f ∷ fs) = ground (arith, all_of_scopes target fs)

abbrev pub AddedOk : List Fact → Item → Added → Type 0
AddedOk known i dropped = Unit
AddedOk known i (fact_of d) = IsInferred known i d
AddedOk known i (text_of t) = Unit

module _ (known : List Fact) (i : Item) (body : Text) (l : ℕ) (ls : List ℕ)
    (told : i.text ≡ some body) (said : i.source_refs ≡ some (l ∷ ls))
    (words : has_words body ≡ true) where
  abbrev unique : List ℕ
  unique = fromkeys ◌==◌ (l ∷ ls)

  -- Without its repetitions the list has the same labels.
  cited_once : (g : Fact) → Cites known unique g → Cites known (l ∷ ls) g
  cited_once g (x, m, e) = (x, Among-fromkeys ◌==◌ x (l ∷ ls) m, e)

  fact_of_citation :
      (fs : List Fact) (g : Fact) → Named known unique fs → Cites known (l ∷ ls) g → Among g fs
  fact_of_citation fs g n (x, m, e) =
      let (h, among, found) = Named-fact known unique fs x n (fromkeys-Among x (l ∷ ls) m) in
      subst (λ y. Among y fs) (some_eq (sym found ∙ e)) among

  inferred-IsInferred :
      (fact_type : FactType) (fs : List Fact)
      → TypeOf i.kind fact_type
      → Named known unique fs
      → IsInferred known i (inferred fact_type body fs)
  inferred-IsInferred fact_type fs kind n = record {
    refs = l ∷ ls;
    said = said;
    cites = refl;
    named = λ x m.
        let (g, among, found) = Named-fact known unique fs x n (fromkeys-Among x (l ∷ ls) m) in
        let (in_known, label) = by_label-Among known x g found in (g, found, in_known, label);
    visible = λ target g seen cited.
        all-Among (λ h. usable h.draft.scope target) g fs (sym (by_scope target) ∙ seen)
          (fact_of_citation fs g n cited);
    shown = λ target each.
        by_scope target
        ∙ all-intro (λ h. usable h.draft.scope target) fs
            (λ g m. each g (cited_once g (Named-Cites known unique fs g n m)));
    sourced = λ x m.
        let (g, among, found) =
          sources-Among x fs (Among-fromkeys same_triple x (all_sources fs) m) in
        (g, cited_once g (Named-Cites known unique fs g n among), found);
    complete = λ x g cited m.
        has-fromkeys x (all_sources fs) ∙ sources-has x g fs (fact_of_citation fs g n cited) m;
    typed = kind;
    body = body;
    told = told;
    worded = words;
    text = refl;
    marked = refl;
  }
    where
      by_scope :
          (target : List ℕ)
          → usable (inferred fact_type body fs).scope target
            ≡ all (λ g. usable g.draft.scope target) fs
      by_scope target =
          narrowest_scope-usable (map (λ g. g.draft.scope) fs) target ∙ all_of_scopes target fs

  by_kind-AddedOk :
      (kind : Kind) (fs : List Fact)
      → i.kind ≡ some kind
      → Named known unique fs
      → AddedOk known i (by_kind kind body fs)
  by_kind-AddedOk rule_hit fs e n = inferred-IsInferred rule fs (inl (e, refl)) n
  by_kind-AddedOk mitigation_kind fs e n = inferred-IsInferred mitigation fs (inr (e, refl)) n
  by_kind-AddedOk reason_analysis fs e n = tt

  grounded-AddedOk :
      (kind : Kind) (o : Option (List Fact))
      → i.kind ≡ some kind
      → NamedIf known unique o
      → AddedOk known i (grounded kind body o)
  grounded-AddedOk kind none e n = tt
  grounded-AddedOk kind (some fs) e n = by_kind-AddedOk kind fs e n

checked-AddedOk :
    (known : List Fact) (i : Item) (kind : Kind) (body : Text) (refs : List ℕ)
    → i.kind ≡ some kind
    → i.text ≡ some body
    → i.source_refs ≡ some refs
    → AddedOk known i (checked known kind body refs)
checked-AddedOk known i kind body [] e f h = tt
checked-AddedOk known i kind body (l ∷ ls) e f h = split (has_words body) refl
  where
    split :
        (b : Bool)
        → has_words body ≡ b
        → AddedOk known i
            (if b then grounded kind body (referenced known (fromkeys ◌==◌ (l ∷ ls))) else dropped)
    split false w = tt
    split true w =
        grounded-AddedOk known i body l ls f h w kind _ e
          (referenced-NamedIf known (fromkeys ◌==◌ (l ∷ ls)))

pub item_of-AddedOk : (known : List Fact) (i : Item) → AddedOk known i (item_of known (some i))
item_of-AddedOk known i = read i.kind i.text i.source_refs refl refl refl
  where
    read :
        (k : Option Kind) (t : Option Text) (r : Option (List ℕ))
        → i.kind ≡ k
        → i.text ≡ t
        → i.source_refs ≡ r
        → AddedOk known i (read_item known k t r)
    read none t r e f h = tt
    read (some k) none r e f h = tt
    read (some k) (some t) none e f h = tt
    read (some k) (some t) (some refs) e f h = checked-AddedOk known i k t refs e f h

-- An item that stands for a fact: of one of the two kinds, with words, and with labels that all name
-- known facts.
pub record Qualifies (known : List Fact) (i : Item) : Type 0 where
  pub kind : (i.kind ≡ some rule_hit) ⊎ (i.kind ≡ some mitigation_kind)
  pub body : Text
  pub told : i.text ≡ some body
  pub words : has_words body ≡ true
  pub label : ℕ
  pub labels : List ℕ
  pub said : i.source_refs ≡ some (label ∷ labels)
  pub named : (l : ℕ) → Among l (label ∷ labels) → (g : Fact) × (by_label known l ≡ some g)

pub Qualifies-fact_of :
    (known : List Fact) (i : Item)
    → Qualifies known i
    → (d : Draft) × (item_of known (some i) ≡ fact_of d)
Qualifies-fact_of known i q = elim q.kind [
  | inl e ↦ (inferred rule q.body fs, rw (e, q.told, q.said, q.words, all_found) refl)
  | inr e ↦ (inferred mitigation q.body fs, rw (e, q.told, q.said, q.words, all_found) refl)
]
  where
    unique : List ℕ
    unique = fromkeys ◌==◌ (q.label ∷ q.labels)

    found : (fs : List Fact) × (referenced known unique ≡ some fs)
    found =
        referenced-some known unique
          (λ l m. q.named l (Among-fromkeys ◌==◌ l (q.label ∷ q.labels) m))

    fs : List Fact
    fs = found.0

    all_found : referenced known unique ≡ some fs
    all_found = found.1
