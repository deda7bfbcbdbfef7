-- ===== src/Preparation/Merged.antt =====
-- What `merge_inferred_facts` of graphs/preparation.py puts behind the facts of the code.
use geoji_agent.Base.{
  ℕ, suc, ◌+◌, ◌≡◌, refl, sym, ap, ◌∙◌, ◌⊎◌, inl, inr, Option, none, some, List, [], ◌∷◌, ◌++◌,
  arith, length, All, Among, All-append, subst,
}
use mathlib.Core.List.{append-nil, append_assoc}
use geoji_agent.Evidence.{Fact}
use geoji_agent.Preparation.{
  Dossier, Item, Output, Added, dropped, fact_of, text_of, item_of, Collected, add, collect,
  merge_inferred_facts,
}
use geoji_agent.Preparation.Inferred.{
  IsInferred, AddedOk, Qualifies, item_of-AddedOk, Qualifies-fact_of,
}

-- The labels are F<i>, F<i+1> and so on.
abbrev pub IsNumbered : ℕ → List Fact → Type 0
IsNumbered i [] = Unit
IsNumbered i (f ∷ fs) = (f.label ≡ i) × IsNumbered (suc i) fs

IsNumbered-append :
    (i : ℕ) (fs : List Fact) (f : Fact)
    → IsNumbered i fs
    → f.label ≡ i + length fs
    → IsNumbered i (fs ++ f ∷ [])
IsNumbered-append i [] f h e = (omega (arith, e), tt)
IsNumbered-append i (g ∷ fs) f h e = (h.0, IsNumbered-append (suc i) fs f h.1 (omega (arith, e)))

-- The items of an answer.
abbrev pub items_of : Option Output → List (Option Item)
items_of none = []
items_of (some o) = o.facts

-- A fact that one of the items stands for.
abbrev pub IsFromItem : List Fact → List (Option Item) → Fact → Type 0
IsFromItem known items f = (i : Item) × Among (some i) items × IsInferred known i f.draft

-- The fact of an item is there.
abbrev pub StandsFor : List Fact → List Fact → Item → Type 0
StandsFor known facts i = (f : Fact) × Among f facts × IsInferred known i f.draft

Among-append : (f : Fact) (xs ys : List Fact) → Among f xs ⊎ Among f ys → Among f (xs ++ ys)
Among-append f [] ys (inl m) = elim m [ ]
Among-append f [] ys (inr m) = m
Among-append f (x ∷ xs) ys (inl (inl e)) = inl e
Among-append f (x ∷ xs) ys (inl (inr m)) = inr (Among-append f xs ys (inl m))
Among-append f (x ∷ xs) ys (inr m) = inr (Among-append f xs ys (inr m))

-- The facts after the merge: those of before in their places, then inferred ones, all numbered.
pub record IsMerged (known : List Fact) (items : List (Option Item)) (facts : List Fact)
    : Type 0 where
  pub new : List Fact
  pub kept : facts ≡ known ++ new
  pub grounds : All (IsFromItem known items) new
  pub numbered : IsNumbered 0 known → IsNumbered 0 facts

unchanged : (items : List (Option Item)) (facts : List Fact) → IsMerged facts items facts
unchanged items facts = record {
  new = [];
  kept = sym (append-nil facts);
  grounds = tt;
  numbered = λ n. n;
}

module _ (uuids : ℕ → ℕ) (known : List Fact) (items : List (Option Item)) where
  grown :
      (facts : List Fact) (f : Fact)
      → f.label ≡ length facts
      → IsFromItem known items f
      → IsMerged known items facts
      → IsMerged known items (facts ++ f ∷ [])
  grown facts f e h m = record {
    new = m.new ++ f ∷ [];
    kept = ap (λ xs. xs ++ f ∷ []) m.kept ∙ append_assoc known m.new (f ∷ []);
    grounds = All-append (IsFromItem known items) m.new (f ∷ []) m.grounds (h, tt);
    numbered = λ n. IsNumbered-append 0 facts f (m.numbered n) (omega (arith, e));
  }

  add-IsMerged :
      (i : Item) (a : Added) (c : Collected)
      → Among (some i) items
      → AddedOk known i a
      → IsMerged known items c.0
      → IsMerged known items (add uuids a c).0
  add-IsMerged i dropped (facts, texts) k h m = m
  add-IsMerged i (text_of t) (facts, texts) k h m = m
  add-IsMerged i (fact_of d) (facts, texts) k h m =
      grown facts (record { label = length facts; uuid = uuids (length facts); draft = d }) refl
        (i, k, h) m

  collect-IsMerged :
      (is : List (Option Item)) (c : Collected)
      → ((i : Option Item) → Among i is → Among i items)
      → IsMerged known items c.0
      → IsMerged known items (collect uuids known is c).0
  collect-IsMerged [] c sub m = m
  collect-IsMerged (none ∷ is) c sub m =
      collect-IsMerged is (add uuids (item_of known none) c) (λ i k. sub i (inr k)) m
  collect-IsMerged (some i ∷ is) c sub m =
      collect-IsMerged is (add uuids (item_of known (some i)) c) (λ j k. sub j (inr k))
        (add-IsMerged i (item_of known (some i)) c (sub (some i) (inl refl))
          (item_of-AddedOk known i) m)

  add-keeps : (f : Fact) (a : Added) (c : Collected) → Among f c.0 → Among f (add uuids a c).0
  add-keeps f dropped (facts, texts) m = m
  add-keeps f (text_of t) (facts, texts) m = m
  add-keeps f (fact_of d) (facts, texts) m = Among-append f facts _ (inl m)

  collect-keeps :
      (f : Fact) (is : List (Option Item)) (c : Collected)
      → Among f c.0
      → Among f (collect uuids known is c).0
  collect-keeps f [] c m = m
  collect-keeps f (i ∷ is) c m =
      collect-keeps f is (add uuids (item_of known i) c) (add-keeps f (item_of known i) c m)

  -- The fact of an item that qualifies is in the list once the item has been read.
  collect-StandsFor :
      (is : List (Option Item)) (c : Collected) (i : Item)
      → Among (some i) is
      → Qualifies known i
      → StandsFor known (collect uuids known is c).0 i
  collect-StandsFor [] c i m q = elim m [ ]
  collect-StandsFor (j ∷ is) (facts, texts) i (inl e) q =
      let (d, made) = Qualifies-fact_of known i q in
      let same : item_of known j ≡ fact_of d = ap (item_of known) (sym e) ∙ made in
      let new : Fact = record { label = length facts; uuid = uuids (length facts); draft = d } in
      (
        new,
        collect-keeps new is _ (rw same (Among-append new facts (new ∷ []) (inr (inl refl)))),
        subst (AddedOk known i) made (item_of-AddedOk known i),
      )
  collect-StandsFor (j ∷ is) c i (inr m) q =
      collect-StandsFor is (add uuids (item_of known j) c) i m q

-- Whatever the model answers, the merged dossier has the code's facts first and unchanged. Each
-- further fact stands for an item of the answer, of its kind and with its text, cut at 500 code points;
-- the item names at least one label, every label that it names is that of one of the code's facts,
-- rooms may use the new fact exactly if they may use each of these facts, and its sources are those
-- that they have. It is marked as inferred. Facts numbered from F0 stay numbered from F0. And no item
-- is lost: each with one of the two kinds of fact, with words, and with labels that all name facts of
-- the code, has such a fact.
pub merge_inferred_facts-IsMerged :
    (uuids : ℕ → ℕ) (d : Dossier) (o : Option Output)
    → IsMerged d.facts (items_of o) (merge_inferred_facts uuids d o).0.facts
      × ((i : Item)
          → Among (some i) (items_of o)
          → Qualifies d.facts i
          → StandsFor d.facts (merge_inferred_facts uuids d o).0.facts i)
unfolding merge_inferred_facts
merge_inferred_facts-IsMerged uuids d none = (unchanged [] d.facts, λ i m. elim m [ ])
merge_inferred_facts-IsMerged uuids d (some o) = (
  collect-IsMerged uuids d.facts o.facts o.facts (d.facts, []) (λ i k. k)
      (unchanged o.facts d.facts),
  λ i m q. collect-StandsFor uuids d.facts o.facts o.facts (d.facts, []) i m q,
)
