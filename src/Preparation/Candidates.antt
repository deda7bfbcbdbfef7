-- ===== src/Preparation/Candidates.antt =====
-- src/geoji_ai/graphs/preparation.py, the pure functions on banter, its intensities and the candidates
-- of the memory.
use geoji_agent.Base.{
  ℕ, Bool, true, false, not, ◌&&◌, Option, none, some, List, [], ◌∷◌, ◌++◌, map, ltb, leb, ◌==◌,
  if◌then◌else◌, any, filter, length, take,
}
use geoji_agent.Evidence.{member, is_empty, SourceType, same_source_type, Snapshot}
use geoji_agent.Texts.{
  Text, Intensity, mild, spicy, hell, Lexicon, is_space, card_statement_max, death_word_hits,
  profanity_hits, same_intensity, all,
}
use geoji_agent.Texts
use geoji_agent.Rules.{VerdictResult}

-- contracts.writer.BanterStrategy
pub data Strategy : Type 0 where
  cheaper_alternative free_alternative diy_replacement premise_rejection excuse_stripping
        necessity_approval repeat_offense room_rule_callback :
      Strategy

-- graphs.states.Candidate
pub record Candidate : Type 0 where
  pub candidate_id : ℕ
  pub text : Text
  pub strategy : Strategy
  pub fits : List VerdictResult
  pub evidence_labels : List ℕ

abbrev pub label_required : Strategy → Bool
label_required repeat_offense = true
label_required room_rule_callback = true
label_required _ = false

-- str.strip
unfoldable pub strip_right : Text → Text
strip_right [] = []
strip_right (c ∷ cs) =
    let rest = strip_right cs in if is_empty rest && is_space c then [] else c ∷ rest

unfoldable pub strip_left : Text → Text
strip_left [] = []
strip_left (c ∷ cs) = let rest = strip_left cs in if is_space c then rest else c ∷ cs

unfoldable pub strip : Text → Text
unfolding strip_left strip_right
strip t = strip_right (strip_left t)

abbrev pub keep_labels : List ℕ → Candidate → Candidate
keep_labels allowed c = record c {
  evidence_labels = filter (λ l. member l allowed) c.evidence_labels;
}

-- The five rules on a candidate whose labels are already filtered.
abbrev pub passes : Lexicon → Intensity → Candidate → Bool
passes lex intensity c =
    leb 1 (length (strip c.text))
    && leb (length (strip c.text)) card_statement_max
    && not (label_required c.strategy && is_empty c.evidence_labels)
    && not (death_word_hits lex c.text)
    && not (profanity_hits lex c.text intensity)

unfoldable pub filter_banter : Lexicon → List Candidate → Intensity → List ℕ → List Candidate
filter_banter lex candidates intensity allowed =
    filter (passes lex intensity) (map (keep_labels allowed) candidates)

abbrev pub Banter : Type 0
Banter = List (Intensity × List Candidate)

pub record Room : Type 0 where
  pub room_id : ℕ
  pub rule_version : ℕ
  pub intensity : Intensity

-- The snapshot of a PREPARE job. `post_rest` stands for the fields of the post that no rule here
-- reads, `default_intensity` is the jury's.
pub record Case : Type 0 where
  pub snapshot : Snapshot
  pub post_rest : ℕ
  pub audience_version : ℕ
  pub room_snapshots : List Room
  pub privacy_versions : List (ℕ × ℕ)
  pub intake_result : Option ℕ
  pub default_intensity : Option Intensity

abbrev pub all_intensities : List Intensity
all_intensities = mild ∷ spicy ∷ hell ∷ []

abbrev pub present : List Room → Option Intensity → Intensity → Bool
present [] none i = false
present [] (some j) i = same_intensity i j
present (r ∷ rs) _ i = any (λ r. same_intensity i r.intensity) (r ∷ rs)

unfoldable pub target_intensities : Case → List Intensity
target_intensities c = filter (present c.room_snapshots c.default_intensity) all_intensities

abbrev pub holds : Intensity → Banter → Bool
holds i b = any (λ (e : Intensity × List Candidate). same_intensity i e.0) b

-- `banter[intensity] = candidates`
abbrev pub put : Intensity → List Candidate → Banter → Banter
put i cs [] = (i, cs) ∷ []
put i cs ((j, ds) ∷ b) = if same_intensity i j then (j, cs) ∷ b else (j, ds) ∷ put i cs b

unfoldable pub copied_banter : Banter → Case → Banter
unfolding target_intensities
copied_banter banter c =
    filter (λ (e : Intensity × List Candidate). Texts.member e.0 (target_intensities c)) banter

-- A candidate of an answer; a strategy or a fit that is not of its enumeration is `none`.
pub record Raw : Type 0 where
  pub text : Option Text
  pub strategy : Option Strategy
  pub fits : List (Option VerdictResult)
  pub evidence_labels : List ℕ

abbrev pub known_fits : List (Option VerdictResult) → List VerdictResult
known_fits [] = []
known_fits (none ∷ fs) = known_fits fs
known_fits (some f ∷ fs) = f ∷ known_fits fs

abbrev pub read_candidate :
    (ℕ → ℕ) → Raw → Option Text → Option Strategy → List Candidate → List Candidate
read_candidate uuids r (some text) (some strategy) rest =
    record {
      candidate_id = uuids (length rest);
      text = text;
      strategy = strategy;
      fits = known_fits r.fits;
      evidence_labels = r.evidence_labels;
    }
    ∷ rest
read_candidate uuids r _ _ rest = rest

abbrev pub parse_items : (ℕ → ℕ) → List (Option Raw) → List Candidate
parse_items uuids [] = []
parse_items uuids (none ∷ rs) = parse_items uuids rs
parse_items uuids (some r ∷ rs) = read_candidate uuids r r.text r.strategy (parse_items uuids rs)

-- The outer `none` is an answer that is no mapping.
unfoldable pub parse_candidates : (ℕ → ℕ) → Option (List (Option Raw)) → List Candidate
parse_candidates uuids none = []
parse_candidates uuids (some items) = parse_items uuids items

-- ports.memory.MemoryCandidate; a score is a number, since scores are only compared.
pub record MemoryCandidate : Type 0 where
  pub source_type : SourceType
  pub source_id : ℕ
  pub source_version : ℕ
  pub score : ℕ

abbrev pub same_reference : MemoryCandidate → MemoryCandidate → Bool
same_reference a b =
    same_source_type a.source_type b.source_type
    && a.source_id == b.source_id
    && a.source_version == b.source_version

-- `best[key] = candidate`, if it is new or has a higher score.
unfoldable pub improve : MemoryCandidate → List MemoryCandidate → List MemoryCandidate
improve c [] = c ∷ []
improve c (b ∷ bs) =
    let rest = improve c bs in
    if same_reference c b then (if ltb b.score c.score then c ∷ bs else b ∷ bs) else b ∷ rest

unfoldable pub best_of : List MemoryCandidate → List MemoryCandidate → List MemoryCandidate
unfolding improve
best_of [] best = best
best_of (c ∷ cs) best = best_of cs (improve c best)

abbrev pub concat : List (List MemoryCandidate) → List MemoryCandidate
concat [] = []
concat (g ∷ gs) = g ++ concat gs

-- `sorted(..., reverse=True)` keeps the order of equal scores.
unfoldable pub insert_score : MemoryCandidate → List MemoryCandidate → List MemoryCandidate
insert_score c [] = c ∷ []
insert_score c (d ∷ ds) =
    let rest = insert_score c ds in if ltb c.score d.score then d ∷ rest else c ∷ d ∷ ds

unfoldable pub sort_score : List MemoryCandidate → List MemoryCandidate
unfolding insert_score
sort_score [] = []
sort_score (c ∷ cs) = insert_score c (sort_score cs)

unfoldable pub merge_candidates : List (List MemoryCandidate) → ℕ → List MemoryCandidate
unfolding best_of sort_score
merge_candidates groups limit = take limit (sort_score (best_of (concat groups) []))
