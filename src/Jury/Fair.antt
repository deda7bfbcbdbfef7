-- ===== src/Jury/Fair.antt =====
-- What the vote of graphs/jury_vote.py may say.
use geoji_agent.Base.{
  ◌≤◌, ◌≡◌, refl, Bool, true, false, not, ◌&&◌, Option, none, some, arith, any, length,
  if◌then◌else◌, leb, subst,
}
use geoji_agent.Texts.{Text, Intensity}
use geoji_agent.Preparation.{strip}
use geoji_agent.Jury.{
  PostType, spent, considering, Verdict, allowed_verdict, template_verdict, juror_reason_max, Case,
  has_grounded_amounts, Payload, Output, is_line_break, check_parts, validate_juror_output, Source,
  ai, template, Fallback, invalid_output, ungrounded_amount, Reply, caught, uncaught, unusable,
  answered, Step, did, failed, ◌>>=◌, Request, World, Env, room_node, Juror, fell_back, raw_output,
  read_reply, juror_node, Decision, by_template, is_grounded, take_grounded, take_vote,
  validate_node, request_of, in_room, vote_of, no_llm,
}

-- A vote that the model gave: its reason is the model's without the blanks around it, on one line,
-- within the limit, and names no amount that the post does not.
pub record FromModel (env : Env) (c : Case) (o : Output) (verdict : Verdict) (reason : Text)
    : Type 0 where
  pub text : Text
  pub said : o.reason ≡ some text
  pub chosen : o.verdict ≡ some verdict
  pub stripped : reason ≡ strip text
  pub one_line : any is_line_break text ≡ false
  pub filled : 1 ≤ length reason
  pub short : length reason ≤ juror_reason_max
  pub post_reason : Text
  pub stated : c.reason ≡ some post_reason
  pub grounded : has_grounded_amounts env.find_amounts reason c.amount_krw c.item post_reason ≡ true

-- One that the table of templates gave for the room's intensity.
pub record FromTemplate (env : Env) (c : Case) (i : Intensity) (verdict : Verdict) (reason : Text)
    : Type 0 where
  pub by_table : verdict ≡ template_verdict c.post_type
  pub text : reason ≡ env.templates i c.post_type

-- A decision, with the answer that it rests on.
abbrev pub Rests : Env → World → Case → Intensity → Source → Verdict → Text → Type 0
Rests env w c i ai verdict reason =
    (o : Output) × (w.juror ≡ answered o) × FromModel env c o verdict reason
Rests env w c i template verdict reason = FromTemplate env c i verdict reason

pub record IsFair (env : Env) (w : World) (p : Payload) (c : Case) (q : Request) : Type 0 where
  pub intensity : Intensity
  pub shared : room_node p.room_id c.room_snapshots ≡ some intensity
  pub allowed : allowed_verdict c.post_type q.verdict ≡ true
  pub rests : Rests env w c intensity q.source q.verdict q.reason
  pub post : q.post_id ≡ p.post_id
  pub room : q.room_id ≡ p.room_id
  pub voter : q.voter_id ≡ p.voter_id

abbrev Ensures : {A : Type 0} → (A → Type 0) → Step A → Type 0
Ensures P (did a) = P a
Ensures P (failed e) = Unit

module _ (env : Env) (w : World) (p : Payload) (c : Case) (i : Intensity) where
  abbrev IsSound : Decision → Type 0
  IsSound d =
      (allowed_verdict c.post_type d.vote.0 ≡ true) × Rests env w c i d.source d.vote.0 d.vote.1

  by_template-IsSound : (f : Fallback) → IsSound (by_template env c i f)
  by_template-IsSound f = (usual c.post_type, record { by_table = refl; text = refl })
    where
      usual : (t : PostType) → allowed_verdict t (template_verdict t) ≡ true
      usual spent = refl
      usual considering = refl

  -- What the check of an output lets through.
  abbrev Passes : Output → Option (Verdict × Text) → Type 0
  Passes o none = Unit
  Passes o (some (verdict, reason)) =
      (allowed_verdict c.post_type verdict ≡ true)
      × (text : Text) × (o.reason ≡ some text)
      × (o.verdict ≡ some verdict)
      × (reason ≡ strip text)
      × (any is_line_break text ≡ false)
      × (1 ≤ length reason)
      × (length reason ≤ juror_reason_max)

  checked-Passes :
      (o : Output) (v : Option Verdict) (r : Option Text)
      → o.verdict ≡ v
      → o.reason ≡ r
      → Passes o (check_parts c.post_type v r)
  checked-Passes o none r e f = tt
  checked-Passes o (some v) none e f = tt
  checked-Passes o (some v) (some t) e f = split _ refl
    where
      split :
          (b : Bool)
          → (allowed_verdict c.post_type v
              && not (any is_line_break t)
              && (leb 1 (length (strip t)) && leb (length (strip t)) juror_reason_max))
            ≡ b
          → Passes o (if b then some (v, strip t) else none)
      split false h = tt
      split true h = (ground arith, t, f, e, refl, ground arith, ground arith, ground arith)

  valid-Passes : (o : Output) → Passes o (validate_juror_output o c.post_type)
  unfolding validate_juror_output
  valid-Passes o = split o.has_other_keys
    where
      split : (b : Bool) → Passes o (if b then none else check_parts c.post_type o.verdict o.reason)
      split true = tt
      split false = checked-Passes o o.verdict o.reason refl refl

  taken-IsSound :
      (o : Output) (v : Option (Verdict × Text))
      → w.juror ≡ answered o
      → Passes o v
      → Ensures IsSound (take_vote env w c i v)
  taken-IsSound o none e h = by_template-IsSound invalid_output
  taken-IsSound o (some (verdict, reason)) e
        (a, text, said, chosen, stripped, line, filled, short) =
      judged c.reason refl
    where
      remembered :
          (post : Text)
          → c.reason ≡ some post
          → has_grounded_amounts env.find_amounts reason c.amount_krw c.item post ≡ true
          → (s : Step (Unit {0}))
          → Ensures IsSound (
              s >>= λ stored.
              did (record { vote = (verdict, reason); source = ai; fallback = none }))
      remembered post k g (failed x) = tt
      remembered post k g (did u) =
          let given : FromModel env c o verdict reason = record {
            text = text;
            said = said;
            chosen = chosen;
            stripped = stripped;
            one_line = line;
            filled = filled;
            short = short;
            post_reason = post;
            stated = k;
            grounded = g;
          } in
          (a, (o, e, given))

      tested :
          (post : Text) (b : Bool)
          → c.reason ≡ some post
          → has_grounded_amounts env.find_amounts reason c.amount_krw c.item post ≡ b
          → Ensures IsSound (take_grounded env w c i (verdict, reason) b)
      tested post true k g = remembered post k g w.remember
      tested post false k g = by_template-IsSound ungrounded_amount

      judged :
          (r : Option Text)
          → c.reason ≡ r
          → Ensures IsSound
              (is_grounded env c reason r >>= take_grounded env w c i (verdict, reason))
      judged none k = tt
      judged (some post) k = tested post _ k refl

  -- What the model's node hands on.
  abbrev IsSaid : Juror → Type 0
  IsSaid (fell_back f) = Unit
  IsSaid (raw_output o) = w.juror ≡ answered o

  replied-IsSaid : (r : Reply) → w.juror ≡ r → Ensures IsSaid (read_reply r)
  replied-IsSaid (caught f) e = tt
  replied-IsSaid (uncaught x) e = tt
  replied-IsSaid unusable e = tt
  replied-IsSaid (answered o) e = e

  juror-IsSaid : Ensures IsSaid (juror_node w)
  unfolding juror_node
  juror-IsSaid = split w.has_llm
    where
      split : (b : Bool) → Ensures IsSaid (if b then read_reply w.juror else did (fell_back no_llm))
      split true = replied-IsSaid w.juror refl
      split false = tt

  validated-IsSound : (j : Juror) → IsSaid j → Ensures IsSound (validate_node env w c i j)
  unfolding validate_node
  validated-IsSound (fell_back f) h = by_template-IsSound f
  validated-IsSound (raw_output o) h = taken-IsSound o _ h (valid-Passes o)

  abbrev FairIf : Option Request → Type 0
  FairIf none = Unit
  FairIf (some q) = IsFair env w p c q

  decided-FairIf :
      (j : Step Juror)
      → room_node p.room_id c.room_snapshots ≡ some i
      → Ensures IsSaid j
      → Ensures FairIf
          (j >>= λ juror. validate_node env w c i juror >>= λ d. did (some (request_of p d)))
  decided-FairIf (failed x) room h = tt
  decided-FairIf (did juror) room h = go (validate_node env w c i juror) (validated-IsSound juror h)
    where
      go :
          (s : Step Decision)
          → Ensures IsSound s
          → Ensures FairIf (s >>= λ d. did (some (request_of p d)))
      go (failed x) k = tt
      go (did d) (a, r) = record {
        intensity = i;
        shared = room;
        allowed = a;
        rests = r;
        post = refl;
        room = refl;
        voter = refl;
      }

module _ (env : Env) (w : World) (p : Payload) where
  abbrev IsFairVote : Option Request → Type 0
  IsFairVote none = Unit
  IsFairVote (some q) = (c : Case) × (w.snapshot ≡ did c) × IsFair env w p c q

  room-FairIf :
      (c : Case) (o : Option Intensity)
      → room_node p.room_id c.room_snapshots ≡ o
      → w.snapshot ≡ did c
      → Ensures IsFairVote (in_room env w p c o)
  room-FairIf c none e s = tt
  room-FairIf c (some i) e s =
      go _ (decided-FairIf env w p c i (juror_node w) e (juror-IsSaid env w p c i))
    where
      go : (r : Step (Option Request)) → Ensures (FairIf env w p c i) r → Ensures IsFairVote r
      go (failed x) h = tt
      go (did none) h = tt
      go (did (some q)) h = (c, s, h)

  shown-IsFairVote :
      (s : Step Case)
      → w.snapshot ≡ s
      → Ensures IsFairVote (s >>= λ c. in_room env w p c (room_node p.room_id c.room_snapshots))
  shown-IsFairVote (failed x) e = tt
  shown-IsFairVote (did c) e = room-FairIf c _ refl e

  -- Whatever the model answers, a vote that the graph sends is for a room that the case is shared with,
  -- from the voter of the job, with a verdict of the post's kind. Marked as the model's, it has the
  -- verdict that the model chose and its reason, without the blanks around it, on one line of 1 to 60
  -- code points, with no amount that the post does not name (which then states a
  -- reason); marked as a template, it is the table's
  -- verdict and reason for this kind and the room's intensity.
  pub vote_of-IsFair :
      (q : Request)
      → vote_of env w p ≡ did (some q)
      → (c : Case) × (w.snapshot ≡ did c) × IsFair env w p c q
  unfolding vote_of
  vote_of-IsFair q e = subst (Ensures IsFairVote) e (shown-IsFairVote w.snapshot refl)
