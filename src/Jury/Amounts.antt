-- ===== src/Jury/Amounts.antt =====
-- src/geoji_ai/domain/juror_amounts.py: the amounts in won that a text states.
use geoji_agent.Base.{
  ℕ, ◌+◌, ◌*◌, ◌/◌, ◌%◌, Bool, true, false, not, ◌&&◌, ◌||◌, Option, none, some, List, [], ◌∷◌, leb,
  ◌==◌, if◌then◌else◌, any,
}
use geoji_agent.Texts.{Text}

-- A token of an amount: a unit below 10,000, a larger one, a number with its decimals, which is a
-- fraction, or a malformed number.
pub data Token : Type 0 where
  small large : ℕ → Token
  number : ℕ → ℕ → Token
  malformed : Token

abbrev pub Fraction : Type 0
Fraction = ℕ × ℕ

abbrev pub plus : Fraction → Fraction → Fraction
plus (a, b) (c, d) = (a * d + c * b, b * d)

abbrev pub times : ℕ → Fraction → Fraction
times n (a, b) = (n * a, b)

abbrev pub or_number : ℕ → Option Fraction → Fraction
or_number n none = (n, 1)
or_number n (some f) = f

-- The variables of `_parse_amount`.
pub record Reading : Type 0 where
  pub total : Fraction
  pub section : Fraction
  pub pending : Option Fraction
  pub previous_small : ℕ
  pub previous_large : ℕ
  pub has_section : Bool

abbrev pub reading_start : Reading
reading_start = record {
  total = (0, 1);
  section = (0, 1);
  pending = none;
  previous_small = 10_000;
  previous_large = 10_000_000_000_000_000;
  has_section = false;
}

abbrev pub is_open : Option Fraction → Bool
is_open none = false
is_open (some f) = true

abbrev pub read_token : Token → Reading → Option Reading
read_token (small unit) r =
    if leb r.previous_small unit
    then none
    else some (record r {
      section = plus r.section (times unit (or_number 1 r.pending));
      pending = none;
      previous_small = unit;
      has_section = true;
    })
read_token (large unit) r =
    if leb r.previous_large unit || not r.has_section
    then none
    else some (record r {
      total = plus r.total (times unit (plus r.section (or_number 0 r.pending)));
      section = (0, 1);
      pending = none;
      previous_small = 10_000;
      previous_large = unit;
      has_section = false;
    })
read_token (number n d) r =
    if is_open r.pending
    then none
    else some (record r { pending = some (n, d); has_section = true })
read_token malformed r = none

abbrev pub read_rest : (Reading → Option Reading) → Option Reading → Option Reading
read_rest rest none = none
read_rest rest (some r) = rest r

unfoldable pub read_tokens : List Token → Reading → Option Reading
read_tokens [] r = some r
read_tokens (t ∷ ts) r = read_rest (read_tokens ts) (read_token t r)

-- An amount in won: whether it is negative, and its size.
abbrev pub Amount : Type 0
Amount = Bool × ℕ

abbrev pub whole : Bool → Fraction → Option Amount
whole negative (a, b) = if a % b == 0 then some (negative, a / b) else none

abbrev pub finished : Bool → Option Reading → Option Amount
finished negative none = none
finished negative (some r) = whole negative (plus (plus r.total r.section) (or_number 0 r.pending))

unfoldable pub parse_amount : Bool × List Token → Option Amount
unfolding read_tokens
parse_amount (negative, tokens) = finished negative (read_tokens tokens reading_start)

abbrev pub same_amount : Amount → Amount → Bool
same_amount (s, m) (t, n) = m == n && (m == 0 || (if s then t else not t))

-- What the regular expressions find in a text: each amount with its sign and tokens.
abbrev pub Finder : Type 0
Finder = Text → List (Bool × List Token)

abbrev pub all_amounts : List (Bool × List Token) → List (Option Amount)
all_amounts [] = []
all_amounts (a ∷ rest) = parse_amount a ∷ all_amounts rest

abbrev pub stated_amounts : List (Option Amount) → List Amount
stated_amounts [] = []
stated_amounts (none ∷ rest) = stated_amounts rest
stated_amounts (some a ∷ rest) = a ∷ stated_amounts rest

abbrev pub is_allowed : List Amount → Option Amount → Bool
is_allowed allowed none = false
is_allowed allowed (some a) = any (same_amount a) allowed
