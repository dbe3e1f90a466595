-- ===== src/Config.antt =====
-- Settings, app/config.py: the durations that `_parse_timedelta_from_str` reads, in seconds.
pub mod Duration
use shelf_back.Base.{
  ℕ, ◌+◌, ◌*◌, ◌≡◌, Bool, true, false, not, ◌&&◌, ◌||◌, Option, none, some, List, [], ◌∷◌, ◌++◌,
  ◌==◌, ltb, leb, if◌then◌else◌, is_nil,
}
use shelf_back.Base.Text.{Text, codes}
use shelf_back.Base.Exec.{Result, ok, err, value_error, overflow_error}

-- The digits that `\d` matches and `int` reads. The limit of `int` on their number is left out.
pub record Digits : Type 0 where
  pub value : ℕ → Option ℕ

-- What `str.strip` and `str.lower` do to a text
pub record Cleaning : Type 0 where
  pub strip : Text → Text
  pub lower : Text → Text

abbrev pub step : Option ℕ → ℕ → ℕ
step none d = d
step (some n) d = n * 10 + d

abbrev pub count : Option ℕ → ℕ
count none = 0
count (some n) = n

abbrev pub is_given : Option ℕ → Bool
is_given none = false
is_given (some n) = true

-- `timedelta` holds less than a thousand million days.
abbrev pub limit : ℕ
limit = 86400000000000

unfoldable pub timedelta : ℕ → Result ℕ
timedelta seconds = if ltb seconds limit then ok seconds else err overflow_error

abbrev pub total : Option ℕ → Option ℕ → Option ℕ → Option ℕ → ℕ
total days hours minutes seconds =
    count days * 86400 + count hours * 3600 + count minutes * 60 + count seconds

unfoldable pub from_groups : Option ℕ → Option ℕ → Option ℕ → Option ℕ → Text → Result ℕ
from_groups days hours minutes seconds rest =
    if not (is_nil rest)
    then err value_error
    else if not (is_given days || (is_given hours || (is_given minutes || is_given seconds)))
    then err value_error
    else timedelta (total days hours minutes seconds)

module _ (D : Digits) where
  -- `\d+` at the start of the text: the number, if there is a digit, and what follows.
  unfoldable pub read_digits : Option ℕ → Text → Option ℕ × Text
  read_digits n [] = (n, [])
  read_digits n (c ∷ s) = elim (D.value c) [
    | none ↦ (n, c ∷ s)
    | some d ↦ read_digits (some (step n d)) s
  ]

  -- A number and its unit, or nothing: `(?:(\d+)u)?`.
  abbrev pub with_unit : ℕ → Text → Option ℕ × Text → Option ℕ × Text
  with_unit u s (none, _) = (none, s)
  with_unit u s (some n, []) = (none, s)
  with_unit u s (some n, c ∷ t) = if c == u then (some n, t) else (none, s)

  unfoldable pub component : ℕ → Text → Option ℕ × Text
  component u s = with_unit u s (read_digits none s)

  -- The pattern and what is made of its groups
  unfoldable pub parse_groups : Text → Result ℕ
  parse_groups s =
      let (days, s1) = component b'd' s in
      let (hours, s2) = component b'h' s1 in
      let (minutes, s3) = component b'm' s2 in
      let (seconds, s4) = component b's' s3 in from_groups days hours minutes seconds s4

  -- `_parse_timedelta_from_str` of a text
  unfoldable pub parse_timedelta_from_str : Cleaning → Text → Result ℕ
  parse_timedelta_from_str T value = parse_groups (T.lower (T.strip value))
