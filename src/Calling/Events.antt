-- ===== src/Calling/Events.antt =====
-- `Event.Header` of server/internal/integrations/freeswitch (model.go, events.go): the headers of an
-- event, and behind them the lines of its body.
use monogo.Base.{
  ℕ, Bool, List, [], ◌∷◌, Option, none, some, String, Text, codes, is_empty, text_eq, ◌==◌,
  if◌then◌else◌,
}

-- What the code uses of `uuid.Parse`, `url.PathUnescape`, `strings.ToUpper` and `strings.EqualFold`.
pub record Packages : Type 0 where
  pub parse_uuid : Text → Option ℕ
  pub path_unescape : Text → Option Text
  pub to_upper : Text → Text
  pub equal_fold : Text → Text → Bool

-- A header that is missing is empty.
pub record Event : Type 0 where
  pub name : Text
  pub headers : Text → Text
  pub body : Text

-- Lines of a body, of which there is one at least.
abbrev push_line : ℕ → List Text → List Text
push_line c [] = (c ∷ []) ∷ []
push_line c (l ∷ ls) = (c ∷ l) ∷ ls

unfoldable lines : Text → List Text
lines [] = [] ∷ []
lines (c ∷ s) = let rest = lines s in if c == 10 then [] ∷ rest else push_line c rest

abbrev push_kept : ℕ → Text → Text
push_kept c [] = if c == 13 then [] else c ∷ []
push_kept c (d ∷ s) = c ∷ d ∷ s

-- `strings.TrimRight(line, "\r")`.
unfoldable trim_returns : Text → Text
trim_returns [] = []
trim_returns (c ∷ s) = push_kept c (trim_returns s)

abbrev after_space : Text → Option Text
after_space [] = none
after_space (c ∷ s) = if c == 32 then some s else none

abbrev put_before : ℕ → Option (Text × Text) → Option (Text × Text)
put_before c none = none
put_before c (some (key, value)) = some (c ∷ key, value)

abbrev cut_or : Option Text → Option (Text × Text) → Option (Text × Text)
cut_or none later = later
cut_or (some value) later = some ([], value)

-- `strings.Cut(line, ": ")`.
unfoldable cut_header : Text → Option (Text × Text)
cut_header [] = none
cut_header (c ∷ s) =
    let later = put_before c (cut_header s) in
    if c == 58 then cut_or (after_space s) later else later

abbrev or_text : Option Text → Text → Text
or_text none t = t
or_text (some t) s = t

module _ (p : Packages) where
  abbrev matched : Text → Option (Text × Text) → Text → Text
  matched name none rest = rest
  matched name (some (key, value)) rest =
      if text_eq key name then or_text (p.path_unescape value) value else rest

  unfoldable header_of_lines : Text → List Text → Text
  unfolding trim_returns cut_header
  header_of_lines name [] = []
  header_of_lines name (l ∷ ls) =
      matched name (cut_header (trim_returns l)) (header_of_lines name ls)

  unfoldable pub plain_event_header : Text → Text → Text
  unfolding lines header_of_lines
  plain_event_header body name = header_of_lines name (lines body)

  -- `Event.Header`.
  unfoldable pub header : Event → String → Text
  unfolding plain_event_header
  header e name =
      if is_empty (e.headers (codes name))
      then plain_event_header e.body (codes name)
      else e.headers (codes name)
