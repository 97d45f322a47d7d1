-- ===== src/Workers/Redaction.antt =====
-- core/redaction.py. The regular expressions are those of `re`: each is a test on a line, and the
-- substitution of the colour codes is a function on lines.
use stage.Prelude.{
  List, [], ◌∷◌, Bool, true, false, not, ◌&&◌, ◌||◌, ◌==◌, if◌then◌else◌, ◌≡◌, arith, any, Text,
}
use stage.Prelude.{lower, codes}

-- `_SECRET_PATTERNS` and `_HEURISTIC_PATTERNS` under `pattern.search`, and `_ANSI_RE.sub("", line)`.
pub record Patterns : Type 0 where
  pub secret : List (Text → Bool)
  pub heuristic : List (Text → Bool)
  pub strip_ansi : Text → Text

abbrev pub redacted : Text
redacted = codes "[REDACTED]"

abbrev ok_substrings : List Text
ok_substrings = codes "password_hash" ∷ codes "hashed_password" ∷ codes "example.com" ∷ []

unfoldable pub starts_with : Text → Text → Bool
starts_with [] s = true
starts_with (c ∷ p) [] = false
starts_with (c ∷ p) (d ∷ s) = c == d && starts_with p s

-- `sub in s`
unfoldable pub occurs : Text → Text → Bool
unfolding starts_with
occurs p [] = starts_with p []
occurs p (c ∷ s) = starts_with p (c ∷ s) || occurs p s

unfoldable pub looks_safe : Text → Bool
unfolding occurs any lower
looks_safe line = any (λ sub. occurs sub (lower line)) ok_substrings

unfoldable pub scrub_line : Patterns → Text → Text
scrub_line patterns raw =
    let line = patterns.strip_ansi raw in
    if any (λ p. p line) patterns.secret
    then redacted
    else if looks_safe line
    then line
    else if any (λ p. p line) patterns.heuristic
    then redacted
    else line

-- A line is written to the log as it stands (its colour codes stripped) or as the marker, never
-- otherwise: as the marker where a high-confidence pattern fits it, whatever the allow-list says, and
-- where a heuristic one fits it and the allow-list does not; as it stands in all other cases.
pub scrub_line_lem :
    (patterns : Patterns) (raw : Text)
    → let line = patterns.strip_ansi raw in
      let secret = any (λ p. p line) patterns.secret in
      let heuristic = any (λ p. p line) patterns.heuristic in
      scrub_line patterns raw
      ≡ (if secret || heuristic && not (looks_safe line) then redacted else line)
unfolding scrub_line
scrub_line_lem patterns raw = ground arith
