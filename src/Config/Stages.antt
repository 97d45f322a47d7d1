-- ===== src/Config/Stages.antt =====
-- core/pipeline_config.py: the stages that a repository declares. `yaml.safe_load` and the look-ups with
-- `get` give the document below.
pub mod Accepted
use stage.Prelude.{
  ℕ, ◌+◌, List, [], ◌∷◌, ◌++◌, Option, none, some, Bool, true, false, not, ◌&&◌, ◌||◌, ◌==◌, leb,
  any, all, Result, ok, err, ◌>>=◌, ◌>>◌, ensure, if◌then◌else◌, Text, text_eq, codes, length,
  is_lower, is_upper, is_digit, is_space, lower, strip, take, drop,
}

-- `run`: a bool or a number, nothing that is a string, or a string.
pub data Command : Type 0 where
  scalar missing : Command
  command : Text → Command

pub data Image : Type 0 where
  unset not_text : Image
  image : Text → Image

-- An entry of `stages`; its name is `str(entry.get("name") or "")`.
pub data Entry : Type 0 where
  not_mapping : Entry
  entry : (name : Text) (run : Command) (image : Image) → Entry

-- `unset_stages` is a missing key, None or an empty list.
pub data Declared : Type 0 where
  unset_stages not_list : Declared
  stages : List Entry → Declared

pub data Document : Type 0 where
  no_file unreadable no_mapping : Document
  mapping : Declared → Document

-- InvalidPipelineConfig, by the check that raises it, with the position or the name that it reports.
pub data InvalidPipelineConfig : Type 0 where
  unreadable_file not_a_mapping not_a_list too_many_stages : InvalidPipelineConfig
  stage_not_mapping stage_unnamed : (position : ℕ) → InvalidPipelineConfig
  bad_name duplicate_name non_string_run missing_run : (name : Text) → InvalidPipelineConfig
  long_command non_string_image bad_image : (name : Text) → InvalidPipelineConfig

pub record PipelineStage : Type 0 where
  pub name : Text
  pub run : Text
  pub image : Text

abbrev pub max_stages : ℕ
max_stages = 20

abbrev pub max_command_length : ℕ
max_command_length = 2000

unfoldable pub is_word : ℕ → Bool
unfolding is_lower is_upper is_digit
is_word c = is_lower c || is_upper c || is_digit c

unfoldable pub one_of : Text → ℕ → Bool
unfolding any
one_of cs c = any (λ d. d == c) cs

-- ^[A-Za-z0-9 ._:+/()-]{1,60}$, on a text that strip() has left without a newline at its end
unfoldable pub is_stage_name : Text → Bool
unfolding is_word one_of all
is_stage_name s =
    all (λ c. is_word c || one_of (codes " ._:+/()-") c) s
    && (leb 1 (length s) && leb (length s) 60)

-- The longest start of a text in a class, and what follows it.
unfoldable pub span : (ℕ → Bool) → Text → Text × Text
span p [] = ([], [])
span p (c ∷ s) = let rest = span p s in if p c then (c ∷ rest.0, rest.1) else ([], c ∷ s)

-- (@sha256:[a-f0-9]{64})?$
unfoldable pub is_digest : Text → Bool
unfolding is_digit text_eq all
is_digest [] = true
is_digest (c ∷ s) =
    text_eq (take 8 (c ∷ s)) (codes "@sha256:")
    && (length (drop 8 (c ∷ s)) == 64
        && all (λ d. is_digit d || leb 97 d && leb d 102) (drop 8 (c ∷ s)))

-- (:[A-Za-z0-9._-]{1,128})? and the digest
unfoldable pub is_tagged : Text → Bool
unfolding is_word one_of span is_digest
is_tagged [] = true
is_tagged (c ∷ s) =
    let (tag, rest) = span (λ d. is_word d || one_of (codes "._-") d) s in
    if c == 58
    then leb 1 (length tag) && (leb (length tag) 128 && is_digest rest)
    else is_digest (c ∷ s)

-- ^[A-Za-z0-9][A-Za-z0-9._/-]{0,180}, the tag and the digest: no class has the `:` or the `@` at which the
-- next part begins.
unfoldable pub is_image : Text → Bool
unfolding is_word one_of span is_tagged
is_image [] = false
is_image (c ∷ s) =
    let (base, rest) = span (λ d. is_word d || one_of (codes "._/-") d) s in
    is_word c && (leb (length base) 180 && is_tagged rest)

abbrev pub is_empty : Text → Bool
is_empty [] = true
is_empty (c ∷ s) = false

unfoldable pub is_seen : Text → List Text → Bool
unfolding text_eq any
is_seen name seen = any (text_eq name) seen

unfoldable pub check_run : Text → Command → Result InvalidPipelineConfig Text
unfolding strip is_space
check_run name scalar = err (non_string_run name)
check_run name missing = err (missing_run name)
check_run name (command text) = do
  ensure (not (is_empty (strip is_space text))) (missing_run name)
  ensure (leb (length text) max_command_length) (long_command name)
  ok (strip is_space text)

unfoldable pub check_image : Text → Image → Result InvalidPipelineConfig Text
unfolding strip is_space is_image
check_image name unset = ok []
check_image name not_text = err (non_string_image name)
check_image name (image text) = do
  ensure (is_empty (strip is_space text) || is_image (strip is_space text)) (bad_image name)
  ok (strip is_space text)

unfoldable pub check_entry : ℕ → List Text → Entry → Result InvalidPipelineConfig PipelineStage
unfolding strip is_space is_stage_name is_seen lower check_run check_image
check_entry position seen not_mapping = err (stage_not_mapping position)
check_entry position seen (entry text run given) = do
  let name = strip is_space text
  ensure (not (is_empty name)) (stage_unnamed position)
  ensure (is_stage_name name) (bad_name name)
  ensure (not (is_seen (lower name) seen)) (duplicate_name name)
  checked ← check_run name run
  chosen ← check_image name given
  ok (record { name = name; run = checked; image = chosen })

unfoldable pub check_entries :
    ℕ → List Text → List Entry → Result InvalidPipelineConfig (List PipelineStage)
unfolding check_entry lower
check_entries position seen [] = ok []
check_entries position seen (e ∷ entries) = do
  stage ← check_entry position seen e
  rest ← check_entries (position + 1) (lower stage.name ∷ seen) entries
  ok (stage ∷ rest)

unfoldable pub check_declared : Declared → Result InvalidPipelineConfig (List PipelineStage)
unfolding check_entries
check_declared unset_stages = ok []
check_declared not_list = err not_a_list
check_declared (stages entries) = do
  ensure (leb (length entries) max_stages) too_many_stages
  check_entries 1 [] entries

unfoldable pub load_stages : Document → Result InvalidPipelineConfig (List PipelineStage)
unfolding check_declared
load_stages no_file = ok []
load_stages unreadable = err unreadable_file
load_stages no_mapping = err not_a_mapping
load_stages (mapping declared) = check_declared declared
