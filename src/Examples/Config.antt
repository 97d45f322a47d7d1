-- ===== src/Examples/Config.antt =====
-- Environment variables, secrets and pipeline files.
use stage.Prelude.{
  ℕ, ◌≤◌, List, [], ◌∷◌, ◌++◌, Option, none, some, Bool, true, false, ok, err, ◌≡◌, ◌≢◌, refl,
  arith, inr, Text, codes, length,
}
use stage.Config.Environment.{Item, Dict, ConfigError, clash, accept, validate_env, reserved, is_in}
use stage.Config.Environment.Accepted.{given, accept_iff, newline_name_accepted}
use stage.Config.Environment.Secrets.{Store}
use stage.Config.Stages.{
  Document, PipelineStage, command, image, unset, entry, stages, mapping, load_stages, is_image,
  max_stages,
}
use stage.Config.Stages.Accepted.{AreDeclared, entries_of, load_stages_sound}

abbrev level : Text × Text
level = (codes "LOG_LEVEL", codes "debug")

abbrev token : Text × Text
token = (codes "_token2", codes "s3cret")

accept_iff_example : accept (given level ∷ []) (given token ∷ []) ≡ ok (level ∷ [], token ∷ [])
unfolding stage.Config.Environment.is_name stage.Config.Environment.has_null is_in
    stage.Config.Environment.is_identifier stage.Config.Environment.starts_name
    stage.Config.Environment.before_newline stage.Prelude.any stage.Prelude.all
    stage.Prelude.text_eq stage.Prelude.is_lower stage.Prelude.is_upper stage.Prelude.is_digit
accept_iff_example =
    (accept_iff (given level ∷ []) (given token ∷ []) (level ∷ []) (token ∷ [])).1 (
      (omega arith, refl, ((refl, refl, omega arith, refl), tt)),
      (omega arith, refl, ((refl, refl, omega arith, refl), tt)),
      (refl, tt),
    )

both : accept (given level ∷ []) (given level ∷ []) ≡ err (clash (level.0 ∷ []))
unfolding accept
both = refl

port_known : is_in (codes "PORT") reserved ≡ true
unfolding is_in stage.Prelude.any stage.Prelude.text_eq
port_known = refl

newline_name_accepted_example :
    validate_env (given (codes "PORT" ++ 10 ∷ [], codes "80") ∷ [])
    ≡ ok ((codes "PORT" ++ 10 ∷ [], codes "80") ∷ [])
unfolding stage.Config.Environment.has_null stage.Prelude.any
newline_name_accepted_example =
    newline_name_accepted (codes "PORT") (codes "80") port_known (omega arith) refl

-- A printer and a reader for one dictionary.
dumps : Dict → Text
dumps d = codes "{}"

loads : Text → Option Dict
loads [] = none
loads (c ∷ s) = some (token ∷ [])

abbrev nothing : Store
nothing team key = none

abbrev file : Document
file = mapping (
    stages (
      entry (codes " Unit tests ") (command (codes "pytest -q")) (image (codes "python:3.11-slim"))
      ∷ entry (codes "lint") (command (codes "ruff check . ")) unset
      ∷ []))

abbrev both_stages : List PipelineStage
both_stages =
    record { name = codes "Unit tests"; run = codes "pytest -q"; image = codes "python:3.11-slim" }
    ∷ record { name = codes "lint"; run = codes "ruff check ."; image = [] }
    ∷ []

loaded : load_stages file ≡ ok both_stages
unfolding load_stages
loaded = refl

load_stages_sound_example :
    (length (entries_of file) ≤ max_stages) × AreDeclared [] (entries_of file) both_stages
load_stages_sound_example = load_stages_sound file both_stages loaded

digest_only : is_image (codes "a@sha256:12") ≡ false
unfolding is_image
digest_only = refl
