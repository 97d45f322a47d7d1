-- ===== src/Config/Stages/Accepted.antt =====
-- What a pipeline that is accepted is: the stages that were declared, in order, none dropped.
use stage.Prelude.{
  ℕ, ◌+◌, ◌≤◌, List, [], ◌∷◌, Bool, true, false, not, ◌||◌, ◌≡◌, refl, arith, leb, ok, ensure,
  ensure_ok, bind_ok, ok_injective, sym, subst, Text, length, lower, strip, is_space,
}
use stage.Config.Stages.{
  Command, scalar, missing, command, Image, unset, not_text, image, Entry, not_mapping, entry,
  unset_stages, not_list, stages, Document, no_file, unreadable, no_mapping, mapping, bad_image,
  stage_unnamed, bad_name, duplicate_name, too_many_stages, PipelineStage, max_stages,
  max_command_length, is_stage_name, is_image, is_empty, is_seen, check_run, check_image,
  check_entry, check_entries, check_declared, load_stages,
}

-- The command and the image that a stage was declared with.
abbrev pub Runs : Command → Text → Type 0
Runs scalar run = ⊥
Runs missing run = ⊥
Runs (command text) run =
    (run ≡ strip is_space text) × (is_empty run ≡ false) × (length text ≤ max_command_length)

abbrev pub Uses : Image → Text → Type 0
Uses unset chosen = chosen ≡ []
Uses not_text chosen = ⊥
Uses (image text) chosen =
    (chosen ≡ strip is_space text) × ((is_empty chosen || is_image chosen) ≡ true)

-- A stage is the entry's, under a name that no stage before it has, whatever the case.
abbrev pub Stands : List Text → Entry → PipelineStage → Type 0
Stands seen not_mapping stage = ⊥
Stands seen (entry name run given) stage =
    (stage.name ≡ strip is_space name)
    × (is_stage_name stage.name ≡ true)
    × (is_seen (lower stage.name) seen ≡ false)
    × Runs run stage.run
    × Uses given stage.image

abbrev pub AreDeclared : List Text → List Entry → List PipelineStage → Type 0
AreDeclared seen [] [] = Unit
AreDeclared seen [] (s ∷ ss) = ⊥
AreDeclared seen (e ∷ es) [] = ⊥
AreDeclared seen (e ∷ es) (s ∷ ss) = Stands seen e s × AreDeclared (lower s.name ∷ seen) es ss

-- The entries of a document.
abbrev pub entries_of : Document → List Entry
entries_of (mapping (stages entries)) = entries
entries_of _ = []

run_lem : (name : Text) (c : Command) (run : Text) → check_run name c ≡ ok run → Runs c run
unfolding check_run
run_lem name scalar run h = absurd (ground arith)
run_lem name missing run h = absurd (ground arith)
run_lem name (command text) run h = ground arith

not-true : (b : Bool) → not b ≡ true → b ≡ false
not-true true h = absurd (ground arith)
not-true false h = refl

image_lem :
    (name : Text) (i : Image) (chosen : Text) → check_image name i ≡ ok chosen → Uses i chosen
unfolding check_image
image_lem name unset chosen h = sym (ok_injective [] chosen h)
image_lem name not_text chosen h = absurd (ground arith)
image_lem name (image text) chosen h =
    let test = is_empty (strip is_space text) || is_image (strip is_space text) in
    let (u, fits, same) = bind_ok (ensure test (bad_image name)) _ chosen h in
    let e = ok_injective (strip is_space text) chosen same in
    (sym e, rw (sym e) (ensure_ok test (bad_image name) fits))

entry_lem :
    (position : ℕ) (seen : List Text) (e : Entry) (s : PipelineStage)
    → check_entry position seen e ≡ ok s
    → Stands seen e s
unfolding check_entry
entry_lem position seen not_mapping s h = absurd (ground arith)
entry_lem position seen (entry name run given) s h =
    let n = strip is_space name in
    let (u, named, h1) = bind_ok (ensure (not (is_empty n)) (stage_unnamed position)) _ s h in
    let (v, matches, h2) = bind_ok (ensure (is_stage_name n) (bad_name n)) _ s h1 in
    let (x, fresh, h3) =
      bind_ok (ensure (not (is_seen (lower n) seen)) (duplicate_name n)) _ s h2 in
    let (checked, runs, h4) = bind_ok (check_run n run) _ s h3 in
    let (chosen, uses, h5) = bind_ok (check_image n given) _ s h4 in
    let e = ok_injective (record { name = n; run = checked; image = chosen }) s h5 in
    subst (Stands seen (entry name run given)) e (
      refl,
      ensure_ok (is_stage_name n) (bad_name n) matches,
      not-true (is_seen (lower n) seen)
          (ensure_ok (not (is_seen (lower n) seen)) (duplicate_name n) fresh),
      run_lem n run checked runs,
      image_lem n given chosen uses,
    )

entries_lem :
    (position : ℕ) (seen : List Text) (es : List Entry) (ss : List PipelineStage)
    → check_entries position seen es ≡ ok ss
    → AreDeclared seen es ss
unfolding check_entries
entries_lem position seen [] [] h = tt
entries_lem position seen [] (s ∷ ss) h = absurd (ground arith)
entries_lem position seen (e ∷ es) ss h =
    let (s, one, more) = bind_ok (check_entry position seen e) _ ss h in
    let (rest, others, last) =
      bind_ok (check_entries (position + 1) (lower s.name ∷ seen) es) _ ss more in
    subst (AreDeclared seen (e ∷ es)) (ok_injective (s ∷ rest) ss last) (
      entry_lem position seen e s one,
      entries_lem (position + 1) (lower s.name ∷ seen) es rest others,
    )

-- A pipeline file that is accepted gives exactly its declared stages: as many, in their order, at most
-- 20, each with the stripped name, command and image of its entry; the name matches the pattern and,
-- compared in lower case, no stage before it has it; the command is not empty and at most 2000
-- characters long; the image, if there is one, is an image reference.
pub load_stages_sound :
    (document : Document) (ss : List PipelineStage)
    → load_stages document ≡ ok ss
    → (length (entries_of document) ≤ max_stages) × AreDeclared [] (entries_of document) ss
unfolding load_stages check_declared
load_stages_sound no_file ss h = (omega arith, subst (AreDeclared [] []) (ok_injective [] ss h) tt)
load_stages_sound unreadable ss h = absurd (ground arith)
load_stages_sound no_mapping ss h = absurd (ground arith)
load_stages_sound (mapping unset_stages) ss h =
    (omega arith, subst (AreDeclared [] []) (ok_injective [] ss h) tt)
load_stages_sound (mapping not_list) ss h = absurd (ground arith)
load_stages_sound (mapping (stages entries)) ss h =
    let small = leb (length entries) max_stages in
    let (u, few, checked) = bind_ok (ensure small too_many_stages) _ ss h in
    let fits = ensure_ok small too_many_stages few in
    (ground arith, entries_lem 1 [] entries ss checked)
