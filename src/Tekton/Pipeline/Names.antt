-- ===== src/Tekton/Pipeline/Names.antt =====
-- The tasks of a submitted pipeline: their names, their order, and their steps in the job.
use stage.Prelude.{
  ℕ, ◌+◌, ◌≤◌, ◌<◌, List, [], ◌∷◌, Option, none, some, ◌≡◌, ◌≢◌, refl, ap, arith, inl, inr,
  Option-cases, map, length, Text, text_eq_iff, codes,
}
use stage.Config.Stages.{PipelineStage}
use stage.Tekton.Pipeline.{
  Task, stage_task_name, stage_task, tasks_from, build_pipeline_spec, stage_names,
  pipeline_task_names, stage_index, built_in_index, step_index, push_step_index,
}

abbrev pub after : Option Text → List Text
after none = []
after (some name) = name ∷ []

-- Each task runs after exactly the task before it, and the first after none.
abbrev pub IsChain : Option Text → List Task → Type 0
IsChain previous [] = Unit
IsChain previous (t ∷ ts) = (t.run_after ≡ after previous) × IsChain (some t.name) ts

tasks_from_lem :
    (default_image previous : Text) (index : ℕ) (stages : List PipelineStage)
    → (map (λ (t : Task). t.name) (tasks_from default_image previous index stages)
        ≡ stage_names index stages)
      × IsChain (some previous) (tasks_from default_image previous index stages)
unfolding tasks_from stage_names stage_task
tasks_from_lem default_image previous index [] = (refl, (refl, (refl, tt)))
tasks_from_lem default_image previous index (s ∷ stages) =
    let (names, chain) =
      tasks_from_lem default_image (stage_task_name index s.name) (index + 1) stages in
    (ap (λ (ns : List Text). stage_task_name index s.name ∷ ns) names, (refl, chain))

-- The submitted pipeline has exactly the declared tasks, in the declared order, and each of them runs after
-- exactly the one before it, the first after none.
pub build_pipeline_spec_lem :
    (stages : List PipelineStage) (default_image : Text)
    → (map (λ (t : Task). t.name) (build_pipeline_spec stages default_image)
        ≡ pipeline_task_names stages)
      × IsChain none (build_pipeline_spec stages default_image)
unfolding build_pipeline_spec pipeline_task_names
build_pipeline_spec_lem stages default_image =
    let (names, chain) = tasks_from_lem default_image (codes "dependency-scan") 1 stages in
    (
      ap (λ (ns : List Text). codes "clone" ∷ codes "secret-scan" ∷ codes "dependency-scan" ∷ ns)
          names,
      (refl, (refl, (refl, chain))),
    )

stage_index-bounds :
    (offset : ℕ) (stages : List PipelineStage) (name : Text) (i : ℕ)
    → stage_index offset stages name ≡ some i
    → (3 + offset ≤ i) × (i < 3 + offset + length stages)
unfolding stage_index
stage_index-bounds offset [] name i h = absurd (ground arith)
stage_index-bounds offset (s ∷ stages) name i h =
    ground (arith, stage_index-bounds (offset + 1) stages name i)

stage_index-injective :
    (offset : ℕ) (stages : List PipelineStage) (a b : Text) (i : ℕ)
    → stage_index offset stages a ≡ some i
    → stage_index offset stages b ≡ some i
    → a ≡ b
unfolding stage_index
stage_index-injective offset [] a b i h k = absurd (ground arith)
stage_index-injective offset (s ∷ stages) a b i h k = ground (
  arith,
  stage_index-injective (offset + 1) stages a b i,
  stage_index-bounds (offset + 1) stages a i,
  stage_index-bounds (offset + 1) stages b i,
  text_eq_iff (stage_task_name offset s.name) a,
  text_eq_iff (stage_task_name offset s.name) b,
)

built_in_index-injective :
    (count : ℕ) (a b : Text) (i : ℕ)
    → built_in_index count a ≡ some i
    → built_in_index count b ≡ some i
    → a ≡ b
unfolding built_in_index
built_in_index-injective count a b i h k = ground (
  arith,
  text_eq_iff a (codes "clone"),
  text_eq_iff a (codes "secret-scan"),
  text_eq_iff a (codes "dependency-scan"),
  text_eq_iff a (codes "build"),
  text_eq_iff a (codes "scan"),
  text_eq_iff b (codes "clone"),
  text_eq_iff b (codes "secret-scan"),
  text_eq_iff b (codes "dependency-scan"),
  text_eq_iff b (codes "build"),
  text_eq_iff b (codes "scan"),
)

-- A stage and a built-in task are never at one step.
apart :
    (stages : List PipelineStage) (a b : Text) (i : ℕ)
    → stage_index 1 stages a ≡ some i
    → built_in_index (length stages) b ≡ some i
    → ⊥
unfolding built_in_index
apart stages a b i h k = ground (arith, stage_index-bounds 1 stages a i h)

-- No two names have one step.
pub step_index-injective :
    (stages : List PipelineStage) (a b : Text) (i : ℕ)
    → step_index stages a ≡ some i
    → step_index stages b ≡ some i
    → a ≡ b
unfolding step_index
step_index-injective stages a b i h k = ground (
  arith,
  stage_index-injective 1 stages a b i,
  built_in_index-injective (length stages) a b i,
  apart stages a b i,
  apart stages b a i,
)

-- Where the dictionary sends a name.
pub step_index-bounds :
    (stages : List PipelineStage) (name : Text) (i : ℕ)
    → step_index stages name ≡ some i
    → (1 ≤ i) × (i ≤ 6 + length stages) × (i ≢ push_step_index stages)
unfolding step_index built_in_index push_step_index
step_index-bounds stages name i h = elim (Option-cases (stage_index 1 stages name)) [
  | inl e ↦ ground (arith)
  | inr (j, e) ↦ ground (arith, stage_index-bounds 1 stages name j e)
]

-- Only the clone has the first step.
pub step_index-first :
    (stages : List PipelineStage) (name : Text)
    → step_index stages name ≡ some 1
    → name ≡ codes "clone"
unfolding step_index built_in_index
step_index-first stages name h = elim (Option-cases (stage_index 1 stages name)) [
  | inl e ↦ ground (arith, text_eq_iff name (codes "clone"))
  | inr (j, e) ↦ absurd (ground (arith, stage_index-bounds 1 stages name j e))
]

-- The clone has a step.
pub step_index-clone :
    (stages : List PipelineStage) → (i : ℕ) × (step_index stages (codes "clone") ≡ some i)
unfolding step_index built_in_index stage.Prelude.text_eq
step_index-clone stages = elim (Option-cases (stage_index 1 stages (codes "clone"))) [
  | inl e ↦ (1, rw e refl)
  | inr (j, e) ↦ (j, rw e refl)
]
