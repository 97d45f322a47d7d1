-- ===== src/Tekton/Pipeline.antt =====
-- runners/tekton.py up to the calls of kubectl: the names and the indices of a pipeline's tasks, the pipeline
-- that a deploy submits, and the warning about a registry that its build cannot reach.
pub mod Names
use stage.Prelude.{
  ℕ, ◌+◌, String, List, [], ◌∷◌, ◌++◌, Option, none, some, Bool, true, false, not, ◌&&◌, ◌||◌, ◌==◌,
  str_eq, if◌then◌else◌, find, map, length, take, reverse, Text, text_eq, codes, str, or_text, dash,
  is_space, is_lower, is_digit, lower, lstrip, strip, sub_runs,
}
use stage.Config.Stages.{PipelineStage}

abbrev pub is_label_char : ℕ → Bool
is_label_char c = is_lower c || (is_digit c || dash c)

-- s.rstrip("-")
unfoldable pub rstrip_dashes : Text → Text
unfolding lstrip
rstrip_dashes s = reverse (lstrip dash (reverse s))

unfoldable pub stage_task_name : ℕ → Text → Text
unfolding lower strip sub_runs is_space is_lower is_digit rstrip_dashes str
stage_task_name index stage_name =
    let slug = strip dash (sub_runs is_label_char (lower (strip is_space stage_name))) in
    or_text (rstrip_dashes (take 57 (codes "stage-" ++ str index ++ codes "-" ++ slug)))
      (codes "stage-" ++ str index)

-- The parameters of a task, its script (of a tenant's stage only) and the tasks that it waits for.
pub record Script : Type 0 where
  pub stage_name : Text
  pub image : Text
  pub script : Text

pub record Task : Type 0 where
  pub name : Text
  pub task_ref : Option Text
  pub task_spec : Option Script
  pub run_after : List Text
  pub params : List (Text × Text)
  pub workspaces : List (Text × Text)

abbrev pub source : List (Text × Text)
source = (codes "source", codes "source") ∷ []

-- `_stage_task`, with the `runAfter` that the caller sets.
unfoldable pub stage_task : Text → ℕ → PipelineStage → Text → Task
unfolding stage_task_name
stage_task previous index stage default_image = record {
  name = stage_task_name index stage.name;
  task_ref = none;
  task_spec = some (record {
    stage_name = take 253 stage.name;
    image = or_text stage.image default_image;
    script = codes "#!/bin/sh\nset -eu\n" ++ stage.run;
  });
  run_after = previous ∷ [];
  params = [];
  workspaces = source;
}

abbrev pub built_in : Text → List Text → List (Text × Text) → List (Text × Text) → Task
built_in name run_after params workspaces = record {
  name = name;
  task_ref = some name;
  task_spec = none;
  run_after = run_after;
  params = params;
  workspaces = workspaces;
}

abbrev pub image_params : List (Text × Text)
image_params =
    (codes "image", codes "$(params.image)")
    ∷ (codes "registry-insecure", codes "$(params.registry-insecure)")
    ∷ []

-- The loop over the stages and what is appended after it; `previous` is the task before.
unfoldable pub tasks_from : Text → Text → ℕ → List PipelineStage → List Task
unfolding stage_task
tasks_from default_image previous index [] =
    built_in (codes "build") (previous ∷ []) image_params
      (source ++ (codes "docker-credentials", codes "docker-credentials") ∷ [])
    ∷ built_in (codes "scan") (codes "build" ∷ []) image_params source
    ∷ []
tasks_from default_image previous index (stage ∷ stages) =
    stage_task previous index stage default_image
    ∷ tasks_from default_image (stage_task_name index stage.name) (index + 1) stages

-- The tasks of `build_pipeline_spec`.
unfoldable pub build_pipeline_spec : List PipelineStage → Text → List Task
unfolding tasks_from
build_pipeline_spec stages default_image =
    built_in (codes "clone") []
      ((codes "repo-url", codes "$(params.repo-url)")
        ∷ (codes "revision", codes "$(params.revision)")
        ∷ (codes "dockerfile-b64", codes "$(params.dockerfile-b64)")
        ∷ [])
      source
    ∷ built_in (codes "secret-scan") (codes "clone" ∷ []) [] source
    ∷ built_in (codes "dependency-scan") (codes "secret-scan" ∷ []) [] source
    ∷ tasks_from default_image (codes "dependency-scan") 1 stages

unfoldable pub stage_names : ℕ → List PipelineStage → List Text
unfolding stage_task_name
stage_names index [] = codes "build" ∷ codes "scan" ∷ []
stage_names index (stage ∷ stages) =
    stage_task_name index stage.name ∷ stage_names (index + 1) stages

unfoldable pub pipeline_task_names : List PipelineStage → List Text
unfolding stage_names
pipeline_task_names stages =
    codes "clone" ∷ codes "secret-scan" ∷ codes "dependency-scan" ∷ stage_names 1 stages

abbrev pub or_found {ℓ} : {A : Type ℓ} → Option A → Option A → Option A
or_found none b = b
or_found (some a) b = some a

-- The entries of the stages in `step_indices`, a dictionary: the last assignment to a key is read.
unfoldable pub stage_index : ℕ → List PipelineStage → Text → Option ℕ
unfolding stage_task_name
stage_index offset [] name = none
stage_index offset (stage ∷ stages) name =
    or_found (stage_index (offset + 1) stages name)
      (if text_eq (stage_task_name offset stage.name) name then some (3 + offset) else none)

unfoldable pub built_in_index : ℕ → Text → Option ℕ
built_in_index count name =
    if text_eq name (codes "clone")
    then some 1
    else if text_eq name (codes "secret-scan")
    then some 2
    else if text_eq name (codes "dependency-scan")
    then some 3
    else if text_eq name (codes "build")
    then some (4 + count)
    else if text_eq name (codes "scan")
    then some (6 + count)
    else none

-- `step_indices(stages).get(name)`
unfoldable pub step_index : List PipelineStage → Text → Option ℕ
unfolding stage_index built_in_index
step_index stages name = or_found (stage_index 1 stages name) (built_in_index (length stages) name)

unfoldable pub push_step_index : List PipelineStage → ℕ
push_step_index stages = 5 + length stages

-- What `render_pipelinerun` fills in, less what is the same in every run.
pub record PipelineRun : Type 0 where
  pub name : Text
  pub namespace : Text
  pub tasks : List Task
  pub service_account : Text
  pub timeout : Text
  pub params : List (Text × Text)

-- `b64` is the base64 encoding; of an empty text `_b64` makes an empty one.
abbrev pub b64_or_empty : (Text → Text) → Text → Text
b64_or_empty b64 [] = []
b64_or_empty b64 (c ∷ s) = b64 (c ∷ s)

unfoldable pub render_pipelinerun :
    (Text → Text)
    → Text
    → Text
    → Text
    → Text
    → Text
    → Text
    → Bool
    → Text
    → List PipelineStage
    → Text
    → PipelineRun
unfolding build_pipeline_spec
render_pipelinerun b64 run_name ns repo_url revision image timeout insecure default_image stages
      dockerfile =
    record {
      name = run_name;
      namespace = ns;
      tasks = build_pipeline_spec stages default_image;
      service_account = ns ++ codes "-sa";
      timeout = timeout;
      params =
          (codes "repo-url", repo_url)
          ∷ (codes "revision", revision)
          ∷ (codes "image", image)
          ∷ (codes "registry-insecure", if insecure then codes "true" else codes "false")
          ∷ (codes "dockerfile-b64", b64_or_empty b64 dockerfile)
          ∷ [];
    }

-- An address of the `ipaddress` library.
pub record Address : Type 0 where
  pub text : Text
  pub is_loopback : Bool
  pub is_link_local : Bool
  pub is_private : Bool

-- s.split(c, 1)[0]
before : ℕ → Text → Text
before c [] = []
before c (d ∷ s) = if d == c then [] else d ∷ before c s

has_char : ℕ → Text → Bool
has_char c [] = false
has_char c (d ∷ s) = d == c || has_char c s

-- s.rsplit(c, 1)[0]
before_last : ℕ → Text → Text
unfolding has_char
before_last c [] = []
before_last c (d ∷ s) = if has_char c s then d ∷ before_last c s else if d == c then [] else d ∷ s

bracket : ℕ → Bool
bracket c = c == 91 || c == 93

unfoldable pub host_of : Text → Text
unfolding before before_last strip bracket
host_of registry = strip bracket (before_last 58 (before 47 registry))

warning_for : Text → Option Address → Text
warning_for registry none = []
warning_for registry (some address) =
    if address.is_loopback || address.is_link_local
    then codes "WARNING: the registry "
      ++ registry
      ++ codes " resolves to "
      ++ address.text
      ++ codes ", which inside a build pod means the pod itself. Set REGISTRY_INTERNAL to the "
      ++ codes "address the registry answers on from within the cluster."
    else if not address.is_private
    then []
    else codes "WARNING: the registry "
      ++ registry
      ++ codes " resolves to "
      ++ address.text
      ++ codes ", which is inside the range a tenant namespace's default-deny egress blocks. Set "
      ++ codes "REGISTRY_CIDR (for example "
      ++ address.text
      ++ codes "/32) or this build will time out on the push."

-- `resolve` is `ip_address(host)`, or else that of `gethostbyname(host)`, `none` where both fail.
unfoldable pub registry_egress_warning : (Text → Option Address) → Text → Text → Text
unfolding host_of warning_for
registry_egress_warning resolve registry [] = warning_for registry (resolve (host_of registry))
registry_egress_warning resolve registry (c ∷ cidr) = []
