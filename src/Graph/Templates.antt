-- ===== src/Graph/Templates.antt =====
-- The step templates of workers/steps.py, and `_pick_template` of core/pipeline_graph.py.
use stage.Prelude.{
  ℕ, String, List, [], ◌∷◌, Option, none, some, ◌==◌, str_eq, Text, if◌then◌else◌, codes, max,
}
use stage.Models.{JobType, JobStep, Project}

-- JOB_STEP_TEMPLATES
abbrev pub deploy_template : List Text
deploy_template =
    codes "cloning repository"
    ∷ codes "secret scan (gitleaks) + gate"
    ∷ codes "dependency scan (pip-audit) + gate"
    ∷ codes "building image"
    ∷ codes "pushing image to registry"
    ∷ codes "trivy scan + gate"
    ∷ codes "rendering + applying manifests"
    ∷ codes "waiting for rollout"
    ∷ codes "capturing live URL"
    ∷ []

abbrev pub vm_template : List Text
vm_template =
    codes "terraform init"
    ∷ codes "terraform apply"
    ∷ codes "capturing node IPs"
    ∷ codes "ansible-playbook configure"
    ∷ []

abbrev pub namespace_template : List Text
namespace_template =
    codes "rendering namespace, quota, limits and network policy"
    ∷ codes "applying to the shared cluster"
    ∷ []

abbrev pub pooled_template : List Text
pooled_template = codes "claiming a pre-warmed cluster" ∷ []

-- JOB_STEP_TEMPLATES.get(f"provision:{mode}", [])
unfoldable pub provision_template : String → List Text
provision_template mode =
    if str_eq mode "vm"
    then vm_template
    else if str_eq mode "namespace"
    then namespace_template
    else if str_eq mode "pooled"
    then pooled_template
    else []

-- _PROVISION_TEMPLATE_BY_TOTAL.get(total)
unfoldable pub template_by_total : ℕ → Option (List Text)
template_by_total total =
    if total == 4
    then some vm_template
    else if total == 2
    then some namespace_template
    else if total == 1
    then some pooled_template
    else none

-- `(project.infra_spec or {}).get("mode", "namespace") if project else "namespace"`
mode_of : Option Project → String
mode_of none = "namespace"
mode_of (some project) = elim project.infra_spec.mode [ none ↦ "namespace" | some mode ↦ mode ]

unfoldable pub max_by : (JobStep → ℕ) → List JobStep → ℕ
max_by f [] = 0
max_by f (r ∷ rs) = max (f r) (max_by f rs)

abbrev pub or_template : Option (List Text) → List Text → List Text
or_template none rest = rest
or_template (some template) rest = template

unfoldable pub pick_template : JobType → List JobStep → Option Project → List Text
unfolding provision_template template_by_total mode_of max_by
pick_template JobType.deploy rows project = deploy_template
pick_template JobType.provision [] project = provision_template (mode_of project)
pick_template JobType.provision (r ∷ rows) project =
    or_template (template_by_total (max_by (λ s. s.step_total) (r ∷ rows)))
      (provision_template (mode_of project))
pick_template _ rows project = []
