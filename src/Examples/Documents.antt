-- ===== src/Examples/Documents.antt =====
-- Graphs, scanner reports and infrastructure documents at concrete inputs.
use stage.Config.Stages.{PipelineStage}
use stage.Tekton.Pipeline.{Task, build_pipeline_spec, pipeline_task_names}
use stage.Tekton.Pipeline.Names.{IsChain, build_pipeline_spec_lem}
use stage.Prelude.{pos}
use stage.Prelude.{
  map, String, ℕ, List, [], ◌∷◌, Option, none, some, true, ok, ◌≡◌, ◌≤◌, refl, arith, codes, Text,
  All,
}
use stage.Models.{Job, JobStatus}
use stage.Graph.{nodes_of}
use stage.Graph.Slug.{slugify}
use stage.Graph.Nodes.{IsPath, nodes_of-IsPath}
use stage.Graph.Settled.{IsSettled, nodes_of-IsSettled}
use stage.Parsers.{Leak, Dependency, Vuln, named, parse_gitleaks, parse_pip_audit}
use stage.Parsers.Counts.{IsCounted, parsed-IsCounted}
use stage.Parsers.Advisories.{AreDistinct, parse_pip_audit-AreDistinct, keys}
use stage.Spec.{k8s_master, NodeSpec, InfraSpec, Network, Caps, vm, default_config, validate}
use stage.Spec.Deployable.{IsDeployable, validate_sound}
use stage.Spec.Presets.{small, nodes}
use stage.Tekton
use stage.Tekton.Steps.{pipeline_steps_lem}
use stage.Examples.Data.{provision_job, first_step, second_step, shop}

twice : slugify (codes "Building Image!") (codes "building-image" ∷ []) ≡ codes "building-image-2"
unfolding slugify
twice = refl

nodes_of-IsPath_example :
    IsPath (nodes_of provision_job (first_step ∷ second_step ∷ []) [] (some shop))
nodes_of-IsPath_example =
    nodes_of-IsPath provision_job (first_step ∷ second_step ∷ []) [] (some shop)

abbrev failed_job : Job
failed_job = record provision_job { status = JobStatus.failed; finished_at = some 95 }

nodes_of-IsSettled_example :
    All IsSettled (nodes_of failed_job (first_step ∷ second_step ∷ []) [] (some shop))
nodes_of-IsSettled_example =
    nodes_of-IsSettled failed_job refl (first_step ∷ second_step ∷ []) [] (some shop)

abbrev leak : Leak
leak = record {
  rule_id = some (codes "aws-key");
  description = none;
  file = some (codes "app.py");
  start_line = some 3;
}

abbrev vuln : Vuln
vuln = record {
  id = some (codes "PYSEC-1");
  severity = named (some (codes "HIGH"));
  fix_versions = [];
  aliases = [];
  description = none;
}

abbrev dependency : Dependency
dependency = record {
  name = some (codes "jinja2");
  version = some (codes "2.0");
  vulns = vuln ∷ vuln ∷ [];
}

no_vector : Text → ℕ
no_vector v = 0

parsed-IsCounted_example : IsCounted (parse_gitleaks (some (leak ∷ [])))
parsed-IsCounted_example =
    (parsed-IsCounted no_vector (some (leak ∷ [])) none (some (dependency ∷ []))).0

parse_pip_audit-AreDistinct_example :
    AreDistinct (keys (parse_pip_audit no_vector (some (dependency ∷ []))).findings)
parse_pip_audit-AreDistinct_example = parse_pip_audit-AreDistinct no_vector (dependency ∷ [])

abbrev condition : Tekton.Condition
condition = record {
  type = "Succeeded";
  status = some "True";
  reason = "Succeeded";
  message = none;
}

abbrev clone_run : Tekton.Run
clone_run = record {
  conditions = condition ∷ [];
  start_time = none;
  completion_time = none;
  pipeline_task = some (codes "clone");
  name = codes "deploy-run-8f2kd-clone";
}

no_time : String → Option ℕ
no_time value = none

-- The pipeline itself is still running: its second task has not started.
abbrev whole_run : Tekton.Run
whole_run = record clone_run {
  conditions = [];
  pipeline_task = none;
  name = codes "deploy-run-8f2kd";
}

pipeline_steps_lem_example :
    map
      (λ (s : Tekton.StepState). s.name)
      (Tekton.pipeline_steps no_time whole_run
        (clone_run ∷ [])
        (codes "clone" ∷ codes "build" ∷ []))
    ≡ codes "clone" ∷ codes "build" ∷ []
pipeline_steps_lem_example =
    (pipeline_steps_lem no_time whole_run (clone_run ∷ []) (codes "clone" ∷ codes "build" ∷ [])).0

abbrev caps : Caps
caps = record { max_nodes = 5; max_total_vcpu = 16; max_total_memory_mb = 32768 }

-- The address library, for the one network that the documents below name.
private_24 : Text → Option Network
private_24 cidr = some (record { version = 4; is_private = true; prefixlen = 24 })

abbrev one_master : NodeSpec
one_master = record {
  name = codes "master";
  vcpu = pos 2;
  memory_mb = pos 4096;
  disk_gb = pos 30;
  role = k8s_master;
}

abbrev document : InfraSpec
document = record {
  version = pos 1;
  project = codes "shop";
  cidr = codes "192.168.56.0/24";
  domain = codes "devops.local";
  nodes = one_master ∷ [];
  config = default_config;
  mode = vm;
  observability = "light";
}

accepted : validate private_24 caps document ≡ ok document
unfolding validate private_24
accepted = refl

validate_sound_example : IsDeployable caps document.nodes
validate_sound_example = (validate_sound private_24 caps document document accepted).1

vcpu : 12 ≤ caps.max_total_vcpu
vcpu = omega arith

abbrev small_document : InfraSpec
small_document = record document { nodes = nodes small }

abbrev stages : List PipelineStage
stages = record { name = codes "Unit tests"; run = codes "pytest"; image = [] } ∷ []

build_pipeline_spec_lem_example :
    (map (λ (t : Task). t.name) (build_pipeline_spec stages (codes "python"))
      ≡ pipeline_task_names stages)
    × IsChain none (build_pipeline_spec stages (codes "python"))
build_pipeline_spec_lem_example = build_pipeline_spec_lem stages (codes "python")
