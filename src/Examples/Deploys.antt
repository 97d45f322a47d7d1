-- ===== src/Examples/Deploys.antt =====
-- A deploy in the cluster and in the sandbox, and an undeploy, on a small world.
use mathlib.Core.Option
use stage.Prelude.{
  ◌+◌, String, length, ℕ, List, [], ◌∷◌, Option, none, some, Bool, true, false, ok, err, ◌≡◌, refl,
  Text, codes, pos, find,
}
use stage.Models.{Project, Deployment, Job, JobStatus}
use stage.Config.Stages.{Document, no_file}
use stage.Tekton.{Status, Condition}
use stage.Tasks.World.{World, world_of, Outcome, returned, raised, Reply}
use stage.Tasks.Tidy.{job_row, IsEnded}
use stage.Tasks.Scan.{ScanRun, report_of}
use stage.Tasks.Kubectl.{Kubeconfig, holds, Settings, Kubectl, Apply}
use stage.Tasks.TektonRun.{Outputs, wait, read, report, Reported, timeout_seconds, enough_polls}
use stage.Tasks.TektonRun.Awaited.{Final, wait_ends}
use stage.Tasks.Yields.{Given}
use stage.Tasks.Ship.{gitops_applies_to, ship}
use stage.Tasks.Ship.Secrets.{IsClean, ship-IsClean}
use stage.Tasks.Deploy.{Env, Removal, deployment_row, deploy_task, undeploy_task}
use stage.Tasks.Deploy.Undeployed.{AnyRows, undeploy_task_ends}
use stage.Examples.Data.{db, shop, web, provision_job}
use stage.Examples.Tasks.{waiting, world, queued, done, exits, purge, scanners, readers}

-- The project in the shared cluster.
abbrev cloud : Project
cloud = record shop { infra_spec = record { mode = some "namespace"; nodes = [] } }

abbrev cloud_world : World
cloud_world = record world {
  db = record db { projects = cloud ∷ []; jobs = provision_job ∷ waiting ∷ [] };
}

abbrev reached : Reply Kubeconfig
reached = record { took = 0; lines = []; answer = ok (holds (codes "/k") (codes "server")) }

abbrev kube : ℕ → Kubectl
kube code = record { kubeconfig = reached; run = exits code }

abbrev settings : Settings
settings = record { loopback = λ _. none; registry_network = codes "net" }

abbrev found : Condition
found = record { type = "Succeeded"; status = some "True"; reason = "Succeeded"; message = none }

abbrev clone_run : stage.Tekton.Run
clone_run = record {
  conditions = found ∷ [];
  start_time = some "1";
  completion_time = some "2";
  pipeline_task = some (codes "clone");
  name = codes "run-clone";
}

abbrev outputs : Outputs
outputs = record {
  run = λ _. some clone_run;
  taskruns = λ _. some (clone_run ∷ []);
  pods = λ _. none;
  claims = λ _. none;
  parse_time = λ _. some 7;
  report_in = λ _. none;
}

abbrev env : Bool → Env
env tekton = record {
  settings = settings;
  readers = record readers {
    read_trivy = λ _. report_of [];
    read_leaks = λ _. ok (some []);
    read_audit = λ _. ok (some []);
  };
  outputs = outputs;
  registry = codes "registry:5000";
  commit = codes "abc123";
  k8s_namespace = λ _. codes "p-64";
  tekton_enabled = tekton;
  scan_ids = (801, 802, 803);
}

abbrev scanned : ℕ → Reply ScanRun
scanned code = record {
  took = 5;
  lines = [];
  answer = ok (record {
    exit_code = pos code;
    stdout = codes "[]";
    timed_out = false;
    report = some (codes "[]");
  });
}

abbrev twice : ℕ → stage.Tasks.Gates.Twice
twice code = record { first = scanned code; second = scanned code }

abbrev gates : ℕ → stage.Tasks.Gates.Calls
gates code = record {
  cloned = codes "/tmp/ctl-repos/1/repo";
  exists = λ _. true;
  run_gitleaks = twice code;
  run_pip_audit = twice 0;
  run_trivy = twice 0;
}

abbrev document : Reply Document
document = record { took = 1; lines = []; answer = ok no_file }

abbrev text : Text → Reply Text
text t = record { took = 1; lines = []; answer = ok t }

abbrev flag : Bool → Reply Bool
flag b = record { took = 1; lines = []; answer = ok b }

abbrev built : ℕ → stage.Tasks.Build.Calls
built code = record {
  clone = record scanners.clone { purge_root = purge };
  gates = gates code;
  read_stages = document;
  stage_error = λ _. codes "invalid pipeline file";
  run_stage = λ _. exits 0;
  source = record { has_dockerfile = true; has_requirements = true; main_py = none; app_py = none };
  looks_like_app = λ _. false;
  write_dockerfile = done;
  read_dockerfile = text (codes "FROM python");
  docker_build = exits 0;
  docker_push = exits 0;
  registry = codes "registry:5000";
  registry_internal = [];
}

abbrev tekton : stage.Tasks.TektonRun.Calls
tekton = record {
  run_name = codes "build-web";
  kubeconfig = reached;
  apply_manifest = λ _. exits 0;
  resolve = λ _. none;
  registry = codes "registry:5000";
  registry_internal = [];
  registry_cidr = [];
  registry_insecure = false;
  default_stage_image = codes "python";
  timeout = codes "30m";
  b64 = λ t. t;
  get_run = λ _. kube 0;
  get_taskruns = λ _. kube 0;
  get_pods = kube 1;
  logs = λ _. kube 0;
  delete_pods = kube 0;
  get_claims = kube 1;
  delete_claim = λ _. kube 0;
}

abbrev applying : Apply
applying = record {
  kubeconfig = reached;
  get_namespace = exits 1;
  create_namespace = kube 0;
  apply = λ _. exits 0;
}

abbrev shipping : stage.Tasks.Ship.Calls
shipping = record {
  out_dir = codes "/ws/64/manifests";
  has_secret_keys = true;
  load_secrets = flag true;
  render = λ _. done;
  gitops_enabled = false;
  apply_secrets = applying;
  publish_manifests = text (codes "0123456789abcdef");
  write_objects = done;
  apply_objects = applying;
  apply_manifests = applying;
  rollout_status = kube 0;
  rollout_undo = kube 0;
  cluster_domain = codes "apps.local";
  gitops_branch = codes "main";
}

abbrev failing : stage.Tasks.Ship.Calls
failing = record shipping { apply_manifests = record applying { apply = λ _. exits 1 } }

abbrev calls : ℕ → stage.Tasks.Deploy.Calls
calls code = record { build = built code; tekton = tekton; ship = shipping }

runs_or_none : Option (List stage.Tekton.Run) → List stage.Tekton.Run
runs_or_none none = []
runs_or_none (some runs) = runs

abbrev removal : Removal
removal = record {
  gitops_enabled = false;
  delete_application = kube 0;
  delete_deployment = kube 1;
  delete_service = kube 1;
  delete_ingress = kube 1;
}

-- An undeploy of which no call succeeds: the job is a success.
undeploy_task_ends_example :
    (w' : World) × (undeploy_task settings removal 2000 100 world ≡ returned tt w')
    × IsEnded 2000 JobStatus.succeeded AnyRows w'
unfolding find gitops_applies_to
undeploy_task_ends_example = undeploy_task_ends settings removal 2000 100 world queued

-- A shipping whose call of the cluster fails removes the secret all the same.
ship-IsClean_example :
    IsClean shipping.out_dir
      (world_of (ship settings failing 2000 (codes "p-64") cloud web (codes "web:2") cloud_world))
unfolding stage.Prelude.any
ship-IsClean_example =
    ship-IsClean settings failing 2000 (codes "p-64") cloud web (codes "web:2") cloud_world
      (λ name. refl) refl

wait_ends_example :
    Given Final
      (λ w'. Unit)
      (wait tekton.run_name
        (read settings outputs tekton (codes "clone" ∷ []))
        (report 2000 [] 9)
        (world.now + timeout_seconds)
        enough_polls
        0
        (record { seen = []; announced = [] })
        world)
wait_ends_example =
    wait_ends settings outputs tekton 2000 [] (codes "clone" ∷ []) 9
      (record { seen = []; announced = [] }) world

-- The status of the job and of the deployment, and how many files are left.
outcome : Outcome (Unit {0}) → Option JobStatus × Option String × ℕ
unfolding find
outcome (returned a w) = (
  Option.map (λ (j : Job). j.status) (job_row 2000 w),
  Option.map (λ (d : Deployment). d.status) (deployment_row 500 w),
  length w.files,
)
outcome (raised e w) = (none, none, 0)

-- In the cluster the service is live, and the secret's manifest is gone.
deploys :
    outcome (deploy_task (env true) (calls 0) 2000 500 100 cloud_world)
    ≡ (some JobStatus.succeeded, some "live", 4)
unfolding outcome deploy_task find stage.Tasks.World.◌>>=◌ stage.Tasks.World.pure
    stage.Tasks.World.modify stage.Prelude.update_where stage.Tasks.World.get
    stage.Tasks.World.raise
deploys = refl

-- So it is from the sandbox.
deploys_by_sandbox :
    outcome (deploy_task (env false) (calls 0) 2000 500 100 cloud_world)
    ≡ (some JobStatus.succeeded, some "live", 4)
unfolding outcome deploy_task find stage.Tasks.World.◌>>=◌ stage.Tasks.World.pure
    stage.Tasks.World.modify stage.Prelude.update_where stage.Tasks.World.get
    stage.Tasks.World.raise stage.Access.can_access stage.Access.guard stage.Access.require_role
deploys_by_sandbox = refl

-- A secret scanner that crashes twice blocks it.
blocks :
    outcome (deploy_task (env false) (calls 2) 2000 500 100 cloud_world)
    ≡ (some JobStatus.failed, some "blocked", 0)
unfolding outcome deploy_task find stage.Tasks.World.◌>>=◌ stage.Tasks.World.pure
    stage.Tasks.World.modify stage.Prelude.update_where stage.Tasks.World.get
    stage.Tasks.World.raise
blocks = refl
