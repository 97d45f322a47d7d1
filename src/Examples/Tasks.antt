-- ===== src/Examples/Tasks.antt =====
-- The tasks on a small world, with calls that answer well and calls that do not.
use mathlib.Core.Option
use stage.Prelude.{
  ℕ, ◌+◌, List, [], ◌∷◌, Option, none, some, true, false, ok, err, ◌≡◌, refl, Text, codes, pos,
  find, leb, if◌then◌else◌, Bool,
}
use stage.Models.{Project, ProjectStatus, Job, JobStatus}
use stage.Workers.Redaction.{Patterns}
use stage.Spec.{k8s_master, NodeSpec, InfraSpec, vm, default_config}
use stage.Tasks.World.{World, Outcome, returned, raised, Reply}
use stage.Tasks.Calls.{RunResult, project_row}
use stage.Tasks.Tidy.{job_row, IsQueued}
use stage.Tasks.Limit.{run_task, is_in_time}
use stage.Tasks.Provision.{Env}
use stage.Tasks.ProvisionTask.{provision_task}
use stage.Tasks.ProvisionEnds.{IsProvisioned, provision_task_ends}
use stage.Tasks.Destroy.{Workspace, destroy_task}
use stage.Tasks.DestroyEnds.{IsDestroyed, destroy_task_ends}
use stage.Tasks.Clone.{Purge}
use stage.Tasks.Scan.{ScanRun, no_report, Readers, scan_task}
use stage.Tasks.ScanEnds.{IsScanned, scan_task_ends}
use stage.Examples.Data.{db, provision_job}

abbrev pub patterns : Patterns
patterns = record { strip_ansi = λ s. s; secret = []; heuristic = [] }

abbrev pub waiting : Job
waiting = record provision_job { id = 2000; status = JobStatus.queued; started_at = none }

abbrev pub world : World
world = record {
  now = 100;
  patterns = patterns;
  db = record db { jobs = provision_job ∷ waiting ∷ [] };
  steps = [];
  nodes = [];
  pool = record { clusters = []; held = [] };
  findings = [];
  files = [];
}

pub queued : IsQueued 2000 world
unfolding find
queued = (waiting, refl, refl, refl)

abbrev pub done : Reply (Unit {0})
done = record { took = 1; lines = codes "ok" ∷ []; answer = ok tt }

abbrev pub lost : Reply (Unit {0})
lost = record { took = 60; lines = []; answer = err (codes "connection refused") }

abbrev pub exits : ℕ → Reply RunResult
exits code = record {
  took = 5;
  lines = codes "line" ∷ [];
  answer = ok (record { exit_code = pos code; output = codes "output"; timed_out = false });
}

abbrev env : Env
env = record {
  ip_network = λ _. some (record { version = 4; is_private = true; prefixlen = 24 });
  caps = record { max_nodes = 5; max_total_vcpu = 16; max_total_memory_mb = 32768 };
  error_text = λ _. codes "validation error";
  spec_hash = λ _. codes "small";
  k8s_namespace = λ _. codes "p-64";
  parse_ips = λ _. ok ((codes "master", codes "192.168.56.10") ∷ []);
  elasticsearch = true;
}

-- Ansible fails twice and then answers; Terraform's apply is as it is given.
abbrev calls : Reply RunResult → stage.Tasks.Provision.Calls
calls apply = record {
  workspace_root = done;
  render_namespace = done;
  apply_namespace = done;
  provision_team = lost;
  has_pipeline = true;
  apply_pipeline = done;
  apply_credentials = lost;
  has_dashboard = false;
  apply_dashboard = done;
  transfer_kubeconfig = done;
  render = done;
  terraform_init = exits 0;
  terraform_apply = apply;
  terraform_destroy = exits 1;
  terraform_output = exits 0;
  ssh_private_key = done;
  ansible_playbook = λ attempt. if leb attempt 2 then exits 4 else exits 0;
  has_kubeconfig = true;
  store_kubeconfig = done;
}

abbrev master : NodeSpec
master = record {
  name = codes "master";
  vcpu = pos 2;
  memory_mb = pos 4096;
  disk_gb = pos 30;
  role = k8s_master;
}

abbrev document : InfraSpec
document = record {
  version = pos 1;
  project = codes "shop";
  cidr = codes "192.168.56.0/24";
  domain = codes "devops.local";
  nodes = master ∷ [];
  config = default_config;
  mode = vm;
  observability = "light";
}

provisions_in_time :
    is_in_time 1800 600 (provision_task env (calls (exits 1)) 2000 100 document) world ≡ true
unfolding provision_task find stage.Tasks.World.◌>>=◌ stage.Tasks.World.pure
    stage.Tasks.World.modify stage.Prelude.update_where stage.Tasks.World.get
    stage.Tasks.World.raise stage.Tasks.Limit.soft_time_limit stage.Lifecycle.task_time_limit
provisions_in_time = refl

-- A provision whose apply fails.
provision_task_ends_example :
    (w' : World) × (run_task 1800 600 (provision_task env (calls (exits 1)) 2000 100 document) world
      ≡ some (returned tt w'))
    × IsProvisioned env (calls (exits 1)) 2000 100 w'
unfolding find
provision_task_ends_example =
    provision_task_ends env (calls (exits 1)) 2000 100 document world 1800 600 queued tt
      provisions_in_time

abbrev teardown : stage.Tasks.Destroy.Calls
teardown = record {
  delete_namespace = exits 0;
  terraform_destroy = exits 0;
  delete_kubeconfig = lost;
}

abbrev workspace : Workspace
workspace = record {
  path = codes "/ws/64";
  target = some (codes "/ws/64");
  inside_root = true;
  root = codes "/ws";
  exists = true;
}

-- A destroy whose Vault is down.
destroy_task_ends_example :
    (w' : World) × (destroy_task teardown 2000 100 workspace (codes "p-64") (codes "shop") world
      ≡ returned tt w')
    × IsDestroyed teardown 2000 100 workspace (codes "p-64") (codes "shop") w'
destroy_task_ends_example =
    destroy_task_ends teardown 2000 100 workspace (codes "p-64") (codes "shop") world queued

abbrev pub purge : Purge
purge = record {
  path = codes "/tmp/ctl-repos/1";
  exists = true;
  exists_after_rmtree = true;
  sandbox = lost;
  exists_at_end = true;
}

abbrev crashed : Reply ScanRun
crashed = record {
  took = 5;
  lines = [];
  answer =
      ok (record { exit_code = pos 2; stdout = codes "panic"; timed_out = false; report = none });
}

abbrev pub scanners : stage.Tasks.Scan.Calls
scanners = record {
  run_trivy = crashed;
  clone = record {
    url = codes "https://git/web";
    validate_url = ok tt;
    has_credential = true;
    git = exits 0;
    hint = λ _. [];
    purge_git = record purge { exists_after_rmtree = false };
    purge_root = purge;
  };
  run_gitleaks = crashed;
  find_requirements = done;
  run_pip_audit = crashed;
}

abbrev pub readers : Readers
readers = record {
  read_trivy = λ _. no_report;
  read_leaks = λ _. ok none;
  read_audit = λ _. ok none;
  cvss3_base_score = λ _. 0;
  dumps = λ _. codes "{}";
}

-- A scan whose scanner crashes, and whose checkout cannot be removed.
scan_task_ends_example :
    (w' : World) × (scan_task readers scanners 2000 700 "gitleaks" (codes "https://git/web") world
      ≡ returned tt w')
    × IsScanned readers scanners 2000 700 "gitleaks" (codes "https://git/web") w'
scan_task_ends_example =
    scan_task_ends readers scanners 2000 700 "gitleaks" (codes "https://git/web") world queued

-- With a working apply the virtual machines are provisioned, on the third run of the playbook.
statuses : Outcome (Unit {0}) → Option JobStatus × Option ProjectStatus × ℕ
unfolding find
statuses (returned a w) = (
  Option.map (λ (j : Job). j.status) (job_row 2000 w),
  Option.map (λ (p : Project). p.status) (project_row 100 w),
  w.now,
)
statuses (raised e w) = (none, none, 0)

provisions :
    statuses (provision_task env (calls (exits 0)) 2000 100 document world)
    ≡ (some JobStatus.succeeded, some ProjectStatus.ready, 194)
unfolding statuses provision_task find stage.Tasks.World.◌>>=◌ stage.Tasks.World.pure
    stage.Tasks.World.modify stage.Prelude.update_where
provisions = refl
