-- ===== src/Examples/Data.antt =====
-- A small database: team 10 with an admin (user 1) and a viewer (user 2), and team 20 of user 3.
use stage.Prelude.{List, [], ◌∷◌, none, some, true, false, codes}
use stage.Models.{
  TeamMember, Team, Project, ProjectStatus, Job, JobType, JobStatus, JobStep, StepStatus,
  Deployment, Scan, Db,
}

abbrev pub admin_row : TeamMember
admin_row = record { team_id = 10; user_id = 1; role = "admin" }

abbrev pub viewer_row : TeamMember
viewer_row = record { team_id = 10; user_id = 2; role = "viewer" }

abbrev pub other_row : TeamMember
other_row = record { team_id = 20; user_id = 3; role = "admin" }

abbrev pub members : List TeamMember
members = admin_row ∷ viewer_row ∷ other_row ∷ []

-- The same rows with user 2 raised to developer.
abbrev pub developer_row : TeamMember
developer_row = record { team_id = 10; user_id = 2; role = "developer" }

abbrev pub raised_members : List TeamMember
raised_members = admin_row ∷ developer_row ∷ other_row ∷ []

abbrev pub team : Team
team = record { id = 10; name = codes "Ops"; slug = codes "ops"; is_personal = false }

abbrev pub shop : Project
shop = record {
  id = 100;
  owner_id = 1;
  team_id = 10;
  name = "shop";
  status = ProjectStatus.provisioning;
  infra_spec = record { mode = some "vm"; nodes = [] };
  workspace_path = none;
  created_at = 50;
  updated_at = 50;
  ttl_hours = 24;
  expires_at = none;
  auto_destroy = true;
  last_accessed_at = some 50;
  expiry_warned = false;
}

abbrev pub blog : Project
blog = record shop { id = 200; owner_id = 3; team_id = 20; name = "blog"; created_at = 60 }

abbrev pub provision_job : Job
provision_job = record {
  id = 1000;
  project_id = some 100;
  deployment_id = none;
  type = JobType.provision;
  status = JobStatus.running;
  log = [];
  created_at = 70;
  started_at = some 71;
  finished_at = none;
  error_message = none;
  cancel_requested = false;
}

abbrev pub deploy_job : Job
deploy_job = record provision_job {
  id = 1001;
  deployment_id = some 500;
  type = JobType.deploy;
  status = JobStatus.queued;
  started_at = none;
}

abbrev pub web : Deployment
web = record {
  id = 500;
  project_id = 100;
  service_name = "web";
  repo_url = "https://git.example/web";
  branch = "main";
  port = 8080;
  replicas = 1;
  strategy = "k8s";
  status = "running";
  image_ref = some (codes "web:1");
  live_url = none;
  created_at = 80;
}

abbrev pub api : Deployment
api = record web { id = 501; service_name = "api" }

abbrev pub scan : Scan
scan = record {
  id = 700;
  project_id = 100;
  deployment_id = some 500;
  tool = "trivy";
  target = codes "web:1";
  status = "succeeded";
  summary = none;
  created_at = 90;
}

abbrev pub db : Db
db = record {
  members = members;
  teams = team ∷ [];
  projects = shop ∷ blog ∷ [];
  jobs = provision_job ∷ deploy_job ∷ [];
  deployments = web ∷ api ∷ [];
  scans = scan ∷ [];
}

-- Two steps of the provision job: the first closed, the second open.
abbrev pub first_step : JobStep
first_step = record {
  job_id = 1000;
  step_index = 1;
  step_total = 3;
  name = codes "Plan";
  status = StepStatus.succeeded;
  started_at = some 71;
  finished_at = some 72;
  error_message = none;
}

abbrev pub second_step : JobStep
second_step = record first_step {
  step_index = 2;
  name = codes "Apply";
  status = StepStatus.running;
  finished_at = none;
}

abbrev pub steps : List JobStep
steps = first_step ∷ second_step ∷ []
