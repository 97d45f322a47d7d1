-- ===== src/Models.antt =====
-- The rows of controlplane/models/*.py, with the columns that the modelled operations read or
-- write, and the database as its tables. A UUID is a number, and so is a timestamp (seconds, UTC).
use stage.Parsers.{Summary}
use stage.Prelude.{ℕ, String, Text, List, Option, Bool}

pub record TeamMember : Type 0 where
  pub team_id : ℕ
  pub user_id : ℕ
  pub role : String

pub record Team : Type 0 where
  pub id : ℕ
  pub name : Text
  pub slug : Text
  pub is_personal : Bool

pub data ProjectStatus : Type 0 where
  draft provisioning ready destroying destroyed failed : ProjectStatus

-- One entry of `infra_spec["nodes"]`; a key may be missing.
pub record NodeDoc : Type 0 where
  pub vcpu : Option ℕ
  pub memory_mb : Option ℕ
  pub disk_gb : Option ℕ

-- The JSON column `infra_spec`, as far as the program reads it back.
pub record InfraDoc : Type 0 where
  pub mode : Option String
  pub nodes : List NodeDoc

pub record Project : Type 0 where
  pub id : ℕ
  pub owner_id : ℕ
  pub team_id : ℕ
  pub name : String
  pub status : ProjectStatus
  pub infra_spec : InfraDoc
  pub workspace_path : Option Text
  pub created_at : ℕ
  pub updated_at : ℕ
  pub ttl_hours : ℕ
  pub expires_at : Option ℕ
  pub auto_destroy : Bool
  pub last_accessed_at : Option ℕ
  pub expiry_warned : Bool

pub record Node : Type 0 where
  pub project_id : ℕ
  pub name : Text
  pub vcpu : ℕ
  pub memory_mb : ℕ
  pub disk_gb : ℕ
  pub role : String
  pub ip_address : Option Text
  pub status : String

pub data JobType : Type 0 where
  provision destroy configure scan deploy undeploy : JobType

pub data JobStatus : Type 0 where
  queued running succeeded failed cancelled interrupted : JobStatus

pub record Job : Type 0 where
  pub id : ℕ
  pub project_id : Option ℕ
  pub deployment_id : Option ℕ
  pub type : JobType
  pub status : JobStatus
  pub log : Text
  pub created_at : ℕ
  pub started_at : Option ℕ
  pub finished_at : Option ℕ
  pub error_message : Option Text
  pub cancel_requested : Bool

-- The values that `_step` and `_mark_job` write to `JobStep.status`.
pub data StepStatus : Type 0 where
  running succeeded failed : StepStatus

pub record JobStep : Type 0 where
  pub job_id : ℕ
  pub step_index : ℕ
  pub step_total : ℕ
  pub name : Text
  pub status : StepStatus
  pub started_at : Option ℕ
  pub finished_at : Option ℕ
  pub error_message : Option Text

pub record Deployment : Type 0 where
  pub id : ℕ
  pub project_id : ℕ
  pub service_name : String
  pub repo_url : String
  pub branch : String
  pub port : ℕ
  pub replicas : ℕ
  pub strategy : String
  pub status : String
  pub image_ref : Option Text
  pub live_url : Option Text
  pub created_at : ℕ

pub record Scan : Type 0 where
  pub id : ℕ
  pub project_id : ℕ
  pub deployment_id : Option ℕ
  pub tool : String
  pub target : Text
  pub status : String
  pub summary : Option Summary
  pub created_at : ℕ

pub record Db : Type 0 where
  pub members : List TeamMember
  pub teams : List Team
  pub projects : List Project
  pub jobs : List Job
  pub deployments : List Deployment
  pub scans : List Scan
