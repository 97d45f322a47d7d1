-- ===== src/Tasks/ProvisionTask.antt =====
-- The virtual machines of `provision_task` of workers/tasks.py, and the task itself.
use stage.Prelude.{
  ℕ, zero, suc, ◌+◌, List, [], ◌++◌, Option, none, some, ◌==◌, Result, ok, err, if◌then◌else◌, Text,
  codes, str, str_int, is_zero,
}
use stage.Models.{Project, ProjectStatus, JobStatus}
use stage.Spec.{InfraSpec, Mode, namespace, vm, SpecError, validate}
use stage.Pool.{PooledCluster, Pool, claim_cluster, commits}
use stage.Tasks.World.{returned, Run, pure, raise, ◌>>=◌, ◌>>◌, attempt, modify, settle, ask}
use stage.Tasks.Calls.{
  say, stream, check, step, mark, fail, start, write_project, mark_ready, record_ips,
}
use stage.Tasks.Provision.{Env, Calls, provision_namespace, adopt_pooled_cluster}

abbrev pub attempts : ℕ
attempts = 20

abbrev pub retry_delay_seconds : ℕ
retry_delay_seconds = 30

unfoldable pub sleep : ℕ → Run (Unit {0})
sleep seconds = modify (λ w. record w { now = w.now + seconds })

abbrev retry_text : ℕ → Text
retry_text attempt =
    codes "ansible-playbook attempt "
    ++ str attempt
    ++ codes "/"
    ++ str attempts
    ++ codes " failed (guest likely still finishing cloud-init) — retrying in "
    ++ str retry_delay_seconds
    ++ codes "s"

-- The rounds `for attempt in range(attempt, attempt + left)`.
unfoldable pub configure : Calls → ℕ → ℕ → ℕ → Run (Unit {0})
unfolding stream check say sleep str
configure calls job_id zero attempt = pure tt
configure calls job_id (suc left) attempt =
    let rest = configure calls job_id left (attempt + 1) in
    stream job_id (calls.ansible_playbook attempt) >>= λ result.
    if is_zero result.exit_code then pure tt else (do
      if attempt == attempts then check result [] else pure tt
      say job_id (retry_text attempt)
      sleep retry_delay_seconds
      rest)

-- A failed apply is cleaned up, and its error raised again.
unfoldable pub apply : Calls → ℕ → Run (Unit {0})
unfolding attempt stream check say str_int
apply calls job_id =
    attempt (stream job_id calls.terraform_apply >>= λ result. check result []) (λ e. do
      say job_id
          (codes "terraform apply failed — attempting cleanup of partially created resources")
      cleanup ← stream job_id calls.terraform_destroy
      say job_id (codes "cleanup result: " ++ str_int cleanup.exit_code)
      raise e)

unfoldable pub store_credential : Calls → ℕ → Run (Unit {0})
unfolding ask say
store_credential calls job_id =
    if calls.has_kubeconfig
    then (do ask calls.store_kubeconfig; say job_id (codes "Stored dedicated cluster credential."))
    else pure tt

unfoldable pub provision_vm : Env → Calls → ℕ → ℕ → Run (Unit {0})
unfolding apply configure store_credential ask stream check step record_ips mark_ready mark say
provision_vm env calls job_id project_id = do
  ask calls.render
  say job_id (codes "Rendered Terraform and Ansible artifacts.")
  step job_id 1 4 (codes "terraform init")
  init ← stream job_id calls.terraform_init
  check init []
  step job_id 2 4 (codes "terraform apply")
  apply calls job_id
  step job_id 3 4 (codes "capturing node IPs")
  out ← ask calls.terraform_output
  check out []
  node_ips ← settle (env.parse_ips out.output)
  record_ips project_id node_ips
  step job_id 4 4 (codes "ansible-playbook configure")
  ask calls.ssh_private_key
  configure calls job_id attempts 1
  store_credential calls job_id
  mark_ready project_id
  mark job_id JobStatus.succeeded none
  say job_id (codes "Provisioning complete.")

unfoldable pub claim : Env → ℕ → InfraSpec → Run (Option PooledCluster)
unfolding claim_cluster
claim env project_id spec w =
    let (pooled, pool) = claim_cluster w.pool (env.spec_hash spec) project_id in
    returned pooled (record w { pool = pool })

unfoldable pub commit_claim : ℕ → Run (Unit {0})
unfolding stage.Pool.step
commit_claim project_id =
    modify (λ w. record w { pool = stage.Pool.step w.pool (commits project_id) })

unfoldable pub hand_over : Env → Calls → ℕ → ℕ → Option PooledCluster → Run (Unit {0})
unfolding commit_claim adopt_pooled_cluster provision_vm
hand_over env calls job_id project_id none = provision_vm env calls job_id project_id
hand_over env calls job_id project_id (some pooled) =
    commit_claim project_id >> adopt_pooled_cluster calls job_id project_id pooled

unfoldable pub provision_by : Mode → Env → Calls → ℕ → ℕ → InfraSpec → Run (Unit {0})
unfolding provision_namespace claim hand_over
provision_by namespace env calls job_id project_id spec =
    provision_namespace env calls job_id project_id spec
provision_by vm env calls job_id project_id spec =
    claim env project_id spec >>= hand_over env calls job_id project_id

abbrev pub or_raise : (List SpecError → Text) → Result (List SpecError) InfraSpec → Run InfraSpec
or_raise error_text (ok spec) = pure spec
or_raise error_text (err e) = raise (error_text e)

unfoldable pub provision_body : Env → Calls → ℕ → ℕ → InfraSpec → Run (Unit {0})
unfolding provision_by validate ask
provision_body env calls job_id project_id document = do
  spec ← or_raise env.error_text (validate env.ip_network env.caps document)
  ask calls.workspace_root
  provision_by spec.mode env calls job_id project_id spec

-- A project that is being destroyed keeps that status.
abbrev pub failed_or_kept : ProjectStatus → ProjectStatus
failed_or_kept ProjectStatus.destroying = ProjectStatus.destroying
failed_or_kept _ = ProjectStatus.failed

unfoldable pub fail_status : Project → Project
fail_status p = record p { status = failed_or_kept p.status }

-- The body under its `except`.
unfoldable pub provision_guarded : Env → Calls → ℕ → ℕ → InfraSpec → Run (Unit {0})
unfolding provision_body attempt fail_status fail write_project
provision_guarded env calls job_id project_id document =
    attempt (provision_body env calls job_id project_id document)
      (λ e. do modify (write_project project_id fail_status); fail job_id e)

unfoldable pub provision_task : Env → Calls → ℕ → ℕ → InfraSpec → Run (Unit {0})
unfolding provision_guarded start
provision_task env calls job_id project_id document = start job_id >>= λ started.
    if started then provision_guarded env calls job_id project_id document else pure tt
