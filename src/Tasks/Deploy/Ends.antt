-- ===== src/Tasks/Deploy/Ends.antt =====
-- How `deploy_task` ends, and what a live deployment has passed.
use mathlib.Core.Option
use stage.Prelude.{
  ℕ, ◌+◌, List, Option, none, some, Bool, true, false, str_eq, str_eq_iff, Bool-cases, length, ◌≡◌,
  if◌then◌else◌, refl, sym, subst, ◌⊎◌, inl, inr, arith, Text, by_key-update_map,
}
use stage.Models.{Project, Deployment, JobStep, JobStatus}
use stage.Workers.Steps.Track.{rows_at}
use stage.Tasks.World.{World, ask}
use stage.Tasks.Calls.{log_line}
use stage.Tasks.Clone.{Clone, require_purged, clone_repo}
use stage.Tasks.Deploy.{
  Env, Calls, deployment_row, tekton_applies_to, fail_row, fail_deployment, give_up,
  build_in_cluster, build_image, build_and_release, clone_first, deploy_guarded,
}
use stage.Tasks.Gates.Passed.{SecretsPassed, DependenciesPassed, ImagePassed}
use stage.Tasks.Gates.Kept.{OnDeployment, IsThere, State, Raises, During}
use stage.Tasks.Ship.Released.{IsLive, Keeps, asks, streams, checks, says, raises, release_lem}
use stage.Tasks.Build.Gated.{dockerfile_lem, declared_lem, gated_lem}
use stage.Tasks.Build.{gate_and_build}
use stage.Tasks.TektonRun.Announced.{OnlyFirst}
use stage.Tasks.TektonBuild.Concluded.{tekton_lem}
use stage.Tasks.TektonBuild.Polled.{StartsWithClone, BuiltInCluster}
use stage.Tasks.Triples.{
  Leads, bind, also, branch, ending, attempt_lem, either_lem, pure_lem, modify_lem, settle_lem,
  lastly_lem,
}
use stage.Tasks.Yields.{Yields, bind_value, first_then, given, given_value, pure_yields, opening}
use stage.Tasks.ScanEnds.{purge_lem}
use stage.Tasks.Tidy.{IsSafe, IsEnded, log_line-IsWith, log_line-IsEnded, step-IsWith, fail_lem}

-- A deployment that is not up: a gate blocked it, or its deploy failed.
abbrev pub IsDown : Option Deployment → Type 0
IsDown none = ⊥
IsDown (some d) = (d.status ≡ "blocked") ⊎ (d.status ≡ "failed")

IsDown-of : (o : Option Deployment) → IsThere o → IsDown (Option.map fail_row o)
unfolding fail_row stage.Repositories.Deployments.set_status
IsDown-of none h = absurd h
IsDown-of (some d) h = elim (Bool-cases (str_eq d.status "blocked")) [
  | inl e ↦ rw e (inl ((str_eq_iff d.status "blocked").0 e))
  | inr e ↦ rw e (inr refl)
]

fail_row-id : (d : Deployment) → (fail_row d).id ≡ d.id
unfolding fail_row stage.Repositories.Deployments.set_status
fail_row-id d = ground arith

-- What a build has passed: the run in the cluster, or the three gates of the sandbox.
abbrev pub Passed : Env → Calls → Bool → Type 0
Passed env calls true = BuiltInCluster env.outputs calls.tekton
Passed env calls false =
    SecretsPassed env.readers calls.build.gates
    × DependenciesPassed env.readers calls.build.gates
    × ImagePassed env.readers calls.build.gates

module _ (env : Env) (calls : Calls) (job_id : ℕ) (project : Project) (d : Deployment)
    (image_ref : Text) where
  abbrev in_cluster : Bool
  in_cluster = tekton_applies_to env.tekton_enabled project

  -- The job succeeded, the deployment is live with the image that was built, and the build has passed its
  -- gates; or the job failed and the deployment is blocked or failed.
  abbrev pub IsDeployed : World → Type 0
  IsDeployed w =
      IsEnded job_id JobStatus.succeeded (OnDeployment d.id (IsLive image_ref)) w
        × Passed env calls in_cluster
      ⊎ IsEnded job_id JobStatus.failed (OnDeployment d.id IsDown) w

  abbrev First : World → Type 0
  First = State job_id d.id (OnlyFirst job_id)

  abbrev Fresh : World → Type 0
  Fresh = State job_id d.id (λ steps. (i : ℕ) → rows_at job_id i steps ≡ 0)

  give_up_lem : (e : Text) → Leads (Raises job_id d.id) (give_up job_id d e) IsDeployed (λ _. ⊥)
  unfolding give_up fail_deployment
  give_up_lem e =
      ending (λ w h. inr h)
        (also {Q = IsSafe job_id (OnDeployment d.id IsDown)}
          (modify_lem _ λ w (job, known, there, single). (
            job,
            known,
            subst IsDown
                (sym (
                  by_key-update_map (λ (d : Deployment). d.id) d.id fail_row fail_row-id
                    w.db.deployments))
                (IsDown-of (deployment_row d.id w) there),
            single,
          ))
          (fail_lem job_id _ e))

  purged_lem :
      (U : List JobStep → Type 0) (purged : Bool) → Keeps job_id d.id U (require_purged purged)
  unfolding require_purged
  purged_lem U true = pure_lem tt
  purged_lem U false = raises job_id d.id U _

  clone_lem :
      (U : List JobStep → Type 0) (clone : Clone) (branch_name : Text)
      → Keeps job_id d.id U (clone_repo clone job_id branch_name)
  unfolding clone_repo
  clone_lem U clone branch_name = also (settle_lem clone.validate_url (λ w h. h.0)) (
      also (branch clone.has_credential (says job_id d.id U _) (pure_lem tt)) (
        also (says job_id d.id U _) (
          bind (streams job_id d.id U clone.git) λ result.
            also (checks job_id d.id U result (clone.hint result)) (
              bind
                (purge_lem job_id clone.purge_git
                  (log_line-IsWith job_id (OnDeployment d.id IsThere) U) (λ now w h. h))
                (purged_lem U)))))

  first_lem : Leads Fresh (clone_first env calls job_id d) First (Raises job_id d.id)
  unfolding clone_first
  first_lem =
      also
        (step-IsWith job_id _ (λ steps. (i : ℕ) → rows_at job_id i steps ≡ 0) (OnlyFirst job_id) 1 9
          _ (λ steps rows. rows 1)
          (λ steps steps' rows moved.
            (λ i ne. ground (arith, moved i, rows i, ne), ground (arith, moved 1, rows 1))))
        (clone_lem (OnlyFirst job_id) calls.build.clone _)

  module _ (order : StartsWithClone env.outputs calls.tekton) where
    build_by :
        (b : Bool)
        → Yields First
            (if b
              then build_in_cluster env calls job_id project d image_ref
              else gate_and_build env.readers calls.build job_id env.scan_ids d image_ref)
            (λ count w. During job_id d.id (6 + count) w × Passed env calls b)
            (Raises job_id d.id)
    unfolding build_in_cluster
    build_by true =
        let U = OnlyFirst job_id in
        first_then (declared_lem job_id d U calls.build) λ stages.
          first_then
            (dockerfile_lem job_id d U calls.build (ask calls.build.read_dockerfile)
              (asks job_id d.id U calls.build.read_dockerfile))
            λ dockerfile.
              first_then
                (tekton_lem env.settings env.outputs calls.tekton env.readers job_id env.scan_ids
                  (env.k8s_namespace project.id) d image_ref stages dockerfile order)
                λ _. given_value λ built. pure_yields (length stages) λ w h. (h, built)
    build_by false =
        opening (λ w (safe, (others, one)). (safe, λ i h. others i (omega arith)))
          (gated_lem env.readers calls.build job_id d env.scan_ids image_ref)

    build_and_release_lem :
        Leads First
          (build_and_release env calls job_id project d image_ref)
          IsDeployed
          (Raises job_id d.id)
    unfolding build_and_release build_image
    build_and_release_lem = bind_value (build_by in_cluster) λ count. given λ passed.
        ending (λ w h. inl (h, passed))
          (release_lem env.settings calls.ship job_id (env.k8s_namespace project.id) project d
            image_ref count)

    IsDeployed-log : (line : Text) (w : World) → IsDeployed w → IsDeployed (log_line job_id line w)
    IsDeployed-log line w (inl (h, passed)) = inl (
      log_line-IsEnded job_id (OnDeployment d.id (IsLive image_ref)) JobStatus.succeeded line w h,
      passed,
    )
    IsDeployed-log line w (inr h) =
        inr (log_line-IsEnded job_id (OnDeployment d.id IsDown) JobStatus.failed line w h)

    pub guarded_lem :
        Leads Fresh (deploy_guarded env calls job_id project d image_ref) IsDeployed (λ _. ⊥)
    unfolding deploy_guarded
    guarded_lem =
        either_lem first_lem
          (λ _. lastly_lem (attempt_lem build_and_release_lem give_up_lem) (
            bind (purge_lem job_id calls.build.clone.purge_root IsDeployed-log (λ now w h. h))
              λ _. pure_lem tt))
          give_up_lem
