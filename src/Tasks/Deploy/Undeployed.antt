-- ===== src/Tasks/Deploy/Undeployed.antt =====
-- How `undeploy_task` ends.
use stage.Prelude.{
  ◌+◌, ap, sym, subst, by_key, ℕ, List, Option, none, some, Bool, true, false, ◌&&◌, ◌≡◌, refl,
  if◌then◌else◌, Text, Result, ok, err,
}
use stage.Models.{Project, Scan, Deployment, JobStatus}
use stage.Tasks.World.{World, returned, Run, pure, raise, ◌>>=◌, get, Reply, ask, settle, attempt}
use stage.Tasks.Calls.{log_lines, project_row, stream, fail}
use stage.Tasks.Kubectl.{
  Kubeconfig, missing, unreadable, holds, Settings, Kubectl, kubectl, reject_loopback, refuse,
}
use stage.Tasks.Ship.{gitops_applies_to}
use stage.Tasks.Deploy.{Removal, remove_objects, undeploy_found, undeploy_task}
use stage.Tasks.Triples.{Leads, leads, bind, also, ending, attempt_lem, pure_lem, returns}
use stage.Tasks.Yields.{Yields, yields, bind_value, worse, failing, given}
use stage.Tasks.Tidy.{
  IsSafe, IsEnded, IsQueued, log_lines-IsWith, mark-IsEnded, fail_lem, start-IsWith,
}

-- A call of kubectl that raises nothing: its kubeconfig is found and no loopback address is in it, and
-- the sandbox runs it, to whatever exit code.
abbrev pub answers : {A : Type 0} → Result Text A → Bool
answers (ok a) = true
answers (err e) = false

abbrev pub no_address : Option Text → Bool
no_address none = true
no_address (some address) = false

abbrev pub accepts : Settings → Kubeconfig → Bool
accepts settings missing = true
accepts settings unreadable = true
accepts settings (holds path text) = no_address (settings.loopback text)

abbrev pub finds : Settings → Result Text Kubeconfig → Bool
finds settings (ok config) = accepts settings config
finds settings (err e) = false

abbrev pub is_run : Settings → Kubectl → Bool
is_run settings k = finds settings k.kubeconfig.answer && answers k.run.answer

abbrev pub is_removed : Settings → Removal → Project → Bool
is_removed settings calls project =
    if gitops_applies_to calls.gitops_enabled project
    then is_run settings calls.delete_application
    else is_run settings calls.delete_deployment
      && (is_run settings calls.delete_service && is_run settings calls.delete_ingress)

abbrev pub undeployed_status : Settings → Removal → Option Project → JobStatus
undeployed_status settings calls none = JobStatus.failed
undeployed_status settings calls (some project) =
    if is_removed settings calls project then JobStatus.succeeded else JobStatus.failed

abbrev pub AnyRows : List Project → List Scan → List Deployment → Type 0
AnyRows projects scans deployments = Unit

module _ (settings : Settings) (calls : Removal) (job_id : ℕ) where
  abbrev Safe : World → Type 0
  Safe = IsSafe job_id AnyRows

  -- The state, and how a test came out.
  abbrev Known : Bool → Bool → World → Type 0
  Known b value w = Safe w × (b ≡ value)

  settled :
      {A : Type 0} (r : Result Text A)
      → Yields Safe
          (settle r)
          (λ a w. Safe w × (r ≡ ok a))
          (λ w. Safe w × ((e : Text) × (r ≡ err e)))
  settled (ok a) = yields λ w h. (h, refl)
  settled (err e) = yields λ w h. (h, (e, refl))

  asked :
      {A : Type 0} (reply : Reply A)
      → Yields Safe
          (ask reply)
          (λ a w. Safe w × (reply.answer ≡ ok a))
          (λ w. Safe w × ((e : Text) × (reply.answer ≡ err e)))
  unfolding ask
  asked reply = yields λ w h. (settled reply.answer).from (record w { now = w.now + reply.took }) h

  sent_by :
      {A : Type 0} (r : Result Text A)
      → Leads Safe (settle r) (Known (answers r) true) (Known (answers r) false)
  sent_by (ok a) = leads λ w h. (h, refl)
  sent_by (err e) = leads λ w h. (h, refl)

  sent :
      {A : Type 0} (reply : Reply A)
      → Leads Safe
          (stream job_id reply)
          (Known (answers reply.answer) true)
          (Known (answers reply.answer) false)
  unfolding stream
  sent reply = leads λ w h.
      let w' = record w { now = w.now + reply.took } in
      (sent_by reply.answer).from (log_lines job_id reply.lines w')
        (log_lines-IsWith job_id AnyRows (λ steps. Unit) reply.lines w' (h, tt)).0

  refused :
      (path : Text) (o : Option Text)
      → Leads Safe (refuse settings path o) (Known (no_address o) true) (Known (no_address o) false)
  unfolding refuse pure raise
  refused path none = leads λ w h. (h, refl)
  refused path (some address) = leads λ w h. (h, refl)

  rejected :
      (k : Kubeconfig)
      → Leads Safe
          (reject_loopback settings k)
          (Known (accepts settings k) true)
          (Known (accepts settings k) false)
  unfolding reject_loopback pure
  rejected missing = leads λ w h. (h, refl)
  rejected unreadable = leads λ w h. (h, refl)
  rejected (holds path text) = refused path (settings.loopback text)

  kubectl_lem :
      (k : Kubectl)
      → Leads Safe
          (kubectl settings job_id k)
          (Known (is_run settings k) true)
          (Known (is_run settings k) false)
  unfolding kubectl
  kubectl_lem k =
      bind_value (worse (λ w (h, (e, is)). (h, rw is refl)) (asked k.kubeconfig)) λ config.
        given λ is. also (failing (λ w (h, down). (h, rw is (rw down refl))) (rejected config)) (
          given λ yes.
            ending (λ w (h, ran). (h, rw is (rw yes ran)))
              (failing (λ w (h, down). (h, rw is (rw yes down))) (sent k.run)))

  -- One object after the other, up to the first call that raises.
  first_one :
      (k : Kubectl) (b : Bool) (m : Run (Unit {0}))
      → Leads Safe m (Known b true) (Known b false)
      → Leads Safe
          (kubectl settings job_id k >>= λ _. m)
          (Known (is_run settings k && b) true)
          (Known (is_run settings k && b) false)
  first_one k b m l = bind (failing (λ w (h, down). (h, rw down refl)) (kubectl_lem k)) λ _.
      given
        λ yes. ending (λ w (h, ran). (h, rw yes ran)) (failing (λ w (h, down). (h, rw yes down)) l)

  only_one :
      (k : Kubectl)
      → Leads Safe
          (kubectl settings job_id k >>= λ _. pure tt)
          (Known (is_run settings k) true)
          (Known (is_run settings k) false)
  only_one k = bind (kubectl_lem k) λ _. pure_lem tt

  removed_by :
      (b : Bool)
      → Leads Safe
          (if b
            then (kubectl settings job_id calls.delete_application >>= λ _. pure tt)
            else (kubectl settings job_id calls.delete_deployment >>= λ _.
                kubectl settings job_id calls.delete_service >>= λ _.
                kubectl settings job_id calls.delete_ingress >>= λ _. pure tt))
          (Known
            (if b
              then is_run settings calls.delete_application
              else is_run settings calls.delete_deployment
                && (is_run settings calls.delete_service && is_run settings calls.delete_ingress))
            true)
          (Known
            (if b
              then is_run settings calls.delete_application
              else is_run settings calls.delete_deployment
                && (is_run settings calls.delete_service && is_run settings calls.delete_ingress))
            false)
  removed_by true = only_one calls.delete_application
  removed_by false =
      first_one calls.delete_deployment _ _
        (first_one calls.delete_service _ _ (only_one calls.delete_ingress))

  removed :
      (project : Project)
      → Leads Safe
          (remove_objects settings calls job_id project)
          (Known (is_removed settings calls project) true)
          (Known (is_removed settings calls project) false)
  unfolding remove_objects
  removed project = removed_by (gitops_applies_to calls.gitops_enabled project)

  found_lem :
      (o : Option Project)
      → Leads Safe
          (attempt (undeploy_found settings calls job_id o) (fail job_id))
          (IsEnded job_id (undeployed_status settings calls o) AnyRows)
          (λ _. ⊥)
  unfolding undeploy_found
  found_lem none =
      attempt_lem {R = λ _. ⊥} (mark-IsEnded job_id _ JobStatus.failed _) λ e. leads λ w h. absurd h
  found_lem (some project) =
      attempt_lem
        (also {R = Known (is_removed settings calls project) false} (removed project)
          (given λ yes. rw yes (mark-IsEnded job_id _ JobStatus.succeeded none)))
        λ e. given λ down. rw down (fail_lem job_id _ e)

  -- Whatever its calls answer, `undeploy_task` of a job that is there, is not cancelled and has no
  -- steps, if Celery does not stop it at a time limit, returns without an exception, with no step open: its job is succeeded exactly if the project is there and
  -- every call of kubectl was run, up to any exit code, and failed otherwise.
  pub undeploy_task_ends :
      (project_id : ℕ) (w : World)
      → IsQueued job_id w
      → (w' : World) × (undeploy_task settings calls job_id project_id w ≡ returned tt w')
        × IsEnded job_id (undeployed_status settings calls (project_row project_id w)) AnyRows w'
  unfolding undeploy_task ◌>>=◌ attempt get
  undeploy_task_ends project_id w queued =
      let (w0, started, (safe, _), same, _, _) = start-IsWith job_id AnyRows w queued tt in
      let row : project_row project_id w0 ≡ project_row project_id w =
        ap (λ rows. by_key (λ (p : Project). p.id) rows project_id) same in
      rw started (
        subst
          (λ o.
            (w' : World) × (attempt (undeploy_found settings calls job_id o) (fail job_id) w0
              ≡ returned tt w')
            × IsEnded job_id (undeployed_status settings calls (project_row project_id w)) AnyRows
                w')
          (sym row)
          (returns
            (attempt (undeploy_found settings calls job_id (project_row project_id w))
              (fail job_id))
            w0 ((found_lem (project_row project_id w)).from w0 safe)))
