-- ===== src/Tasks/TektonRun.antt =====
-- `_tekton_build_and_scan` of workers/tasks.py, with what it reads from the cluster, and `read` and `wait` of
-- runners/tekton.py.
pub mod Announced
pub mod Awaited
pub mod Followed
use stage.Prelude.{
  ℕ, zero, suc, ◌+◌, ◌*◌, String, List, [], ◌∷◌, ◌++◌, Option, none, some, Bool, true, false, not,
  ◌&&◌, ◌||◌, str_eq, leb, any, find, if◌then◌else◌, Text, text_eq, codes, or_text, str, Result, ok,
  err,
}
use stage.Models.{Deployment}
use stage.Workers.Log.{take_last}
use stage.Config.Stages.{PipelineStage}
use stage.Tekton.{
  Status, pending, skipped, StepState, Condition, condition_of, condition_status, is_final,
  pipeline_steps,
}
use stage.Tekton.Pipeline.{
  stage_task_name, or_found, step_index, push_step_index, PipelineRun, Address,
}
use stage.Tasks.World.{Run, pure, raise, ◌>>=◌, ◌>>◌, get, modify, Reply}
use stage.Tasks.Calls.{say, RunResult, check, step}
use stage.Tasks.ProvisionTask.{sleep}
use stage.Tasks.Gates.{set_deployment}
use stage.Tasks.Kubectl.{Settings, Kubectl, Kubeconfig, kubectl_quiet}

-- The readers of kubectl's output, `none` where `json.loads` refuses it: a run, the TaskRuns of a run, the
-- volume claims with the kind and the name of their owners, and a task with its Pod.
pub record Claim : Type 0 where
  pub name : Text
  pub owners : List (Text × Text)

pub record TaskPod : Type 0 where
  pub task : Option Text
  pub pod : Option Text

pub record Outputs : Type 0 where
  pub run : Text → Option stage.Tekton.Run
  pub taskruns : Text → Option (List stage.Tekton.Run)
  pub pods : Text → Option (List TaskPod)
  pub claims : Text → Option (List Claim)
  pub parse_time : String → Option ℕ
  pub report_in : Text → Option Text

-- One poll, by its number, and the calls behind the run; `apply_manifest` has a kubeconfig that it does not
-- look at.
pub record Calls : Type 0 where
  pub run_name : Text
  pub kubeconfig : Reply Kubeconfig
  pub apply_manifest : PipelineRun → Reply RunResult
  pub resolve : Text → Option Address
  pub registry : Text
  pub registry_internal : Text
  pub registry_cidr : Text
  pub registry_insecure : Bool
  pub default_stage_image : Text
  pub timeout : Text
  pub b64 : Text → Text
  pub get_run : ℕ → Kubectl
  pub get_taskruns : ℕ → Kubectl
  pub get_pods : Kubectl
  pub logs : Text → Kubectl
  pub delete_pods : Kubectl
  pub get_claims : Kubectl
  pub delete_claim : Text → Kubectl

-- PipelineRunResult
pub record Snapshot : Type 0 where
  pub status : Status
  pub steps : List StepState
  pub message : Text

unfoldable pub call : Settings → Kubectl → Run Text
unfolding kubectl_quiet check
call settings k = kubectl_quiet settings k >>= λ result. check result [] >> pure result.output

unfoldable pub unreadable : {A : Type 0} → Text → Option A → Run A
unreadable raw none = raise (codes "could not read kubectl output: " ++ stage.Prelude.take 200 raw)
unreadable raw (some a) = pure a

unfoldable pub call_json : {A : Type 0} → Settings → (Text → Option A) → Kubectl → Run A
unfolding call unreadable
call_json settings reader k = call settings k >>= λ raw. unreadable raw (reader raw)

message_of : Option Condition → Text
message_of none = []
message_of (some c) = elim c.message [ none ↦ [] | some m ↦ m ]

unfoldable pub snapshot : Outputs → List Text → stage.Tekton.Run → List stage.Tekton.Run → Snapshot
unfolding condition_status pipeline_steps message_of
snapshot outputs declared run taskruns = record {
  status = condition_status run;
  steps = pipeline_steps outputs.parse_time run taskruns declared;
  message = message_of (condition_of run);
}

-- `read`, at the poll of the given number.
unfoldable pub read : Settings → Outputs → Calls → List Text → ℕ → Run Snapshot
unfolding call_json snapshot
read settings outputs calls declared poll = do
  run ← call_json settings outputs.run (calls.get_run poll)
  taskruns ← call_json settings outputs.taskruns (calls.get_taskruns poll)
  pure (snapshot outputs declared run taskruns)

status_text : Status → Text
status_text pending = codes "pending"
status_text Status.running = codes "running"
status_text Status.succeeded = codes "succeeded"
status_text Status.failed = codes "failed"
status_text Status.cancelled = codes "cancelled"
status_text skipped = codes "skipped"

abbrev pub poll_seconds : ℕ
poll_seconds = 5

abbrev pub timeout_seconds : ℕ
timeout_seconds = 2400

-- The loop of `wait`, for at most so many polls: `none` where they do not suffice. `on_state` has a state
-- of its own, as a closure has.
module _ {S : Type 0} (name : Text) (poll_run : ℕ → Run Snapshot) (on_state : S → Snapshot → Run S)
    (deadline : ℕ) where
  unfoldable pub wait : ℕ → ℕ → S → Run (Option Snapshot)
  unfolding sleep status_text str
  wait zero poll s = pure none
  wait (suc polls) poll s =
      let again = λ (s' : S). wait polls (poll + 1) s' in
      poll_run poll >>= λ last. on_state s last >>= λ s'.
      if is_final last.status
      then pure (some last)
      else get >>= λ w.
          if leb deadline w.now
          then raise (
              codes "timed out after "
              ++ str timeout_seconds
              ++ codes "s waiting for PipelineRun "
              ++ name
              ++ codes "; last status was "
              ++ status_text last.status
              ++ codes ".")
          else sleep poll_seconds >> again s'

abbrev pub enough_polls : ℕ
enough_polls = 481

-- What `report` remembers: the statuses it has seen, and the names that it has announced.
pub record Reported : Type 0 where
  pub seen : List (Text × Status)
  pub announced : List Text

same_status : Status → Status → Bool
same_status pending pending = true
same_status Status.running Status.running = true
same_status Status.succeeded Status.succeeded = true
same_status Status.failed Status.failed = true
same_status Status.cancelled Status.cancelled = true
same_status skipped skipped = true
same_status _ _ = false

unfoldable pub is_seen : Text → Status → List (Text × Status) → Bool
unfolding same_status
is_seen name status [] = false
is_seen name status ((n, s) ∷ rest) =
    if text_eq n name then same_status s status else is_seen name status rest

abbrev pub has_begun : Status → Bool
has_begun pending = false
has_begun skipped = false
has_begun _ = true

unfoldable pub is_announced : Text → List Text → Bool
is_announced name [] = false
is_announced name (n ∷ names) = text_eq n name || is_announced name names

abbrev pub pushed : Text
pushed = codes "push (builtin)"

abbrev is_success : Status → Bool
is_success Status.succeeded = true
is_success _ = false

-- The tenant's own wording of a stage: `labels.get(name, name)`.
label_from : ℕ → List PipelineStage → Text → Option Text
unfolding stage_task_name
label_from offset [] name = none
label_from offset (stage ∷ stages) name =
    or_found (label_from (offset + 1) stages name)
      (if text_eq (stage_task_name offset stage.name) name then some stage.name else none)

unfoldable pub label_of : List PipelineStage → Text → Text
unfolding label_from
label_of stages name = elim (label_from 1 stages name) [ none ↦ name | some label ↦ label ]

module _ (job_id : ℕ) (stages : List PipelineStage) (total : ℕ) where
  -- A step's row and its line, once for each name.
  unfoldable pub announce : ℕ → Text → Text → List Text → Run (List Text)
  unfolding is_announced step
  announce index name label announced =
      if is_announced name announced
      then pure announced
      else step job_id index total label >> pure (name ∷ announced)

  unfoldable pub report_begun : ℕ → StepState → List Text → Run (List Text)
  unfolding announce label_of push_step_index
  report_begun index s announced =
      announce index s.name (label_of stages s.name) announced >>= λ announced'.
      if text_eq s.name (codes "build") && is_success s.status
      then announce (push_step_index stages) pushed (codes "pushing image to registry") announced'
      else pure announced'

  -- One round of the loop of `report`.
  unfoldable pub report_step : Option ℕ → StepState → Reported → Run Reported
  unfolding is_seen report_begun
  report_step none s r = pure r
  report_step (some index) s r =
      if is_seen s.name s.status r.seen
      then pure r
      else (if has_begun s.status then report_begun index s r.announced else pure r.announced)
        >>= λ announced. pure (record { seen = (s.name, s.status) ∷ r.seen; announced = announced })

  unfoldable pub report_steps : List StepState → Reported → Run Reported
  unfolding report_step step_index
  report_steps [] r = pure r
  report_steps (s ∷ ss) r =
      let rest = λ (r' : Reported). report_steps ss r' in
      report_step (step_index stages s.name) s r >>= rest

  unfoldable pub report : Reported → Snapshot → Run Reported
  unfolding report_steps
  report r last = report_steps last.steps r

unfoldable pub is_failed : StepState → Bool
is_failed s = elim s.status [ Status.failed ↦ true | _ ↦ false ]

abbrev detail_of : Option StepState → Text → Text
detail_of none message = message
detail_of (some s) message = elim s.error_message [ none ↦ message | some e ↦ or_text e message ]

-- `if failed is not None and failed.name == "scan": ... "blocked"`
unfoldable pub blocked_by : ℕ → Text → Option StepState → Run (Unit {0})
unfolding set_deployment
blocked_by deployment_id image_ref none = pure tt
blocked_by deployment_id image_ref (some s) =
    if text_eq s.name (codes "scan")
    then modify (set_deployment deployment_id "blocked" (some image_ref) none)
    else pure tt

abbrev where_of : List PipelineStage → Option StepState → Text
where_of stages none = codes "unknown"
where_of stages (some s) = label_of stages s.name

-- What the run came to.
unfoldable pub conclude_as :
    Status → Calls → ℕ → Deployment → Text → List PipelineStage → Snapshot → Run (Unit {0})
unfolding say find is_failed blocked_by label_of
conclude_as Status.cancelled calls job_id d image_ref stages last =
    raise (codes "PipelineRun " ++ calls.run_name ++ codes " was cancelled.")
conclude_as Status.succeeded calls job_id d image_ref stages last = say job_id (
    codes "Tekton PipelineRun "
    ++ calls.run_name
    ++ codes " succeeded — image built, pushed and scanned")
conclude_as _ calls job_id d image_ref stages last =
    let bad = find is_failed last.steps in
    blocked_by d.id image_ref bad
    >> raise (
        codes "Tekton pipeline failed at "
        ++ where_of stages bad
        ++ codes ": "
        ++ take_last 400 (detail_of bad last.message))

-- The first case does not occur, since the polls suffice.
unfoldable pub conclude :
    Calls → ℕ → Deployment → Text → List PipelineStage → Option Snapshot → Run (Unit {0})
unfolding conclude_as
conclude calls job_id d image_ref stages none = raise []
conclude calls job_id d image_ref stages (some last) =
    conclude_as last.status calls job_id d image_ref stages last
