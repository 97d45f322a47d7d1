-- ===== src/Tasks/TektonRun/Awaited.antt =====
-- How the poll loop `wait` of runners/tekton.py ends.
use stage.Prelude.{
  Result, ok, err, List, [], ◌∷◌, is_zero, ℕ, zero, suc, ◌+◌, ◌*◌, ◌≤◌, Option, none, some, true,
  leb, Bool-cases, inl, inr, ◌≡◌, if◌then◌else◌, Text, arith,
}
use stage.Tasks.World.{World, Run, raise, ◌>>=◌, ◌>>◌, modify, get, Reply, ask}
use stage.Tasks.ProvisionTask.{sleep}
use stage.Tekton.{is_final}
use stage.Tasks.TektonRun.{
  Outputs, Calls, Snapshot, Reported, unreadable, call, call_json, read, wait, poll_seconds,
  timeout_seconds, enough_polls, is_seen, has_begun, is_announced, pushed, announce, report_begun,
  report_step, report_steps, report,
}
use stage.Models.{JobStep}
use stage.Config.Stages.{PipelineStage}
use stage.Workers.Steps.{StepError}
use stage.Tekton.{StepState}
use stage.Tekton.Pipeline.{step_index, push_step_index}
use stage.Tasks.Calls.{RunResult, check, step, say, put_steps, with_jobs, log_line}
use stage.Tasks.Kubectl.{
  Kubeconfig, missing, holds, Settings, Kubectl, kubectl_quiet, reject_loopback, refuse,
}
use stage.Tasks.Triples.{
  Post, Leads, leads, bind, also, branch, settle_lem, raise_lem, pure_lem, modify_lem,
}
use stage.Tasks.Yields.{Given, Yields, yields, first_then, branch_value, pure_yields}

-- A program that does not turn the clock back.
abbrev pub RunsOn : {A : Type 0} → Run A → Type 0
RunsOn m = (t : ℕ) → Leads (λ w. t ≤ w.now) m (λ w. t ≤ w.now) (λ w. Unit)

abbrev pub IsFinal : Option Snapshot → Type 0
IsFinal none = ⊥
IsFinal (some last) = is_final last.status ≡ true

abbrev pub Final : Option Snapshot → World → Type 0
Final o w = IsFinal o

module _ {S : Type 0} (name : Text) (poll_run : ℕ → Run Snapshot) (on_state : S → Snapshot → Run S)
    (deadline : ℕ) (polls_on : (poll : ℕ) → RunsOn (poll_run poll))
    (reports_on : (s : S) (last : Snapshot) → RunsOn (on_state s last)) where
  -- The polls that are left come to an end, if there are any.
  Goes : ℕ → ℕ → Run (Option Snapshot) → Type 0
  Goes zero t rest = Unit
  Goes (suc polls) t rest = Yields (λ w. t + 5 ≤ w.now) rest Final (λ w. Unit)

  at_deadline :
      (polls t : ℕ) (w : World) (e : Text) (rest : Run (Option Snapshot))
      → t ≤ w.now
      → deadline ≤ t + 5 * polls
      → Goes polls t rest
      → Given Final
          (λ w. Unit)
          ((if leb deadline w.now then raise e else sleep poll_seconds >> rest) w)
  unfolding raise sleep modify ◌>>=◌ Goes
  at_deadline zero t w e rest now enough goes =
      let over : leb deadline w.now ≡ true = ground arith in rw over tt
  at_deadline (suc polls) t w e rest now enough goes = elim (Bool-cases (leb deadline w.now)) [
    | inl over ↦ rw over tt
    | inr going ↦ rw going (goes.from (record w { now = w.now + 5 }) (omega arith))
  ]

  once :
      (polls poll t : ℕ) (s : S)
      → deadline ≤ t + 5 * polls
      → ((s' : S) → Goes polls t (wait name poll_run on_state deadline polls (poll + 1) s'))
      → Yields
          (λ w. t ≤ w.now)
          (wait name poll_run on_state deadline (suc polls) poll s)
          Final
          (λ w. Unit)
  unfolding wait ◌>>=◌ get
  once polls poll t s enough goes = first_then (polls_on poll t) λ last.
      first_then (reports_on s last t) λ s'.
        branch_value (is_final last.status) (λ over. pure_yields (some last) λ w h. over)
          λ going. yields λ w h. at_deadline polls t w _ _ h enough (goes s')

  ends_from :
      (polls poll t : ℕ) (s : S)
      → deadline ≤ t + 5 * polls
      → Yields
          (λ w. t ≤ w.now)
          (wait name poll_run on_state deadline (suc polls) poll s)
          Final
          (λ w. Unit)
  unfolding Goes
  ends_from zero poll t s enough = once zero poll t s enough λ s'. tt
  ends_from (suc polls) poll t s enough =
      once (suc polls) poll t s enough λ s'. ends_from polls (poll + 1) (t + 5) s' (omega arith)

-- What each poll does takes time, and no more.
module _ {A : Type 0} where
  waits_ask : (reply : Reply A) → RunsOn (ask reply)
  unfolding ask
  waits_ask reply t = leads λ w h.
      (settle_lem {P = λ w. t ≤ w.now} {R = λ w. Unit} reply.answer λ w h. tt).from
        (record w { now = w.now + reply.took }) (omega arith)

  unreadable_on : (raw : Text) (o : Option A) → RunsOn (unreadable raw o)
  unfolding unreadable
  unreadable_on raw none t = raise_lem _ λ w h. tt
  unreadable_on raw (some a) t = pure_lem a

check_on : (result : RunResult) → RunsOn (check result [])
unfolding check
check_on result t =
    branch result.timed_out (raise_lem _ λ w h. tt)
      (branch (is_zero result.exit_code) (pure_lem tt) (raise_lem _ λ w h. tt))

refuse_on : (settings : Settings) (path : Text) (o : Option Text) → RunsOn (refuse settings path o)
unfolding refuse
refuse_on settings path none t = pure_lem tt
refuse_on settings path (some address) t = raise_lem _ λ w h. tt

reject_on :
    (settings : Settings) (k : Kubeconfig) (t : ℕ)
    → Leads (λ w. t ≤ w.now) (reject_loopback settings k) (λ w. t ≤ w.now) (λ w. Unit)
unfolding reject_loopback
reject_on settings missing t = pure_lem tt
reject_on settings Kubeconfig.unreadable t = pure_lem tt
reject_on settings (holds path text) t = refuse_on settings path (settings.loopback text) t

json_on :
    {A : Type 0} (settings : Settings) (reader : Text → Option A) (k : Kubectl)
    → RunsOn (call_json settings reader k)
unfolding call_json call kubectl_quiet
json_on settings reader k t =
    bind
      (bind
        (bind (waits_ask k.kubeconfig t)
          λ config. also (reject_on settings config t) (waits_ask k.run t))
        λ result. also (check_on result t) (pure_lem result.output))
      λ raw. unreadable_on raw (reader raw) t

read_on :
    (settings : Settings) (outputs : Outputs) (calls : Calls) (declared : List Text) (poll : ℕ)
    → RunsOn (read settings outputs calls declared poll)
unfolding read
read_on settings outputs calls declared poll t =
    bind (json_on settings outputs.run (calls.get_run poll) t) λ run.
      bind (json_on settings outputs.taskruns (calls.get_taskruns poll) t) λ taskruns. pure_lem _

put_on :
    (t : ℕ) (r : Result StepError (List JobStep)) (w : World)
    → t ≤ w.now
    → Post (λ w. t ≤ w.now) (λ w. Unit) (put_steps r w)
unfolding put_steps
put_on t (ok steps) w h = h
put_on t (err e) w h = tt

module _ (job_id : ℕ) (stages : List PipelineStage) (total : ℕ) where
  step_on : (index : ℕ) (name : Text) → RunsOn (step job_id index total name)
  unfolding step say log_line with_jobs
  step_on index name t = also (leads λ w h. put_on t _ w h) (modify_lem _ λ w h. h)

  announce_on :
      (index : ℕ) (name label : Text) (announced : List Text)
      → RunsOn (announce job_id stages total index name label announced)
  unfolding announce
  announce_on index name label announced t =
      branch (is_announced name announced) (pure_lem announced)
        (also (step_on index label t) (pure_lem _))

  begun_on :
      (index : ℕ) (s : StepState) (announced : List Text)
      → RunsOn (report_begun job_id stages total index s announced)
  unfolding report_begun
  begun_on index s announced t = bind (announce_on index s.name _ announced t) λ announced'.
      branch _ (announce_on (push_step_index stages) pushed _ announced' t) (pure_lem announced')

  report_step_on :
      (o : Option ℕ) (s : StepState) (r : Reported) → RunsOn (report_step job_id stages total o s r)
  unfolding report_step
  report_step_on none s r t = pure_lem r
  report_step_on (some index) s r t = branch (is_seen s.name s.status r.seen) (pure_lem r) (
      bind (branch (has_begun s.status) (begun_on index s r.announced t) (pure_lem r.announced))
        λ announced. pure_lem _)

  steps_on : (ss : List StepState) (r : Reported) → RunsOn (report_steps job_id stages total ss r)
  unfolding report_steps
  steps_on [] r t = pure_lem r
  steps_on (s ∷ ss) r t =
      bind (report_step_on (step_index stages s.name) s r t) λ r'. steps_on ss r' t

  report_on : (r : Reported) (last : Snapshot) → RunsOn (report job_id stages total r last)
  unfolding report
  report_on r last = steps_on last.steps r

-- The wait for a run in the cluster comes to an end: whatever the cluster answers, and however long it
-- takes, 481 polls are enough for it to return a snapshot whose status is final, or to raise.
pub wait_ends :
    (settings : Settings) (outputs : Outputs) (calls : Calls) (job_id : ℕ)
    (stages : List PipelineStage) (declared : List Text) (total : ℕ) (r : Reported) (w : World)
    → Given Final
        (λ w'. Unit)
        (wait calls.run_name
          (read settings outputs calls declared)
          (report job_id stages total)
          (w.now + timeout_seconds)
          enough_polls
          0
          r
          w)
wait_ends settings outputs calls job_id stages declared total r w =
    (ends_from calls.run_name (read settings outputs calls declared) (report job_id stages total)
        (w.now + timeout_seconds) (read_on settings outputs calls declared)
        (report_on job_id stages total) 480 0 w.now r (omega arith)).from
      w (omega arith)
