-- ===== src/Tasks/TektonBuild/Concluded.antt =====
-- How a build in the cluster ends: with a run that succeeded, or with an exception.
use stage.Prelude.{
  ℕ, ◌+◌, List, [], ◌∷◌, Option, none, some, find, leb, length, ◌≡◌, refl, sym, ap, ◌∙◌, inl, inr,
  Text, text_eq, codes, zero, suc,
}
use stage.Models.{Deployment, JobStep}
use stage.Config.Stages.{PipelineStage}
use stage.Tekton.{
  Status, pending, skipped, StepState, condition_status, is_final, get_state, by_name,
  or_placeholder, pipeline_steps,
}
use stage.Tekton.Pipeline.{pipeline_task_names}
use stage.Tasks.World.{World, Run, raise, ◌>>=◌}
use stage.Tasks.ProvisionTask.{sleep}
use stage.Tasks.Kubectl.{Settings}
use stage.Tasks.Gates.Kept.{State, Raises, During, set_with}
use stage.Tasks.Ship.Released.{Keeps, Calm, eased, asks, checks, says}
use stage.Tasks.Scan.{Readers}
use stage.Tasks.Triples.{
  Leads, bind, also, branch, starting, ending, pure_lem, raise_lem, modify_lem, get_lem, lastly_any,
}
use stage.Tasks.Yields.{
  Yields, yields, Given, bind_value, chain, first_then, given, given_value, branch_value,
  pure_yields, raise_yields, yielding,
}
use stage.Tasks.Tidy.{Unused}
use stage.Tasks.TektonRun.{
  Outputs, Calls, Snapshot, snapshot, read, wait, Reported, report, is_failed, blocked_by,
  conclude_as, conclude, timeout_seconds, enough_polls,
}
use stage.Tasks.TektonRun.Announced.{OnlyFirst}
use stage.Tasks.TektonRun.Followed.{
  Follows, report_lem, Follows-During, Follows-start, Follows-Raises,
}
use stage.Tasks.TektonBuild.{warn, watch, submitted, clean_up, tekton_build_and_scan}
use stage.Tasks.TektonBuild.Polled.{
  StartsWithClone, BuiltInCluster, IsRead, IsRead-CloneFirst, json_value,
}
use stage.Tasks.TektonBuild.Cleaned.{clean_up_lem}

module _ (settings : Settings) (outputs : Outputs) (calls : Calls) (job_id : ℕ) (d : Deployment)
    (stages : List PipelineStage) (order : StartsWithClone outputs calls) where
  abbrev Followed : Reported → World → Type 0
  Followed = Follows job_id d.id stages (9 + length stages)

  read_lem :
      (U : List JobStep → Type 0) (poll : ℕ)
      → Yields
          (State job_id d.id U)
          (read settings outputs calls (pipeline_task_names stages) poll)
          (λ last w. State job_id d.id U w × IsRead outputs calls stages last)
          (Raises job_id d.id)
  unfolding read
  read_lem U poll = chain (json_value settings job_id d U outputs.run (calls.get_run poll)) λ run.
      given_value λ h.
        chain (json_value settings job_id d U outputs.taskruns (calls.get_taskruns poll))
          λ taskruns. given_value λ k.
            pure_yields (snapshot outputs (pipeline_task_names stages) run taskruns)
              λ w safe. (safe, (poll, run, taskruns, h, k, refl))

  -- One poll, with the report of what it saw.
  poll_lem :
      (r : Reported) (poll : ℕ)
      → Yields
          (Followed r)
          (read settings outputs calls (pipeline_task_names stages) poll)
          (λ last w. Followed r w × IsRead outputs calls stages last)
          (Raises job_id d.id)
  poll_lem r poll = yields go
    where
      go :
          (w : World)
          → Followed r w
          → Given
              (λ last w. Followed r w × IsRead outputs calls stages last)
              (Raises job_id d.id)
              (read settings outputs calls (pipeline_task_names stages) poll w)
      go w (inl (nothing, quiet, h)) =
          (yielding {S = λ last w. Followed r w × IsRead outputs calls stages last}
              (λ last w (h, there). (inl (nothing, quiet, h), there))
              (read_lem (OnlyFirst job_id) poll)).from
            w h
      go w (inr h) =
          (yielding {S = λ last w. Followed r w × IsRead outputs calls stages last}
              (λ last w (h, there). (inr h, there)) (read_lem _ poll)).from
            w h

  -- The state behind the wait, and what its last snapshot says.
  abbrev IsOver : Option Snapshot → Type 0
  IsOver none = Unit
  IsOver (some last) = IsRead outputs calls stages last

  abbrev Behind : World → Type 0
  Behind = During job_id d.id (6 + length stages)

  pause :
      (r : Reported) (seconds : ℕ) {R : World → Type 0}
      → Leads (Followed r) (sleep seconds) (Followed r) R
  unfolding sleep
  pause r seconds = modify_lem _ λ w h. h

  wait_lem :
      (name : Text) (deadline polls poll : ℕ) (r : Reported)
      → Yields
          (Followed r)
          (wait name
            (read settings outputs calls (pipeline_task_names stages))
            (report job_id stages (9 + length stages))
            deadline
            polls
            poll
            r)
          (λ o w. Behind w × IsOver o)
          (Raises job_id d.id)
  unfolding wait
  wait_lem name deadline zero poll r =
      pure_yields none λ w h. (Follows-During job_id d.id stages (9 + length stages) r w h, tt)
  wait_lem name deadline (suc polls) poll r = chain (poll_lem r poll) λ last. given_value λ there.
      chain
        (report_lem job_id d.id stages (9 + length stages) r last
          (IsRead-CloneFirst outputs calls stages last order there))
        λ r'.
          branch_value (is_final last.status)
            (λ over.
              pure_yields (some last)
                λ w h. (Follows-During job_id d.id stages (9 + length stages) r' w h, there))
            (λ running. first_then (get_lem {P = Followed r'}) λ w.
              branch_value (leb deadline w.now)
                (λ late.
                  raise_yields _
                    λ w h. Follows-Raises job_id d.id stages (9 + length stages) r' w h)
                (λ early. first_then (pause r' 5) λ _. wait_lem name deadline polls (poll + 1) r'))

  blocked_lem :
      (image_ref : Text) (o : Option StepState)
      → Leads Behind (blocked_by d.id image_ref o) Behind (Raises job_id d.id)
  unfolding blocked_by
  blocked_lem image_ref none = pure_lem tt
  blocked_lem image_ref (some s) =
      branch (text_eq s.name (codes "scan"))
        (set_with job_id d.id (Unused job_id (6 + length stages)) "blocked" (some image_ref) none)
        (pure_lem tt)

  abbrev Concludes : Run (Unit {0}) → Type 0
  Concludes m = Leads Behind m (λ w. Behind w × BuiltInCluster outputs calls) (Raises job_id d.id)

  bad_lem :
      (image_ref text : Text) (o : Option StepState)
      → Concludes (blocked_by d.id image_ref o >>= λ _. raise text)
  bad_lem image_ref text o = also (blocked_lem image_ref o) (raise_lem text λ w h. h.0)

  as_lem :
      (status : Status) (image_ref : Text) (last : Snapshot)
      → (status ≡ Status.succeeded → BuiltInCluster outputs calls)
      → Concludes (conclude_as status calls job_id d image_ref stages last)
  unfolding conclude_as
  as_lem Status.cancelled image_ref last built = raise_lem _ λ w h. h.0
  as_lem Status.succeeded image_ref last built =
      ending (λ w h. (h, built refl)) (says job_id d.id (Unused job_id (6 + length stages)) _)
  as_lem _ image_ref last built = bad_lem image_ref _ (find is_failed last.steps)

  conclude_lem :
      (image_ref : Text) (o : Option Snapshot)
      → IsOver o
      → Concludes (conclude calls job_id d image_ref stages o)
  unfolding conclude
  conclude_lem image_ref none over = raise_lem _ λ w h. h.0
  conclude_lem image_ref (some last) (poll, run, taskruns, h, k, e) =
      as_lem last.status image_ref last λ done. (poll, run, h, status run taskruns e done)
    where
      status :
          (run : stage.Tekton.Run) (taskruns : List stage.Tekton.Run)
          → last ≡ snapshot outputs (pipeline_task_names stages) run taskruns
          → last.status ≡ Status.succeeded
          → condition_status run ≡ Status.succeeded
      status run taskruns e done = unfold snapshot in sym (ap (λ (x : Snapshot). x.status) e) ∙ done

  watch_lem :
      (image_ref : Text)
      → Leads
          (State job_id d.id (OnlyFirst job_id))
          (watch settings outputs calls job_id d image_ref stages)
          (λ w. Behind w × BuiltInCluster outputs calls)
          (Raises job_id d.id)
  unfolding watch
  watch_lem image_ref = bind (get_lem {P = State job_id d.id (OnlyFirst job_id)}) λ w.
      starting (λ w h. Follows-start job_id d.id stages (9 + length stages) w h)
        (bind_value (wait_lem calls.run_name (w.now + timeout_seconds) enough_polls 0 _)
          λ o. given λ over. conclude_lem image_ref o over)

warn_lem :
    (job_id : ℕ) (d : Deployment) (U : List JobStep → Type 0) (text : Text)
    → Keeps job_id d.id U (warn job_id text)
unfolding warn
warn_lem job_id d U [] = pure_lem tt
warn_lem job_id d U (c ∷ s) = says job_id d.id U (c ∷ s)

-- A build in the cluster returns only where the run was read as one that succeeded.
pub tekton_lem :
    (settings : Settings) (outputs : Outputs) (calls : Calls) (readers : Readers) (job_id : ℕ)
    (scan_ids : ℕ × ℕ × ℕ) (ns : Text) (d : Deployment) (image_ref : Text)
    (stages : List PipelineStage) (dockerfile : Text)
    → StartsWithClone outputs calls
    → Leads
        (State job_id d.id (OnlyFirst job_id))
        (tekton_build_and_scan settings outputs calls readers job_id scan_ids ns d image_ref stages
          dockerfile)
        (λ w. During job_id d.id (6 + length stages) w × BuiltInCluster outputs calls)
        (Raises job_id d.id)
unfolding tekton_build_and_scan
tekton_lem settings outputs calls readers job_id scan_ids ns d image_ref stages dockerfile order =
    also (warn_lem job_id d U _) (
      bind (asks job_id d.id U calls.kubeconfig) λ kubeconfig.
        bind
          (asks job_id d.id U
            (calls.apply_manifest (submitted calls ns d image_ref stages dockerfile)))
          λ applied. also (checks job_id d.id U applied []) (
            also (says job_id d.id U _) (
              also (set_with job_id d.id U "building" none none) (
                lastly_any (watch_lem settings outputs calls job_id d stages order image_ref)
                  (given λ built. ending (λ w h. (h, built)) (eased job_id d.id V (clean V)))
                  (starting (λ w h. (h, tt))
                    (ending (λ w h. h.0)
                      (eased job_id d.id (λ steps. Unit) (clean (λ steps. Unit)))))))))
  where
    U : List JobStep → Type 0
    U = OnlyFirst job_id

    V : List JobStep → Type 0
    V = Unused job_id (6 + length stages)

    clean :
        (W : List JobStep → Type 0)
        → Calm job_id d.id W (clean_up settings outputs calls readers scan_ids d image_ref)
    clean W = clean_up_lem settings outputs calls readers job_id d W scan_ids image_ref
