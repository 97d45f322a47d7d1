-- ===== src/Tasks/TektonBuild/Polled.antt =====
-- What is read from the cluster while a run is followed.
use stage.Prelude.{
  ℕ, ◌+◌, List, [], ◌∷◌, Option, none, some, Bool, true, ◌≡◌, refl, sym, subst, arith, Text, codes,
  ok, All, map,
}
use stage.Models.{Deployment, JobStep}
use stage.Config.Stages.{PipelineStage}
use stage.Tekton.{
  Status, pending, skipped, StepState, condition_status, is_final, get_state, by_name,
  or_placeholder, pipeline_steps,
}
use stage.Tekton.Steps.{get_state-name}
use stage.Tekton.Pipeline.{pipeline_task_names, stage_names}
use stage.Tasks.World.{Run, Reply, ask}
use stage.Tasks.Calls.{RunResult}
use stage.Tasks.Kubectl.{Settings, Kubectl}
use stage.Tasks.Gates.Kept.{State, Raises}
use stage.Tasks.Ship.Released.{Calm, eased, asks, checks, quiet_lem, reject_lem}
use stage.Tasks.Triples.{bind, also, pure_lem, raise_lem}
use stage.Tasks.Yields.{
  Yields, yields, chain, first_then, settle_value, given_value, pure_yields, raise_yields, yielding,
}
use stage.Tasks.Tidy.{check-IsWith}
use stage.Tasks.TektonRun.{
  Outputs, Calls, Snapshot, call, unreadable, call_json, snapshot, has_begun,
}
use stage.Tasks.TektonRun.Followed.{CloneFirst}

-- kubectl returned, succeeded, and what it printed was read as this value.
abbrev pub WasRead : {A : Type 0} → Kubectl → (Text → Option A) → A → Type 0
WasRead k reader a = (raw : RunResult) × (k.run.answer ≡ ok raw) × (reader raw.output ≡ some a)

-- Tekton starts the clone first: where a task of a run has begun, its clone has.
abbrev pub StartsWithClone : Outputs → Calls → Type 0
StartsWithClone outputs calls =
    (poll : ℕ) (taskruns : List stage.Tekton.Run)
    → WasRead (calls.get_taskruns poll) outputs.taskruns taskruns
    → (name : Text) (s : StepState)
    → get_state name (by_name outputs.parse_time [] taskruns) ≡ some s
    → has_begun s.status ≡ true
    → (c : StepState) × (get_state (codes "clone") (by_name outputs.parse_time [] taskruns)
        ≡ some c)
      × (has_begun c.status ≡ true)

-- The run was read as one that succeeded.
abbrev pub BuiltInCluster : Outputs → Calls → Type 0
BuiltInCluster outputs calls =
    (poll : ℕ) × (run : stage.Tekton.Run) × WasRead (calls.get_run poll) outputs.run run
    × (condition_status run ≡ Status.succeeded)

-- A snapshot is what a poll has read.
abbrev pub IsRead : Outputs → Calls → List PipelineStage → Snapshot → Type 0
IsRead outputs calls stages last =
    (poll : ℕ) × (run : stage.Tekton.Run) × (taskruns : List stage.Tekton.Run) × WasRead
      (calls.get_run poll) outputs.run run
    × WasRead (calls.get_taskruns poll) outputs.taskruns taskruns
    × (last ≡ snapshot outputs (pipeline_task_names stages) run taskruns)

module _ (outputs : Outputs) (terminal : Bool) (taskruns : List stage.Tekton.Run) where
  abbrev state_at : Text → Option StepState
  state_at name = get_state name (by_name outputs.parse_time [] taskruns)

  abbrev shown : Text → StepState
  shown name = or_placeholder outputs.parse_time terminal name (state_at name)

  shown_name :
      (name : Text) (o : Option StepState)
      → state_at name ≡ o
      → (or_placeholder outputs.parse_time terminal name o).name ≡ name
  shown_name name none e = refl
  shown_name name (some s) e = get_state-name name (by_name outputs.parse_time [] taskruns) s e

  module _
      (order : (name : Text) (s : StepState)
        → state_at name ≡ some s
        → has_begun s.status ≡ true
        → (c : StepState) × (state_at (codes "clone") ≡ some c) × (has_begun c.status ≡ true)) where
    begun_after :
        (name : Text) (o : Option StepState)
        → state_at name ≡ o
        → has_begun (or_placeholder outputs.parse_time terminal name o).status ≡ true
        → has_begun (shown (codes "clone")).status ≡ true
    begun_after name none e h = absurd (ground arith)
    begun_after name (some s) e h = let (c, there, begun) = order name s e h in rw there begun

    All-after :
        (names : List Text)
        → All
            (λ (s : StepState).
              has_begun s.status ≡ true → has_begun (shown (codes "clone")).status ≡ true)
            (map shown names)
    All-after [] = tt
    All-after (name ∷ names) = (begun_after name (state_at name) refl, All-after names)

-- So the clone comes first in every snapshot.
pub IsRead-CloneFirst :
    (outputs : Outputs) (calls : Calls) (stages : List PipelineStage) (last : Snapshot)
    → StartsWithClone outputs calls
    → IsRead outputs calls stages last
    → CloneFirst last.steps
unfolding snapshot pipeline_steps pipeline_task_names
IsRead-CloneFirst outputs calls stages last order (poll, run, taskruns, _, read_taskruns, e) =
    let terminal = is_final (condition_status run) in
    subst (λ (x : Snapshot). CloneFirst x.steps) (sym e)
      (
        shown_name outputs terminal taskruns (codes "clone") _ refl,
        All-after outputs terminal taskruns (order poll taskruns read_taskruns)
            (codes "secret-scan" ∷ codes "dependency-scan" ∷ stage_names 1 stages),
      )

module _ (settings : Settings) (job_id : ℕ) (d : Deployment) (U : List JobStep → Type 0) where
  abbrev Stays : {A : Type 0} → Run A → Type 0
  Stays = Calm job_id d.id U

  pub call_lem : (k : Kubectl) → Stays (call settings k)
  unfolding call
  call_lem k =
      bind (quiet_lem job_id d.id U settings k)
        λ result. also (check-IsWith job_id _ U result [] λ w h. h) (pure_lem result.output)

  unreadable_lem : {A : Type 0} (raw : Text) (o : Option A) → Stays (unreadable raw o)
  unfolding unreadable
  unreadable_lem raw none = raise_lem _ λ w h. h
  unreadable_lem raw (some a) = pure_lem a

  pub json_lem :
      {A : Type 0} (reader : Text → Option A) (k : Kubectl) → Stays (call_json settings reader k)
  unfolding call_json
  json_lem reader k = bind (call_lem k) λ raw. unreadable_lem raw (reader raw)

  ask_value :
      {A : Type 0} (reply : Reply A)
      → Yields
          (State job_id d.id U)
          (ask reply)
          (λ a w. State job_id d.id U w × (reply.answer ≡ ok a))
          (Raises job_id d.id)
  unfolding ask
  ask_value reply =
      yields λ w h.
        (settle_value reply.answer (λ w h. h.0)).from (record w { now = w.now + reply.took }) h

  quiet_value :
      (k : Kubectl)
      → Yields
          (State job_id d.id U)
          (stage.Tasks.Kubectl.kubectl_quiet settings k)
          (λ r w. State job_id d.id U w × (k.run.answer ≡ ok r))
          (Raises job_id d.id)
  unfolding stage.Tasks.Kubectl.kubectl_quiet
  quiet_value k = first_then (asks job_id d.id U k.kubeconfig) λ config.
      first_then (eased job_id d.id U (reject_lem job_id d.id U settings config))
        λ _. ask_value k.run

  unreadable_value :
      {A : Type 0} (raw : Text) (o : Option A)
      → Yields
          (State job_id d.id U)
          (unreadable raw o)
          (λ a w. State job_id d.id U w × (o ≡ some a))
          (Raises job_id d.id)
  unfolding unreadable
  unreadable_value raw none = raise_yields _ λ w h. h.0
  unreadable_value raw (some a) = pure_yields a λ w h. (h, refl)

  pub json_value :
      {A : Type 0} (reader : Text → Option A) (k : Kubectl)
      → Yields
          (State job_id d.id U)
          (call_json settings reader k)
          (λ a w. State job_id d.id U w × WasRead k reader a)
          (Raises job_id d.id)
  unfolding call_json call
  json_value reader k =
      chain
        {Q = λ raw w.
          State job_id d.id U w × ((r : RunResult) × (k.run.answer ≡ ok r) × (r.output ≡ raw))}
        (chain (quiet_value k) λ r. given_value λ e.
          first_then (checks job_id d.id U r []) λ _. pure_yields r.output λ w h. (h, (r, e, refl)))
        λ raw. given_value λ (r, e, same).
          yielding (λ a w (h, there). (h, (r, e, subst (λ t. reader t ≡ some a) (sym same) there)))
            (unreadable_value raw (reader raw))
