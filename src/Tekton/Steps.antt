-- ===== src/Tekton/Steps.antt =====
-- Which steps a Tekton run is shown with.
use stage.Prelude.{
  Text, ℕ, String, List, [], ◌∷◌, Option, none, some, Bool, not, ◌&&◌, text_eq, text_eq_iff, map,
  if◌then◌else◌, ◌≡◌, refl, arith, ap, ◌∙◌, Option-cases, inl, inr,
}
use stage.Tekton.{
  Status, Run, StepState, condition_status, is_final, put_state, get_state, taskrun_state, by_name,
  or_placeholder, pipeline_steps,
}

get_state-put :
    (s : StepState) (states : List StepState) (name : Text)
    → get_state name (put_state s states)
      ≡ (if text_eq s.name name then some s else get_state name states)
unfolding get_state put_state
get_state-put s [] name = refl
get_state-put s (x ∷ xs) name = ground (
  arith,
  get_state-put s xs name,
  text_eq_iff x.name s.name,
  text_eq_iff x.name name,
  text_eq_iff s.name name,
)

pub get_state-name :
    (name : Text) (states : List StepState) (s : StepState)
    → get_state name states ≡ some s
    → s.name ≡ name
unfolding get_state
get_state-name name [] s e = ground arith
get_state-name name (x ∷ xs) s e = ground (arith, get_state-name name xs s, text_eq_iff x.name name)

module _ (parse_time : String → Option ℕ) where
  -- The last TaskRun of a name, in the order in which they are given.
  unfoldable pub latest : Text → List Run → Option StepState
  latest name [] = none
  latest name (t ∷ taskruns) =
      let s = taskrun_state parse_time t in
      elim (latest name taskruns) [
        | some later ↦ some later
        | none ↦ if not (text_eq s.name []) && text_eq s.name name then some s else none
      ]

  abbrev or_state : Option StepState → Option StepState → Option StepState
  or_state none b = b
  or_state (some a) b = some a

  get_state-by_name :
      (name : Text) (taskruns : List Run) (states : List StepState)
      → get_state name (by_name parse_time states taskruns)
        ≡ or_state (latest name taskruns) (get_state name states)
  unfolding by_name latest
  get_state-by_name name [] states = refl
  get_state-by_name name (t ∷ taskruns) states =
      let s = taskrun_state parse_time t in
      ground (
        arith,
        get_state-by_name name taskruns (put_state s states),
        get_state-by_name name taskruns states,
        get_state-put s states name,
      )

  -- A task without a TaskRun, in a run of a status.
  abbrev pub missing_status : Status → Status
  missing_status Status.succeeded = Status.skipped
  missing_status Status.failed = Status.skipped
  missing_status Status.cancelled = Status.skipped
  missing_status Status.skipped = Status.pending
  missing_status Status.pending = Status.pending
  missing_status Status.running = Status.pending

  -- What is shown for a name, by the last TaskRun of it.
  abbrev pub shown_state : Status → Text → Option StepState → StepState
  shown_state status name (some s) = s
  shown_state status name none = record {
    name = name;
    status = missing_status status;
    started_at = none;
    finished_at = none;
    error_message = none;
  }

  shown_eq :
      (status : Status) (name : Text) (o : Option StepState)
      → or_placeholder parse_time (is_final status) name o ≡ shown_state status name o
  shown_eq status name (some s) = refl
  shown_eq Status.succeeded name none = refl
  shown_eq Status.failed name none = refl
  shown_eq Status.cancelled name none = refl
  shown_eq Status.skipped name none = refl
  shown_eq Status.pending name none = refl
  shown_eq Status.running name none = refl

  module _ (pipelinerun : Run) (taskruns : List Run) where
    abbrev terminal : Bool
    terminal = is_final (condition_status pipelinerun)

    found : (name : Text) → get_state name (by_name parse_time [] taskruns) ≡ latest name taskruns
    unfolding get_state
    found name = elim (Option-cases (latest name taskruns)) [
      | inl absent ↦ ground (arith, get_state-by_name name taskruns [])
      | inr (s, there) ↦ ground (arith, get_state-by_name name taskruns [])
    ]

    shown_name :
        (name : Text) (o : Option StepState)
        → get_state name (by_name parse_time [] taskruns) ≡ o
        → (or_placeholder parse_time terminal name o).name ≡ name
    shown_name name none e = refl
    shown_name name (some s) e = get_state-name name (by_name parse_time [] taskruns) s e

    rows_lem :
        (declared : List Text)
        → (map (λ (s : StepState). s.name) (pipeline_steps parse_time pipelinerun taskruns declared)
            ≡ declared)
          × (pipeline_steps parse_time pipelinerun taskruns declared
              ≡ map
                  (λ name. or_placeholder parse_time terminal name (latest name taskruns))
                  declared)
    unfolding pipeline_steps
    rows_lem [] = (refl, refl)
    rows_lem (name ∷ declared) =
        let (names, states) = rows_lem declared in
        (
          rw (shown_name name (get_state name (by_name parse_time [] taskruns)) refl)
              (ap (λ (xs : List Text). name ∷ xs) names),
          rw (found name) (
              ap
                (λ (xs : List StepState).
                  or_placeholder parse_time terminal name (latest name taskruns) ∷ xs)
                states),
        )

    states_lem :
        (declared : List Text)
        → map (λ name. or_placeholder parse_time terminal name (latest name taskruns)) declared
          ≡ map
              (λ name. shown_state (condition_status pipelinerun) name (latest name taskruns))
              declared
    states_lem [] = refl
    states_lem (name ∷ declared) =
        rw (shown_eq (condition_status pipelinerun) name (latest name taskruns)) (
          ap
            (λ (xs : List StepState).
              shown_state (condition_status pipelinerun) name (latest name taskruns) ∷ xs)
            (states_lem declared))

    -- Every declared task is shown once, in the declared order and under its own name, whatever TaskRuns
    -- there are: with the state of the last TaskRun of that name, or, where there is none, with no times,
    -- as skipped if the run has succeeded, failed or was cancelled, and as pending if not.
    pub pipeline_steps_lem :
        (declared : List Text)
        → (map (λ (s : StepState). s.name) (pipeline_steps parse_time pipelinerun taskruns declared)
            ≡ declared)
          × (pipeline_steps parse_time pipelinerun taskruns declared
              ≡ map
                  (λ name. shown_state (condition_status pipelinerun) name (latest name taskruns))
                  declared)
    pipeline_steps_lem declared =
        let (names, states) = rows_lem declared in (names, states ∙ states_lem declared)
