-- ===== src/Tekton.antt =====
-- core/tekton_status.py: the status of a Tekton run in the words of the graph. An object of the Tekton
-- API is a record of the fields that are read, with their defaults where they are missing.
pub mod Steps
pub mod Pipeline
use stage.Prelude.{
  ℕ, String, List, [], ◌∷◌, Option, none, some, Bool, true, false, ◌||◌, str_eq, find, map,
  if◌then◌else◌, Text, text_eq, or_text,
}

pub data Status : Type 0 where
  pending running succeeded failed cancelled skipped : Status

pub record Condition : Type 0 where
  pub type : String
  pub status : Option String
  pub reason : String
  pub message : Option Text

-- A PipelineRun or a TaskRun: its conditions, the label `tekton.dev/pipelineTask` and its name.
pub record Run : Type 0 where
  pub conditions : List Condition
  pub start_time : Option String
  pub completion_time : Option String
  pub pipeline_task : Option Text
  pub name : Text

pub record StepState : Type 0 where
  pub name : Text
  pub status : Status
  pub started_at : Option ℕ
  pub finished_at : Option ℕ
  pub error_message : Option Text

unfoldable pub is_one_of : String → List String → Bool
is_one_of s [] = false
is_one_of s (x ∷ xs) = str_eq s x || is_one_of s xs

abbrev pub cancelled_reasons : List String
cancelled_reasons =
    "Cancelled" ∷ "TaskRunCancelled" ∷ "PipelineRunCancelled" ∷ "StoppedRunFinally"
    ∷ "CancelledRunFinally" ∷ []

abbrev pub pending_reasons : List String
pending_reasons = "Pending" ∷ "Started" ∷ "PipelineRunPending" ∷ "TaskRunPending" ∷ []

-- `_condition`, with the empty mapping as `none`.
abbrev pub condition_of : Run → Option Condition
condition_of run = find (λ (c : Condition). str_eq c.type "Succeeded") run.conditions

unfoldable pub status_of : Option String → String → Status
unfolding is_one_of
status_of none reason = pending
status_of (some status) reason =
    if str_eq status "True"
    then succeeded
    else if str_eq status "False"
    then if is_one_of reason cancelled_reasons then cancelled else failed
    else if str_eq status "Unknown"
    then if is_one_of reason cancelled_reasons
      then cancelled
      else if is_one_of reason pending_reasons
      then pending
      else running
    else pending

unfoldable pub condition_status : Run → Status
unfolding status_of
condition_status run = elim (condition_of run) [
  | none ↦ pending
  | some c ↦ status_of c.status c.reason
]

abbrev pub is_bad : Status → Bool
is_bad failed = true
is_bad cancelled = true
is_bad _ = false

abbrev pub is_final : Status → Bool
is_final succeeded = true
is_final failed = true
is_final cancelled = true
is_final _ = false

abbrev message_of : Option Condition → Option Text
message_of none = none
message_of (some c) = c.message

-- `label or name`
name_of : Option Text → Text → Text
name_of none name = name
name_of (some label) name = or_text label name

-- `by_name`, a dictionary: an assignment replaces the entry of its key.
unfoldable pub put_state : StepState → List StepState → List StepState
put_state s [] = s ∷ []
put_state s (x ∷ xs) = if text_eq x.name s.name then s ∷ xs else x ∷ put_state s xs

unfoldable pub get_state : Text → List StepState → Option StepState
get_state name [] = none
get_state name (x ∷ xs) = if text_eq x.name name then some x else get_state name xs

-- `datetime.fromisoformat` is a parameter: `none` where `_parse_time` gives None.
module _ (parse_time : String → Option ℕ) where
  abbrev time_of : Option String → Option ℕ
  time_of none = none
  time_of (some value) = if str_eq value "" then none else parse_time value

  unfoldable pub taskrun_state : Run → StepState
  unfolding condition_status name_of
  taskrun_state taskrun =
      let state = condition_status taskrun in
      record {
        name = name_of taskrun.pipeline_task taskrun.name;
        status = state;
        started_at = time_of taskrun.start_time;
        finished_at = time_of taskrun.completion_time;
        error_message = if is_bad state then message_of (condition_of taskrun) else none;
      }

  -- The loop over the TaskRuns; a state without a name is left out.
  unfoldable pub by_name : List StepState → List Run → List StepState
  unfolding put_state taskrun_state
  by_name states [] = states
  by_name states (t ∷ taskruns) =
      let s = taskrun_state t in
      by_name (if text_eq s.name [] then states else put_state s states) taskruns

  abbrev pub placeholder : Bool → Text → StepState
  placeholder terminal name = record {
    name = name;
    status = if terminal then skipped else pending;
    started_at = none;
    finished_at = none;
    error_message = none;
  }

  abbrev pub or_placeholder : Bool → Text → Option StepState → StepState
  or_placeholder terminal name none = placeholder terminal name
  or_placeholder terminal name (some s) = s

  unfoldable pub pipeline_steps : Run → List Run → List Text → List StepState
  unfolding condition_status by_name get_state
  pipeline_steps pipelinerun taskruns declared =
      let terminal = is_final (condition_status pipelinerun) in
      let states = by_name [] taskruns in
      map (λ name. or_placeholder terminal name (get_state name states)) declared
