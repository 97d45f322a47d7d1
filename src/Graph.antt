-- ===== src/Graph.antt =====
-- core/pipeline_graph.py and workers/steps.py: the pipeline graph of a job.
pub mod Templates
pub mod Slug
pub mod Nodes
pub mod Settled
use stage.Prelude.{
  ℕ, zero, suc, ◌+◌, ◌-◌, String, List, [], ◌∷◌, ◌++◌, Option, none, some, Bool, true, false, not,
  ◌&&◌, ◌==◌, leb, ltb, str_eq, if◌then◌else◌, by_key, Text, length, take,
}
use stage.Prelude.{codes, str, max, get_or, is_space, strip}
use stage.Models.{Job, JobStatus, JobType, JobStep, StepStatus, Project}
use stage.Graph.Templates.{max_by, or_template, pick_template, template_by_total}
use stage.Graph.Slug.{slugify}

-- The graph vocabulary.
pub data NodeStatus : Type 0 where
  pending running succeeded failed cancelled skipped : NodeStatus

abbrev pub job_graph_status : JobStatus → NodeStatus
job_graph_status JobStatus.queued = pending
job_graph_status JobStatus.running = running
job_graph_status JobStatus.succeeded = succeeded
job_graph_status JobStatus.failed = failed
job_graph_status JobStatus.cancelled = cancelled
job_graph_status JobStatus.interrupted = failed

abbrev pub row_status : StepStatus → NodeStatus
row_status StepStatus.running = running
row_status StepStatus.succeeded = succeeded
row_status StepStatus.failed = failed

-- `_TERMINAL` of this module: unlike the workers' tuple it has `interrupted`.
abbrev pub is_over : JobStatus → Bool
is_over JobStatus.queued = false
is_over JobStatus.running = false
is_over _ = true

-- The status of the step that the job is at.
abbrev pub current_status : JobStatus → NodeStatus
current_status JobStatus.queued = running
current_status JobStatus.running = running
current_status JobStatus.succeeded = succeeded
current_status JobStatus.cancelled = cancelled
current_status _ = failed

unfoldable pub positional : ℕ → ℕ → JobStatus → NodeStatus
positional index current job_status =
    if ltb index current
    then succeeded
    else if ltb current index
    then if is_over job_status then skipped else pending
    else current_status job_status

abbrev is_running : StepStatus → Bool
is_running StepStatus.running = true
is_running _ = false

unfoldable pub node_status : ℕ → ℕ → JobStatus → Option JobStep → NodeStatus
unfolding positional
node_status index current job_status none = positional index current job_status
node_status index current job_status (some row) =
    if is_running row.status then positional index current job_status else row_status row.status

-- max(0.0, finished - started)
abbrev pub duration_s : Option ℕ → Option ℕ → Option ℕ
duration_s (some started) (some finished) = some (finished - started)
duration_s _ _ = none

pub record Node : Type 0 where
  pub id : Text
  pub label : Text
  pub status : NodeStatus
  pub started_at : Option ℕ
  pub finished_at : Option ℕ
  pub duration : Option ℕ
  pub detail : Text
  pub depends_on : List Text

abbrev pub row_at : List JobStep → ℕ → Option JobStep
row_at rows i = by_key (λ (r : JobStep). r.step_index) rows i

-- f"step {i} of {declared_total}"
step_of : ℕ → ℕ → Text
unfolding str
step_of i total = codes "step " ++ str i ++ codes " of " ++ str total

-- The label of a step with no row, for the number of stages that the repository adds.
unfoldable pub template_label : List Text → ℕ → ℕ → Text
unfolding step_of
template_label template declared_total i =
    let extra = declared_total - length template in
    let unknown = step_of i declared_total in
    let shifted =
      if leb i 3
      then get_or template (i - 1) unknown
      else if ltb (i - 1) extra
      then unknown
      else get_or template (i - 1 - extra) unknown in
    if not (extra == 0) && (ltb 3 i && leb i (3 + extra)) then unknown else shifted

unfoldable pub label_of : List Text → ℕ → ℕ → Option JobStep → Text
unfolding template_label
label_of template declared_total i none = template_label template declared_total i
label_of template declared_total i (some row) = row.name

abbrev is_failed : NodeStatus → Bool
is_failed failed = true
is_failed _ = false

-- `row.error_message[:200]` where the row has one and the node failed.
unfoldable pub detail_of : NodeStatus → Option JobStep → Text
detail_of status none = []
detail_of status (some row) =
    if is_failed status then elim row.error_message [ none ↦ [] | some e ↦ take 200 e ] else []

abbrev pub started_of : Option JobStep → Option ℕ
started_of none = none
started_of (some row) = row.started_at

abbrev pub finished_of : Option JobStep → Option ℕ
finished_of none = none
finished_of (some row) = row.finished_at

-- `[nodes[-1]["id"]] if nodes else []`, by the node before.
abbrev pub after : Option Text → List Text
after none = []
after (some id) = id ∷ []

-- One round of the loop over the step numbers.
unfoldable pub make_node : Text → NodeStatus → Option JobStep → List Text → Option Text → Node
unfolding slugify detail_of
make_node label status row taken previous = record {
  id = slugify label taken;
  label = label;
  status = status;
  started_at = started_of row;
  finished_at = finished_of row;
  duration = duration_s (started_of row) (finished_of row);
  detail = detail_of status row;
  depends_on = after previous;
}

module _ (label : ℕ → Text) (status : ℕ → NodeStatus) (row : ℕ → Option JobStep) where
  -- `for i in range(i, i + count)`, with the ids taken and the id of the node before.
  unfoldable pub nodes_from : ℕ → ℕ → List Text → Option Text → List Node
  unfolding make_node
  nodes_from zero i taken previous = []
  nodes_from (suc count) i taken previous =
      let node = make_node (label i) (status i) (row i) taken previous in
      node ∷ nodes_from count (i + 1) (node.id ∷ taken) (some node.id)

-- `job.log`'s markers as `_LOG_STEP_RE.finditer` gives them: index, total and name.
abbrev pub Marker : Type 0
Marker = ℕ × ℕ × Text

-- `out[n] = (total, name)`, kept sorted by n.
unfoldable pub put_marker : ℕ → ℕ → Text → List Marker → List Marker
put_marker n total name [] = (n, total, name) ∷ []
put_marker n total name ((m, t, x) ∷ rest) =
    if ltb n m
    then (n, total, name) ∷ (m, t, x) ∷ rest
    else if n == m
    then (n, total, name) ∷ rest
    else (m, t, x) ∷ put_marker n total name rest

collect : List Marker → List Marker → List Marker
unfolding put_marker strip is_space
collect out [] = out
collect out ((n, total, name) ∷ rest) = collect (put_marker n total (strip is_space name) out) rest

unfoldable pub parse_log_stages : List Marker → List Marker
unfolding collect
parse_log_stages found = collect [] found

unfoldable pub marker_at : List Marker → ℕ → Option Text
marker_at [] i = none
marker_at ((n, total, name) ∷ rest) i = if n == i then some name else marker_at rest i

unfoldable pub max_total : List Marker → ℕ
max_total [] = 0
max_total ((n, total, name) ∷ rest) = max total (max_total rest)

unfoldable pub max_index : List Marker → ℕ
max_index [] = 0
max_index ((n, total, name) ∷ rest) = max n (max_index rest)

-- How many rounds the loop makes before its `break`.
unfoldable pub rounds_before_break : List Marker → ℕ → ℕ → ℕ → ℕ
unfolding marker_at
rounds_before_break parsed template_length zero i = 0
rounds_before_break parsed template_length (suc count) i =
    let rest = suc (rounds_before_break parsed template_length count (i + 1)) in
    elim (marker_at parsed i) [
      | some name ↦ rest
      | none ↦ if ltb template_length i then 0 else rest
    ]

marker_label : List Marker → List Text → ℕ → Text
unfolding marker_at
marker_label parsed template i = elim (marker_at parsed i) [
  | some name ↦ name
  | none ↦ get_or template (i - 1) []
]

log_template : JobType → ℕ → List Text → List Text
unfolding template_by_total
log_template JobType.provision total template = or_template (template_by_total total) template
log_template _ total template = template

text_or_empty : Option Text → Text
text_or_empty none = []
text_or_empty (some t) = t

-- The labels of the job types, as the column holds them.
abbrev pub type_name : JobType → Text
type_name JobType.provision = codes "provision"
type_name JobType.destroy = codes "destroy"
type_name JobType.configure = codes "configure"
type_name JobType.scan = codes "scan"
type_name JobType.deploy = codes "deploy"
type_name JobType.undeploy = codes "undeploy"

unfoldable pub job_node : Job → Node
unfolding text_or_empty
job_node job = record {
  id = codes "job";
  label = type_name job.type;
  status = job_graph_status job.status;
  started_at = job.started_at;
  finished_at = job.finished_at;
  duration = duration_s job.started_at job.finished_at;
  detail = text_or_empty job.error_message;
  depends_on = [];
}

-- What the two loops of `job_graph` make of each step number, and how often they run.
pub record Plan : Type 0 where
  pub label : ℕ → Text
  pub status : ℕ → NodeStatus
  pub row : ℕ → Option JobStep
  pub count : ℕ

unfoldable pub run_plan : Plan → List Node
unfolding nodes_from
run_plan plan = nodes_from plan.label plan.status plan.row plan.count 1 [] none

-- The loop over the recorded rows.
unfoldable pub row_plan : Job → List JobStep → Option Project → Plan
unfolding node_status label_of max_by pick_template
row_plan job rows project =
    let template = pick_template job.type rows project in
    let current = max_by (λ r. r.step_index) rows in
    let declared_total = max_by (λ r. r.step_total) rows in
    record {
      label = λ i. label_of template declared_total i (row_at rows i);
      status = λ i. node_status i current job.status (row_at rows i);
      row = row_at rows;
      count = max (length template) declared_total;
    }

-- The loop over the markers of the log.
unfoldable pub log_plan : Job → List Marker → Option Project → Plan
unfolding node_status max_total max_index rounds_before_break marker_label log_template
    pick_template
log_plan job parsed project =
    let total = max_total parsed in
    let current = max_index parsed in
    let template = log_template job.type total (pick_template job.type [] project) in
    record {
      label = marker_label parsed template;
      status = λ i. node_status i current job.status none;
      row = λ i. none;
      count = rounds_before_break parsed (length template) total 1;
    }

unfoldable pub log_or_job_nodes : Job → List Marker → Option Project → List Node
unfolding log_plan job_node
log_or_job_nodes job [] project = job_node job ∷ []
log_or_job_nodes job (m ∷ parsed) project = run_plan (log_plan job (m ∷ parsed) project)

unfoldable pub nodes_of : Job → List JobStep → List Marker → Option Project → List Node
unfolding row_plan log_or_job_nodes parse_log_stages
nodes_of job [] found project = log_or_job_nodes job (parse_log_stages found) project
nodes_of job (r ∷ rows) found project = run_plan (row_plan job (r ∷ rows) project)
