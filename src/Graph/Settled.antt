-- ===== src/Graph/Settled.antt =====
-- The statuses of a graph follow the job: a job that is over shows no step as waiting, and a step that is
-- shown as running or waiting belongs to a job that is not over.
use stage.Prelude.{
  ℕ, zero, suc, ◌+◌, List, [], ◌∷◌, Option, none, some, true, ◌≡◌, arith, All, ◌≢◌, Text,
}
use stage.Models.{Job, JobStatus, JobStep, Project}
use stage.Graph.{
  Node, NodeStatus, pending, running, is_over, node_status, nodes_from, Marker, Plan, run_plan,
  row_plan, log_plan, log_or_job_nodes, nodes_of, parse_log_stages,
}

abbrev pub IsSettled : Node → Type 0
IsSettled n = (n.status ≢ pending) × (n.status ≢ running)

node_status-settled :
    (index current : ℕ) (job_status : JobStatus) (row : Option JobStep)
    → is_over job_status ≡ true
    → (node_status index current job_status row ≢ pending)
      × (node_status index current job_status row ≢ running)
unfolding node_status
node_status-settled index current job_status none over = (λ e. ground arith, λ e. ground arith)
node_status-settled index current job_status (some r) over = (λ e. ground arith, λ e. ground arith)

module _ (label : ℕ → Text) (status : ℕ → NodeStatus) (row : ℕ → Option JobStep)
    (settled : (i : ℕ) → (status i ≢ pending) × (status i ≢ running)) where
  nodes_from-IsSettled :
      (count i : ℕ) (taken : List Text) (previous : Option Text)
      → All IsSettled (nodes_from label status row count i taken previous)
  unfolding nodes_from
  nodes_from-IsSettled zero i taken previous = tt
  nodes_from-IsSettled (suc count) i taken previous =
      (settled i, nodes_from-IsSettled count (i + 1) _ _)

run_plan-IsSettled :
    (plan : Plan)
    → ((i : ℕ) → (plan.status i ≢ pending) × (plan.status i ≢ running))
    → All IsSettled (run_plan plan)
unfolding run_plan
run_plan-IsSettled plan settled =
    nodes_from-IsSettled plan.label plan.status plan.row settled plan.count 1 [] none

module _ (job : Job) (over : is_over job.status ≡ true) where
  log_or_job_nodes-IsSettled :
      (parsed : List Marker) (project : Option Project)
      → All IsSettled (log_or_job_nodes job parsed project)
  unfolding log_or_job_nodes
  log_or_job_nodes-IsSettled [] project = ((λ e. ground arith, λ e. ground arith), tt)
  log_or_job_nodes-IsSettled (m ∷ parsed) project =
      run_plan-IsSettled (log_plan job (m ∷ parsed) project)
        (λ i. node_status-settled i _ job.status none over)

  -- In the graph of a job that succeeded, failed, was cancelled or was interrupted, no node is pending
  -- or running, whatever rows or log it left behind.
  pub nodes_of-IsSettled :
      (rows : List JobStep) (found : List Marker) (project : Option Project)
      → All IsSettled (nodes_of job rows found project)
  unfolding nodes_of
  nodes_of-IsSettled [] found project = log_or_job_nodes-IsSettled (parse_log_stages found) project
  nodes_of-IsSettled (r ∷ rows) found project =
      run_plan-IsSettled (row_plan job (r ∷ rows) project)
        (λ i. node_status-settled i _ job.status _ over)
