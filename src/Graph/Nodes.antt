-- ===== src/Graph/Nodes.antt =====
-- The nodes of a graph as a list: how many there are, that their ids differ, and that each depends on
-- the one before.
use stage.Prelude.{
  ℕ, zero, suc, ◌+◌, List, [], ◌∷◌, Option, none, some, false, ◌≡◌, refl, Text, length, ap,
}
use stage.Prelude.{max}
use stage.Models.{Job, JobStep, Project}
use stage.Graph.Slug.{slugify, is_taken, slugify-is_free}
use stage.Graph.{
  Node, NodeStatus, nodes_from, after, Marker, Plan, run_plan, row_plan, log_plan, log_or_job_nodes,
  nodes_of, parse_log_stages,
}
use stage.Graph.Templates.{pick_template, max_by}

-- No id of the list is among those taken or comes twice.
abbrev pub AreFresh : List Text → List Node → Type 0
AreFresh taken [] = Unit
AreFresh taken (n ∷ ns) = (is_taken n.id taken ≡ false) × AreFresh (n.id ∷ taken) ns

-- Each node depends on the one before it and on no other.
abbrev pub IsChain : Option Text → List Node → Type 0
IsChain previous [] = Unit
IsChain previous (n ∷ ns) = (n.depends_on ≡ after previous) × IsChain (some n.id) ns

module _ (label : ℕ → Text) (status : ℕ → NodeStatus) (row : ℕ → Option JobStep) where
  nodes_from-AreFresh :
      (count i : ℕ) (taken : List Text) (previous : Option Text)
      → AreFresh taken (nodes_from label status row count i taken previous)
  unfolding nodes_from
  nodes_from-AreFresh zero i taken previous = tt
  nodes_from-AreFresh (suc count) i taken previous = (
    slugify-is_free (label i) taken,
    nodes_from-AreFresh count (i + 1) (slugify (label i) taken ∷ taken)
        (some (slugify (label i) taken)),
  )

  nodes_from-IsChain :
      (count i : ℕ) (taken : List Text) (previous : Option Text)
      → IsChain previous (nodes_from label status row count i taken previous)
  unfolding nodes_from
  nodes_from-IsChain zero i taken previous = tt
  nodes_from-IsChain (suc count) i taken previous = (
    refl,
    nodes_from-IsChain count (i + 1) (slugify (label i) taken ∷ taken)
        (some (slugify (label i) taken)),
  )

  pub length-nodes_from :
      (count i : ℕ) (taken : List Text) (previous : Option Text)
      → length (nodes_from label status row count i taken previous) ≡ count
  unfolding nodes_from
  length-nodes_from zero i taken previous = refl
  length-nodes_from (suc count) i taken previous = ap suc (
      length-nodes_from count (i + 1) (slugify (label i) taken ∷ taken)
        (some (slugify (label i) taken)))

pub record IsPath (nodes : List Node) : Type 0 where
  pub fresh : AreFresh [] nodes
  pub chain : IsChain none nodes

run_plan-IsPath : (plan : Plan) → IsPath (run_plan plan)
unfolding run_plan
run_plan-IsPath plan = record {
  fresh = nodes_from-AreFresh plan.label plan.status plan.row plan.count 1 [] none;
  chain = nodes_from-IsChain plan.label plan.status plan.row plan.count 1 [] none;
}

log_or_job_nodes-IsPath :
    (job : Job) (parsed : List Marker) (project : Option Project)
    → IsPath (log_or_job_nodes job parsed project)
unfolding log_or_job_nodes is_taken
log_or_job_nodes-IsPath job [] project = record { fresh = (refl, tt); chain = (refl, tt) }
log_or_job_nodes-IsPath job (m ∷ parsed) project =
    run_plan-IsPath (log_plan job (m ∷ parsed) project)

-- Whatever the graph is built from (step rows, log markers, or the job alone), no two of its nodes
-- share an id, and every node depends on exactly the node before it, the first on none.
pub nodes_of-IsPath :
    (job : Job) (rows : List JobStep) (found : List Marker) (project : Option Project)
    → IsPath (nodes_of job rows found project)
unfolding nodes_of
nodes_of-IsPath job [] found project = log_or_job_nodes-IsPath job (parse_log_stages found) project
nodes_of-IsPath job (r ∷ rows) found project = run_plan-IsPath (row_plan job (r ∷ rows) project)

-- A graph made from step rows has a node for every step: as many as the template or the rows declare,
-- whichever is more.
pub length-nodes_of :
    (job : Job) (r : JobStep) (rows : List JobStep) (found : List Marker) (project : Option Project)
    → length (nodes_of job (r ∷ rows) found project)
      ≡ max
          (length (pick_template job.type (r ∷ rows) project))
          (max_by (λ s. s.step_total) (r ∷ rows))
unfolding nodes_of run_plan
length-nodes_of job r rows found project =
    let plan = row_plan job (r ∷ rows) project in
    length-nodes_from plan.label plan.status plan.row plan.count 1 [] none
