-- ===== src/Lib.antt =====
-- The control plane of the platform: teams, projects, deployments, jobs, and what watches over them.
--
-- The program is a FastAPI service with a Celery worker. A request is authenticated, its route
-- dependency (controlplane/api/rbac.py) checks the caller's role for the action, a repository
-- (controlplane/repositories) reads or writes the tables, and long work is queued as a job that a task
-- (controlplane/workers/tasks.py) runs step by step. A job's steps and log are shown as a graph
-- (controlplane/core/pipeline_graph.py); scanner reports become findings (controlplane/parsers).
--
-- The parts, and the files that model them:
--   Prelude        lists, tables searched by key, texts as lists of character codes, results
--                  (an exception is an `err`), and decimal numerals
--   Models         the rows of controlplane/models, and the database as a record of tables
--   Access         controlplane/core/roles.py, role_at_least of controlplane/models/team.py, and Scope of
--                  controlplane/repositories/base.py; Access/Rbac is controlplane/api/rbac.py, with
--                  HTTP answers as values
--   Repositories   one module for each class of controlplane/repositories: a method is a function of the
--                  scope and the database, to an answer or a changed database
--   Workers        Log and Redaction are _append_log and controlplane/core/redaction.py; Steps is
--                  _step and _mark_job, on the table of step rows
--   Lifecycle      queueing a deploy, starting, cancelling, and the reaper of stale jobs, with the time
--                  limits of controlplane/workers/celery_app.py; Expiry is the sweep of expired projects
--   Tasks          the bodies of provision_task, destroy_task, scan_task, deploy_task and undeploy_task of
--                  controlplane/workers/tasks.py, as programs over the tables that return or raise;
--                  Triples, Yields and Tidy carry the reasoning, and a file named ...Ends says how a task
--                  ends. Of a deploy, Gates is _run_secret_scan_gate, _run_dependency_scan_gate and the
--                  gate of the image; Build the tenant's stages, the Dockerfile, the build and the push in
--                  the sandbox; TektonRun and TektonBuild the same in the cluster, with read and wait of
--                  controlplane/runners/tekton.py; Ship the manifests, kubectl_apply or _gitops_ship, the
--                  secret's file, and the rollout; Kubectl the choice of the kubeconfig; and Deploy the
--                  task around them
--   Config         controlplane/core/app_config.py (Environment) and
--                  controlplane/core/pipeline_config.py (Stages)
--   Parsers        controlplane/parsers, from decoded JSON to findings
--   Graph          controlplane/core/pipeline_graph.py with the templates of controlplane/workers/steps.py
--   Spec           controlplane/schemas/spec.py, controlplane/core/validation.py; Spec/Presets is
--                  controlplane/core/presets.py
--   Pool           controlplane/core/pool.py, with the row locks of open transactions in the state
--   Tekton         controlplane/core/tekton_status.py, on the fields that it reads; Tekton/Pipeline is
--                  the pipeline, its step numbers and its run of controlplane/runners/tekton.py
--   RateLimit      controlplane/api/rate_limit.py
--   Examples       rows, calls and documents at which the theorems are applied
--
-- How the code corresponds. A table is a list of rows in the order of insertion; `session.get` is a
-- search by primary key, `scalar_one_or_none` an error where two rows answer, and a unique index a
-- refusal of the insert. The requests that run between another's check, its insert and its second
-- query are the database at the insert and the table read again, arguments of queue_deploy; the
-- pool's workers interleave as a list of events. A row lock that SKIP LOCKED steps over is an entry
-- of the pool's state, set by the claim and gone with the commit or the rollback. The deletion of a
-- project, which clears the owner of its cluster, is an event too. A call of the rate limiter has
-- its own time, read before the lock. A secret store is a map and a flag, whether a call reaches
-- the server. A call of Terraform, Ansible, kubectl, docker, a scanner, git, Vault or Elasticsearch
-- in a task is a reply: the time it takes, the lines it hands to the log, and what it returns or
-- raises, all of them arguments. Celery's time limits stand around a task: run_task of Tasks/Limit
-- has an outcome only for a body that is over by the soft limit. What a task wrote before an
-- exception stays written. The files that a deploy renders are a list of paths in the state.
-- Identifiers and timestamps are natural numbers; new identifiers and the current time are
-- arguments. Elsewhere commits and flushes have no effect of their own.
--
-- Bounds and fuel. The playbook of a provision is tried as often as in the code, 20 times. Every
-- loop is structural recursion on its list or on a counter the code has. Two loops have no counter.
-- `while slug in taken` of the graph runs for as many rounds as there are ids taken: each round
-- tries another id, so that many always suffice. The poll loop `wait` gets 481 polls: the clock
-- never runs back, each poll but the last is followed by a sleep of 5 seconds, and at the deadline,
-- 2400 seconds on, it raises.
--
-- Outside the model, as parameters: the regular expressions of the redaction and of the search for
-- a FastAPI application (predicates), the address library, the parser of timestamps, base64, the
-- rendering of templates, and the floating-point CVSS score. JSON and YAML are read by parameters
-- too; that of a scanner's report carries the exception of a parser for JSON of another shape. That
-- Tekton starts the clone before the other tasks of a run is a hypothesis on what kubectl prints.
-- Not modelled: the writes of other sessions while a task runs, what becomes of a task that Celery
-- stops in the midst of its body, the audit log, the text of the manifests and of the built-in
-- Tekton scripts, runners, renderers, authentication, settings, migrations and the console, which
-- are input and output, templates or calls of other systems.
pub mod Prelude
pub mod Models
pub mod Access
pub mod Repositories
pub mod Workers
pub mod Lifecycle
pub mod Parsers
pub mod Graph
pub mod Spec
pub mod RateLimit
pub mod Tekton
pub mod Pool
pub mod Tasks
pub mod Config
pub mod Examples
