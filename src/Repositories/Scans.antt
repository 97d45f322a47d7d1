-- ===== src/Repositories/Scans.antt =====
-- ScanRepository of repositories/jobs.py.
use stage.Prelude.{
  ℕ, String, List, [], ◌∷◌, ◌++◌, Option, none, some, Bool, true, ◌&&◌, ◌==◌, str_eq, select,
  Result, ok, ◌>>=◌, ◌>>◌, if◌then◌else◌, by_key, order_desc, paginate, Text,
}
use stage.Models.{Scan, Db}
use stage.Access.{AccessError, Scope, guard}
use stage.Repositories.Jobs.{visible_project, or_not_found}

unfoldable pub create :
    ℕ → ℕ → Scope → Db → ℕ → String → Text → Option ℕ → Result AccessError (Db × Scan)
unfolding visible_project
create id now scope db project_id tool target deployment_id = do
  project ← or_not_found (visible_project scope db.projects (some project_id))
  guard scope project "scan.create"
  let scan : Scan = record {
    id = id;
    project_id = project_id;
    deployment_id = deployment_id;
    tool = tool;
    target = target;
    status = "queued";
    summary = none;
    created_at = now;
  }
  ok (record db { scans = db.scans ++ scan ∷ [] }, scan)

unfoldable pub get : Scope → Db → ℕ → Result AccessError Scan
unfolding visible_project
get scope db scan_id = do
  scan ← or_not_found (by_key (λ (s : Scan). s.id) db.scans scan_id)
  project ← or_not_found (visible_project scope db.projects (some scan.project_id))
  ok scan

abbrev pub matches_tool : Option String → Scan → Bool
matches_tool none scan = true
matches_tool (some tool) scan = if str_eq tool "" then true else str_eq scan.tool tool

unfoldable pub list_scans :
    Scope → Db → ℕ → Option String → ℕ → ℕ → Result AccessError (List Scan × ℕ)
unfolding visible_project
list_scans scope db project_id tool page page_size = do
  project ← or_not_found (visible_project scope db.projects (some project_id))
  let rows = select (λ (s : Scan). s.project_id == project_id && matches_tool tool s) db.scans
  ok (paginate (order_desc (λ (s : Scan). s.created_at) rows) page page_size)

unfoldable pub list_all : Scope → Db → ℕ → Result AccessError (List Scan)
unfolding visible_project
list_all scope db project_id = do
  project ← or_not_found (visible_project scope db.projects (some project_id))
  let rows = select (λ (s : Scan). s.project_id == project_id) db.scans
  ok (order_desc (λ (s : Scan). s.created_at) rows)
