-- ===== src/Access/Rbac.antt =====
-- The route dependencies of api/rbac.py, which turn the errors of the repository layer into HTTP
-- answers. `get_current_user` hands in the authenticated user.
use stage.Prelude.{
  ℕ, String, List, Option, none, some, ◌==◌, str_eq, Result, ok, err, ◌>>=◌, ◌>>◌, ensure, rescue,
  if◌then◌else◌, ◌≡◌, arith, find, inl, inr, Option-cases,
}
use stage.Models.{TeamMember, Project, Deployment, Db}
use stage.Access.Roles.{role_at_least, required_role}
use stage.Access.{AccessError, forbidden, Scope, from_session, role_in, can_access, guard}
use stage.Access.Guard.{
  membership, guard-from_session, contains-from_session, find_role-from_session,
}

-- The `detail` of an HTTPException.
pub data Detail : Type 0 where
  not_found project_not_found deployment_not_found internal : Detail
  unknown_action : (action : String) → Detail
  requires_role : (required : String) → Detail
  requires_role_have : (required actual : String) → Detail

pub record HttpError : Type 0 where
  pub status : ℕ
  pub detail : Detail

abbrev pub http : ℕ → Detail → HttpError
http status detail = record { status = status; detail = detail }

-- Any other exception reaches the client as the framework's 500.
abbrev to_http : AccessError → HttpError
to_http AccessError.not_found = http 404 Detail.project_not_found
to_http (forbidden action required actual) = http 403 (requires_role required)
to_http _ = http 500 internal

-- _require_role_or_404
unfoldable pub require_role_or_404 : Scope → Project → String → Result HttpError (Unit {0})
require_role_or_404 scope project action = rescue to_http (guard scope project action)

-- The last two steps of `require_team_role`.
team_role_answer : Option String → String → Result HttpError (Unit {0})
team_role_answer none required = err (http 404 Detail.not_found)
team_role_answer (some role) required =
    if role_at_least role required then ok tt else err (http 403 (requires_role_have required role))

unfoldable pub require_team_role : ℕ → ℕ → Db → String → Result HttpError (Unit {0})
unfolding team_role_answer
require_team_role team_id user_id db action = elim (required_role action) [
  | none ↦ err (http 500 (unknown_action action))
  | some required ↦ team_role_answer (role_in (from_session db.members user_id) team_id) required
]

-- `db.get(Project, id)` and `db.get(Deployment, id)`
abbrev pub project_by_id : List Project → ℕ → Option Project
project_by_id projects id = find (λ p. p.id == id) projects

abbrev pub deployment_by_id : List Deployment → ℕ → Option Deployment
deployment_by_id deployments id = find (λ d. d.id == id) deployments

-- `project is None or not scope.can_access(project)`, as one lookup.
visible : Scope → Option Project → Option Project
visible scope none = none
visible scope (some project) = if can_access scope project then some project else none

abbrev or_404 {ℓ} : {A : Type ℓ} → Option A → Detail → Result HttpError A
or_404 none detail = err (http 404 detail)
or_404 (some a) detail = ok a

unfoldable pub require_project_action : String → ℕ → Db → ℕ → Result HttpError Project
unfolding visible require_role_or_404
require_project_action action project_id db user_id = do
  let scope = from_session db.members user_id
  project ← or_404 (visible scope (project_by_id db.projects project_id)) Detail.project_not_found
  require_role_or_404 scope project action
  ok project

unfoldable pub require_deployment_action : String → ℕ → Db → ℕ → Result HttpError Deployment
unfolding visible require_role_or_404
require_deployment_action action deployment_id db user_id = do
  let scope = from_session db.members user_id
  deployment ← or_404 (deployment_by_id db.deployments deployment_id) Detail.deployment_not_found
  project ←
      or_404 (visible scope (project_by_id db.projects deployment.project_id))
        Detail.deployment_not_found
  require_role_or_404 scope project action
  ok deployment

-- The global operator gate, on `User.role`.
unfoldable pub require_platform_admin : String → Result HttpError (Unit {0})
require_platform_admin user_role = ensure (str_eq user_role "admin") (http 404 Detail.not_found)

-- The rule of the module's documentation, by the caller's membership row in the project's team.
abbrev pub answer_by_row {ℓ} :
    {A : Type ℓ} → Option TeamMember → Option String → A → Detail → Result HttpError A
answer_by_row none required a hidden = err (http 404 hidden)
answer_by_row (some m) none a hidden = err (http 500 internal)
answer_by_row (some m) (some required) a hidden =
    if role_at_least m.role required then ok a else err (http 403 (requires_role required))

abbrev pub project_rule {ℓ} :
    {A : Type ℓ}
    → List TeamMember
    → ℕ
    → Option String
    → Option Project
    → A
    → Detail
    → Result HttpError A
project_rule members user_id required none a hidden = err (http 404 hidden)
project_rule members user_id required (some project) a hidden =
    answer_by_row (membership members project.team_id user_id) required a hidden

abbrev pub project_answer : Db → ℕ → String → Option Project → Result HttpError Project
project_answer db user_id action none = err (http 404 Detail.project_not_found)
project_answer db user_id action (some project) =
    answer_by_row (membership db.members project.team_id user_id) (required_role action) project
      Detail.project_not_found

-- The project routes answer by the path's project and the caller's membership row in its team: 404
-- alike for no project and for no row, 403 for a row whose role is below the action's, and the
-- project otherwise (500 for an action outside the table, of a member).
pub require_project_action_lem :
    (action : String) (project_id : ℕ) (db : Db) (user_id : ℕ)
    → require_project_action action project_id db user_id
      ≡ project_answer db user_id action (project_by_id db.projects project_id)
unfolding require_project_action can_access from_session
require_project_action_lem action project_id db user_id =
    elim (Option-cases (project_by_id db.projects project_id)) [
      | inl absent ↦ rw absent
      | inr (project, found) ↦ ground (
        arith,
        contains-from_session db.members user_id project.team_id,
        guard-from_session db.members user_id project action,
      )
    ]

abbrev pub deployment_answer : Db → ℕ → String → Option Deployment → Result HttpError Deployment
deployment_answer db user_id action none = err (http 404 Detail.deployment_not_found)
deployment_answer db user_id action (some deployment) =
    project_rule db.members user_id (required_role action)
      (project_by_id db.projects deployment.project_id) deployment Detail.deployment_not_found

-- The deployment routes answer by the deployment's project in the same way, with one 404 for a
-- missing deployment, a missing project and a project of a team that the caller is not in.
pub require_deployment_action_lem :
    (action : String) (deployment_id : ℕ) (db : Db) (user_id : ℕ)
    → require_deployment_action action deployment_id db user_id
      ≡ deployment_answer db user_id action (deployment_by_id db.deployments deployment_id)
unfolding require_deployment_action can_access from_session
require_deployment_action_lem action deployment_id db user_id =
    elim (Option-cases (deployment_by_id db.deployments deployment_id)) [
      | inl absent ↦ rw absent
      | inr (deployment, found) ↦
          elim (Option-cases (project_by_id db.projects deployment.project_id)) [
            | inl gone ↦ ground (arith)
            | inr (project, here) ↦ ground (
              arith,
              contains-from_session db.members user_id project.team_id,
              guard-from_session db.members user_id project action,
            )
          ]
    ]

abbrev pub team_rule : Option TeamMember → String → Result HttpError (Unit {0})
team_rule none required = err (http 404 Detail.not_found)
team_rule (some m) required =
    if role_at_least m.role required
    then ok tt
    else err (http 403 (requires_role_have required m.role))

-- For an action of the table, team routes answer 404 to whoever is not a member, 403 to a member whose
-- role is too low, and let the others through.
pub require_team_role_lem :
    (team_id user_id : ℕ) (db : Db) (action required : String)
    → required_role action ≡ some required
    → require_team_role team_id user_id db action
      ≡ team_rule (membership db.members team_id user_id) required
unfolding require_team_role
require_team_role_lem team_id user_id db action required known =
    ground (arith, find_role-from_session db.members user_id team_id)
