-- ===== src/Examples/Access.antt =====
-- The access rules at concrete callers.
use stage.Prelude.{[], ◌∷◌, none, some, true, ok, ◌≡◌, refl}
use stage.Access.{from_session, guard}
use stage.Access.Roles.{required_role, role_at_least}
use stage.Access.Guard.{decide_by_row, guard-from_session}
use stage.Access.Rbac.{
  require_project_action, require_deployment_action, project_answer, deployment_answer,
  require_project_action_lem, require_deployment_action_lem,
}
use stage.Examples.Data.{viewer_row, members, shop, web, db}

guard-from_session_example :
    guard (from_session members 2) shop "project.provision"
    ≡ decide_by_row "project.provision" (some viewer_row) (required_role "project.provision")
unfolding required_role stage.Prelude.find
guard-from_session_example = guard-from_session members 2 shop "project.provision"

reads_shop : guard (from_session members 2) shop "project.read" ≡ ok tt
unfolding guard from_session stage.Access.can_access stage.Access.contains stage.Prelude.select
    stage.Access.require_role required_role stage.Access.find_role role_at_least
    stage.Access.Roles.index_of
reads_shop = refl

higher : role_at_least "developer" "viewer" ≡ true
unfolding role_at_least stage.Access.Roles.index_of
higher = refl

require_project_action_lem_example :
    require_project_action "project.provision" 100 db 2
    ≡ project_answer db 2 "project.provision" (some shop)
unfolding stage.Prelude.find
require_project_action_lem_example = require_project_action_lem "project.provision" 100 db 2

require_deployment_action_lem_example :
    require_deployment_action "deployment.create" 500 db 1
    ≡ deployment_answer db 1 "deployment.create" (some web)
unfolding stage.Prelude.find
require_deployment_action_lem_example = require_deployment_action_lem "deployment.create" 500 db 1

manage : required_role "team.manage" ≡ some "admin"
unfolding required_role
manage = refl
