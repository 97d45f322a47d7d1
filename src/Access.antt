-- ===== src/Access.antt =====
-- Who may do what: core/roles.py, `role_at_least` of models/team.py and `Scope` of
-- repositories/base.py.
pub mod Roles
pub mod Guard
pub mod Rbac
use stage.Prelude.{
  ℕ, String, List, [], ◌∷◌, Option, none, some, Bool, true, false, ◌==◌, select, map, Result, ok,
  err, ◌>>=◌, ◌>>◌, ensure, if◌then◌else◌,
}
use stage.Models.{TeamMember, Project}
use stage.Access.Roles.{role_at_least, required_role}

-- NotFoundError, ForbiddenError, the KeyError of `ACTION_ROLES[action]`, and the RuntimeError and the
-- ValueError that a repository raises.
pub data AccessError : Type 0 where
  not_found : AccessError
  forbidden : (action required : String) (actual : Option String) → AccessError
  key_error runtime_error value_error : AccessError

pub record Scope : Type 0 where
  pub user_id : Option ℕ
  pub team_ids : List ℕ
  pub roles : List (ℕ × String)

-- Scope.from_session
unfoldable pub from_session : List TeamMember → ℕ → Scope
from_session members user_id =
    let memberships = select (λ m. m.user_id == user_id) members in
    record {
      user_id = some user_id;
      team_ids = map (λ m. m.team_id) memberships;
      roles = map (λ m. (m.team_id, m.role)) memberships;
    }

-- Scope.system
abbrev pub system : Scope
system = record { user_id = none; team_ids = []; roles = [] }

abbrev pub is_system : Scope → Bool
is_system s = elim s.user_id [ none ↦ true | some _ ↦ false ]

-- Scope.role_in
unfoldable pub find_role : ℕ → List (ℕ × String) → Option String
find_role team_id [] = none
find_role team_id ((member_team_id, role) ∷ rest) =
    if member_team_id == team_id then some role else find_role team_id rest

abbrev pub role_in : Scope → ℕ → Option String
role_in s team_id = find_role team_id s.roles

unfoldable pub contains : ℕ → List ℕ → Bool
contains a [] = false
contains a (x ∷ xs) = if x == a then true else contains a xs

-- Scope.can_access
unfoldable pub can_access : Scope → Project → Bool
can_access s project = if is_system s then true else contains project.team_id s.team_ids

unfoldable pub satisfies : Option String → String → Bool
satisfies none required = false
satisfies (some actual) required = role_at_least actual required

unfoldable pub require_known :
    Scope → Project → String → Option String → Result AccessError (Unit {0})
unfolding satisfies
require_known s project action none = err key_error
require_known s project action (some required) =
    let actual = role_in s project.team_id in
    if satisfies actual required then ok tt else err (forbidden action required actual)

-- Scope.require_role
unfoldable pub require_role : Scope → Project → String → Result AccessError (Unit {0})
unfolding require_known
require_role s project action =
    if is_system s then ok tt else require_known s project action (required_role action)

-- Scope.guard
unfoldable pub guard : Scope → Project → String → Result AccessError (Unit {0})
guard s project action = do ensure (can_access s project) not_found; require_role s project action
