-- ===== src/Access/Guard.antt =====
-- What `Scope.guard` promises for a caller whose scope was read from the membership rows.
use stage.Prelude.{
  ℕ, String, List, [], ◌∷◌, Option, none, some, Bool, true, false, ◌&&◌, ◌==◌, select, Result, ok,
  err, if◌then◌else◌, ◌≡◌, refl, arith, find, inl, inr, Option-cases,
}
use stage.Models.{TeamMember, Project}
use stage.Access.Roles.{role_at_least, required_role, role_at_least_trans}
use stage.Access.{
  AccessError, not_found, forbidden, key_error, from_session, find_role, contains, can_access,
  satisfies, require_known, require_role, guard,
}

-- The membership row that ties a user to a team.
abbrev pub is_row : ℕ → ℕ → TeamMember → Bool
is_row team_id user_id m = m.user_id == user_id && m.team_id == team_id

abbrev role_of : Option TeamMember → Option String
role_of none = none
role_of (some m) = some m.role

abbrev is_some : Option TeamMember → Bool
is_some none = false
is_some (some m) = true

abbrev pub membership : List TeamMember → ℕ → ℕ → Option TeamMember
membership members team_id user_id = find (is_row team_id user_id) members

pub find_role-from_session :
    (members : List TeamMember) (user_id team_id : ℕ)
    → find_role team_id (from_session members user_id).roles
      ≡ role_of (membership members team_id user_id)
unfolding from_session find_role select find
find_role-from_session [] user_id team_id = refl
find_role-from_session (m ∷ ms) user_id team_id =
    ground (arith, find_role-from_session ms user_id team_id)

pub contains-from_session :
    (members : List TeamMember) (user_id team_id : ℕ)
    → contains team_id (from_session members user_id).team_ids
      ≡ is_some (membership members team_id user_id)
unfolding from_session contains select find
contains-from_session [] user_id team_id = refl
contains-from_session (m ∷ ms) user_id team_id =
    ground (arith, contains-from_session ms user_id team_id)

-- The decision that the module's documentation describes: 404 without a membership row, 403 where
-- the row's role is too low, and leave to act otherwise.
abbrev pub decide_by_row :
    String → Option TeamMember → Option String → Result AccessError (Unit {0})
decide_by_row action none required = err not_found
decide_by_row action (some m) none = err key_error
decide_by_row action (some m) (some required) =
    if role_at_least m.role required then ok tt else err (forbidden action required (some m.role))

-- For a user's own scope, `guard` answers by the user's membership row in the project's team alone:
-- NotFoundError where there is none, ForbiddenError where its role is below the action's, KeyError
-- for an action outside the table, and success otherwise.
pub guard-from_session :
    (members : List TeamMember) (user_id : ℕ) (project : Project) (action : String)
    → guard (from_session members user_id) project action
      ≡ decide_by_row action (membership members project.team_id user_id) (required_role action)
unfolding guard require_role require_known satisfies can_access from_session
guard-from_session members user_id project action = ground (
  arith,
  find_role-from_session members user_id project.team_id,
  contains-from_session members user_id project.team_id,
)

-- Raising a member's role never takes a permission away: what `guard` allows with one membership
-- row it allows with a row of the same team and user whose role is at least as high.
pub guard_mono :
    (members members' : List TeamMember) (user_id : ℕ) (project : Project) (action : String)
    (m m' : TeamMember)
    → membership members project.team_id user_id ≡ some m
    → membership members' project.team_id user_id ≡ some m'
    → role_at_least m'.role m.role ≡ true
    → guard (from_session members user_id) project action ≡ ok tt
    → guard (from_session members' user_id) project action ≡ ok tt
guard_mono members members' user_id project action m m' row row' higher allowed =
    elim (Option-cases (required_role action)) [
      | inl absent ↦ ground (arith, guard-from_session members user_id project action)
      | inr (required, found) ↦ ground (
        arith,
        guard-from_session members user_id project action,
        guard-from_session members' user_id project action,
        role_at_least_trans m'.role m.role required,
      )
    ]
