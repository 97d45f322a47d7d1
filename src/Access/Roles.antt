-- ===== src/Access/Roles.antt =====
-- The role ladder: core/roles.py and `role_at_least` of models/team.py.
use stage.Prelude.{
  ℕ, ◌+◌, String, List, [], ◌∷◌, Option, none, some, Bool, true, false, leb, str_eq, if◌then◌else◌,
  ◌≡◌, arith,
}

abbrev pub role_order : List String
role_order = "viewer" ∷ "developer" ∷ "owner" ∷ "admin" ∷ []

-- `ROLE_ORDER.index(role)`, and `none` where `role not in ROLE_ORDER`.
unfoldable pub index_of : String → List String → Option ℕ
index_of role [] = none
index_of role (r ∷ rs) =
    if str_eq r role
    then some 0
    else elim (index_of role rs) [ none ↦ none | some i ↦ some (i + 1) ]

abbrev pub rank : String → Option ℕ
rank role = index_of role role_order

unfoldable pub compare_ranks : Option ℕ → Option ℕ → Bool
compare_ranks (some a) (some r) = leb r a
compare_ranks _ _ = false

unfoldable pub role_at_least : String → String → Bool
unfolding compare_ranks
role_at_least actual required = compare_ranks (rank actual) (rank required)

abbrev pub action_roles : List (String × String)
action_roles =
    ("project.read", "viewer")
    ∷ ("project.create", "developer")
    ∷ ("project.update", "developer")
    ∷ ("deployment.create", "developer")
    ∷ ("deployment.delete", "developer")
    ∷ ("scan.create", "developer")
    ∷ ("project.provision", "owner")
    ∷ ("project.extend", "owner")
    ∷ ("project.destroy", "owner")
    ∷ ("team.manage", "admin")
    ∷ ("platform.admin", "admin")
    ∷ []

unfoldable pub find_action : String → List (String × String) → Option String
find_action action [] = none
find_action action ((a, role) ∷ rest) =
    if str_eq a action then some role else find_action action rest

-- ACTION_ROLES.get(action)
unfoldable pub required_role : String → Option String
unfolding find_action
required_role action = find_action action action_roles

pub role_at_least_trans :
    (a b c : String)
    → role_at_least a b ≡ true
    → role_at_least b c ≡ true
    → role_at_least a c ≡ true
unfolding role_at_least
role_at_least_trans a b c p q = ground arith
