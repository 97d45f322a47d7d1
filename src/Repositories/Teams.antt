-- ===== src/Repositories/Teams.antt =====
-- TeamRepository, `slugify` and `ensure_personal_team` of repositories/teams.py.
pub mod Admins
use stage.Prelude.{
  ℕ, ◌+◌, String, List, [], ◌∷◌, ◌++◌, Option, none, some, Bool, true, false, not, ◌&&◌, ◌||◌, ◌==◌,
  leb, str_eq, select, Result, ok, err, ◌>>=◌, ◌>>◌, ensure, if◌then◌else◌, find, update_where,
  by_key, Text, length, take,
}
use stage.Prelude.{
  is_space, is_lower, is_digit, lower, strip, sub_runs, or_text, dash, codes, text_eq,
}
use stage.Models.{TeamMember, Team, Db}
use stage.Access.{AccessError, not_found, value_error}
use stage.Access.Guard.{is_row, membership}
use stage.Access.Roles.{role_at_least}

-- The complement of `_SLUG_STRIP`: lowercase letters, digits and the dash.
unfoldable pub slug_char : ℕ → Bool
unfolding is_lower is_digit
slug_char c = is_lower c || is_digit c || c == 45

unfoldable pub slugify : Text → Text
unfolding slug_char strip is_space lower sub_runs
slugify value =
    or_text (take 60 (strip dash (sub_runs slug_char (lower (strip is_space value)))))
      (codes "team")

-- `_key` of a team's row, and the caller's role in it.
unfoldable pub role_in : List TeamMember → ℕ → ℕ → Option String
role_in members user_id team_id = elim (membership members team_id user_id) [
  | none ↦ none
  | some m ↦ some m.role
]

unfoldable pub has_role : List TeamMember → ℕ → ℕ → String → Bool
unfolding role_in
has_role members user_id team_id required = elim (role_in members user_id team_id) [
  | none ↦ false
  | some actual ↦ role_at_least actual required
]

team_for : Option Team → Option String → Result AccessError Team
team_for none role = err not_found
team_for (some team) none = err not_found
team_for (some team) (some role) = ok team

unfoldable pub get_team : Db → ℕ → ℕ → Result AccessError Team
unfolding team_for role_in
get_team db user_id team_id =
    team_for (by_key (λ (t : Team). t.id) db.teams team_id) (role_in db.members user_id team_id)

abbrev pub member : ℕ → ℕ → String → TeamMember
member team_id user_id role = record { team_id = team_id; user_id = user_id; role = role }

-- The new team's row and its first member, an admin.
unfoldable pub create_team : ℕ → Db → ℕ → Text → Db × Team
unfolding slugify
create_team id db user_id name =
    let team : Team = record { id = id; name = name; slug = slugify name; is_personal = false } in
    (
      record db {
        teams = db.teams ++ team ∷ [];
        members = db.members ++ member id user_id "admin" ∷ [];
      },
      team,
    )

unfoldable pub write_member : List TeamMember → ℕ → ℕ → String → Option TeamMember → List TeamMember
write_member members team_id user_id role none = members ++ member team_id user_id role ∷ []
write_member members team_id user_id role (some existing) =
    update_where (is_row team_id user_id) (λ m. record m { role = role }) members

unfoldable pub add_member : Db → ℕ → ℕ → ℕ → String → Result AccessError Db
unfolding get_team write_member
add_member db caller team_id user_id role = do
  team ← get_team db caller team_id
  ok (record db {
    members = write_member db.members team_id user_id role (membership db.members team_id user_id);
  })

unfoldable pub is_admin_of : ℕ → TeamMember → Bool
is_admin_of team_id m = m.team_id == team_id && str_eq m.role "admin"

abbrev pub admins : ℕ → List TeamMember → ℕ
admins team_id members = length (select (is_admin_of team_id) members)

-- The guard on the last admin, for the row that is to go.
unfoldable pub may_remove : List TeamMember → ℕ → TeamMember → Bool
unfolding is_admin_of
may_remove members team_id m =
    if str_eq m.role "admin" then not (leb (admins team_id members) 1) else true

remove_row : Db → ℕ → ℕ → Option TeamMember → Result AccessError Db
unfolding may_remove
remove_row db team_id user_id none = err not_found
remove_row db team_id user_id (some m) = do
  ensure (may_remove db.members team_id m) value_error
  ok (record db { members = select (λ m. not (is_row team_id user_id m)) db.members })

unfoldable pub remove_member : Db → ℕ → ℕ → Result AccessError Db
unfolding remove_row
remove_member db team_id user_id =
    remove_row db team_id user_id (membership db.members team_id user_id)

-- The personal team of a user, found by its slug or made with the user as its admin.
unfoldable pub ensure_personal_team : ℕ → Text → Text → Db → ℕ → Db × Team
ensure_personal_team id name slug db user_id =
    elim (find (λ (t : Team). text_eq t.slug slug) db.teams) [
      | some existing ↦ (db, existing)
      | none ↦
          let team : Team = record { id = id; name = name; slug = slug; is_personal = true } in
          (
            record db {
              teams = db.teams ++ team ∷ [];
              members = db.members ++ member id user_id "admin" ∷ [];
            },
            team,
          )
    ]
