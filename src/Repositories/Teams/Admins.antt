-- ===== src/Repositories/Teams/Admins.antt =====
-- The members of a team: one row for each user, and at least one admin.
use stage.Prelude.{
  if◌then◌else◌, ◌==◌, ◌&&◌, rewritten, find-update_where, ℕ, ◌+◌, ◌≤◌, String, List, [], ◌∷◌,
  Option, none, some, true, not, str_eq_iff, select, ok, ◌≡◌, refl, arith, find, inl, inr,
  update_where, Bool-cases, Option-cases, find-some, ◌≢◌, by_key,
}
use stage.Prelude.{select_of_none, length-select_split, length-select-update_where, find-snoc}
use stage.Models.{TeamMember, Team, Db}
use stage.Access.Guard.{is_row, membership}
use stage.Repositories.Teams.{
  member, is_admin_of, admins, may_remove, remove_member, write_member, add_member,
}

-- `uq_team_members_team_user`
abbrev pub IsMemberTable : List TeamMember → Type 0
IsMemberTable [] = Unit
IsMemberTable (m ∷ ms) = (membership ms m.team_id m.user_id ≡ none) × IsMemberTable ms

select-is_row :
    (team_id user_id : ℕ) (members : List TeamMember) (m : TeamMember)
    → IsMemberTable members
    → membership members team_id user_id ≡ some m
    → select (is_row team_id user_id) members ≡ m ∷ []
unfolding select find
select-is_row team_id user_id [] m h e = ground arith
select-is_row team_id user_id (x ∷ xs) m h e = elim (Bool-cases (is_row team_id user_id x)) [
  | inl here ↦ ground (arith, select_of_none (is_row team_id user_id) xs)
  | inr other ↦ ground (arith, select-is_row team_id user_id xs m h.1)
]

membership-remove :
    (team_id user_id : ℕ) (members : List TeamMember) (t u : ℕ)
    → membership (select (λ m. not (is_row team_id user_id m)) members) t u
      ≡ (if t == team_id && u == user_id then none else membership members t u)
unfolding select find
membership-remove team_id user_id [] t u = ground arith
membership-remove team_id user_id (x ∷ xs) t u =
    ground (arith, membership-remove team_id user_id xs t u)

abbrev without_row : ℕ → ℕ → List TeamMember → List TeamMember
without_row team_id user_id members = select (λ m. not (is_row team_id user_id m)) members

admins-without_row :
    (team_id user_id : ℕ) (members : List TeamMember) (m : TeamMember)
    → IsMemberTable members
    → membership members team_id user_id ≡ some m
    → admins team_id (without_row team_id user_id members) + admins team_id (m ∷ [])
      ≡ admins team_id members
admins-without_row team_id user_id members m table row =
    rw (← select-is_row team_id user_id members m table row)
      (length-select_split (is_admin_of team_id) (is_row team_id user_id) members)

module _ (db db' : Db) (team_id user_id : ℕ)
    (removed : remove_member db team_id user_id ≡ ok db') where
  removed_row :
      (m : TeamMember) × (membership db.members team_id user_id ≡ some m)
      × (may_remove db.members team_id m ≡ true)
      × (db'.members ≡ without_row team_id user_id db.members)
  unfolding remove_member
  removed_row = elim (Option-cases (membership db.members team_id user_id)) [
    | inl absent ↦ ground arith
    | inr (m, row) ↦ (m, row, ground arith, ground arith)
  ]

  -- When a removal succeeds on a table with one row for each member of a team, a team that had an admin
  -- has one afterwards; the member's row is gone, and every other user's row in every team is as before.
  pub remove_member_lem :
      IsMemberTable db.members
      → 1 ≤ admins team_id db.members
      → (1 ≤ admins team_id db'.members)
        × ((t u : ℕ)
            → membership db'.members t u
              ≡ (if t == team_id && u == user_id then none else membership db.members t u))
  unfolding may_remove select
  remove_member_lem table some_admin =
      let (m, row, allowed, rest) = removed_row in
      rw rest (admin_left m row allowed, membership-remove team_id user_id db.members)
    where
      admin_left :
          (m : TeamMember)
          → membership db.members team_id user_id ≡ some m
          → may_remove db.members team_id m ≡ true
          → 1 ≤ admins team_id (without_row team_id user_id db.members)
      admin_left m row allowed =
          ground (arith, admins-without_row team_id user_id db.members m table row)

write_member-admins :
    (team_id user_id : ℕ) (role : String) (members : List TeamMember)
    → IsMemberTable members
    → (m : TeamMember) → membership members team_id user_id ≡ some m
    → admins team_id (write_member members team_id user_id role (some m)) + admins team_id (m ∷ [])
      ≡ admins team_id members + admins team_id (member team_id user_id role ∷ [])
unfolding write_member select is_admin_of
write_member-admins team_id user_id role members table m row = ground (
  arith,
  find-some (is_row team_id user_id) members m row,
  select-is_row team_id user_id members m table row,
  admins-without_row team_id user_id members m table row,
  length-select-update_where (is_admin_of team_id) (is_row team_id user_id)
      (λ m. record m { role = role }) members,
)

-- The check that `remove_member` makes is missing from `add_member`: an admin who is the team's only
-- one and adds themselves under another role is let through, and leaves the team with no admin (for a team
-- that exists, on a table with one row for each member of a team).
pub add_member_demotes_last_admin :
    (db : Db) (team_id user_id : ℕ) (team : Team) (m : TeamMember) (role : String)
    → IsMemberTable db.members
    → by_key (λ (t : Team). t.id) db.teams team_id ≡ some team
    → membership db.members team_id user_id ≡ some m
    → m.role ≡ "admin"
    → admins team_id db.members ≡ 1
    → role ≢ "admin"
    → (db' : Db) × (add_member db user_id team_id user_id role ≡ ok db')
      × (admins team_id db'.members ≡ 0)
unfolding add_member select is_admin_of
add_member_demotes_last_admin db team_id user_id team m role table known row admin last other = (
  record db { members = write_member db.members team_id user_id role (some m) },
  ground arith,
  ground (
    arith,
    find-some (is_row team_id user_id) db.members m row,
    write_member-admins team_id user_id role db.members table m row,
    str_eq_iff role "admin",
    str_eq_iff m.role "admin",
  ),
)

membership-update :
    (team_id user_id : ℕ) (role : String) (members : List TeamMember) (m : TeamMember)
    → membership members team_id user_id ≡ some m
    → (t u : ℕ)
    → membership (update_where (is_row team_id user_id) (λ m. record m { role = role }) members) t u
      ≡ (if t == team_id && u == user_id
          then some (member team_id user_id role)
          else membership members t u)
membership-update team_id user_id role members m row t u =
    let after : membership
          (update_where (is_row team_id user_id) (λ m. record m { role = role }) members) t u
        ≡ rewritten (is_row team_id user_id) (λ m. record m { role = role })
            (membership members t u) =
      find-update_where (is_row t u) (is_row team_id user_id) (λ m. record m { role = role })
        (λ m. refl) members in
    elim (Option-cases (membership members t u)) [
      | inl absent ↦ ground (arith, after, absent, row)
      | inr (x, found) ↦ ground (arith, after, found, row, find-some (is_row t u) members x found)
    ]

module _ (team_id user_id : ℕ) (role : String) (members : List TeamMember) where
  write_member_lem :
      (o : Option TeamMember)
      → membership members team_id user_id ≡ o
      → (t u : ℕ)
      → membership (write_member members team_id user_id role o) t u ≡ (
          if t == team_id && u == user_id
          then some (member team_id user_id role)
          else membership members t u)
  unfolding write_member
  write_member_lem none e t u =
      ground (arith, find-snoc (is_row t u) members (member team_id user_id role))
  write_member_lem (some m) e t u = membership-update team_id user_id role members m e t u

-- Adding a member gives the user exactly the role asked for, whether the user was in the team or
-- not, and no other user's row in any team changes.
pub add_member_lem :
    (db db' : Db) (caller team_id user_id : ℕ) (role : String)
    → add_member db caller team_id user_id role ≡ ok db'
    → (t u : ℕ)
    → membership db'.members t u ≡ (
        if t == team_id && u == user_id
        then some (member team_id user_id role)
        else membership db.members t u)
unfolding add_member
add_member_lem db db' caller team_id user_id role added t u =
    let rows : db'.members
        ≡ write_member db.members team_id user_id role (membership db.members team_id user_id) =
      ground arith in
    rw rows (
      write_member_lem team_id user_id role db.members (membership db.members team_id user_id) refl
        t u)
