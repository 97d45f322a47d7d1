-- ===== src/Examples/Store.antt =====
-- The repositories and the limiter at concrete tables and calls.
use stage.Prelude.{
  List, codes, [], ◌∷◌, none, some, true, false, ok, ◌≡◌, ◌≢◌, ◌≤◌, refl, arith, by_key, String,
  str_eq_iff, inl, inr,
}
use stage.Models.{Db, Team}
use stage.Access.{from_session}
use stage.Access.Guard.{membership}
use stage.Repositories.Isolation.{HasKeys, hide, reads-hide}
use stage.Repositories.Projects
use stage.Repositories.Teams.{member, admins, remove_member, add_member}
use stage.Repositories.Teams.Admins.{
  IsMemberTable, remove_member_lem, add_member_lem, add_member_demotes_last_admin,
}
use stage.Repositories.Deployments.{Release, upsert, new_deployment}
use stage.Repositories.Deployments.Upsert.{at, released, upsert-at}
use stage.RateLimit.{run}
use stage.Pool.{
  PooledCluster, available, Pool, is_available, is_held, claim_row, claim_cluster, Event, claims,
  commits, deletes, run as run_pool,
}
use stage.Pool.Exclusive.{row, IsExclusive}
use stage.Pool.Claims.{IsClaim, Spares, run-IsExclusive, claim_cluster_lem, claimed_stays}
use stage.RateLimit.Window.{IsTimed, grants_in, run-bounded}
use stage.Examples.Data.{admin_row, viewer_row, other_row, members, team, web, db}

keys : HasKeys db
unfolding stage.Prelude.find
keys = record {
  projects = (refl, (refl, tt));
  deployments = (refl, (refl, tt));
  scans = (refl, tt);
  jobs = (refl, (refl, tt));
}

reads-hide_example :
    Projects.count (from_session members 3) (hide (from_session members 3) db)
    ≡ Projects.count (from_session members 3) db
reads-hide_example = (reads-hide (from_session members 3) db keys 100 1 20 none "shop").8

table : IsMemberTable members
unfolding stage.Prelude.find
table = (refl, (refl, (refl, tt)))

-- Team 10 without its viewer.
abbrev after_removal : Db
after_removal = record db { members = admin_row ∷ other_row ∷ [] }

removed : remove_member db 10 2 ≡ ok after_removal
unfolding remove_member stage.Prelude.find stage.Prelude.select
removed = refl

some_admin : 1 ≤ admins 10 db.members
unfolding stage.Prelude.select stage.Repositories.Teams.is_admin_of
some_admin = omega arith

remove_member_lem_example : 1 ≤ admins 10 after_removal.members
remove_member_lem_example = (remove_member_lem db after_removal 10 2 removed table some_admin).0

-- The admin of team 10 gives user 3 the role of a developer in it.
abbrev after_addition : Db
after_addition = record db {
  members = admin_row ∷ viewer_row ∷ other_row ∷ member 10 3 "developer" ∷ [];
}

added : add_member db 1 10 3 "developer" ≡ ok after_addition
unfolding add_member stage.Prelude.find
added = refl

add_member_lem_example : membership after_addition.members 10 3 ≡ some (member 10 3 "developer")
add_member_lem_example = add_member_lem db after_addition 1 10 3 "developer" added 10 3

viewer_ne_admin : ◌≢◌ {A = String} "viewer" "admin"
viewer_ne_admin e = ground (arith, str_eq_iff "viewer" "admin")

one_admin : admins 10 db.members ≡ 1
unfolding stage.Prelude.select stage.Repositories.Teams.is_admin_of
one_admin = refl

team_there : by_key (λ (t : Team). t.id) db.teams 10 ≡ some team
unfolding stage.Prelude.find
team_there = refl

admin_there : membership db.members 10 1 ≡ some admin_row
unfolding stage.Prelude.find
admin_there = refl

add_member_demotes_last_admin_example :
    (db' : Db) × (add_member db 1 10 1 "viewer" ≡ ok db') × (admins 10 db'.members ≡ 0)
add_member_demotes_last_admin_example =
    add_member_demotes_last_admin db 10 1 team admin_row "viewer" table team_there admin_there refl
      one_admin viewer_ne_admin

abbrev one_release : Release
one_release = record { repo_url = "r"; branch = "main"; port = 80; replicas = 2; strategy = "k8s" }

upsert-at_example :
    at 100 "web" (upsert 502 95 100 "web" one_release db.deployments).0
    ≡ some (released 502 95 100 "web" one_release (some web))
unfolding stage.Prelude.find stage.Repositories.Deployments.is_service
upsert-at_example = (upsert-at 502 95 100 "web" one_release db.deployments).0

-- Two warm clusters of one shape; two projects claim, and the first commits.
abbrev cluster : PooledCluster
cluster = record {
  id = 1;
  spec_hash = codes "small";
  status = available;
  claimed_by_project_id = none;
  workspace_path = codes "/ws/pool-1";
  node_ips = [];
  created_at = 10;
}

abbrev pool : Pool
pool = record { clusters = cluster ∷ record cluster { id = 2; created_at = 11 } ∷ []; held = [] }

abbrev events : List Event
events = claims (codes "small") 100 ∷ claims (codes "small") 200 ∷ commits 100 ∷ []

pool-IsExclusive : IsExclusive pool
unfolding stage.Prelude.find
pool-IsExclusive = record {
  keys = (refl, (refl, tt));
  apart = tt;
  unclaimed = λ id c at locked. ground arith;
  ownerless = λ id c at free. ground arith;
}

run-IsExclusive_example : IsExclusive (run_pool pool events)
run-IsExclusive_example = run-IsExclusive pool events pool-IsExclusive

claim_cluster_lem_example :
    IsClaim pool (codes "small") 100 (claim_cluster pool (codes "small") 100)
claim_cluster_lem_example = claim_cluster_lem pool (codes "small") 100 pool-IsExclusive

abbrev after_commit : Pool
after_commit = record {
  clusters = claim_row 100 cluster ∷ record cluster { id = 2; created_at = 11 } ∷ [];
  held = [];
}

after_commit-IsExclusive : IsExclusive after_commit
unfolding stage.Pool.is_held stage.Prelude.find
after_commit-IsExclusive = record {
  keys = (refl, (refl, tt));
  apart = tt;
  unclaimed = λ id c at locked. ground arith;
  ownerless = λ id c at free. ground arith;
}

taken : row after_commit 1 ≡ some (claim_row 100 cluster)
unfolding stage.Prelude.find
taken = refl

-- Another project is deleted meanwhile.
abbrev and_deletion : List Event
and_deletion = claims (codes "small") 200 ∷ deletes 300 ∷ commits 200 ∷ []

spared : Spares (some 100) and_deletion
spared = (λ e. ground arith, tt)

claimed_stays_example : row (run_pool after_commit and_deletion) 1 ≡ some (claim_row 100 cluster)
claimed_stays_example =
    claimed_stays after_commit and_deletion 1 (claim_row 100 cluster) after_commit-IsExclusive taken
      refl spared

-- Three calls of one key, the third refused: it has read the time before the second.
timed : IsTimed 1 0 (("login", 1) ∷ ("login", 5) ∷ ("login", 4) ∷ [])
timed = (omega arith, (omega arith, (omega arith, tt)))

run-bounded_example :
    grants_in 9 5 "login" (run 2 10 [] [] (("login", 1) ∷ ("login", 5) ∷ ("login", 4) ∷ [])) ≤ 2
run-bounded_example =
    run-bounded 2 9 1 (("login", 1) ∷ ("login", 5) ∷ ("login", 4) ∷ []) "login" 5 timed

-- A call that comes to the lock late: three grants in a window of 10, where the limit is two.
overtaken :
    grants_in 10 11 "login"
      (run 2 10 [] [] (("login", 2) ∷ ("login", 3) ∷ ("login", 13) ∷ ("login", 11) ∷ []))
    ≡ 3
unfolding grants_in run
overtaken = refl
