-- ===== src/Pool.antt =====
-- core/pool.py: claiming a warm cluster. The row locks of transactions that have claimed and not yet
-- committed stand in the state, so that the calls of many workers interleave.
pub mod Locks
pub mod Exclusive
pub mod Claims
use stage.Prelude.{
  ℕ, List, [], ◌∷◌, Option, none, some, Bool, true, false, not, ◌&&◌, ◌==◌, leb, select,
  update_where, Text, text_eq, if◌then◌else◌,
}

pub data ClusterStatus : Type 0 where
  warming available claimed : ClusterStatus

-- `node_ips` is the object in the JSON column, which may be empty or missing.
pub record PooledCluster : Type 0 where
  pub id : ℕ
  pub spec_hash : Text
  pub status : ClusterStatus
  pub claimed_by_project_id : Option ℕ
  pub workspace_path : Text
  pub node_ips : List (Text × Text)
  pub created_at : ℕ

-- The committed rows, and the claims not yet committed: a cluster's id and the project it is for.
pub record Pool : Type 0 where
  pub clusters : List PooledCluster
  pub held : List (ℕ × ℕ)

abbrev pub is_available : ClusterStatus → Bool
is_available available = true
is_available _ = false

unfoldable pub is_held : ℕ → List (ℕ × ℕ) → Bool
is_held id [] = false
is_held id ((i, p) ∷ held) = if i == id then true else is_held id held

unfoldable pub is_held_by : ℕ → ℕ → List (ℕ × ℕ) → Bool
is_held_by project id [] = false
is_held_by project id ((i, p) ∷ held) =
    if i == id && p == project then true else is_held_by project id held

-- The rows that the query may lock: available, of the wanted hash, and not skipped as locked.
unfoldable pub is_candidate : Text → List (ℕ × ℕ) → PooledCluster → Bool
unfolding is_held text_eq
is_candidate wanted held c =
    text_eq c.spec_hash wanted && (is_available c.status && not (is_held c.id held))

-- `order_by(created_at).limit(1)`
unfoldable pub oldest : List PooledCluster → Option PooledCluster
oldest [] = none
oldest (c ∷ cs) = elim (oldest cs) [
  | none ↦ some c
  | some d ↦ if leb c.created_at d.created_at then some c else some d
]

abbrev pub claim_row : ℕ → PooledCluster → PooledCluster
claim_row project c = record c { status = claimed; claimed_by_project_id = some project }

-- claim_cluster: the row that it returns, and the pool with the row locked.
unfoldable pub claim_cluster : Pool → Text → ℕ → Option PooledCluster × Pool
unfolding oldest is_candidate
claim_cluster pool wanted project =
    elim (oldest (select (is_candidate wanted pool.held) pool.clusters)) [
      | none ↦ (none, pool)
      | some c ↦ (some (claim_row project c), record pool { held = (c.id, project) ∷ pool.held })
    ]

-- `ondelete="SET NULL"` of the column claimed_by_project_id.
unfoldable pub is_claimed_by : ℕ → PooledCluster → Bool
is_claimed_by project c = elim c.claimed_by_project_id [ none ↦ false | some p ↦ p == project ]

abbrev pub disown : PooledCluster → PooledCluster
disown c = record c { claimed_by_project_id = none }

unfoldable pub has_claim : ℕ → List (ℕ × ℕ) → Bool
has_claim project [] = false
has_claim project ((i, p) ∷ held) = if p == project then true else has_claim project held

-- What the workers and the routes do, one after the other: a call of claim_cluster for a project, the
-- commit or the rollback of the transaction for a project, and the deletion of a project's row, which waits for a
-- transaction whose claim refers to it.
pub data Event : Type 0 where
  claims : (wanted : Text) (project : ℕ) → Event
  commits rolls_back deletes : (project : ℕ) → Event

abbrev pub release_locks : ℕ → List (ℕ × ℕ) → List (ℕ × ℕ)
release_locks project held = select (λ h. not (h.1 == project)) held

unfoldable pub step : Pool → Event → Pool
unfolding claim_cluster is_held_by is_claimed_by has_claim
step pool (claims wanted project) = (claim_cluster pool wanted project).1
step pool (commits project) = record {
  clusters =
      update_where (λ c. is_held_by project c.id pool.held) (claim_row project) pool.clusters;
  held = release_locks project pool.held;
}
step pool (rolls_back project) = record pool { held = release_locks project pool.held }
step pool (deletes project) =
    if has_claim project pool.held
    then pool
    else record pool { clusters = update_where (is_claimed_by project) disown pool.clusters }

unfoldable pub run : Pool → List Event → Pool
unfolding step
run pool [] = pool
run pool (e ∷ events) = run (step pool e) events
