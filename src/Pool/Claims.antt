-- ===== src/Pool/Claims.antt =====
-- No two claims of one cluster, however the workers interleave, and what a claim hands out.
use stage.Prelude.{
  ℕ, List, [], ◌∷◌, Option, none, some, true, false, ◌==◌, select, Text, ◌≡◌, refl, arith, Elem,
  Elem-select_of, ◌≤◌, by_key, find-update_where, Option-cases, Bool-cases, text_eq_iff, find-some,
  ◌≢◌, ap, ◌∙◌, inl, inr,
}
use stage.Pool.{
  PooledCluster, Pool, is_available, is_held, is_held_by, is_candidate, oldest, claim_row,
  claim_cluster, Event, claims, commits, rolls_back, deletes, claimed, is_claimed_by, has_claim,
  step, run,
}
use stage.Pool.Locks.{is_held_by-is_held, oldest-none, oldest-le}
use stage.Pool.Exclusive.{
  row, IsExclusive, candidate_lem, claims-IsExclusive, rolls_back-IsExclusive, row-commits,
  commits-IsExclusive, row-deletes, deletes-IsExclusive,
}

step-IsExclusive : (pool : Pool) (e : Event) → IsExclusive pool → IsExclusive (step pool e)
unfolding step
step-IsExclusive pool (claims wanted project) inv = claims-IsExclusive pool inv wanted project
step-IsExclusive pool (commits project) inv = commits-IsExclusive pool inv project
step-IsExclusive pool (rolls_back project) inv = rolls_back-IsExclusive pool inv project
step-IsExclusive pool (deletes project) inv = deletes-IsExclusive pool inv project

-- Whatever claims, commits, rollbacks and deletions of any projects follow one another, no cluster is
-- locked for two claims at once, every lock is on a row that is available, and an available row is owned by no
-- project, so that no cluster that a project has got is locked or can be claimed again: from a pool where that
-- holds, with one row for each id.
pub run-IsExclusive :
    (pool : Pool) (events : List Event) → IsExclusive pool → IsExclusive (run pool events)
unfolding run
run-IsExclusive pool [] inv = inv
run-IsExclusive pool (e ∷ events) inv =
    run-IsExclusive (step pool e) events (step-IsExclusive pool e inv)

clusters-claim :
    (pool : Pool) (wanted : Text) (project : ℕ)
    → (claim_cluster pool wanted project).1.clusters ≡ pool.clusters
unfolding claim_cluster
clusters-claim pool wanted project =
    elim (Option-cases (oldest (select (is_candidate wanted pool.held) pool.clusters))) [
      | inl absent ↦ rw (absent, claim_cluster) refl
      | inr (c, found) ↦ rw (found, claim_cluster) refl
    ]

-- A row that a claim may get: of the wanted hash, available, and locked by nobody.
abbrev pub Fits : Pool → Text → PooledCluster → Type 0
Fits pool wanted c =
    (c.spec_hash ≡ wanted) × (is_available c.status ≡ true) × (is_held c.id pool.held ≡ false)

-- What a claim answers, and what its commit then writes.
abbrev pub IsClaim : Pool → Text → ℕ → Option PooledCluster × Pool → Type 0
IsClaim pool wanted project (none, pool') =
    (pool' ≡ pool) × ((y : PooledCluster) → Elem y pool.clusters → Fits pool wanted y → ⊥)
IsClaim pool wanted project (some c, pool') =
    (x : PooledCluster) × (row pool x.id ≡ some x)
    × Fits pool wanted x
    × ((y : PooledCluster)
        → Elem y pool.clusters
        → Fits pool wanted y
        → x.created_at ≤ y.created_at)
    × (c ≡ record x { status = claimed; claimed_by_project_id = some project })
    × (pool'.clusters ≡ pool.clusters)
    × (pool'.held ≡ (x.id, project) ∷ pool.held)
    × (row (step pool' (commits project)) x.id ≡ some c)

fits_lem :
    (pool : Pool) (wanted : Text) (y : PooledCluster)
    → Fits pool wanted y
    → is_candidate wanted pool.held y ≡ true
unfolding is_candidate
fits_lem pool wanted y (hash, free, unlocked) = ground (arith, text_eq_iff y.spec_hash wanted)

commit_row :
    (pool : Pool) (project : ℕ) (x : PooledCluster)
    → row pool x.id ≡ some x
    → is_held_by project x.id pool.held ≡ true
    → row (step pool (commits project)) x.id ≡ some (claim_row project x)
unfolding step
commit_row pool project x there mine =
    find-update_where (λ (c : PooledCluster). c.id == x.id) (λ c. is_held_by project c.id pool.held)
      (claim_row project) (λ c. refl) pool.clusters
    ∙ rw there (rw mine refl)

-- claim_cluster hands out a committed row of the wanted hash that was available and locked by nobody, the
-- oldest such row, marked as claimed and the project's and otherwise as it was; the project holds its lock, and its commit writes
-- what was handed out; it hands out nothing only where no row fits, and then changes nothing. In a pool
-- with one row for each id, one lock at most on each available row, and no available row owned.
pub claim_cluster_lem :
    (pool : Pool) (wanted : Text) (project : ℕ)
    → IsExclusive pool
    → IsClaim pool wanted project (claim_cluster pool wanted project)
unfolding claim_cluster is_candidate
claim_cluster_lem pool wanted project inv =
    let rows = select (is_candidate wanted pool.held) pool.clusters in
    elim (Option-cases (oldest rows)) [
      | inl absent ↦
          rw (absent, claim_cluster)
            (
              refl,
              λ y there fits. oldest-none rows y absent (
                  Elem-select_of (is_candidate wanted pool.held) pool.clusters y there
                    (fits_lem pool wanted y fits)),
            )
      | inr (x, found) ↦
          let (there, fits) = candidate_lem pool inv wanted x found in
          rw (found, claim_cluster)
            (
              x,
              there,
              (ground (arith, text_eq_iff x.spec_hash wanted), ground arith, ground arith),
              λ y here ok_row. oldest-le rows x y found (
                  Elem-select_of (is_candidate wanted pool.held) pool.clusters y here
                    (fits_lem pool wanted y ok_row)),
              refl,
              refl,
              refl,
              commit_row (record pool { held = (x.id, project) ∷ pool.held }) project x there
                  (unfold is_held_by in ground arith),
            )
    ]

-- No event deletes the project.
abbrev pub Spares : Option ℕ → List Event → Type 0
Spares owner [] = Unit
Spares owner (deletes project ∷ events) = (owner ≢ some project) × Spares owner events
Spares owner (claims wanted project ∷ events) = Spares owner events
Spares owner (commits project ∷ events) = Spares owner events
Spares owner (rolls_back project ∷ events) = Spares owner events

not_owner :
    (project : ℕ) (c : PooledCluster)
    → c.claimed_by_project_id ≢ some project
    → is_claimed_by project c ≡ false
unfolding is_claimed_by
not_owner project c other = elim (Option-cases c.claimed_by_project_id) [
  | inl absent ↦ ground arith
  | inr (p, owner) ↦ elim (Bool-cases (p == project)) [
    | inl same ↦ absurd (other (ground arith))
    | inr apart ↦ ground arith
  ]
]

row-step :
    (pool : Pool) (e : Event) (id : ℕ) (c : PooledCluster)
    → IsExclusive pool
    → row pool id ≡ some c
    → is_available c.status ≡ false
    → Spares c.claimed_by_project_id (e ∷ [])
    → row (step pool e) id ≡ some c
row-step pool (claims wanted project) id c inv at taken spared =
    unfold step in
    ap (λ (cs : List PooledCluster). by_key (λ (z : PooledCluster). z.id) cs id)
      (clusters-claim pool wanted project)
    ∙ at
row-step pool (commits project) id c inv at taken spared =
    let (here, _) = find-some (λ (z : PooledCluster). z.id == id) pool.clusters c at in
    let same : c.id ≡ id = ground arith in
    let other : is_held_by project c.id pool.held ≡ false = ground (
      arith,
      is_held_by-is_held project c.id pool.held,
      inv.unclaimed c.id c (ap (row pool) same ∙ at),
    ) in
    rw (row-commits pool inv project id) (rw at (rw other refl))
row-step pool (rolls_back project) id c inv at taken spared = unfold step in at
row-step pool (deletes project) id c inv at taken spared =
    elim (Bool-cases (has_claim project pool.held)) [
      | inl waits ↦ unfold step in rw waits at
      | inr free ↦
          let kept : is_claimed_by project c ≡ false = not_owner project c spared.0 in
          unfold step in rw free (rw (row-deletes pool inv project id) (rw at (rw kept refl)))
    ]

Spares-head :
    (owner : Option ℕ) (e : Event) (events : List Event)
    → Spares owner (e ∷ events)
    → Spares owner (e ∷ []) × Spares owner events
Spares-head owner (deletes project) events (h, rest) = ((h, tt), rest)
Spares-head owner (claims wanted project) events rest = (tt, rest)
Spares-head owner (commits project) events rest = (tt, rest)
Spares-head owner (rolls_back project) events rest = (tt, rest)

-- A cluster that a project has got stays with it: a committed row that is not available, claimed or still
-- warming, is the same, its project too, after any claims, commits, rollbacks and deletions that follow, as long as
-- the project that owns it is not among those deleted, in a pool with one row for each id, one lock at most
-- on each available row, and no available row owned.
pub claimed_stays :
    (pool : Pool) (events : List Event) (id : ℕ) (c : PooledCluster)
    → IsExclusive pool
    → row pool id ≡ some c
    → is_available c.status ≡ false
    → Spares c.claimed_by_project_id events
    → row (run pool events) id ≡ some c
unfolding run
claimed_stays pool [] id c inv at taken spared = at
claimed_stays pool (e ∷ events) id c inv at taken spared =
    let (now, later) = Spares-head c.claimed_by_project_id e events spared in
    claimed_stays (step pool e) events id c (step-IsExclusive pool e inv)
      (row-step pool e id c inv at taken now) taken later
