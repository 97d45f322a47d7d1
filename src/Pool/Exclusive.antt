-- ===== src/Pool/Exclusive.antt =====
-- What each event does to the locks and the rows of the pool.
use stage.Prelude.{
  ℕ, Option, none, some, true, false, ◌==◌, select, Text, ◌≡◌, refl, arith, Elem-select,
  update_where, by_key, by_key-Elem, IsKeyed, rewritten, find-update_where, Option-cases,
  Bool-cases, find-some, ◌≢◌, ap, sym, ◌∙◌, inl, inr,
}
use stage.Pool.{
  PooledCluster, Pool, is_available, is_held, is_held_by, is_candidate, oldest, claim_row,
  claim_cluster, commits, rolls_back, deletes, claimed, disown, is_claimed_by, has_claim,
  release_locks, step,
}
use stage.Pool.Locks.{
  AreApart, oldest-Elem, is_held-release, AreApart-release, is_held_by-release, some_injective,
  IsKeyed-writes,
}

abbrev pub row : Pool → ℕ → Option PooledCluster
row pool id = by_key (λ (c : PooledCluster). c.id) pool.clusters id

-- One row for each id, one lock at most on each, and only on available rows, which have no owner.
pub record IsExclusive (pool : Pool) : Type 0 where
  pub keys : IsKeyed (λ (c : PooledCluster). c.id) pool.clusters
  pub apart : AreApart pool.held
  pub unclaimed :
      (id : ℕ) (c : PooledCluster)
      → row pool id ≡ some c
      → is_held id pool.held ≡ true
      → is_available c.status ≡ true
  pub ownerless :
      (id : ℕ) (c : PooledCluster)
      → row pool id ≡ some c
      → is_available c.status ≡ true
      → c.claimed_by_project_id ≡ none

module _ (pool : Pool) (inv : IsExclusive pool) where
  -- What claim_cluster finds: the row is there, fits, is available and is locked by nobody.
  pub candidate_lem :
      (wanted : Text) (c : PooledCluster)
      → oldest (select (is_candidate wanted pool.held) pool.clusters) ≡ some c
      → (row pool c.id ≡ some c) × (is_candidate wanted pool.held c ≡ true)
  candidate_lem wanted c e =
      let (fits, there) =
        Elem-select (is_candidate wanted pool.held) pool.clusters c (oldest-Elem _ c e) in
      (by_key-Elem (λ (x : PooledCluster). x.id) pool.clusters c inv.keys there, fits)

  pub claims-IsExclusive :
      (wanted : Text) (project : ℕ) → IsExclusive (claim_cluster pool wanted project).1
  unfolding claim_cluster
  claims-IsExclusive wanted project =
      elim (Option-cases (oldest (select (is_candidate wanted pool.held) pool.clusters))) [
        | inl absent ↦ rw (absent, claim_cluster) inv
        | inr (c, found) ↦
            let (there, fits) = candidate_lem wanted c found in
            rw (found, claim_cluster)
              (record {
                keys = inv.keys;
                apart = (unfold is_candidate in ground arith, inv.apart);
                unclaimed = λ id x at locked. elim (Bool-cases (c.id == id)) [
                  | inl same ↦
                      let here : c.id ≡ id = ground arith in
                      let both : x ≡ c =
                        some_injective (sym at ∙ (ap (row pool) (sym here) ∙ there)) in
                      unfold is_candidate in
                      ground (arith, both, ap (λ (z : PooledCluster). is_available z.status) both)
                  | inr other ↦ inv.unclaimed id x at (unfold is_held in ground arith)
                ];
                ownerless = inv.ownerless;
              })
      ]

  pub rolls_back-IsExclusive : (project : ℕ) → IsExclusive (step pool (rolls_back project))
  unfolding step
  rolls_back-IsExclusive project = record {
    keys = inv.keys;
    apart = AreApart-release project pool.held inv.apart;
    unclaimed =
        λ id c at locked. inv.unclaimed id c at (is_held-release project id pool.held locked);
    ownerless = inv.ownerless;
  }

  pub row-commits :
      (project id : ℕ)
      → row (step pool (commits project)) id
        ≡ rewritten (λ c. is_held_by project c.id pool.held) (claim_row project) (row pool id)
  unfolding step
  row-commits project id =
      find-update_where (λ (c : PooledCluster). c.id == id) (λ c. is_held_by project c.id pool.held)
        (claim_row project) (λ c. refl) pool.clusters

  module _ (project id : ℕ) (c : PooledCluster)
      (at : row (step pool (commits project)) id ≡ some c) where
    committed_ownerless : is_available c.status ≡ true → c.claimed_by_project_id ≡ none
    committed_ownerless free = elim (Option-cases (row pool id)) [
      | inl absent ↦ absurd (nothing_there absent)
      | inr (x, found) ↦ elim (Bool-cases (is_held_by project x.id pool.held)) [
        | inl mine ↦
            let same : claim_row project x ≡ c =
              some_injective (sym (rw (row-commits project id) (rw found (rw mine refl))) ∙ at) in
            absurd (taken_row x same)
        | inr other ↦
            let same : x ≡ c =
              some_injective (sym (rw (row-commits project id) (rw found (rw other refl))) ∙ at) in
            ap (λ (z : PooledCluster). z.claimed_by_project_id) (sym same)
            ∙ inv.ownerless id x found
                (ap (λ (z : PooledCluster). is_available z.status) same ∙ free)
      ]
    ]
      where
        nothing_there : row pool id ≢ none
        nothing_there absent = ground (arith, row-commits project id)

        taken_row : (x : PooledCluster) → claim_row project x ≡ c → ⊥
        taken_row x same =
            let e : is_available claimed ≡ is_available c.status =
              ap (λ (z : PooledCluster). is_available z.status) same in
            ground (arith, e)

    nothing_committed : row pool id ≢ none
    nothing_committed absent = ground (arith, row-commits project id)

    still_available :
        (x : PooledCluster)
        → row pool id ≡ some x
        → is_held id (release_locks project pool.held) ≡ true
        → is_available c.status ≡ true
    still_available x found locked =
        let (here, _) = find-some (λ (z : PooledCluster). z.id == id) pool.clusters x found in
        let same : x.id ≡ id = ground arith in
        elim (Bool-cases (is_held_by project id pool.held)) [
          | inl mine ↦ ground (arith, is_held_by-release project id pool.held inv.apart mine)
          | inr other ↦
              let kept : is_held_by project x.id pool.held ≡ false =
                ap (λ z. is_held_by project z pool.held) same ∙ other in
              let moved : row (step pool (commits project)) id ≡ some x =
                rw (row-commits project id) (rw found (rw kept refl)) in
              let c≡x : x ≡ c = some_injective (sym moved ∙ at) in
              ap (λ (z : PooledCluster). is_available z.status) (sym c≡x)
              ∙ inv.unclaimed id x found (is_held-release project id pool.held locked)
        ]

  pub commits-IsExclusive : (project : ℕ) → IsExclusive (step pool (commits project))
  unfolding step
  commits-IsExclusive project = record {
    keys =
        IsKeyed-writes (λ c. is_held_by project c.id pool.held) (claim_row project) pool.clusters
          (λ c. refl) inv.keys;
    apart = AreApart-release project pool.held inv.apart;
    unclaimed = λ id c at locked. elim (Option-cases (row pool id)) [
      | inl absent ↦ absurd (nothing_committed project id c at absent)
      | inr (x, found) ↦ still_available project id c at x found locked
    ];
    ownerless = committed_ownerless project;
  }

  pub row-deletes :
      (project id : ℕ)
      → by_key
          (λ (c : PooledCluster). c.id)
          (update_where (is_claimed_by project) disown pool.clusters)
          id
        ≡ rewritten (is_claimed_by project) disown (row pool id)
  row-deletes project id =
      find-update_where (λ (c : PooledCluster). c.id == id) (is_claimed_by project) disown
        (λ c. refl) pool.clusters

  -- The deletion of a project changes no status.
  kept_status :
      (project id : ℕ) (c : PooledCluster)
      → rewritten (is_claimed_by project) disown (row pool id) ≡ some c
      → (x : PooledCluster) × (row pool id ≡ some x)
        × (x.status ≡ c.status)
        × (x.claimed_by_project_id ≡ none → c.claimed_by_project_id ≡ none)
  kept_status project id c at = elim (Option-cases (row pool id)) [
    | inl absent ↦ absurd (ground arith)
    | inr (x, found) ↦ elim (Bool-cases (is_claimed_by project x)) [
      | inl mine ↦
          let same : disown x ≡ c = some_injective (sym (rw found (rw mine refl)) ∙ at) in
          (
            x,
            found,
            ap (λ (z : PooledCluster). z.status) same,
            λ h. ap (λ (z : PooledCluster). z.claimed_by_project_id) (sym same),
          )
      | inr other ↦
          let same : x ≡ c = some_injective (sym (rw found (rw other refl)) ∙ at) in
          (
            x,
            found,
            ap (λ (z : PooledCluster). z.status) same,
            λ h. ap (λ (z : PooledCluster). z.claimed_by_project_id) (sym same) ∙ h,
          )
    ]
  ]

  pub deletes-IsExclusive : (project : ℕ) → IsExclusive (step pool (deletes project))
  unfolding step
  deletes-IsExclusive project = elim (Bool-cases (has_claim project pool.held)) [
    | inl waits ↦ rw waits inv
    | inr free ↦ rw free (record {
      keys = IsKeyed-writes (is_claimed_by project) disown pool.clusters (λ c. refl) inv.keys;
      apart = inv.apart;
      unclaimed = λ id c at locked.
          let (x, found, same, _) = kept_status project id c (sym (row-deletes project id) ∙ at) in
          ap is_available (sym same) ∙ inv.unclaimed id x found locked;
      ownerless = λ id c at free_now.
          let (x, found, same, none_left) =
            kept_status project id c (sym (row-deletes project id) ∙ at) in
          none_left (inv.ownerless id x found (ap is_available same ∙ free_now));
    })
  ]
