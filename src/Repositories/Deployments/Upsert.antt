-- ===== src/Repositories/Deployments/Upsert.antt =====
-- One row for each service of a project: what `create` does to the table.
use stage.Prelude.{
  ℕ, String, List, [], ◌∷◌, ◌++◌, Option, none, some, ◌==◌, str_eq_iff, ◌≡◌, refl, arith, find, ◌⊎◌,
  inl, inr, update_where, Option-cases, find-some, ◌≢◌, IsKeyed, rewritten, find-update_where,
  find-snoc, by_key-Elem,
}
use stage.Models.{Deployment}
use stage.Repositories.Deployments.{
  Release, is_service, release, new_deployment, write_service, upsert,
}

abbrev pub at : ℕ → String → List Deployment → Option Deployment
at project_id service_name rows = find (is_service project_id service_name) rows

-- No two rows describe one service (`uq_deployments_project_service`).
abbrev pub HasOneRowEach : List Deployment → Type 0
HasOneRowEach [] = Unit
HasOneRowEach (d ∷ ds) = (at d.project_id d.service_name ds ≡ none) × HasOneRowEach ds

abbrev pub IsKeyedTable : List Deployment → Type 0
IsKeyedTable rows = IsKeyed (λ (d : Deployment). d.id) rows

module _ (r : Release) (id : ℕ) where
  abbrev rewrite_row : List Deployment → List Deployment
  rewrite_row rows = update_where (λ d. d.id == id) (release r) rows

  is_service-release :
      (p : ℕ) (n : String) (d : Deployment) → is_service p n (release r d) ≡ is_service p n d
  unfolding is_service release
  is_service-release p n d = refl

  at-rewrite :
      (p : ℕ) (n : String) (rows : List Deployment)
      → at p n (rewrite_row rows) ≡ rewritten (λ d. d.id == id) (release r) (at p n rows)
  at-rewrite p n rows =
      find-update_where (is_service p n) (λ d. d.id == id) (release r) (is_service-release p n) rows

  HasOneRowEach-rewrite :
      (rows : List Deployment) → HasOneRowEach rows → HasOneRowEach (rewrite_row rows)
  unfolding update_where release
  HasOneRowEach-rewrite [] h = tt
  HasOneRowEach-rewrite (d ∷ ds) h =
      (ground (arith, at-rewrite d.project_id d.service_name ds), HasOneRowEach-rewrite ds h.1)

HasOneRowEach-snoc :
    (rows : List Deployment) (d : Deployment)
    → HasOneRowEach rows
    → at d.project_id d.service_name rows ≡ none
    → HasOneRowEach (rows ++ d ∷ [])
unfolding find is_service
HasOneRowEach-snoc [] d h new = (refl, tt)
HasOneRowEach-snoc (x ∷ xs) d h new =
    let here = str_eq_iff d.service_name x.service_name in
    let there = str_eq_iff x.service_name d.service_name in
    (
      ground (arith, find-snoc (is_service x.project_id x.service_name) xs d, here, there),
      HasOneRowEach-snoc xs d h.1 (ground (arith, here, there)),
    )

-- The row that a release leaves behind: queued, with the image and the URL of the previous release
-- kept where the service was there before.
abbrev pub released : ℕ → ℕ → ℕ → String → Release → Option Deployment → Deployment
released id now project_id service_name r none = record {
  id = id;
  project_id = project_id;
  service_name = service_name;
  repo_url = r.repo_url;
  branch = r.branch;
  port = r.port;
  replicas = r.replicas;
  strategy = r.strategy;
  status = "queued";
  image_ref = none;
  live_url = none;
  created_at = now;
}
released id now project_id service_name r (some d) = record d {
  repo_url = r.repo_url;
  branch = r.branch;
  port = r.port;
  replicas = r.replicas;
  strategy = r.strategy;
  status = "queued";
}

module _ (id now project_id : ℕ) (service_name : String) (r : Release)
    (rows : List Deployment) where
  write_service-HasOneRowEach :
      (o : Option Deployment)
      → at project_id service_name rows ≡ o
      → HasOneRowEach rows
      → HasOneRowEach (write_service id now project_id service_name r rows o).0
  unfolding write_service
  write_service-HasOneRowEach none e h =
      HasOneRowEach-snoc rows (new_deployment id now project_id service_name r) h e
  write_service-HasOneRowEach (some d) e h = HasOneRowEach-rewrite r d.id rows h

  write_service-at :
      (o : Option Deployment)
      → at project_id service_name rows ≡ o
      → (at project_id service_name (write_service id now project_id service_name r rows o).0
          ≡ some (released id now project_id service_name r o))
        × ((write_service id now project_id service_name r rows o).1
            ≡ released id now project_id service_name r o)
  unfolding write_service is_service
  write_service-at none e = (
    ground (
      arith,
      find-snoc (is_service project_id service_name) rows
          (new_deployment id now project_id service_name r),
      str_eq_iff service_name service_name,
    ),
    refl,
  )
  write_service-at (some d) e =
      (ground (arith, at-rewrite r d.id project_id service_name rows), refl)

  -- `create` keeps the table at one row for each service, whether it writes over the service's row
  -- or adds one.
  pub upsert-HasOneRowEach :
      HasOneRowEach rows → HasOneRowEach (upsert id now project_id service_name r rows).0
  unfolding upsert
  upsert-HasOneRowEach = write_service-HasOneRowEach (at project_id service_name rows) refl

  -- The service's row after `create`, and the row that `create` returns, is a new queued row where the
  -- service had none, and otherwise the old row, queued, with the release's repository, branch, port,
  -- replicas and strategy and everything else (id, image, URL) kept.
  pub upsert-at :
      (at project_id service_name (upsert id now project_id service_name r rows).0
        ≡ some (released id now project_id service_name r (at project_id service_name rows)))
      × ((upsert id now project_id service_name r rows).1
          ≡ released id now project_id service_name r (at project_id service_name rows))
  unfolding upsert
  upsert-at = write_service-at (at project_id service_name rows) refl

  module _ (p : ℕ) (n : String) (keys : IsKeyedTable rows)
      (other : (p ≢ project_id) ⊎ (n ≢ service_name)) where
    -- Two services have two rows, and two rows have two ids.
    ids_differ :
        (d x : Deployment)
        → at project_id service_name rows ≡ some d
        → at p n rows ≡ some x
        → x.id ≢ d.id
    unfolding is_service
    ids_differ d x found there same =
        let (is_d, in_d) = find-some (is_service project_id service_name) rows d found in
        let (is_x, in_x) = find-some (is_service p n) rows x there in
        ground (
          arith,
          by_key-Elem (λ (z : Deployment). z.id) rows d keys in_d,
          by_key-Elem (λ (z : Deployment). z.id) rows x keys in_x,
          str_eq_iff d.service_name service_name,
          str_eq_iff x.service_name n,
        )

    write_service-at_ne :
        (o : Option Deployment)
        → at project_id service_name rows ≡ o
        → at p n (write_service id now project_id service_name r rows o).0 ≡ at p n rows
    unfolding write_service is_service
    write_service-at_ne none e = ground (
      arith,
      find-snoc (is_service p n) rows (new_deployment id now project_id service_name r),
      str_eq_iff service_name n,
    )
    write_service-at_ne (some d) e = elim (Option-cases (at p n rows)) [
      | inl absent ↦ ground (arith, at-rewrite r d.id p n rows)
      | inr (x, there) ↦ ground (arith, at-rewrite r d.id p n rows, ids_differ d x e there)
    ]

    -- Every other service's row, of this project or another, is the same after `create` as before, where
    -- row ids are unique.
    pub upsert-at_ne : at p n (upsert id now project_id service_name r rows).0 ≡ at p n rows
    unfolding upsert
    upsert-at_ne = write_service-at_ne (at project_id service_name rows) refl
