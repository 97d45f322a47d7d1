-- ===== src/Tasks/TektonRun/Announced.antt =====
-- The steps that a Tekton run announces: each once, at an index of its own.
use stage.Prelude.{
  ℕ, ◌+◌, ◌≤◌, List, [], ◌∷◌, some, true, false, ◌==◌, ==_iff, Bool-cases, if◌then◌else◌, ◌≡◌, ◌≢◌,
  refl, sym, subst, ◌∙◌, ◌⊎◌, inl, inr, arith, select, update_where, Text, text_eq_iff, ok,
}
use stage.Config.Stages.{PipelineStage}
use stage.Models.{JobStep}
use stage.Workers.Steps.{is_open, is_at, reopen}
use stage.Workers.Steps.Track.{rows_at, open_rows, open_at, reopened_rows, step_again}
use stage.Tekton.Pipeline.{step_index, push_step_index}
use stage.Tekton.Pipeline.Names.{step_index-injective, step_index-bounds}
use stage.Tasks.TektonRun.{is_announced, pushed}

-- The rows of a job that has taken its first step alone.
abbrev pub OnlyFirst : ℕ → List JobStep → Type 0
OnlyFirst job_id steps =
    ((i : ℕ) → i ≢ 1 → rows_at job_id i steps ≡ 0) × (rows_at job_id 1 steps ≡ 1)

open_at_all :
    (job_id k : ℕ) (steps : List JobStep)
    → ((i : ℕ) → i ≢ k → rows_at job_id i steps ≡ 0)
    → open_at job_id k steps ≡ open_rows job_id steps
unfolding select is_open is_at
open_at_all job_id k [] h = refl
open_at_all job_id k (s ∷ steps) h =
    ground (arith, h s.step_index, open_at_all job_id k steps (λ i ne. ground (arith, h i ne)))

rows_at-reopen :
    (job_id k total i : ℕ) (name : Text) (steps : List JobStep)
    → rows_at job_id i (update_where (is_at job_id k) (reopen total name) steps)
      ≡ rows_at job_id i steps
unfolding select update_where is_at reopen
rows_at-reopen job_id k total i name [] = refl
rows_at-reopen job_id k total i name (s ∷ steps) =
    ground (arith, rows_at-reopen job_id k total i name steps)

-- Taking the first step again, while no other is taken.
pub again_lem :
    (now job_id total : ℕ) (name : Text) (steps : List JobStep)
    → OnlyFirst job_id steps
    → (stage.Workers.Steps.step now job_id 1 total name steps
        ≡ ok (reopened_rows now job_id 1 total name steps))
      × OnlyFirst job_id (reopened_rows now job_id 1 total name steps)
      × (open_rows job_id (reopened_rows now job_id 1 total name steps) ≤ 1)
again_lem now job_id total name steps (others, one) =
    let (stepped, count) = step_again now job_id 1 total name steps one in
    let still = λ (i : ℕ). rows_at-reopen job_id 1 total i name steps in
    (
      stepped,
      (λ i ne. still i ∙ others i ne, still 1 ∙ one),
      omega (arith, count, open_at_all job_id 1 steps others),
    )

module _ (stages : List PipelineStage) where
  -- A name is announced at its own index, and the push at its.
  abbrev pub IsAt : Text → ℕ → Type 0
  IsAt name i = (step_index stages name ≡ some i) ⊎ ((name ≡ pushed) × (i ≡ push_step_index stages))

  IsAt-injective : (a b : Text) (i : ℕ) → IsAt a i → IsAt b i → a ≡ b
  IsAt-injective a b i (inl h) (inl k) = step_index-injective stages a b i h k
  IsAt-injective a b i (inl h) (inr (k, e)) = absurd ((step_index-bounds stages a i h).2 e)
  IsAt-injective a b i (inr (h, e)) (inl k) = absurd ((step_index-bounds stages b i k).2 e)
  IsAt-injective a b i (inr (h, e)) (inr (k, f)) = h ∙ sym k

  -- Apart from the first, every row stands at the index of an announced name.
  abbrev pub Accounts : ℕ → List Text → List JobStep → Type 0
  Accounts job_id announced steps =
      (i : ℕ)
      → i ≢ 1
      → ((name : Text) → is_announced name announced ≡ true → IsAt name i → ⊥)
      → rows_at job_id i steps ≡ 0

  pub Accounts-fresh :
      (job_id index : ℕ) (name : Text) (announced : List Text) (steps : List JobStep)
      → Accounts job_id announced steps
      → IsAt name index
      → index ≢ 1
      → is_announced name announced ≡ false
      → rows_at job_id index steps ≡ 0
  Accounts-fresh job_id index name announced steps rows at ne new =
      rows index ne λ other old k. cc (new, old, IsAt-injective name other index at k)

  pub Accounts-step :
      (job_id index : ℕ) (name : Text) (announced : List Text) (steps steps' : List JobStep)
      → Accounts job_id announced steps
      → IsAt name index
      → ((i : ℕ) → rows_at job_id i steps' ≡ rows_at job_id i steps + (if index == i then 1 else 0))
      → Accounts job_id (name ∷ announced) steps'
  unfolding is_announced
  Accounts-step job_id index name announced steps steps' rows at moved i ne not_at =
      elim (Bool-cases (index == i)) [
        | inl same ↦ absurd (
            not_at name (rw ((text_eq_iff name name).1 refl) refl)
              (subst (IsAt name) ((==_iff index i).0 same) at))
        | inr other ↦
            moved i
            ∙ rw other (
                omega (
                  arith,
                  rows i ne (λ n old k. not_at n (ground (arith, old, text_eq_iff name n)) k),
                ))
      ]
