-- ===== src/Tasks/TektonRun/Followed.antt =====
-- What `report` leaves of the job's steps while it follows a run whose clone begins first.
use stage.Prelude.{
  ℕ, ◌+◌, ◌<◌, List, [], ◌∷◌, Option, none, some, true, false, ◌&&◌, ◌||◌, ◌==◌, ==_iff, Bool-cases,
  ◌≡◌, ◌≢◌, refl, ◌∙◌, ap, ◌⊎◌, inl, inr, arith, length, All, Text, text_eq, text_eq_iff, codes,
}
use stage.Config.Stages.{PipelineStage}
use stage.Models.{JobStep}
use stage.Tekton.{Status, pending, skipped, StepState}
use stage.Tekton.Pipeline.{step_index, push_step_index}
use stage.Tekton.Pipeline.Names.{step_index-bounds, step_index-first, step_index-clone}
use stage.Tasks.World.{World}
use stage.Tasks.Calls.{put_steps, step}
use stage.Tasks.Gates.Kept.{State, Raises, During}
use stage.Tasks.Triples.{Leads, leads, also}
use stage.Tasks.Yields.{
  Yields, yields, Given, chain, first_then, branch_value, pure_yields, yielding,
}
use stage.Tasks.Tidy.{step-IsWith, say-IsWith}
use stage.Tasks.TektonRun.{
  Reported, same_status, is_seen, has_begun, is_announced, pushed, is_success, label_of, announce,
  report_begun, report_step, report_steps, report, Snapshot,
}
use stage.Tasks.TektonRun.Announced.{
  OnlyFirst, again_lem, IsAt, Accounts, Accounts-fresh, Accounts-step,
}

abbrev clone : Text
clone = codes "clone"

-- The first step of a snapshot is the clone's, and no other has begun before it has.
abbrev pub CloneFirst : List StepState → Type 0
CloneFirst [] = ⊥
CloneFirst (c ∷ rest) =
    (c.name ≡ clone)
    × All (λ (s : StepState). has_begun s.status ≡ true → has_begun c.status ≡ true) rest

-- No status that the clone was seen with is one of a task that has begun.
abbrev IsQuiet : List (Text × Status) → Type 0
IsQuiet seen = (status : Status) → has_begun status ≡ true → is_seen clone status seen ≡ false

same_status-begun :
    (a b : Status) → has_begun a ≡ false → has_begun b ≡ true → same_status a b ≡ false
unfolding same_status
same_status-begun pending b h k = ground arith
same_status-begun skipped b h k = ground arith
same_status-begun Status.running b h k = absurd (ground arith)
same_status-begun Status.succeeded b h k = absurd (ground arith)
same_status-begun Status.failed b h k = absurd (ground arith)
same_status-begun Status.cancelled b h k = absurd (ground arith)

IsQuiet-put :
    (name : Text) (status : Status) (seen : List (Text × Status))
    → has_begun status ≡ false
    → IsQuiet seen
    → IsQuiet ((name, status) ∷ seen)
unfolding is_seen
IsQuiet-put name status seen shut quiet other begun =
    ground (arith, quiet other begun, same_status-begun status other shut begun)

module _ (job_id deployment_id : ℕ) (stages : List PipelineStage) (total : ℕ) where
  -- The clone is announced, and every row but the first is accounted for.
  abbrev Going : List Text → List JobStep → Type 0
  Going announced steps =
      (is_announced clone announced ≡ true) × Accounts stages job_id announced steps

  abbrev Goes : List Text → World → Type 0
  Goes announced = State job_id deployment_id (Going announced)

  abbrev Starts : World → Type 0
  Starts = State job_id deployment_id (OnlyFirst job_id)

  not_first :
      (name : Text) (announced : List Text) (index : ℕ)
      → is_announced clone announced ≡ true
      → is_announced name announced ≡ false
      → IsAt stages name index
      → index ≢ 1
  not_first name announced index has new (inl h) e =
      cc (has, new, step_index-first stages name (h ∙ ap some e))
  not_first name announced index has new (inr (h, k)) e =
      absurd (unfold push_step_index in omega (arith, k))

  announce_going :
      (index : ℕ) (name label : Text) (announced : List Text)
      → IsAt stages name index
      → Yields
          (Goes announced)
          (announce job_id stages total index name label announced)
          Goes
          (Raises job_id deployment_id)
  unfolding announce
  announce_going index name label announced at =
      branch_value (is_announced name announced) (λ old. pure_yields announced λ w h. h)
        (λ new.
          first_then
            (step-IsWith job_id _ (Going announced) (Going (name ∷ announced)) index total label
              (λ steps (has, rows).
                Accounts-fresh stages job_id index name announced steps rows at
                  (not_first name announced index has new at) new)
              (λ steps steps' (has, rows) moved. (
                unfold is_announced in ground (arith, has),
                Accounts-step stages job_id index name announced steps steps' rows at moved,
              )))
            λ _. pure_yields (name ∷ announced) λ w h. h)

  begun_going :
      (index : ℕ) (s : StepState) (announced : List Text)
      → IsAt stages s.name index
      → Yields
          (Goes announced)
          (report_begun job_id stages total index s announced)
          Goes
          (Raises job_id deployment_id)
  unfolding report_begun
  begun_going index s announced at =
      chain (announce_going index s.name (label_of stages s.name) announced at) λ announced'.
        branch_value (text_eq s.name (codes "build") && is_success s.status)
          (λ _. announce_going (push_step_index stages) pushed _ announced' (inr (refl, refl)))
          (λ _. pure_yields announced' λ w h. h)

  step_going :
      (o : Option ℕ) (s : StepState) (r : Reported)
      → step_index stages s.name ≡ o
      → Yields
          (Goes r.announced)
          (report_step job_id stages total o s r)
          (λ r'. Goes r'.announced)
          (Raises job_id deployment_id)
  unfolding report_step
  step_going none s r e = pure_yields r λ w h. h
  step_going (some index) s r e =
      branch_value (is_seen s.name s.status r.seen) (λ _. pure_yields r λ w h. h)
        (λ _.
          chain
            (branch_value {Q = Goes} (has_begun s.status)
              (λ _. begun_going index s r.announced (inl e))
              (λ _. pure_yields r.announced λ w h. h))
            λ announced. pure_yields _ λ w h. h)

  steps_going :
      (ss : List StepState) (r : Reported)
      → Yields
          (Goes r.announced)
          (report_steps job_id stages total ss r)
          (λ r'. Goes r'.announced)
          (Raises job_id deployment_id)
  unfolding report_steps
  steps_going [] r = pure_yields r λ w h. h
  steps_going (s ∷ ss) r =
      chain (step_going (step_index stages s.name) s r refl) λ r'. steps_going ss r'

  -- Nothing is announced before the clone.
  abbrev Early : Reported → World → Type 0
  Early r w = (r.announced ≡ []) × IsQuiet r.seen × Starts w

  step_quiet :
      (o : Option ℕ) (s : StepState) (r : Reported)
      → has_begun s.status ≡ false
      → Yields (Early r) (report_step job_id stages total o s r) Early (Raises job_id deployment_id)
  unfolding report_step
  step_quiet none s r shut = pure_yields r λ w h. h
  step_quiet (some index) s r shut =
      branch_value (is_seen s.name s.status r.seen) (λ _. pure_yields r λ w h. h)
        (λ _. rw shut (
          chain {Q = λ announced w. (announced ≡ r.announced) × Early r w}
            (pure_yields r.announced λ w h. (refl, h))
            λ announced. pure_yields _ λ w (e, (nothing, quiet, h)).
              (e ∙ nothing, IsQuiet-put s.name s.status r.seen shut quiet, h)))

  steps_quiet :
      (ss : List StepState) (r : Reported)
      → All (λ (s : StepState). has_begun s.status ≡ false) ss
      → Yields (Early r) (report_steps job_id stages total ss r) Early (Raises job_id deployment_id)
  unfolding report_steps
  steps_quiet [] r h = pure_yields r λ w h. h
  steps_quiet (s ∷ ss) r (shut, rest) =
      chain (step_quiet (step_index stages s.name) s r shut) λ r'. steps_quiet ss r' rest

  step_first :
      (label : Text) → Leads Starts (step job_id 1 total label) Starts (Raises job_id deployment_id)
  unfolding step put_steps
  step_first label =
      also {Q = Starts}
        (leads λ w ((job, known, there, single), rows).
          let (stepped, still, few) = again_lem w.now job_id total label w.steps rows in
          rw stepped ((job, known, there, few), still))
        (say-IsWith job_id _ (OnlyFirst job_id) _)

  announce_first :
      (index : ℕ) (name label : Text)
      → name ≡ clone
      → IsAt stages name index
      → Yields Starts
          (announce job_id stages total index name label [])
          Goes
          (Raises job_id deployment_id)
  unfolding announce is_announced
  announce_first index name label e at = elim (Bool-cases (index == 1)) [
    | inl same ↦ rw ((==_iff index 1).0 same) (
        first_then (step_first label) λ _.
          pure_yields (name ∷ [])
            λ w (safe, (others, one)). (safe, (known, λ i ne not_at. others i ne)))
    | inr other ↦
        first_then
          (step-IsWith job_id _ (OnlyFirst job_id) (Going (name ∷ [])) index total label
            (λ steps (others, one). others index (away other))
            (λ steps steps' (others, one) moved. (
              known,
              Accounts-step stages job_id index name [] steps steps' (λ i ne not_at. others i ne) at
                  moved,
            )))
          λ _. pure_yields (name ∷ []) λ w h. h
  ]
    where
      known : (text_eq name clone || false) ≡ true
      known = ground (arith, text_eq_iff name clone)

      away : (index == 1) ≡ false → index ≢ 1
      away h e = ground (arith, h, e)

  -- What `report` keeps between two snapshots.
  abbrev pub Follows : Reported → World → Type 0
  Follows r w = Early r w ⊎ Goes r.announced w

  begun_first :
      (index : ℕ) (s : StepState) (announced : List Text)
      → announced ≡ []
      → s.name ≡ clone
      → IsAt stages s.name index
      → Yields Starts
          (report_begun job_id stages total index s announced)
          Goes
          (Raises job_id deployment_id)
  unfolding report_begun
  begun_first index s announced nothing e at = rw nothing (
      chain (announce_first index s.name (label_of stages s.name) e at) λ announced'.
        branch_value (text_eq s.name (codes "build") && is_success s.status)
          (λ _. announce_going (push_step_index stages) pushed _ announced' (inr (refl, refl)))
          (λ _. pure_yields announced' λ w h. h))

  unseen :
      (s : StepState) (seen : List (Text × Status))
      → s.name ≡ clone
      → has_begun s.status ≡ true
      → IsQuiet seen
      → is_seen s.name s.status seen ≡ false
  unseen s seen e begun quiet = rw e (quiet s.status begun)

  step_clone :
      (o : Option ℕ) (s : StepState) (r : Reported)
      → step_index stages s.name ≡ o
      → s.name ≡ clone
      → has_begun s.status ≡ true
      → r.announced ≡ []
      → IsQuiet r.seen
      → Yields Starts
          (report_step job_id stages total o s r)
          (λ r'. Goes r'.announced)
          (Raises job_id deployment_id)
  unfolding report_step
  step_clone none s r at e begun nothing quiet =
      let (i, there) = step_index-clone stages in absurd (impossible i there)
    where
      impossible : (i : ℕ) → step_index stages clone ≡ some i → ⊥
      impossible i there = cc (ap (step_index stages) e)
  step_clone (some index) s r at e begun nothing quiet = rw (unseen s r.seen e begun quiet) (
      rw begun (
        chain (begun_first index s r.announced nothing e (inl at))
          λ announced. pure_yields _ λ w h. h))

  shut_rest :
      (c : StepState) (ss : List StepState)
      → has_begun c.status ≡ false
      → All (λ (s : StepState). has_begun s.status ≡ true → has_begun c.status ≡ true) ss
      → All (λ (s : StepState). has_begun s.status ≡ false) ss
  shut_rest c [] shut h = tt
  shut_rest c (s ∷ ss) shut (first, rest) = (
    elim (Bool-cases (has_begun s.status)) [
      | inl begun ↦ absurd (not_both (first begun) shut)
      | inr quiet ↦ quiet
    ],
    shut_rest c ss shut rest,
  )
    where
      not_both : has_begun c.status ≡ true → has_begun c.status ≡ false → ⊥
      not_both h k = cc

  report-Early :
      (r : Reported) (ss : List StepState)
      → CloneFirst ss
      → Yields
          (Early r)
          (report_steps job_id stages total ss r)
          Follows
          (Raises job_id deployment_id)
  unfolding report_steps
  report-Early r [] order = absurd order
  report-Early r (c ∷ rest) (e, order) = elim (Bool-cases (has_begun c.status)) [
    | inl begun ↦ yields λ w (nothing, quiet, h).
        (yielding {S = Follows} (λ r' w h. inr h)
            (chain (step_clone (step_index stages c.name) c r refl e begun nothing quiet)
              λ r'. steps_going rest r')).from
          w h
    | inr shut ↦
        yielding (λ r' w h. inl h)
          (chain (step_quiet (step_index stages c.name) c r shut)
            λ r'. steps_quiet rest r' (shut_rest c rest shut order))
  ]

  pub report_lem :
      (r : Reported) (last : Snapshot)
      → CloneFirst last.steps
      → Yields (Follows r) (report job_id stages total r last) Follows (Raises job_id deployment_id)
  unfolding report
  report_lem r last order = yields follow
    where
      follow :
          (w : World)
          → Follows r w
          → Given Follows
              (Raises job_id deployment_id)
              (report_steps job_id stages total last.steps r w)
      follow w (inl h) = (report-Early r last.steps order).from w h
      follow w (inr h) =
          (yielding {S = Follows} (λ r' w h. inr h) (steps_going last.steps r)).from w h

  -- Whatever was announced, the steps behind the push and the scan are free.
  pub Follows-During :
      (r : Reported) (w : World) → Follows r w → During job_id deployment_id (6 + length stages) w
  Follows-During r w (inl (nothing, quiet, (safe, (others, one)))) =
      (safe, λ i h. others i (omega arith))
  Follows-During r w (inr (safe, (has, rows))) =
      (safe, λ i h. rows i (omega arith) λ name old at. beyond i name h at)
    where
      beyond : (i : ℕ) (name : Text) → 6 + length stages < i → IsAt stages name i → ⊥
      beyond i name h (inl at) = omega (arith, (step_index-bounds stages name i at).1)
      beyond i name h (inr (e, k)) = unfold push_step_index in omega (arith, k)

  -- At the start, with the first step taken alone.
  pub Follows-start :
      (w : World)
      → State job_id deployment_id (OnlyFirst job_id) w
      → Follows (record { seen = []; announced = [] }) w
  unfolding is_seen
  Follows-start w h = inl (refl, (λ status begun. refl), h)

  pub Follows-Raises : (r : Reported) (w : World) → Follows r w → Raises job_id deployment_id w
  Follows-Raises r w (inl (nothing, quiet, (safe, rows))) = safe
  Follows-Raises r w (inr (safe, rows)) = safe
