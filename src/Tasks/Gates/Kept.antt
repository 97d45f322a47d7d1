-- ===== src/Tasks/Gates/Kept.antt =====
-- What the writes of a gate keep of the job, its steps and its deployment.
use mathlib.Core.Option
use stage.Prelude.{
  ℕ, ◌+◌, String, List, Option, none, some, Bool, true, false, ◌≡◌, refl, sym, subst, ◌⊎◌, inl, inr,
  Text, Result, ok, err, by_key, by_key-update_map, Option-cases,
}
use stage.Models.{Db, Job, JobStep, Project, Scan, Deployment}
use stage.Access.{AccessError, system}
use stage.Parsers.{ParsedFindings}
use stage.Tasks.World.{World, Run, pure, Reply, ask}
use stage.Tasks.Calls.{log_lines, stream}
use stage.Tasks.Scan.{ScanRun, set_result, add_findings}
use stage.Repositories.Jobs.{visible_project}
use stage.Tasks.ProvisionTask.{sleep}
use stage.Tasks.Gates.{Twice, set_deployment, put_scan, record_scan, run_twice, block, require}
use stage.Tasks.Triples.{Post, Leads, leads, bind, also, ending, pure_lem, raise_lem, modify_lem}
use stage.Tasks.Yields.{
  Yields, yields, chain, blind, pure_value, settle_value, given_value, branch_value, told, failing,
}
use stage.Tasks.Tidy.{IsSafe, IsWith, IsTidy, Unused, say_lem, log_lines-IsWith}

-- The predicate on a deployment's row.
abbrev pub OnDeployment :
    ℕ → (Option Deployment → Type 0) → List Project → List Scan → List Deployment → Type 0
OnDeployment id U projects scans deployments = U (by_key (λ (d : Deployment). d.id) deployments id)

abbrev pub IsThere : Option Deployment → Type 0
IsThere none = ⊥
IsThere (some d) = Unit

-- `set_status` on the row.
abbrev pub rewrite : String → Option Text → Option Text → Option Deployment → Option Deployment
rewrite status image_ref live_url =
    Option.map (λ d. stage.Repositories.Deployments.set_status d status image_ref live_url)

-- The run that a gate decides by: the first, or the second where the first was no good.
abbrev pub Came : (ScanRun → Bool) → Twice → ScanRun → Type 0
Came good twice r =
    (twice.first.answer ≡ ok r) × (good r ≡ true)
    ⊎ ((first : ScanRun) × (twice.first.answer ≡ ok first)
        × (good first ≡ false)
        × (twice.second.answer ≡ ok r))

-- The insert of a scan changes the table of scans alone.
abbrev Keeps : Db → Result AccessError (Db × Scan) → Type 0
Keeps db (err e) = Unit
Keeps db (ok (db', scan)) = (db'.jobs ≡ db.jobs) × (db'.deployments ≡ db.deployments)

create-Keeps :
    (id now : ℕ) (db : Db) (project_id : ℕ) (tool : String) (target : Text) (d : Option ℕ)
    → Keeps db (stage.Repositories.Scans.create id now system db project_id tool target d)
unfolding stage.Repositories.Scans.create stage.Access.guard stage.Access.can_access
    stage.Access.require_role
create-Keeps id now db project_id tool target d =
    elim (Option-cases (visible_project system db.projects (some project_id))) [
      | inl e ↦ rw e tt
      | inr (project, e) ↦ rw e (refl, refl)
    ]

put_lem :
    (P R : World → Type 0) (r : Result AccessError (Db × Scan)) (w : World)
    → ((db : Db)
        → db.jobs ≡ w.db.jobs
        → db.deployments ≡ w.db.deployments
        → P (record w { db = db }))
    → R w
    → Keeps w.db r
    → Post P R (put_scan r w)
unfolding put_scan
put_lem P R (ok (db, scan)) w p q (jobs, deployments) = p db jobs deployments
put_lem P R (err e) w p q k = q

module _ (job_id deployment_id : ℕ) where
  abbrev pub During : ℕ → World → Type 0
  During last = IsTidy job_id last (OnDeployment deployment_id IsThere)

  abbrev pub Raises : World → Type 0
  Raises = IsSafe job_id (OnDeployment deployment_id IsThere)

  pub set_deployment_lem :
      {T : Option Deployment → Type 0} (U : Option Deployment → Type 0) (status : String)
      (image_ref live_url : Option Text) (w : World)
      → ((o : Option Deployment) → T o → U (rewrite status image_ref live_url o))
      → IsSafe job_id (OnDeployment deployment_id T) w
      → IsSafe job_id
          (OnDeployment deployment_id U)
          (set_deployment deployment_id status image_ref live_url w)
  unfolding set_deployment
  set_deployment_lem U status image_ref live_url w to (job, known, there, single) = (
    job,
    known,
    subst U
        (sym (
          by_key-update_map (λ (d : Deployment). d.id) deployment_id
            (λ d. stage.Repositories.Deployments.set_status d status image_ref live_url)
            (unfold stage.Repositories.Deployments.set_status in λ d. refl) w.db.deployments))
        (to (by_key (λ (d : Deployment). d.id) w.db.deployments deployment_id) there),
    single,
  )

  pub IsThere-of :
      (status : String) (image_ref live_url : Option Text) (o : Option Deployment)
      → IsThere o
      → IsThere (rewrite status image_ref live_url o)
  IsThere-of status image_ref live_url none h = absurd h
  IsThere-of status image_ref live_url (some d) h = tt

  abbrev pub State : (List JobStep → Type 0) → World → Type 0
  State U = IsWith job_id U (OnDeployment deployment_id IsThere)

  pub set_with :
      (U : List JobStep → Type 0) (status : String) (image_ref live_url : Option Text)
      {R : World → Type 0}
      → Leads
          (State U)
          (stage.Tasks.World.modify (set_deployment deployment_id status image_ref live_url))
          (State U)
          R
  set_with U status image_ref live_url = modify_lem _ λ w h. (
    set_deployment_lem {T = IsThere} IsThere status image_ref live_url w
        (IsThere-of status image_ref live_url) h.0,
    unfold set_deployment in h.1,
  )

  pub set_there :
      (last : ℕ) (status : String) (image_ref live_url : Option Text) {R : World → Type 0}
      → Leads
          (During last)
          (stage.Tasks.World.modify (set_deployment deployment_id status image_ref live_url))
          (During last)
          R
  set_there last = set_with (Unused job_id last)

  pub block_lem :
      (last : ℕ) (image_ref : Option Text) (text : Text) {Q : World → Type 0}
      → Leads (During last) (block deployment_id image_ref text) Q Raises
  unfolding block
  block_lem last image_ref text =
      also (set_there last "blocked" image_ref none) (raise_lem text λ w h. h.0)

  pub require_lem :
      (last : ℕ) (test : Bool) (image_ref : Option Text) (text : Text)
      → Leads
          (During last)
          (require test deployment_id image_ref text)
          (λ w. During last w × (test ≡ true))
          Raises
  unfolding require
  require_lem last true image_ref text = ending (λ w h. (h, refl)) (pure_lem tt)
  require_lem last false image_ref text = block_lem last image_ref text

  put_State :
      (U : List JobStep → Type 0) (w : World) (db : Db)
      → db.jobs ≡ w.db.jobs
      → db.deployments ≡ w.db.deployments
      → State U w
      → State U (record w { db = db })
  put_State U w db jobs deployments ((job, known, there, single), rows) = (
    (
      job,
      subst (λ js. by_key (λ (j : Job). j.id) js job_id ≡ some job) (sym jobs) known,
      subst (λ ds. IsThere (by_key (λ (d : Deployment). d.id) ds deployment_id)) (sym deployments)
          there,
      single,
    ),
    rows,
  )

  pub record_with :
      (U : List JobStep → Type 0) (scan_id : ℕ) (d : Deployment) (tool : String) (target : Text)
      (parsed : ParsedFindings)
      → Leads (State U) (record_scan scan_id d tool target parsed) (State U) (State U)
  unfolding record_scan
  record_with U scan_id d tool target parsed =
      bind
        (leads λ w h.
          put_lem (State U) (State U) _ w
            (λ db jobs deployments. put_State U w db jobs deployments h) h
            (create-Keeps scan_id w.now w.db d.project_id tool target (some d.id)))
        λ scan.
          also (modify_lem _ (unfold set_result in λ w h. h))
            (modify_lem _ (unfold add_findings in λ w h. h))

  pub record_lem :
      (last scan_id : ℕ) (d : Deployment) (tool : String) (target : Text) (parsed : ParsedFindings)
      → Leads (During last) (record_scan scan_id d tool target parsed) (During last) Raises
  record_lem last scan_id d tool target parsed =
      failing (λ w h. h.0) (record_with (Unused job_id last) scan_id d tool target parsed)

  pub stream_value :
      (last : ℕ) (reply : Reply ScanRun)
      → Yields
          (During last)
          (stream job_id reply)
          (λ a w. During last w × (reply.answer ≡ ok a))
          Raises
  unfolding stream
  stream_value last reply = yields λ w h.
      let w' = record w { now = w.now + reply.took } in
      (settle_value reply.answer (λ w h. h.0)).from (log_lines job_id reply.lines w') (
        log_lines-IsWith job_id (OnDeployment deployment_id IsThere) (Unused job_id last)
          reply.lines w' h)

  pub ask_value :
      (last : ℕ) (reply : Reply ScanRun)
      → Yields (During last) (ask reply) (λ a w. During last w × (reply.answer ≡ ok a)) Raises
  unfolding ask
  ask_value last reply =
      yields λ w h.
        (settle_value reply.answer (λ w h. h.0)).from (record w { now = w.now + reply.took }) h

  pub sleep_lem : (last seconds : ℕ) → Leads (During last) (sleep seconds) (During last) Raises
  unfolding sleep
  sleep_lem last seconds = modify_lem _ λ w h. h

  pub twice_lem :
      (last : ℕ) (tool : String) (good : ScanRun → Bool) (run : Reply ScanRun → Run ScanRun)
      (twice : Twice)
      → ((reply : Reply ScanRun)
          → Yields (During last) (run reply) (λ a w. During last w × (reply.answer ≡ ok a)) Raises)
      → Yields
          (During last)
          (run_twice job_id tool good run twice)
          (λ r w. During last w × Came good twice r)
          Raises
  unfolding run_twice
  twice_lem last tool good run twice value = chain (value twice.first) λ result. given_value λ e.
      branch_value (good result) (λ g. pure_value result (Came good twice) (inl (e, g)))
        (λ g. chain {Q = λ _. During last} (blind (say_lem job_id _ last _)) λ _.
          chain {Q = λ _. During last} (blind (sleep_lem last 5))
            λ _. told {G = Came good twice} (value twice.second) λ r a. inr (result, e, g, a))
