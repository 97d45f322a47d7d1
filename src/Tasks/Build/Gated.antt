-- ===== src/Tasks/Build/Gated.antt =====
-- What a build in the sandbox has passed: the three gates.
use stage.Prelude.{
  ℕ, ◌+◌, ◌≤◌, List, [], ◌∷◌, Option, none, some, is_zero, length, arith, Text, Result, ok, err,
}
use stage.Models.{Deployment, JobStep}
use stage.Config.Stages.{InvalidPipelineConfig, PipelineStage, load_stages}
use stage.Tasks.World.{World, Run, pure}
use stage.Tasks.Calls.{RunResult}
use stage.Tasks.Scan.{Readers}
use stage.Tasks.Build.{
  Calls, detect_entrypoint, generate, ensure_dockerfile, stages_or_raise, announce, declared_stages,
  check_stage, run_stages, build_and_push, gate_and_build,
}
use stage.Tasks.Gates.Passed.{
  SecretsPassed, DependenciesPassed, ImagePassed, secrets_lem, dependencies_lem, image_lem,
}
use stage.Tasks.Gates.Kept.{During, Raises, set_there}
use stage.Tasks.Ship.Released.{Keeps, asks, streams, checks, says, raises}
use stage.Tasks.Triples.{Leads, bind, also, branch, ending, pure_lem}
use stage.Tasks.Yields.{Yields, given_value, first_then, pure_yields}
use stage.Tasks.Tidy.{Unused, step_lem}

-- What both ways of building share.
module _ (job_id : ℕ) (d : Deployment) (U : List JobStep → Type 0) where
  generate_lem :
      (calls : Calls) (read : Run Text) (o : Option Text)
      → Keeps job_id d.id U read
      → Keeps job_id d.id U (generate calls job_id d read o)
  unfolding generate
  generate_lem calls read none l = raises job_id d.id U _
  generate_lem calls read (some entrypoint) l =
      also (asks job_id d.id U calls.write_dockerfile)
        (bind l λ text. also (says job_id d.id U _) (pure_lem text))

  pub dockerfile_lem :
      (calls : Calls) (read : Run Text)
      → Keeps job_id d.id U read
      → Keeps job_id d.id U (ensure_dockerfile calls job_id d read)
  unfolding ensure_dockerfile
  dockerfile_lem calls read l =
      branch calls.source.has_dockerfile (pure_lem [])
        (generate_lem calls read (detect_entrypoint calls.looks_like_app calls.source) l)

  stages_lem :
      (stage_error : InvalidPipelineConfig → Text)
      (r : Result InvalidPipelineConfig (List PipelineStage))
      → Keeps job_id d.id U (stages_or_raise stage_error r)
  unfolding stages_or_raise
  stages_lem stage_error (ok stages) = pure_lem stages
  stages_lem stage_error (err e) = raises job_id d.id U _

  announce_lem : (stages : List PipelineStage) → Keeps job_id d.id U (announce job_id stages)
  unfolding announce
  announce_lem [] = pure_lem tt
  announce_lem (s ∷ stages) = says job_id d.id U _

  pub declared_lem : (calls : Calls) → Keeps job_id d.id U (declared_stages calls job_id)
  unfolding declared_stages
  declared_lem calls = bind (asks job_id d.id U calls.read_stages) λ document.
      bind (stages_lem calls.stage_error (load_stages document))
        λ stages. also (announce_lem stages) (pure_lem stages)

  check_stage_lem :
      (stage : PipelineStage) (result : RunResult) → Keeps job_id d.id U (check_stage stage result)
  unfolding check_stage
  check_stage_lem stage result =
      branch result.timed_out (raises job_id d.id U _)
        (branch (is_zero result.exit_code) (pure_lem tt) (raises job_id d.id U _))

-- Steps that were not taken before are not taken later on.
pub later : (job_id id m n : ℕ) (w : World) → m ≤ n → During job_id id m w → During job_id id n w
later job_id id m n w le (safe, unused) = (safe, λ index h. unused index (omega arith))

module _ (readers : Readers) (calls : Calls) (job_id : ℕ) (d : Deployment) where
  -- One step for each of the tenant's stages.
  run_stages_lem :
      (total offset : ℕ) (stages : List PipelineStage)
      → Leads
          (During job_id d.id (3 + offset))
          (run_stages calls job_id total offset stages)
          (During job_id d.id (3 + offset + length stages))
          (Raises job_id d.id)
  unfolding run_stages
  run_stages_lem total offset [] =
      ending (λ w h. later job_id d.id (3 + offset) _ w (omega arith) h) (pure_lem tt)
  run_stages_lem total offset (s ∷ stages) =
      also (step_lem job_id _ (3 + offset) (3 + (offset + 1)) total s.name (omega arith)) (
        bind (streams job_id d.id (Unused job_id (3 + (offset + 1))) (calls.run_stage (offset + 1)))
          λ result. also (check_stage_lem job_id d (Unused job_id (3 + (offset + 1))) s result) (
            ending (λ w h. later job_id d.id _ _ w (omega arith) h)
              (run_stages_lem total (offset + 1) stages)))

  build_lem :
      (scan_id : ℕ) (image_ref : Text) (count : ℕ)
      → Leads
          (During job_id d.id (3 + count))
          (build_and_push readers calls job_id scan_id d image_ref count)
          (λ w. During job_id d.id (6 + count) w × ImagePassed readers calls.gates)
          (Raises job_id d.id)
  unfolding build_and_push
  build_lem scan_id image_ref count =
      also (set_there job_id d.id (3 + count) "building" none none) (
        also (step_lem job_id _ (3 + count) (count + 4) (9 + count) _ (omega arith)) (
          bind (streams job_id d.id (Unused job_id (count + 4)) calls.docker_build) λ build.
            also (checks job_id d.id (Unused job_id (count + 4)) build []) (
              also (step_lem job_id _ (count + 4) (count + 5) (9 + count) _ (omega arith)) (
                bind (streams job_id d.id (Unused job_id (count + 5)) calls.docker_push) λ push.
                  also (checks job_id d.id (Unused job_id (count + 5)) push []) (
                    also (step_lem job_id _ (count + 5) (count + 6) (9 + count) _ (omega arith)) (
                      also (set_there job_id d.id (count + 6) "scanning" none none) (
                        ending (λ w (h, passed). (later job_id d.id _ _ w (omega arith) h, passed))
                          (image_lem readers calls.gates job_id scan_id d (count + 6) _
                            image_ref))))))))

  -- The build in the sandbox returns only behind all three gates.
  pub gated_lem :
      (scan_ids : ℕ × ℕ × ℕ) (image_ref : Text)
      → Yields
          (During job_id d.id 1)
          (gate_and_build readers calls job_id scan_ids d image_ref)
          (λ count w.
            During job_id d.id (6 + count) w
            × (SecretsPassed readers calls.gates
                × DependenciesPassed readers calls.gates
                × ImagePassed readers calls.gates))
          (Raises job_id d.id)
  unfolding gate_and_build
  gated_lem (secrets_id, audit_id, image_id) image_ref =
      first_then (step_lem job_id _ 1 2 9 _ (omega arith)) λ _.
        first_then (secrets_lem readers calls.gates job_id secrets_id d 2) λ _.
          given_value λ secrets. first_then (step_lem job_id _ 2 3 9 _ (omega arith)) λ _.
            first_then (dependencies_lem readers calls.gates job_id audit_id d 3) λ _.
              given_value λ dependencies.
                first_then (declared_lem job_id d (Unused job_id 3) calls) λ stages.
                  first_then (run_stages_lem (9 + length stages) 0 stages) λ _.
                    first_then
                      (dockerfile_lem job_id d (Unused job_id (3 + length stages)) calls (pure [])
                        (pure_lem []))
                      λ _. first_then (build_lem image_id image_ref (length stages)) λ _.
                        given_value λ image.
                          pure_yields (length stages) λ w h. (h, (secrets, dependencies, image))
