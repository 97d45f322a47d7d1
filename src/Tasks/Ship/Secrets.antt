-- ===== src/Tasks/Ship/Secrets.antt =====
-- What becomes of the rendered secret of `_render_manifests` and the `finally` of `deploy_task`.
use stage.Prelude.{
  ℕ, List, [], ◌∷◌, ◌++◌, Bool, true, false, not, ◌||◌, ◌≡◌, refl, subst, ◌⊎◌, inl, inr,
  if◌then◌else◌, any, select, Text, text_eq, text_eq_iff, codes, ok, arith, Bool-cases,
}
use stage.Models.{Project, Deployment}
use stage.Tasks.World.{World, world_of, Outcome, returned, raised, pure, ask, ◌>>◌, modify}
use stage.Tasks.Calls.{log_line, with_jobs}
use stage.Tasks.Kubectl.{Settings}
use stage.Tasks.Ship.{
  Calls, secret_yaml, templates, path_of, write_file, unlink, render_each, render_manifests,
  is_secret, gitops_applies_to, unlink_secrets, ship,
}
use stage.Tasks.Triples.{
  Post, Leads, leads, also, branch, ending, starting, pure_lem, modify_lem, lastly_any,
}
use stage.Tasks.Yields.{Yields, bind_value, first_then, pure_yields, chain, blind}
use stage.Tasks.Ship.Undisturbed.{asks_of, gitops_of, apply_of}

text_eq-prefix : (p s t : Text) → text_eq (p ++ s) (p ++ t) ≡ text_eq s t
unfolding text_eq
text_eq-prefix [] s t = refl
text_eq-prefix (c ∷ p) s t = ground (arith, text_eq-prefix p s t)

module _ {A : Type 0} (p : A → Bool) where
  any-select-not : (xs : List A) → any p (select (λ x. not (p x)) xs) ≡ false
  unfolding any select
  any-select-not [] = refl
  any-select-not (x ∷ xs) = ground (arith, any-select-not xs)

  any-select : (q : A → Bool) (xs : List A) → any p xs ≡ false → any p (select q xs) ≡ false
  unfolding any select
  any-select q [] h = refl
  any-select q (x ∷ xs) h = ground (arith, any-select q xs)

-- No file is the secret's manifest.
abbrev pub IsClean : Text → World → Type 0
IsClean out_dir w = any (λ file. text_eq file (path_of out_dir secret_yaml)) w.files ≡ false

-- Or one is left to remove.
abbrev Known : Text → Bool → World → Type 0
Known out_dir b w = (b ≡ true) ⊎ IsClean out_dir w

path_eq : (out_dir a b : Text) → text_eq (path_of out_dir a) (path_of out_dir b) ≡ text_eq a b
path_eq out_dir a b = text_eq-prefix (out_dir ++ codes "/") a b

or_end : (b : Bool) → b ≡ (b || false)
or_end true = refl
or_end false = refl

or_assoc : (a b c : Bool) → ((a || b) || c) ≡ (a || (b || c))
or_assoc true b c = refl
or_assoc false b c = refl

module _ (calls : Calls) where
  IsClean-log :
      (job_id : ℕ) (line : Text) (w : World)
      → IsClean calls.out_dir w
      → IsClean calls.out_dir (log_line job_id line w)
  unfolding log_line with_jobs
  IsClean-log job_id line w h = h

  Known-log :
      (b : Bool) (job_id : ℕ) (line : Text) (w : World)
      → Known calls.out_dir b w
      → Known calls.out_dir b (log_line job_id line w)
  unfolding log_line with_jobs
  Known-log b job_id line w h = h

  wrote :
      (b : Bool) (name : Text) (w : World)
      → Known calls.out_dir b w
      → Known calls.out_dir (b || is_secret name) (write_file (path_of calls.out_dir name) w)
  unfolding write_file any
  wrote true name w h = inl refl
  wrote false name w (inl h) = absurd (ground arith)
  wrote false name w (inr clean) = elim (Bool-cases (is_secret name)) [
    | inl same ↦ inl same
    | inr other ↦ inr (rw (path_eq calls.out_dir name secret_yaml) (rw other clean))
  ]

  rendered :
      (name : Text) {P R : World → Type 0}
      → (calls.render name).answer ≡ ok tt
      → ((now : ℕ) (w : World) → P w → P (record w { now = now }))
      → Leads P (ask (calls.render name)) P R
  unfolding ask
  rendered name renders waits = leads λ w h. rw renders (waits _ w h)

  module _ (renders : (name : Text) → (calls.render name).answer ≡ ok tt) where
    each_lem :
        (names : List Text) (b : Bool) {R : World → Type 0}
        → Leads
            (Known calls.out_dir b)
            (render_each calls names)
            (Known calls.out_dir (b || any is_secret names))
            R
    unfolding render_each any
    each_lem [] b = ending (λ w h. subst (λ b. Known calls.out_dir b w) (or_end b) h) (pure_lem tt)
    each_lem (name ∷ names) b = also (rendered name (renders name) (λ now w h. h)) (
        also (modify_lem _ (wrote b name)) (
          ending
            (λ w h.
              subst (λ b. Known calls.out_dir b w)
                (or_assoc b (is_secret name) (any is_secret names)) h)
            (each_lem names (b || is_secret name))))

    manifests_lem :
        (d : Deployment)
        → Yields
            (IsClean calls.out_dir)
            (render_manifests calls d)
            (λ names w. Known calls.out_dir (any is_secret names) w)
            (IsClean calls.out_dir)
    unfolding render_manifests
    manifests_lem d =
        chain {Q = λ secrets w. IsClean calls.out_dir w}
          (blind (
            branch calls.has_secret_keys
              (asks_of 0 (IsClean calls.out_dir) (IsClean-log 0) (λ now w h. h) calls.load_secrets)
              (pure_lem false)))
          λ secrets.
            first_then (starting (λ w h. inr h) (each_lem (templates d.strategy secrets) false))
              λ _. pure_yields (templates d.strategy secrets) λ w h. h

  removed :
      (name : Text) (w : World)
      → is_secret name ≡ true
      → IsClean calls.out_dir (unlink (path_of calls.out_dir name) w)
  unfolding unlink
  removed name w same =
      rw ((text_eq_iff name secret_yaml).0 same)
        (any-select-not (λ file. text_eq file (path_of calls.out_dir secret_yaml)) w.files)

  unlink_one :
      (name : Text) (names : List Text) (b : Bool)
      → is_secret name ≡ b
      → {R : World → Type 0}
      → Leads
          (Known calls.out_dir (any is_secret names))
          (unlink_secrets calls names)
          (IsClean calls.out_dir)
          R
      → Leads
          (Known calls.out_dir (b || any is_secret names))
          (if b
            then modify (unlink (path_of calls.out_dir name)) >> unlink_secrets calls names
            else unlink_secrets calls names)
          (IsClean calls.out_dir)
          R
  unlink_one name names true same l =
      also (modify_lem _ λ w h. removed name w same) (starting (λ w h. inr h) l)
  unlink_one name names false other l = l

  unlink_lem :
      (names : List Text) {R : World → Type 0}
      → Leads
          (Known calls.out_dir (any is_secret names))
          (unlink_secrets calls names)
          (IsClean calls.out_dir)
          R
  unfolding unlink_secrets any pure
  unlink_lem [] = leads λ w h. elim h [ inl no_name ↦ absurd (ground arith) | inr clean ↦ clean ]
  unlink_lem (name ∷ names) = unlink_one name names (is_secret name) refl (unlink_lem names)

  module _ (renders : (name : Text) → (calls.render name).answer ≡ ok tt) where
    ship_lem :
        (settings : Settings) (job_id : ℕ) (ns : Text) (project : Project) (d : Deployment)
        (image_ref : Text)
        → Leads
            (IsClean calls.out_dir)
            (ship settings calls job_id ns project d image_ref)
            (IsClean calls.out_dir)
            (IsClean calls.out_dir)
    unfolding ship
    ship_lem settings job_id ns project d image_ref =
        bind_value (manifests_lem renders d) λ manifests.
          let K = Known calls.out_dir (any is_secret manifests) in
          let logs = Known-log (any is_secret manifests) job_id in
          lastly_any
            (branch (gitops_applies_to calls.gitops_enabled project)
              (gitops_of job_id K logs (λ now w h. h) settings calls ns d manifests image_ref)
              (apply_of job_id K logs (λ now w h. h) settings calls.apply_manifests _))
            (unlink_lem manifests) (unlink_lem manifests)

IsClean-of :
    (out_dir : Text) (o : Outcome (Unit {0}))
    → Post (IsClean out_dir) (IsClean out_dir) o
    → IsClean out_dir (world_of o)
IsClean-of out_dir (returned a w) h = h
IsClean-of out_dir (raised e w) h = h

-- If every template renders, then however the cluster, the secret store, the repository of manifests and
-- the sandbox answer, and whether the shipping returns or raises, no manifest of the secret is left on
-- disk where there was none.
pub ship-IsClean :
    (settings : Settings) (calls : Calls) (job_id : ℕ) (ns : Text) (project : Project)
    (d : Deployment) (image_ref : Text) (w : World)
    → ((name : Text) → (calls.render name).answer ≡ ok tt)
    → IsClean calls.out_dir w
    → IsClean calls.out_dir (world_of (ship settings calls job_id ns project d image_ref w))
ship-IsClean settings calls job_id ns project d image_ref w renders clean =
    IsClean-of calls.out_dir (ship settings calls job_id ns project d image_ref w)
      ((ship_lem calls renders settings job_id ns project d image_ref).from w clean)
