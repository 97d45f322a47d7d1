-- ===== src/Tasks/Triples.antt =====
-- What a task's program leads to, from where: one predicate for a return and one for an exception.
use stage.Prelude.{Bool, true, false, if◌then◌else◌, ◌≡◌, refl, subst, Text, Result, ok, err}
use stage.Tasks.World.{
  World, Outcome, returned, raised, next, handle, split, either, resume, world_of, lastly, Run,
  pure, raise, ◌>>=◌, ◌>>◌, attempt, get, modify, settle,
}

abbrev pub Post {κ} : {A : Type 0} → (World → Type κ) → (World → Type κ) → Outcome A → Type κ
Post Q R (returned a w) = Q w
Post Q R (raised e w) = R w

pub record Leads {κ} {A : Type 0} (P : World → Type κ) (m : Run A) (Q R : World → Type κ)
    : Type κ where
  pub from : (w : World) → P w → Post Q R (m w)

pub leads {κ} :
    {A : Type 0} {P Q R : World → Type κ} {m : Run A}
    → ((w : World) → P w → Post Q R (m w))
    → Leads P m Q R
leads f = record { from = f }

Post-next {κ} :
    {A B : Type 0} {Q R S : World → Type κ} (f : A → Run B)
    → ((a : A) → Leads Q (f a) S R)
    → (o : Outcome A) → Post Q R o
    → Post S R (next f o)
Post-next f h (returned a w) p = (h a).from w p
Post-next f h (raised e w) p = p

pub bind {κ} :
    {A B : Type 0} {P Q R S : World → Type κ} {m : Run A} {f : A → Run B}
    → Leads P m Q R
    → ((a : A) → Leads Q (f a) S R)
    → Leads P (m >>= f) S R
unfolding ◌>>=◌
bind {m = m} {f = f} l h = leads λ w p. Post-next f h (m w) (l.from w p)

pub also {κ} :
    {A : Type 0} {P Q R S : World → Type κ} {m : Run (Unit {0})} {k : Run A}
    → Leads P m Q R
    → Leads Q k S R
    → Leads P (m >> k) S R
also l h = bind l λ _. h

pub branch {κ} :
    {A : Type 0} {P Q R : World → Type κ} (b : Bool) {m k : Run A}
    → Leads P m Q R
    → Leads P k Q R
    → Leads P (if b then m else k) Q R
branch true l h = l
branch false l h = h

Post-handle {κ} :
    {A : Type 0} {Q R S : World → Type κ} (f : Text → Run A)
    → ((e : Text) → Leads R (f e) Q S)
    → (o : Outcome A) → Post Q R o
    → Post Q S (handle f o)
Post-handle f h (returned a w) p = p
Post-handle f h (raised e w) p = (h e).from w p

pub attempt_lem {κ} :
    {A : Type 0} {P Q R S : World → Type κ} {m : Run A} {f : Text → Run A}
    → Leads P m Q R
    → ((e : Text) → Leads R (f e) Q S)
    → Leads P (attempt m f) Q S
unfolding attempt
attempt_lem {m = m} {f = f} l h = leads λ w p. Post-handle f h (m w) (l.from w p)

pub starting {κ} :
    {A : Type 0} {P P' Q R : World → Type κ} {m : Run A}
    → ((w : World) → P' w → P w)
    → Leads P m Q R
    → Leads P' m Q R
starting f l = leads λ w p. l.from w (f w p)

Post-ending {κ} :
    {A : Type 0} {Q Q' : World → Type κ} (R : World → Type κ)
    → ((w : World) → Q w → Q' w)
    → (o : Outcome A) → Post Q R o
    → Post Q' R o
Post-ending R f (returned a w) p = f w p
Post-ending R f (raised e w) p = p

pub ending {κ} :
    {A : Type 0} {P Q Q' R : World → Type κ} {m : Run A}
    → ((w : World) → Q w → Q' w)
    → Leads P m Q R
    → Leads P m Q' R
ending {Q = Q} {Q' = Q'} {R = R} {m = m} f l = leads λ w p. Post-ending R f (m w) (l.from w p)

pub pure_lem {κ} : {A : Type 0} {P R : World → Type κ} (a : A) → Leads P (pure a) P R
unfolding pure
pure_lem a = leads λ w p. p

pub raise_lem {κ} :
    {A : Type 0} {P Q R : World → Type κ} (e : Text)
    → ((w : World) → P w → R w)
    → Leads {A = A} P (raise e) Q R
unfolding raise
raise_lem e f = leads f

pub get_lem {κ} : {P R : World → Type κ} → Leads P get P R
unfolding get
get_lem = leads λ w p. p

pub modify_lem {κ} :
    {P Q R : World → Type κ} (f : World → World)
    → ((w : World) → P w → Q (f w))
    → Leads P (modify f) Q R
unfolding modify
modify_lem f h = leads h

pub settle_lem {κ} :
    {A : Type 0} {P R : World → Type κ} (r : Result Text A)
    → ((w : World) → P w → R w)
    → Leads P (settle r) P R
settle_lem (ok a) f = leads λ w p. p
settle_lem (err e) f = leads f

Post-split :
    {A B : Type 0} {Q R S X : World → Type 0} (f : A → Run B) (h : Text → Run B)
    → ((a : A) → Leads Q (f a) S X)
    → ((e : Text) → Leads R (h e) S X)
    → (o : Outcome A) → Post Q R o
    → Post S X (split f h o)
Post-split f h l k (returned a w) p = (l a).from w p
Post-split f h l k (raised e w) p = (k e).from w p

pub either_lem :
    {A B : Type 0} {P Q R S X : World → Type 0} {m : Run A} {f : A → Run B} {h : Text → Run B}
    → Leads P m Q R
    → ((a : A) → Leads Q (f a) S X)
    → ((e : Text) → Leads R (h e) S X)
    → Leads P (either m f h) S X
unfolding either
either_lem {m = m} {f = f} {h = h} l k r = leads λ w p. Post-split f h k r (m w) (l.from w p)

Post-resume :
    {A : Type 0} {Q : World → Type 0} (k : Run (Unit {0}))
    → Leads Q k Q (λ _. ⊥)
    → (o : Outcome A) → Post Q (λ _. ⊥) o
    → (c : Outcome (Unit {0})) → k (world_of o) ≡ c
    → Post Q (λ _. ⊥) (resume o c)
Post-resume k l (returned a w) p (returned u w') e = subst (Post _ (λ _. ⊥)) e (l.from w p)
Post-resume k l (returned a w) p (raised x w') e = absurd (subst (Post _ (λ _. ⊥)) e (l.from w p))
Post-resume k l (raised x w) p c e = absurd p

pub lastly_lem :
    {A : Type 0} {P Q : World → Type 0} {m : Run A} {k : Run (Unit {0})}
    → Leads P m Q (λ _. ⊥)
    → Leads Q k Q (λ _. ⊥)
    → Leads P (lastly m k) Q (λ _. ⊥)
unfolding lastly
lastly_lem {m = m} {k = k} l h =
    leads λ w p. Post-resume k h (m w) (l.from w p) (k (world_of (m w))) refl

Post-resume_any :
    {A : Type 0} {Q R S X : World → Type 0} (k : Run (Unit {0}))
    → Leads Q k S X
    → Leads R k X X
    → (o : Outcome A) → Post Q R o
    → (c : Outcome (Unit {0})) → k (world_of o) ≡ c
    → Post S X (resume o c)
Post-resume_any {S = S} {X = X} k l h (returned a w) p (returned u w') e =
    subst (Post S X) e (l.from w p)
Post-resume_any {S = S} {X = X} k l h (returned a w) p (raised x w') e =
    subst (Post S X) e (l.from w p)
Post-resume_any {S = S} {X = X} k l h (raised x w) p (returned u w') e =
    subst (Post X X) e (h.from w p)
Post-resume_any {S = S} {X = X} k l h (raised x w) p (raised y w') e =
    subst (Post X X) e (h.from w p)

-- A `finally` behind a body that may raise.
pub lastly_any :
    {A : Type 0} {P Q R S X : World → Type 0} {m : Run A} {k : Run (Unit {0})}
    → Leads P m Q R
    → Leads Q k S X
    → Leads R k X X
    → Leads P (lastly m k) S X
unfolding lastly
lastly_any {m = m} {k = k} l h g =
    leads λ w p. Post-resume_any k h g (m w) (l.from w p) (k (world_of (m w))) refl

returns_from :
    {Q : World → Type 0} (o : Outcome (Unit {0}))
    → Post Q (λ _. ⊥) o
    → (w' : World) × (o ≡ returned tt w') × Q w'
returns_from (returned tt w') p = (w', refl, p)
returns_from (raised e w') p = absurd p

-- A program that cannot raise returns.
pub returns :
    {Q : World → Type 0} (m : Run (Unit {0})) (w : World)
    → Post Q (λ _. ⊥) (m w)
    → (w' : World) × (m w ≡ returned tt w') × Q w'
returns {Q = Q} m w p = returns_from (m w) p
