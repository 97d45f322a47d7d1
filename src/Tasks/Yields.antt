-- ===== src/Tasks/Yields.antt =====
-- What a program of Tasks/World returns, beside what it leads to, and facts that hold whatever the state.
use stage.Prelude.{Bool, true, false, if◌then◌else◌, ◌≡◌, refl, Text, Result, ok, err}
use stage.Tasks.World.{World, Outcome, returned, raised, next, Run, pure, raise, ◌>>=◌, settle}
use stage.Tasks.Triples.{Post, Leads, leads}

abbrev pub Given : {A : Type 0} → (A → World → Type 0) → (World → Type 0) → Outcome A → Type 0
Given Q R (returned a w) = Q a w
Given Q R (raised e w) = R w

pub record Yields {A : Type 0} (P : World → Type 0) (m : Run A) (Q : A → World → Type 0)
    (R : World → Type 0) : Type 0 where
  pub from : (w : World) → P w → Given Q R (m w)

pub yields :
    {A : Type 0} {P R : World → Type 0} {Q : A → World → Type 0} {m : Run A}
    → ((w : World) → P w → Given Q R (m w))
    → Yields P m Q R
yields f = record { from = f }

Post-Given :
    {A B : Type 0} {Q : A → World → Type 0} {R S : World → Type 0} (f : A → Run B)
    → ((a : A) → Leads (Q a) (f a) S R)
    → (o : Outcome A) → Given Q R o
    → Post S R (next f o)
Post-Given f h (returned a w) p = (h a).from w p
Post-Given f h (raised e w) p = p

pub bind_value :
    {A B : Type 0} {P R S : World → Type 0} {Q : A → World → Type 0} {m : Run A} {f : A → Run B}
    → Yields P m Q R
    → ((a : A) → Leads (Q a) (f a) S R)
    → Leads P (m >>= f) S R
unfolding ◌>>=◌
bind_value {m = m} {f = f} l h = leads λ w p. Post-Given f h (m w) (l.from w p)

Given-Given :
    {A B : Type 0} {Q : A → World → Type 0} {S : B → World → Type 0} {R : World → Type 0}
    (f : A → Run B)
    → ((a : A) → Yields (Q a) (f a) S R)
    → (o : Outcome A) → Given Q R o
    → Given S R (next f o)
Given-Given f h (returned a w) p = (h a).from w p
Given-Given f h (raised e w) p = p

pub chain :
    {A B : Type 0} {P R : World → Type 0} {Q : A → World → Type 0} {S : B → World → Type 0}
    {m : Run A} {f : A → Run B}
    → Yields P m Q R
    → ((a : A) → Yields (Q a) (f a) S R)
    → Yields P (m >>= f) S R
unfolding ◌>>=◌
chain {m = m} {f = f} l h = yields λ w p. Given-Given f h (m w) (l.from w p)

Given-Post : {A : Type 0} (Q R : World → Type 0) (o : Outcome A) → Post Q R o → Given (λ _. Q) R o
Given-Post Q R (returned a w) p = p
Given-Post Q R (raised e w) p = p

-- A program whose value is not looked at.
pub blind :
    {A : Type 0} {P Q R : World → Type 0} {m : Run A} → Leads P m Q R → Yields P m (λ _. Q) R
blind {Q = Q} {R = R} {m = m} l = yields λ w p. Given-Post Q R (m w) (l.from w p)

pub pure_value :
    {A : Type 0} {P R : World → Type 0} (a : A) (F : A → Type 0)
    → F a
    → Yields P (pure a) (λ b w. P w × F b) R
unfolding pure
pure_value a F f = yields λ w p. (p, f)

-- A call returns its reply's answer.
pub settle_value :
    {A : Type 0} {P R : World → Type 0} (r : Result Text A)
    → ((w : World) → P w → R w)
    → Yields P (settle r) (λ a w. P w × (r ≡ ok a)) R
settle_value (ok a) f = yields λ w p. (p, refl)
settle_value (err e) f = yields λ w p. f w p

-- A fact beside the state.
pub given :
    {A : Type 0} {P Q R : World → Type 0} {F : Type 0} {m : Run A}
    → (F → Leads P m Q R)
    → Leads (λ w. P w × F) m Q R
given f = leads λ w (p, h). (f h).from w p

pub given_value :
    {A : Type 0} {P R : World → Type 0} {Q : A → World → Type 0} {F : Type 0} {m : Run A}
    → (F → Yields P m Q R)
    → Yields (λ w. P w × F) m Q R
given_value f = yields λ w (p, h). (f h).from w p

-- A test, with its outcome known on either branch.
pub branch_on :
    {A : Type 0} {P Q R : World → Type 0} (b : Bool) {m k : Run A}
    → (b ≡ true → Leads P m Q R)
    → (b ≡ false → Leads P k Q R)
    → Leads P (if b then m else k) Q R
branch_on true l h = l refl
branch_on false l h = h refl

pub branch_value :
    {A : Type 0} {P R : World → Type 0} {Q : A → World → Type 0} (b : Bool) {m k : Run A}
    → (b ≡ true → Yields P m Q R)
    → (b ≡ false → Yields P k Q R)
    → Yields P (if b then m else k) Q R
branch_value true l h = l refl
branch_value false l h = h refl

Post-failing :
    {A : Type 0} {R S : World → Type 0} (Q : World → Type 0) (o : Outcome A)
    → ((w : World) → R w → S w)
    → Post Q R o
    → Post Q S o
Post-failing Q (returned a w) f p = p
Post-failing Q (raised e w) f p = f w p

pub failing :
    {A : Type 0} {P Q R S : World → Type 0} {m : Run A}
    → ((w : World) → R w → S w)
    → Leads P m Q R
    → Leads P m Q S
failing {Q = Q} {m = m} f l = leads λ w p. Post-failing Q (m w) f (l.from w p)

Given-told :
    {A : Type 0} {F G : A → Type 0} (P R : World → Type 0) (o : Outcome A)
    → ((a : A) → F a → G a)
    → Given (λ a w. P w × F a) R o
    → Given (λ a w. P w × G a) R o
Given-told P R (returned a w) f (p, h) = (p, f a h)
Given-told P R (raised e w) f p = p

pub told :
    {A : Type 0} {P Q R : World → Type 0} {F G : A → Type 0} {m : Run A}
    → Yields P m (λ a w. Q w × F a) R
    → ((a : A) → F a → G a)
    → Yields P m (λ a w. Q w × G a) R
told {Q = Q} {R = R} {m = m} l f = yields λ w p. Given-told Q R (m w) f (l.from w p)

-- The value of a first part is not looked at, that of the second is.
pub first_then :
    {A B : Type 0} {P Q R : World → Type 0} {S : B → World → Type 0} {m : Run A} {f : A → Run B}
    → Leads P m Q R
    → ((a : A) → Yields Q (f a) S R)
    → Yields P (m >>= f) S R
first_then {Q = Q} l h = chain {Q = λ _. Q} (blind l) h

Given-ending :
    {A : Type 0} {S : A → World → Type 0} (R : World → Type 0) (Q : A → World → Type 0)
    (o : Outcome A)
    → ((a : A) (w : World) → Q a w → S a w)
    → Given Q R o
    → Given S R o
Given-ending R Q (returned a w) f p = f a w p
Given-ending R Q (raised e w) f p = p

pub yielding :
    {A : Type 0} {P R : World → Type 0} {Q S : A → World → Type 0} {m : Run A}
    → ((a : A) (w : World) → Q a w → S a w)
    → Yields P m Q R
    → Yields P m S R
yielding {R = R} {Q = Q} {m = m} f l = yields λ w p. Given-ending R Q (m w) f (l.from w p)

pub pure_yields :
    {A : Type 0} {P R : World → Type 0} {S : A → World → Type 0} (a : A)
    → ((w : World) → P w → S a w)
    → Yields P (pure a) S R
unfolding pure
pure_yields a f = yields f

pub raise_yields :
    {A : Type 0} {P R : World → Type 0} {Q : A → World → Type 0} (e : Text)
    → ((w : World) → P w → R w)
    → Yields P (raise e) Q R
unfolding raise
raise_yields e f = yields f

pub opening :
    {A : Type 0} {P P' R : World → Type 0} {Q : A → World → Type 0} {m : Run A}
    → ((w : World) → P' w → P w)
    → Yields P m Q R
    → Yields P' m Q R
opening f l = yields λ w p. l.from w (f w p)

Given-worse :
    {A : Type 0} {R S : World → Type 0} (Q : A → World → Type 0) (o : Outcome A)
    → ((w : World) → R w → S w)
    → Given Q R o
    → Given Q S o
Given-worse Q (returned a w) f p = p
Given-worse Q (raised e w) f p = f w p

pub worse :
    {A : Type 0} {P R S : World → Type 0} {Q : A → World → Type 0} {m : Run A}
    → ((w : World) → R w → S w)
    → Yields P m Q R
    → Yields P m Q S
worse {Q = Q} {m = m} f l = yields λ w p. Given-worse Q (m w) f (l.from w p)
