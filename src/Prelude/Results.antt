-- ===== src/Prelude/Results.antt =====
-- A call that returns or raises.
use native.Mathlib.Omega.{arith}
use mathlib.Core.Path.{◌≡◌, refl, ap}
use mathlib.Core.Bool.{Bool, true, false}

pub data Result {ℓ κ} (E : Type κ) (A : Type ℓ) : Type (ℓ ⊔ κ) where
  ok : A → Result E A
  err : E → Result E A

infixl 5 ◌>>=◌ ◌>>◌
abbrev pub ◌>>=◌ {ℓ κ μ} :
    {E : Type κ} {A : Type ℓ} {B : Type μ} → Result E A → (A → Result E B) → Result E B
ok a >>= f = f a
err e >>= f = err e

abbrev pub ◌>>◌ {κ μ} : {E : Type κ} {B : Type μ} → Result E (Unit {0}) → Result E B → Result E B
m >> k = m >>= λ _. k

-- `if not test: raise e`
abbrev pub ensure {κ} : {E : Type κ} → Bool → E → Result E (Unit {0})
ensure true e = ok tt
ensure false e = err e

-- `try: ... except E as e: raise f(e)`
abbrev pub rescue {ℓ κ μ} :
    {E : Type κ} {F : Type μ} {A : Type ℓ} → (E → F) → Result E A → Result F A
rescue f (ok a) = ok a
rescue f (err e) = err (f e)

-- A chain that returns has returned at its first call.
pub bind_ok {ℓ κ} :
    {E : Type κ} {A B : Type ℓ} (m : Result E A) (f : A → Result E B) (b : B)
    → (m >>= f) ≡ ok b
    → (a : A) × (m ≡ ok a) × (f a ≡ ok b)
bind_ok (ok a) f b h = (a, refl, h)
bind_ok (err e) f b h = absurd (ground arith)

pub ensure_ok {κ} : {E : Type κ} (test : Bool) (e : E) → ensure test e ≡ ok tt → test ≡ true
ensure_ok true e h = refl
ensure_ok false e h = absurd (ground arith)

abbrev value_or {ℓ κ} : {E : Type κ} {A : Type ℓ} → A → Result E A → A
value_or default (ok a) = a
value_or default (err e) = default

pub ok_injective {ℓ κ} :
    {E : Type κ} {A : Type ℓ} (a b : A) → (let answer : Result E A = ok a in answer) ≡ ok b → a ≡ b
ok_injective a b h = ap (value_or a) h
