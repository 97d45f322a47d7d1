-- ===== src/Tasks/World.antt =====
-- A task body as a program over the tables: it returns or raises, and keeps what it has written either
-- way. The calls of the runners are replies that the body is given.
use stage.Prelude.{ℕ, ◌+◌, List, Result, ok, err, Text}
use stage.Models.{Db, JobStep, Node}
use stage.Parsers.{Finding}
use stage.Pool.{Pool}
use stage.Workers.Redaction.{Patterns}

-- The clock, the tables (a finding with the id of its scan), the compiled patterns of core/redaction.py,
-- and the paths of the rendered manifests on the worker's disk.
pub record World : Type 0 where
  pub now : ℕ
  pub patterns : Patterns
  pub db : Db
  pub steps : List JobStep
  pub nodes : List Node
  pub pool : Pool
  pub findings : List (ℕ × Finding)
  pub files : List Text

-- `raised` has the exception's `str`.
pub data Outcome (A : Type 0) : Type 0 where
  returned : A → World → Outcome A
  raised : Text → World → Outcome A

abbrev pub Run : Type 0 → Type 0
Run A = World → Outcome A

unfoldable pub pure : {A : Type 0} → A → Run A
pure a w = returned a w

unfoldable pub raise : {A : Type 0} → Text → Run A
raise e w = raised e w

abbrev pub next : {A B : Type 0} → (A → Run B) → Outcome A → Outcome B
next f (returned a w) = f a w
next f (raised e w) = raised e w

infixl 5 ◌>>=◌ ◌>>◌
unfoldable pub ◌>>=◌ : {A B : Type 0} → Run A → (A → Run B) → Run B
◌>>=◌ m f w = next f (m w)

abbrev pub ◌>>◌ : {B : Type 0} → Run (Unit {0}) → Run B → Run B
m >> k = m >>= λ _. k

abbrev pub handle : {A : Type 0} → (Text → Run A) → Outcome A → Outcome A
handle h (returned a w) = returned a w
handle h (raised e w) = h e w

-- `try: m  except Exception as exc: h(str(exc))`
unfoldable pub attempt : {A : Type 0} → Run A → (Text → Run A) → Run A
attempt m h w = handle h (m w)

abbrev pub split : {A B : Type 0} → (A → Run B) → (Text → Run B) → Outcome A → Outcome B
split f h (returned a w) = f a w
split f h (raised e w) = h e w

-- `try: m  except Exception as exc: h(str(exc))  else: f`, where f stands outside the `try`.
unfoldable pub either : {A B : Type 0} → Run A → (A → Run B) → (Text → Run B) → Run B
either m f h w = split f h (m w)

abbrev pub resume : {A : Type 0} → Outcome A → Outcome (Unit {0}) → Outcome A
resume (returned a w) (returned u w') = returned a w'
resume (returned a w) (raised e w') = raised e w'
resume (raised e w) (returned u w') = raised e w'
resume (raised e w) (raised e' w') = raised e' w'

abbrev pub world_of : {A : Type 0} → Outcome A → World
world_of (returned a w) = w
world_of (raised e w) = w

-- `try: m  finally: k`
unfoldable pub lastly : {A : Type 0} → Run A → Run (Unit {0}) → Run A
lastly m k w = resume (m w) (k (world_of (m w)))

unfoldable pub get : Run World
get w = returned w w

unfoldable pub modify : (World → World) → Run (Unit {0})
modify f w = returned tt (f w)

-- A call of code outside the tables: the seconds it takes, the lines it hands to `on_line` where it is
-- given one, and what it returns or raises.
pub record Reply (A : Type 0) : Type 0 where
  pub took : ℕ
  pub lines : List Text
  pub answer : Result Text A

abbrev pub settle : {A : Type 0} → Result Text A → Run A
settle (ok a) w = returned a w
settle (err e) w = raised e w

unfoldable pub ask : {A : Type 0} → Reply A → Run A
ask reply w = settle reply.answer (record w { now = w.now + reply.took })
