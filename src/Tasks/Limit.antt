-- ===== src/Tasks/Limit.antt =====
-- The time limits that workers/celery_app.py gives to every task.
use stage.Prelude.{ℕ, ◌+◌, ◌-◌, Bool, Option, none, some, leb, true, ◌≡◌, if◌then◌else◌, ap}
use stage.Lifecycle.{task_time_limit}
use stage.Tasks.World.{Run, World, Outcome, world_of}

-- `task_soft_time_limit`, which is 60 seconds before `task_time_limit`.
unfoldable pub soft_time_limit : ℕ → ℕ → ℕ
soft_time_limit provision_timeout scan_timeout = task_time_limit provision_timeout scan_timeout - 60

abbrev pub is_in_time : ℕ → ℕ → Run (Unit {0}) → World → Bool
is_in_time provision_timeout scan_timeout task w =
    leb (world_of (task w)).now (w.now + soft_time_limit provision_timeout scan_timeout)

-- A task that a worker runs: `none` where its calls last beyond the soft limit, at which Celery raises in
-- the midst of the body, or kills the worker 60 seconds later.
unfoldable pub run_task : ℕ → ℕ → Run (Unit {0}) → World → Option (Outcome (Unit {0}))
run_task provision_timeout scan_timeout task w =
    if is_in_time provision_timeout scan_timeout task w then some (task w) else none

-- A task that is over in time does what its body does.
pub run_task_lem :
    (provision_timeout scan_timeout : ℕ) (task : Run (Unit {0})) (w : World)
    (o : Outcome (Unit {0}))
    → is_in_time provision_timeout scan_timeout task w ≡ true
    → task w ≡ o
    → run_task provision_timeout scan_timeout task w ≡ some o
unfolding run_task
run_task_lem provision_timeout scan_timeout task w o in_time run = rw in_time (ap some run)
