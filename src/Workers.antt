-- ===== src/Workers.antt =====
-- controlplane/workers: the job log, the step rows and the job state of the Celery tasks.
pub mod Redaction
pub mod Log
pub mod Steps
