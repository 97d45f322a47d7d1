-- ===== src/Repositories.antt =====
-- The tenant-scoped repositories: repositories/{jobs,deployments,projects,teams}.py. A method takes
-- the caller's scope and the database, and a write returns the new database.
pub mod Jobs
pub mod Scans
pub mod Deployments
pub mod Projects
pub mod Teams
pub mod Isolation
