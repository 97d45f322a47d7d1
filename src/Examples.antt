-- ===== src/Examples.antt =====
-- Rows, calls and documents that the code may meet, and the theorems applied to them.
pub mod Data
pub mod Access
pub mod Store
pub mod Jobs
pub mod Documents
pub mod Tasks
pub mod Config
pub mod Deploys
