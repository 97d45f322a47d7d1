-- ===== src/Tasks.antt =====
-- The Celery tasks of workers/tasks.py that provision and destroy projects, scan repositories, and deploy and
-- undeploy services.
pub mod World
pub mod Limit
pub mod Calls
pub mod Triples
pub mod Yields
pub mod Tidy
pub mod ProvisionWays
pub mod ProvisionEnds
pub mod Destroy
pub mod DestroyEnds
pub mod Clone
pub mod Scan
pub mod ScanEnds
pub mod Gates
pub mod Kubectl
pub mod Ship
pub mod TektonRun
pub mod TektonBuild
pub mod Build
pub mod Deploy
pub mod Provision
pub mod ProvisionTask
