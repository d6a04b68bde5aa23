-- ===== src/Deploy.antt =====
-- The deployment engine, builder/deploy: its database tables, the two kinds of task, the scheduler
-- that runs them, and the names of the services that it creates.
pub mod Status
pub mod Store
pub mod Hub
pub mod Deployer
pub mod AppName
pub mod Repo
pub mod Build
pub mod Request
pub mod Run
pub mod CloneUrl
mod Examples
pub mod Scheduler
