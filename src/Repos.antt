-- ===== src/Repos.antt =====
-- component/repo.go and the parts that rest on it: who may do what with a repository.
pub mod Store
pub mod Access
pub mod Git
pub mod Manage
pub mod Files
pub mod Deploys
pub mod Related
pub mod Mirrors
mod Sample
mod Examples
