-- ===== src/Org.antt =====
-- Organizations: user/component and the stores of members, users and organizations behind it.
pub mod Role
pub mod Store
pub mod Member
pub mod Access
pub mod Rows
pub mod Adding
pub mod Change
mod Examples
