-- ===== src/Tags.antt =====
-- Tags of repositories: the store (builder/store/database/tag.go), the parsers of file names and
-- README files (component/tagparser), and the component above them (component/tag.go).
pub mod Store
pub mod Counts
pub mod Names
pub mod Folder
pub mod Processor
pub mod Processed
pub mod Complete
pub mod Component
pub mod Category
mod Examples
