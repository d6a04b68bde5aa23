-- ===== src/Likes.antt =====
-- The likes of repositories and collections, builder/store/database/user_like.go.
pub mod Store
pub mod Balance
mod Examples
