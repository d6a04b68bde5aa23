-- ===== src/Moderation.antt =====
-- The moderation service: the check of texts and files for sensitive content, moderation/.
pub mod Words
pub mod Green
pub mod Runes
pub mod Files
pub mod Checks
mod Examples
