-- ===== src/Repository.antt =====
-- internal/repository: the statements that each repository sends.
pub mod Order
pub mod Product
pub mod User
pub mod Notification
