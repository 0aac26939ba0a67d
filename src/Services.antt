-- ===== src/Services.antt =====
-- internal/services: the business logic between the handlers, the workers and the repositories.
pub mod Fulfillment
pub mod Order
pub mod Product
pub mod User
pub mod Notification
