-- ===== src/Payment.antt =====
-- internal/payment: the gateway that the fulfiller charges through, and the fake that stands for it.
pub mod Gateway
pub mod Fake
