-- ===== src/Notify.antt =====
-- internal/notify: which receivers hear of an incident transition, and the record of every attempt.
pub mod Types
pub mod Dedupe
pub mod Receiver
pub mod Report
pub mod Renderer
pub mod Attempt
pub mod Delivery
