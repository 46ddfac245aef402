-- ===== src/Webhooks.antt =====
-- src/modules/webhooks/services: deliveries of events to webhooks.
pub mod Schedule
pub mod Delivery
pub mod Retention
mod Tests
