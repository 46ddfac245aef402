-- ===== src/Inbound.antt =====
-- src/modules/inbound: mail that arrives.
pub mod Throttle
