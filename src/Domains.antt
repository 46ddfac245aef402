-- ===== src/Domains.antt =====
-- src/modules/domains: sending domains and their DNS checks.
pub mod Spf
