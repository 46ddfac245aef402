-- ===== src/Dns.antt =====
-- src/utils/dns-wire.ts: TXT lookups on the wire.
pub mod Bytes
pub mod Name
pub mod Query
pub mod Response
mod Tests
