-- ===== src/Domains/Spf.antt =====
-- src/modules/domains: the evaluation of SPF.
pub mod Types
pub mod Address
pub mod Answers
pub mod Monad
pub mod Evaluator
pub mod CheckHost
