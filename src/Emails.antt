-- ===== src/Emails.antt =====
-- src/modules/emails/services: the outbound queue.
pub mod RetrySchedule
pub mod Deferral
pub mod Delivery
pub mod Row
pub mod Decision
pub mod Send
pub mod Outcome
pub mod Queue
pub mod Attempt
pub mod Worker
pub mod MtaSts
mod Tests
