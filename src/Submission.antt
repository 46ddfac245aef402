-- ===== src/Submission.antt =====
-- src/modules/smtp-submission: the limits of the submission server.
pub mod Auth
