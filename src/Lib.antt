-- ===== src/Lib.antt =====
-- BunMail (repository mohamedboukari/bunmail): a mail server with an HTTP API, an outbound queue,
-- an inbound SMTP receiver and the policies between them. This library models the parts that keep
-- state in process memory, the decisions that the queue and the checks of mail take, the rows of
-- emails and of webhook deliveries under their workers' statements, and the administration of accounts
-- as changes of the rows. The database's own workings, sockets, timers and HTML are not modelled; what
-- they deliver is an argument.
--
-- The parts, the files that model them, and the source (paths from the repository's root):
--
-- - Shared/Window.antt: MemoryWindowCounter of src/utils/shared-store.ts, the counter of fixed
--   windows behind the login, submission and invite limits: take, peek, refund, delete (delete_all),
--   markOnce, prune. Its children: View (what is live at a time), Take, Ticket.
-- - Shared/OneTime.antt: MemoryOneTimeStore of the same file: put, claim, take.
-- - Shared/Slots.antt: MemorySlotSemaphore of src/utils/shared-slots.ts, leases of slots with a
--   line of waiters: acquire, renew, release, prune.
-- - Shared/Facade.antt: sharedWindowCounter of src/utils/shared-store.ts, which counts in a shared
--   backend and falls back to MemoryWindowCounter, with useSharedBackend and closeSharedStore;
--   Shared/Fallback.antt is reportFallback. Shared/SlotFacade.antt is sharedSlotSemaphore of
--   src/utils/shared-slots.ts over Shared/Slots.antt.
-- - Submission/Auth.antt: src/modules/smtp-submission/services/submission-limits.ts, a client of
--   the shared counter: takeSubmissionConnection and throttledAuth. Its children hold the attempts as
--   steps that overlap: Flights and Steps, and what they keep (Outcomes, Kept, Ended, Guesses).
-- - Users/Roles.antt: the policies of src/modules/users/services/invite-policy.service.ts and
--   user-admin-policy.service.ts. Users/Tables.antt: the rows of accounts, open invitations,
--   reset links and owner setup links, sessions and keys, and the updates on them. Users/Admin.antt: the account actions of
--   user-admin.service.ts and user-admin-transfer.service.ts through runAccountAction. Its children:
--   Steps (the calls as a step relation), Keeps (what the changes keep, the calls keep), Owners and
--   OneOwner, Rows and Sound.
-- - Users/Invites.antt: createInvitation and resendInvitation of
--   src/modules/users/services/invite-issue.service.ts, revokeInvitation of invite.service.ts and
--   acceptInvitation of invite-accept.service.ts. Users/Reset.antt: completePasswordReset of
--   password-reset.service.ts.
-- - Shared/Tokens.antt: MemoryTokenBuckets of src/utils/shared-tokens.ts: takeNow with its refill
--   and sweep.
-- - Middleware/RateLimit.antt: checkRateLimit and pruneExpiredEntries of
--   src/middleware/rate-limit-core.ts.
-- - Inbound/Throttle.antt: NotifyThrottle of src/modules/inbound/services/notify-throttle.ts, which
--   keeps two of those limiters and what it has skipped.
-- - Emails/Decision.antt: decideRowOutcome of src/modules/emails/services/queue-decision.service.ts:
--   whether a send attempt's row is deferred, goes back to the queue or ends, and the events it
--   raises. It uses RetrySchedule (retry-schedule.ts) and Deferral (rate-budget.ts). Delivery and Row
--   hold the types of src/modules/emails/models/email.schema.ts.
-- - Emails/Queue.antt: the rows of emails under src/modules/emails/services/queue-claim.service.ts:
--   renewLease, releaseOwnLeases, releaseRow, with the updates by email-trash.service.ts and
--   src/modules/bounces/services/bounce-handler.service.ts. Its children: Pick (fairDueEmailIds and
--   claimNextEmails), Log (the statements of workers as steps, with the history of claims and outcomes),
--   Fair, Lease, Held, Fenced, Fresh, Numbers, Batch. Emails/Worker.antt: the poll loop of
--   queue-worker.service.ts. Emails/Attempt.antt: what sendClaimedEmail of queue-send.service.ts saves.
-- - Emails/MtaSts.antt: MtaStsPolicyCache of src/modules/emails/services/mta-sts-cache.ts and discover
--   of mta-sts.ts, which says what policy binds an attempt. Its children: Bounded, Kept, Waits, and Match,
--   which is mxMatchesPattern of mta-sts-policy.ts.
-- - Emails/Send.antt and Emails/Outcome.antt: what a retry drops before it sends
--   (queue-send.service.ts) and the bounces that an attempt files (queue-outcome.service.ts).
-- - Webhooks: the outbox of src/modules/webhooks/services. Delivery.antt: enqueueEvent, the claim's
--   transaction, recordAttempt. Its children: Pick (fairDueDeliveryIds, claimDueDeliveries), Replay
--   (replayDelivery within recordReplay's budget, a client of Middleware/RateLimit.antt), Log (these
--   calls as steps, with the requests that they make), Counts, Requests, Purge, Limit. Schedule.antt:
--   nextAttemptAt. Retention.antt: purgeOldDeliveries, whose loop has its own hundred batches as fuel.
-- - Domains/Spf: checkHost of src/modules/domains/services/spf-evaluator.ts (Evaluator, CheckHost,
--   in the state and error monad of Monad) with the address tests of spf-address.ts (Address).
-- - Dns: src/utils/dns-wire.ts. Bytes holds texts and big-endian numbers, Name the names in text
--   (nameLabels) and on the wire (readName), Query encodeQuery, Response parseTxtResponse. What is
--   thrown is a constructor of the result type Read, the RangeError of a read past the message too.
--
-- How the model reads the source:
--
-- - A JavaScript Map is an association list in order of insertion (Dict), with get, set, delete and
--   a loop that deletes (keep). Objects with string keys, such as a delivery state, are the same.
-- - The clock is read once by an operation and is an argument; instants and spans are natural
--   numbers of milliseconds. A comparison of a difference is written as a sum.
-- - Fractions of a token and of a jitter are exact: a level counts 1/60000 tokens, a random draw is a
--   fraction. The source computes both in floating point, whose rounding the model does not have: a wait
--   that the source rounds too short is exact here. Rates and capacities are positive in the
--   configuration; a wait at the rate zero, which is infinite in the source, is not meant here.
-- - A call that awaits is one step where nothing else touches what it reads and writes. Where others
--   may, it is two steps (an attempt to authenticate), or it is given what they leave: the rows read
--   before a transaction (`seen`), the cache at the end of a fetch.
-- - A promise that resolves is its value, and one that rejects is a constructor of the result.
-- - The recursion of checkHost is on fuel: one unit for each domain that is evaluated. Eleven units
--   are enough, since each include or redirect is counted first against the limit of ten terms.
-- - The loop of readName has 288 units of fuel: each turn follows one of at most 32 pointers or takes
--   a byte of a name of at most 255. The loop of txtStrings has one unit for each byte of the data.
-- - DNS answers are a function of the name; the time limit of an evaluation is the number of
--   queries after which it strikes. Lookups that the source makes at once are made in their order.
-- - A statement of the database is one step, and has one clock with the process that runs it. Rows that
--   other transactions have locked, and the database's order of ids, are parameters of a claim (Scan).
-- - A shared backend is a parameter: a state, and operations that may fail after they changed it.
-- - The rows of accounts are lists, from which an open token leaves when it is used or revoked. A
--   transaction is one step. What a call reads before its transaction is read in rows of their own
--   (`seen`), so other calls may come in between.
--
-- Not modelled: the Redis backend (scripts that a server runs), the mailer's traffic, the parsers of
-- mail and reports, sign-in, webhook requests, the dashboard, and configuration. Of a completed reset,
-- the change of credentials is not modelled; of a new invitation, the shape of an address; of the
-- emails' rows, their creation and permanent deletion. In the SPF evaluation, the functions that read
-- records and expand macros are a parameter (Syntax).
pub mod Dict
pub mod Dns
pub mod Domains
pub mod Emails
pub mod Inbound
pub mod Middleware
pub mod Prelude
pub mod Shared
pub mod Submission
pub mod Users
pub mod Webhooks
