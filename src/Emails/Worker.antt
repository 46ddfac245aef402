-- ===== src/Emails/Worker.antt =====
-- src/modules/emails/services/queue-worker.service.ts: the poll loop and its cap on sends at once.
-- A timer is counted while it is set; a poll that waits for its claim is between two steps.
pub mod Cap
mod Tests
use bunmail.Prelude.{
  ℕ, ◌+◌, ◌-◌, ◌≡◌, min, Bool, true, false, not, Option, none, some, leb, if◌then◌else◌, length,
  String,
}
use bunmail.Dict.{Distinct}
use bunmail.Emails.Queue.{Rows}
use bunmail.Emails.Queue.Pick.{Scan, claim_next_emails}

pub record QueueLimits : Type 0 where
  pub batch_size : ℕ
  pub max_concurrent_sends : ℕ

-- The module's variables, with the number of timers that are set, and what a poll waits for: the
-- size of the claim that it asked for.
pub record Worker : Type 0 where
  pub running : Bool
  pub polling : Bool
  pub poll_timer : Bool
  pub timers : ℕ
  pub in_flight : ℕ
  pub asked : Option ℕ

-- `setTimeout`
unfoldable pub schedule_poll : Worker → Worker
schedule_poll w = if not w.running then w else record w { poll_timer = true; timers = w.timers + 1 }

unfoldable pub start : Worker → Worker
unfolding schedule_poll
start w =
    if w.running
    then w
    else if w.polling
    then record w { running = true }
    else schedule_poll (record w { running = true })

unfoldable pub stop : Worker → Worker
stop w = if not w.running then w else record w {
  running = false;
  poll_timer = false;
  timers = if w.poll_timer then w.timers - 1 else w.timers;
}

-- `startQueueCycle` up to its claim: how many emails it asks for, if any.
unfoldable pub start_cycle : QueueLimits → ℕ → Option ℕ
start_cycle limits in_flight =
    if leb limits.max_concurrent_sends in_flight
    then none
    else some (min limits.batch_size (limits.max_concurrent_sends - in_flight))

-- The timer's callback, and `poll` up to its first wait.
unfoldable pub fire : QueueLimits → Worker → Worker
unfolding start_cycle
fire limits w = record w {
  poll_timer = false;
  timers = w.timers - 1;
  polling = true;
  asked = start_cycle limits w.in_flight;
}

-- The claim is answered with `count` emails, each of which a send is started for.
unfoldable pub sends_started : ℕ → Worker → Worker
sends_started count w = record w { asked = none; in_flight = w.in_flight + count }

-- `finally` of `poll`
unfoldable pub poll_done : Worker → Worker
unfolding schedule_poll
poll_done w = schedule_poll (record w { polling = false })

-- `finally` of a send
unfoldable pub send_done : Worker → Worker
send_done w = record w { in_flight = w.in_flight - 1 }

-- What can happen next, in any order.
pub data WorkerStep (limits : QueueLimits) (w : Worker) : Worker → Type 0 where
  started : WorkerStep limits w (start w)
  stopped : WorkerStep limits w (stop w)
  fired : (left : ℕ) → w.timers ≡ left + 1 → WorkerStep limits w (fire limits w)
  claimed :
      (n : ℕ) (rows : Rows) (worker : String) (scan : Scan)
      → w.asked ≡ some n
      → Distinct rows
      → WorkerStep limits w (sends_started (length (claim_next_emails rows worker scan n).1) w)
  claim_failed : (n : ℕ) → w.asked ≡ some n → WorkerStep limits w (sends_started 0 w)
  polled : w.polling ≡ true → w.asked ≡ none → WorkerStep limits w (poll_done w)
  sent : WorkerStep limits w (send_done w)

pub data WorkerSteps (limits : QueueLimits) : Worker → Worker → Type 0 where
  none_left : {w : Worker} → WorkerSteps limits w w
  next : {w u v : Worker} → WorkerStep limits w u → WorkerSteps limits u v → WorkerSteps limits w v

abbrev pub idle_worker : Worker
idle_worker = record {
  running = false;
  polling = false;
  poll_timer = false;
  timers = 0;
  in_flight = 0;
  asked = none;
}
