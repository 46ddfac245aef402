-- ===== src/Emails/Worker/Cap.antt =====
-- One poll at a time, and never more sends at once than the cap.
use bunmail.Prelude.{ℕ, ◌+◌, ◌≤◌, ◌≡◌, refl, Bool, true, false, Option, none, some, length, arith}
use bunmail.Emails.Queue.Pick.{claim_next_emails}
use bunmail.Emails.Queue.Batch.{length-claim_next_emails-le}
use bunmail.Emails.Worker.{
  QueueLimits, Worker, schedule_poll, start, stop, start_cycle, fire, sends_started, poll_done,
  send_done, WorkerStep, started, stopped, fired, claimed, claim_failed, polled, sent, WorkerSteps,
  none_left, next, idle_worker,
}

abbrev pub flag : Bool → ℕ
flag true = 1
flag false = 0

abbrev pub asked_for : Option ℕ → ℕ
asked_for none = 0
asked_for (some n) = n

abbrev pub is_asked : Option ℕ → Bool
is_asked none = false
is_asked (some n) = true

-- The timer that is set is the one that the worker can clear, a running worker has one timer or one
-- poll, a stopped one at most the poll that was under way, and the sends stay below the cap with
-- those that a claim may add.
pub record IsValid (limits : QueueLimits) (w : Worker) : Type 0 where
  pub one_timer : w.timers ≡ flag w.poll_timer
  pub one_loop : w.timers + flag w.polling ≤ 1
  pub alive : flag w.running ≤ w.timers + flag w.polling
  pub cleared : w.timers ≤ flag w.running
  pub capped : w.in_flight + asked_for w.asked ≤ limits.max_concurrent_sends
  pub in_poll : flag (is_asked w.asked) ≤ flag w.polling

module _ (limits : QueueLimits) (w : Worker) (v : IsValid limits w) where
  start-IsValid : IsValid limits (start w)
  unfolding start schedule_poll
  start-IsValid = ground arith

  stop-IsValid : IsValid limits (stop w)
  unfolding stop
  stop-IsValid = ground arith

  fire-IsValid : (left : ℕ) → w.timers ≡ left + 1 → IsValid limits (fire limits w)
  unfolding fire start_cycle
  fire-IsValid left set = ground arith

  sends_started-IsValid :
      (n count : ℕ) → w.asked ≡ some n → count ≤ n → IsValid limits (sends_started count w)
  unfolding sends_started
  sends_started-IsValid n count asked few = ground arith

  poll_done-IsValid : w.polling ≡ true → w.asked ≡ none → IsValid limits (poll_done w)
  unfolding poll_done schedule_poll
  poll_done-IsValid polling answered = ground arith

  send_done-IsValid : IsValid limits (send_done w)
  unfolding send_done
  send_done-IsValid = ground arith

IsValid-WorkerStep :
    (limits : QueueLimits) (w u : Worker)
    → WorkerStep limits w u
    → IsValid limits w
    → IsValid limits u
IsValid-WorkerStep limits w _ started v = start-IsValid limits w v
IsValid-WorkerStep limits w _ stopped v = stop-IsValid limits w v
IsValid-WorkerStep limits w _ (fired left set) v = fire-IsValid limits w v left set
IsValid-WorkerStep limits w _ (claimed n rows worker scan asked d) v =
    sends_started-IsValid limits w v n (length (claim_next_emails rows worker scan n).1) asked
      (length-claim_next_emails-le rows worker scan n d)
IsValid-WorkerStep limits w _ (claim_failed n asked) v =
    sends_started-IsValid limits w v n 0 asked (omega arith)
IsValid-WorkerStep limits w _ (polled polling answered) v =
    poll_done-IsValid limits w v polling answered
IsValid-WorkerStep limits w _ sent v = send_done-IsValid limits w v

IsValid-steps :
    (limits : QueueLimits) (w u : Worker)
    → WorkerSteps limits w u
    → IsValid limits w
    → IsValid limits u
IsValid-steps limits w _ none_left v = v
IsValid-steps limits w u (next {u = x} s rest) v =
    IsValid-steps limits x u rest (IsValid-WorkerStep limits w x s v)

-- In every order of starts, stops, timers, claims and finished sends, also of a stop and a start
-- while a poll is under way: the sends in flight never exceed the cap, even with those that a claim
-- under way may add; a worker that runs has exactly one timer or poll, and one that is stopped has no
-- timer.
pub IsValid-WorkerSteps :
    (limits : QueueLimits) (w : Worker) → WorkerSteps limits idle_worker w → IsValid limits w
IsValid-WorkerSteps limits w steps = IsValid-steps limits idle_worker w steps (record {
  one_timer = refl;
  one_loop = omega arith;
  alive = omega arith;
  cleared = omega arith;
  capped = omega arith;
  in_poll = omega arith;
})
