-- ===== src/Emails/Worker/Tests.antt =====
-- A run of the worker.
use bunmail.Prelude.{◌≡◌, refl, some}
use bunmail.Emails.Worker.{
  QueueLimits, Worker, schedule_poll, start, stop, start_cycle, fire, none_left, next, started,
  stopped, fired, idle_worker,
}
use bunmail.Emails.Worker.Cap.{IsValid, IsValid-WorkerSteps}

abbrev limits : QueueLimits
limits = record { batch_size = 10; max_concurrent_sends = 4 }

-- A stop and a start while a poll is under way.
abbrev restarted : Worker
restarted = start (stop (fire limits (start idle_worker)))

IsValid-WorkerSteps_example : IsValid limits restarted
unfolding start schedule_poll
IsValid-WorkerSteps_example =
    IsValid-WorkerSteps limits restarted
      (next started (next (fired 0 refl) (next stopped (next started none_left))))

asks_for : start_cycle limits 1 ≡ some 3
unfolding start_cycle
asks_for = refl
