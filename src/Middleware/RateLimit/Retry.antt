-- ===== src/Middleware/RateLimit/Retry.antt =====
-- What the limiter tells a client that it refuses.
use bunmail.Prelude.{ℕ, ◌+◌, ◌*◌, ◌≤◌, ◌≡◌, String, some, arith, ap, sym, ◌∙◌}
use bunmail.Dict.{get}
use bunmail.Middleware.RateLimit.{
  RateLimitOptions, RateLimitEntry, allowed, limited, RateLimitMap, entry_for, counted,
  check_rate_limit,
}
use bunmail.Middleware.RateLimit.Budget.{check_self, check_decision}

counted_retry :
    (e : RateLimitEntry) (now later : ℕ) (o : RateLimitOptions) (weight count retry : ℕ)
    → (counted e now o weight).1 ≡ limited count retry
    → now + retry * 1000 ≤ later
    → entry_for (some (counted e now o weight).0) later o.window_ms
      ≡ record { count = 0; window_start = later }
unfolding counted entry_for
counted_retry e now later o weight count retry h wait = ground arith

counted_new :
    (now : ℕ) (o : RateLimitOptions) (weight : ℕ)
    → weight ≤ o.max
    → (counted (record { count = 0; window_start = now }) now o weight).1 ≡ allowed
unfolding counted
counted_new now o weight h = ground arith

-- A refused client that waits the seconds it was told gets through, with any request that the
-- limit allows at all, if it sends nothing in between.
pub retry_after-suffices :
    (m : RateLimitMap) (key : String) (now later : ℕ) (o : RateLimitOptions)
    (weight again count retry : ℕ)
    → (check_rate_limit m key now o weight).1 ≡ limited count retry
    → now + retry * 1000 ≤ later
    → again ≤ o.max
    → (check_rate_limit (check_rate_limit m key now o weight).0 key later o again).1 ≡ allowed
retry_after-suffices m key now later o weight again count retry h wait fits =
    let e = entry_for (get m key) now o.window_ms in
    check_decision (check_rate_limit m key now o weight).0 key later o again
    ∙ ap (λ x. (counted (entry_for x later o.window_ms) later o again).1)
        (check_self m key now o weight)
    ∙ ap (λ x. (counted x later o again).1)
        (counted_retry e now later o weight count retry
          (sym (check_decision m key now o weight) ∙ h) wait)
    ∙ counted_new later o again fits
