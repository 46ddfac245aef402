-- ===== src/Emails/Deferral.antt =====
-- src/modules/emails/services/rate-budget.ts: `deferralDelayMs`, the wait of an email that the
-- rate budget held back. `Math.random()` is the fraction `draw / draws` (2^53 of them); the
-- source's floating point is exact here: a spread of a tenth of the wait is counted in tenths.
use native.Mathlib.Nat.{div-mul-le_self, lt_of_mul-lt-mul_left, mul-le-mul_right}
use bunmail.Prelude.{ℕ, ◌+◌, ◌-◌, ◌*◌, ◌/◌, ◌≤◌, ◌<◌, max, arith}

-- Ten times `Math.max(250, waitMs * 0.1)`.
abbrev pub spread_tenths : ℕ → ℕ
spread_tenths wait_ms = max 2500 wait_ms

pub jitter_up : ℕ → ℕ → ℕ → ℕ
jitter_up wait_ms draw draws = (draw * spread_tenths wait_ms + (10 * draws - 1)) / (10 * draws)

-- `wait_ms` is whole, so rounding the sum up rounds the jitter up.
pub deferral_delay_ms : ℕ → ℕ → ℕ → ℕ
unfolding jitter_up
deferral_delay_ms wait_ms draw draws = max 1 (wait_ms + jitter_up wait_ms draw draws)

product_bound :
    (q s draw draws : ℕ)
    → draw < draws
    → q * (10 * draws) ≤ draw * s + (10 * draws - 1)
    → draws * (10 * q) < draws * (s + 10)
product_bound q s draw draws h le =
    let part : draw * s ≤ draws * s = mul-le-mul_right s (omega (arith, h)) in
    grind (arith, part, le, h)

jitter_up-lt :
    (wait_ms draw draws : ℕ)
    → draw < draws
    → 10 * jitter_up wait_ms draw draws < spread_tenths wait_ms + 10
unfolding jitter_up
jitter_up-lt wait_ms draw draws h = lt_of_mul-lt-mul_left draws (
    product_bound (jitter_up wait_ms draw draws) (spread_tenths wait_ms) draw draws h
      (div-mul-le_self (draw * spread_tenths wait_ms + (10 * draws - 1)) (10 * draws)))

-- An email that the rate budget held back comes back no earlier than its token is due, and no
-- later than a tenth of that wait, or a quarter of a second if that is more, and one millisecond
-- after it.
pub deferral_delay_ms-bounds :
    (wait_ms draw draws : ℕ)
    → draw < draws
    → (wait_ms ≤ deferral_delay_ms wait_ms draw draws)
      × (10 * deferral_delay_ms wait_ms draw draws ≤ 10 * wait_ms + max 2500 wait_ms + 10)
unfolding deferral_delay_ms
deferral_delay_ms-bounds wait_ms draw draws h =
    (omega arith, omega (arith, jitter_up-lt wait_ms draw draws h))
