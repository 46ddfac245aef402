-- ===== src/Webhooks/Delivery/Replay.antt =====
-- src/modules/webhooks/services/webhook-delivery-query.service.ts and replay-limit.service.ts: a
-- replay by the owner, within its budget.
use bunmail.Prelude.{ℕ, ◌*◌, String, Bool, false, Option, none, some, if◌then◌else◌, str_eq}
use bunmail.Dict.{get, set}
use bunmail.Middleware.RateLimit.{
  RateLimitOptions, RateLimitMap, RateLimitDecision, allowed, limited, check_rate_limit,
  prune_expired_entries,
}
use bunmail.Webhooks.Delivery.{Delivery, Deliveries, Hook, Hooks, pending}

abbrev pub replays_per_delivery_per_hour : ℕ
replays_per_delivery_per_hour = 5

abbrev pub replay_window_ms : ℕ
replay_window_ms = 60 * 60 * 1000

abbrev pub replay_options : RateLimitOptions
replay_options = record { max = replays_per_delivery_per_hour; window_ms = replay_window_ms }

unfoldable pub record_replay : RateLimitMap → String → ℕ → RateLimitMap × RateLimitDecision
record_replay replays delivery_id now =
    check_rate_limit (prune_expired_entries replays now replay_window_ms).0 delivery_id now
      replay_options 1

abbrev pub owned_by : Option Hook → String → Bool
owned_by none key = false
owned_by (some h) key = str_eq h.api_key_id key

abbrev pub owned : Hooks → String → Option Delivery → Option Delivery
owned hooks key none = none
owned hooks key (some r) = if owned_by (get hooks r.webhook_id) key then some r else none

-- `getDeliveryById`
unfoldable pub get_delivery_by_id : Deliveries → Hooks → String → String → Option Delivery
get_delivery_by_id rows hooks id key = owned hooks key (get rows id)

abbrev pub replayed_delivery : ℕ → Delivery → Delivery
replayed_delivery now r = record r {
  status = pending;
  attempts = 0;
  last_error = none;
  last_response_status = none;
  last_response_body = none;
  delivered_at = none;
  next_attempt_at = now;
  updated_at = now;
}

pub data ReplayResult : Type 0 where
  missing : ReplayResult
  limit_reached : ℕ → ReplayResult
  replayed : ReplayResult

abbrev pub replay_decided :
    Deliveries
    → String
    → ℕ
    → Delivery
    → RateLimitMap × RateLimitDecision
    → Deliveries × RateLimitMap × ReplayResult
replay_decided rows id now r (replays, limited count retry_after) =
    (rows, replays, limit_reached retry_after)
replay_decided rows id now r (replays, allowed) =
    (set rows id (replayed_delivery now r), replays, replayed)

abbrev pub replay_existing :
    Deliveries
    → RateLimitMap
    → String
    → ℕ
    → Option Delivery
    → Deliveries × RateLimitMap × ReplayResult
replay_existing rows replays id now none = (rows, replays, missing)
replay_existing rows replays id now (some r) =
    replay_decided rows id now r (record_replay replays id now)

unfoldable pub replay_delivery :
    Deliveries
    → Hooks
    → RateLimitMap
    → String
    → String
    → ℕ
    → Deliveries × RateLimitMap × ReplayResult
unfolding get_delivery_by_id record_replay
replay_delivery rows hooks replays id key now =
    replay_existing rows replays id now (get_delivery_by_id rows hooks id key)
