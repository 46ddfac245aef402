-- ===== src/Webhooks/Delivery/Log.antt =====
-- The requests that claims of deliveries give rise to, newest first, and the steps on the rows.
use bunmail.Prelude.{ℕ, suc, ◌≡◌, String, List, [], ◌∷◌, Option, none, some, if◌then◌else◌, str_eq}
use bunmail.Dict.{Distinct}
use bunmail.Middleware.RateLimit.{RateLimitMap}
use bunmail.Webhooks.Delivery.{
  Deliveries, Hooks, DueDelivery, DispatchScope, AttemptOutcome, enqueue_event, event_rows,
  record_attempt,
}
use bunmail.Webhooks.Delivery.Pick.{DeliveryScan, claim_due_deliveries}
use bunmail.Webhooks.Delivery.Replay.{
  ReplayResult, missing, limit_reached, replayed, replay_delivery,
}
use bunmail.Webhooks.Retention.{purge_old_deliveries}

-- A request with the attempts before it, or a fresh start: a new row or a replay.
pub data DeliveryEvent : Type 0 where
  requested : String → ℕ → DeliveryEvent
  reset : String → DeliveryEvent

-- Requests since the last fresh start.
abbrev pub requests : String → List DeliveryEvent → ℕ
requests id [] = 0
requests id (requested j prior ∷ log) =
    let rest = requests id log in if str_eq j id then suc rest else rest
requests id (reset j ∷ log) = let rest = requests id log in if str_eq j id then 0 else rest

-- The attempts before the newest request, where that is the newest event.
abbrev pub newest_prior : String → List DeliveryEvent → Option ℕ
newest_prior id [] = none
newest_prior id (requested j prior ∷ log) =
    let rest = newest_prior id log in if str_eq j id then some prior else rest
newest_prior id (reset j ∷ log) =
    let rest = newest_prior id log in if str_eq j id then none else rest

abbrev pub logged : List DueDelivery → List DeliveryEvent → List DeliveryEvent
logged [] log = log
logged (d ∷ ds) log = requested d.id d.attempts ∷ logged ds log

abbrev pub started : Deliveries → List DeliveryEvent → List DeliveryEvent
started [] log = log
started ((id, r) ∷ rows) log = reset id ∷ started rows log

abbrev pub replay_log : String → ReplayResult → List DeliveryEvent → List DeliveryEvent
replay_log id missing log = log
replay_log id (limit_reached wait) log = log
replay_log id replayed log = reset id ∷ log

pub record Outbox : Type 0 where
  pub rows : Deliveries
  pub log : List DeliveryEvent

-- The outcome of a request is recorded, or never: not after the delivery was claimed for another.
pub data OutboxStep (q : Outbox) : Outbox → Type 0 where
  by_event :
      (hooks : Hooks) (event : String) (scope : DispatchScope) (body : String) (now : ℕ)
      (new_id : String → String)
      → Distinct (enqueue_event q.rows hooks event scope body now new_id).0
      → OutboxStep q (record {
        rows = (enqueue_event q.rows hooks event scope body now new_id).0;
        log = started (event_rows hooks event scope body now new_id) q.log;
      })
  by_claim :
      (hooks : Hooks) (scan : DeliveryScan) (n : ℕ)
      → OutboxStep q (record {
        rows = (claim_due_deliveries q.rows hooks scan n).0;
        log = logged (claim_due_deliveries q.rows hooks scan n).1 q.log;
      })
  by_outcome :
      (cut : String → String) (id : String) (o : AttemptOutcome) (prior now : ℕ)
      → newest_prior id q.log ≡ some prior
      → OutboxStep q (record q { rows = record_attempt cut q.rows id o prior now })
  by_replay :
      (hooks : Hooks) (replays : RateLimitMap) (id key : String) (now : ℕ)
      → OutboxStep q (record {
        rows = (replay_delivery q.rows hooks replays id key now).0;
        log = replay_log id (replay_delivery q.rows hooks replays id key now).2 q.log;
      })
  by_purge :
      (older_than size : ℕ)
      → OutboxStep q (record q { rows = (purge_old_deliveries q.rows older_than size).0 })

pub data OutboxSteps : Outbox → Outbox → Type 0 where
  none_left : {q : Outbox} → OutboxSteps q q
  next : {q u v : Outbox} → OutboxStep q u → OutboxSteps u v → OutboxSteps q v

pub steps_keep {ℓ} :
    (P : Outbox → Type ℓ)
    → ((q u : Outbox) → OutboxStep q u → P q → P u)
    → (q v : Outbox) → OutboxSteps q v
    → P q
    → P v
steps_keep P keep q _ none_left h = h
steps_keep P keep q v (next {u = u} s rest) h = steps_keep P keep u v rest (keep q u s h)
