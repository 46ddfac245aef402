-- ===== src/Webhooks/Delivery/Limit.antt =====
-- At most five requests for a delivery since its last fresh start.
use bunmail.Prelude.{
  ℕ, ◌≡◌, refl, sym, subst, String, List, [], ◌∷◌, ◌++◌, Option, none, some, str_eq, arith,
  Bool-cases, inl, inr,
}
use bunmail.Dict.{get, set, get-set, set-Distinct}
use bunmail.Middleware.RateLimit.{RateLimitMap, RateLimitDecision, allowed, limited}
use bunmail.Webhooks.Delivery.{
  Delivery, Deliveries, Hooks, enqueue_event, event_rows, DispatchScope, matching_webhook,
}
use bunmail.Webhooks.Delivery.Replay.{
  replay_decided, replay_existing, replay_delivery, replayed_delivery, record_replay,
  get_delivery_by_id,
}
use bunmail.Webhooks.Delivery.Counts.{CountsIn, AllCount, AtMostFive}
use bunmail.Webhooks.Delivery.Log.{
  DeliveryEvent, reset, started, replay_log, Outbox, OutboxStep, by_event, by_claim, by_outcome,
  by_replay, by_purge, OutboxSteps, steps_keep,
}
use bunmail.Webhooks.Retention.{purge_old_deliveries, purge_max_batches}
use bunmail.Webhooks.Delivery.Requests.{Sound, claim_due_deliveries-Sound, record_attempt-Sound}
use bunmail.Webhooks.Delivery.Purge.{purge_batches-AllCount}

-- A fresh start resets the count of its delivery and of no other.
reset-Counts :
    (id j : String) (log : List DeliveryEvent) (found : Option Delivery)
    → CountsIn log j found
    → CountsIn (reset id ∷ log) j found
reset-Counts id j log none h = tt
reset-Counts id j log (some r) h = elim (Bool-cases (str_eq id j)) [
  | inl t ↦ rw t (omega arith, h.1, λ p e. cc)
  | inr f ↦ rw f h
]

replay_delivery-Sound :
    (q : Outbox) (hooks : Hooks) (replays : RateLimitMap) (id key : String) (now : ℕ)
    → Sound q
    → Sound (record {
      rows = (replay_delivery q.rows hooks replays id key now).0;
      log = replay_log id (replay_delivery q.rows hooks replays id key now).2 q.log;
    })
unfolding replay_delivery
replay_delivery-Sound q hooks replays id key now (d, h, five) =
    found (get_delivery_by_id q.rows hooks id key)
  where
    fresh : (r : Delivery) → AllCount (reset id ∷ q.log) (set q.rows id (replayed_delivery now r))
    fresh r j = elim (Bool-cases (str_eq id j)) [
      | inl t ↦
          rw (get-set q.rows id (replayed_delivery now r) j, t)
            (omega arith, omega arith, λ p e. cc)
      | inr f ↦ rw (get-set q.rows id (replayed_delivery now r) j, f) (h j)
    ]

    decided :
        (r : Delivery) (u : RateLimitMap × RateLimitDecision)
        → Sound (record {
          rows = (replay_decided q.rows id now r u).0;
          log = replay_log id (replay_decided q.rows id now r u).2 q.log;
        })
    decided r (m, allowed) = (set-Distinct q.rows id (replayed_delivery now r) d, fresh r, five)
    decided r (m, limited count wait) = (d, h, five)

    found :
        (f : Option Delivery)
        → Sound (record {
          rows = (replay_existing q.rows replays id now f).0;
          log = replay_log id (replay_existing q.rows replays id now f).2 q.log;
        })
    found none = (d, h, five)
    found (some r) = decided r (record_replay replays id now)

-- New rows: their log starts at zero.
get-append :
    (rows new : Deliveries) (id : String)
    → get (rows ++ new) id
      ≡ elim (get rows id) as (λ _. Option Delivery) [ none ↦ get new id | some r ↦ some r ]
unfolding get
get-append [] new id = refl
get-append ((j, r) ∷ rows) new id = elim (Bool-cases (str_eq j id)) [
  | inl t ↦ rw t refl
  | inr f ↦ rw f (get-append rows new id)
]

started-Counts :
    (new : Deliveries) (log : List DeliveryEvent) (id : String) (found : Option Delivery)
    → CountsIn log id found
    → CountsIn (started new log) id found
started-Counts [] log id found h = h
started-Counts ((j, r) ∷ new) log id found h =
    reset-Counts j id (started new log) found (started-Counts new log id found h)

started-AtMostFive :
    (new : Deliveries) (log : List DeliveryEvent) → AtMostFive log → AtMostFive (started new log)
started-AtMostFive [] log h = h
started-AtMostFive ((j, r) ∷ new) log h = started-AtMostFive new log h

module _ (event : String) (scope : DispatchScope) (body : String) (now : ℕ)
    (new_id : String → String) where
  event_rows-CountsIn :
      (hooks : Hooks) (log : List DeliveryEvent) (id : String)
      → CountsIn
          (started (event_rows hooks event scope body now new_id) log)
          id
          (get (event_rows hooks event scope body now new_id) id)
  unfolding event_rows get
  event_rows-CountsIn [] log id = tt
  event_rows-CountsIn ((k, h) ∷ hooks) log id = elim (Bool-cases (matching_webhook event scope h)) [
    | inl t ↦ elim (Bool-cases (str_eq (new_id k) id)) [
      | inl s ↦ rw (t, s) (omega arith, omega arith, λ p e. cc)
      | inr f ↦ rw (t, f) (event_rows-CountsIn hooks log id)
    ]
    | inr f ↦ rw f (event_rows-CountsIn hooks log id)
  ]

  enqueue_event-AllCount :
      (rows : Deliveries) (hooks : Hooks) (log : List DeliveryEvent)
      → AllCount log rows
      → AllCount
          (started (event_rows hooks event scope body now new_id) log)
          (enqueue_event rows hooks event scope body now new_id).0
  unfolding enqueue_event
  enqueue_event-AllCount rows hooks log h id =
      subst (CountsIn (started new log) id) (sym (get-append rows new id))
        (joined (get rows id) (h id))
    where
      new : Deliveries
      new = event_rows hooks event scope body now new_id

      joined :
          (f : Option Delivery)
          → CountsIn log id f
          → CountsIn
              (started new log)
              id
              (elim f as (λ _. Option Delivery) [ none ↦ get new id | some r ↦ some r ])
      joined none c = event_rows-CountsIn hooks log id
      joined (some r) c = started-Counts new log id (some r) c

Sound-OutboxStep : (q u : Outbox) → OutboxStep q u → Sound q → Sound u
unfolding purge_old_deliveries
Sound-OutboxStep q _ (by_event hooks event scope body now new_id distinct) (d, h, five) = (
  distinct,
  enqueue_event-AllCount event scope body now new_id q.rows hooks q.log h,
  started-AtMostFive (event_rows hooks event scope body now new_id) q.log five,
)
Sound-OutboxStep q _ (by_claim hooks scan n) s = claim_due_deliveries-Sound q hooks scan n s
Sound-OutboxStep q _ (by_outcome cut id o prior now newest) s =
    record_attempt-Sound q cut id o prior now newest s
Sound-OutboxStep q _ (by_replay hooks replays id key now) s =
    replay_delivery-Sound q hooks replays id key now s
Sound-OutboxStep q _ (by_purge older_than size) (d, h, five) =
    let (d', h') = purge_batches-AllCount older_than purge_max_batches size q.rows q.log (d, h) in
    (d', h', five)

-- From an empty outbox on, in every order of events, claims by any number of workers, outcomes,
-- crashes before an outcome is recorded, replays and purges: at most five requests are made for a
-- delivery since it was enqueued or last replayed, where each outcome that is recorded is that of the
-- delivery's newest request.
pub AtMostFive-OutboxSteps :
    (v : Outbox) → OutboxSteps (record { rows = []; log = [] }) v → AtMostFive v.log
unfolding get
AtMostFive-OutboxSteps v steps =
    (steps_keep Sound Sound-OutboxStep (record { rows = []; log = [] }) v steps
      (tt, (λ id. tt), tt)).2
