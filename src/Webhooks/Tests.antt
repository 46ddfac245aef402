-- ===== src/Webhooks/Tests.antt =====
-- Runs of the deliveries.
use bunmail.Prelude.{◌≤◌, ◌*◌, ◌≡◌, refl, true, false, [], ◌∷◌, some}
use bunmail.Dict.{get}
use bunmail.Webhooks.Schedule.{next_attempt_at}
use bunmail.Webhooks.Delivery.{
  Deliveries, delivered, Hooks, api_key, new_delivery, event_rows, enqueue_event,
}
use bunmail.Webhooks.Delivery.Pick.{
  DeliveryScan, hook_due, all_due, rank_in_key, fair_due_delivery_ids, claim_due_deliveries,
}
use bunmail.Webhooks.Delivery.Counts.{AtMostFive}
use bunmail.Webhooks.Delivery.Log.{Outbox, logged, started, by_event, by_claim, none_left, next}
use bunmail.Webhooks.Delivery.Limit.{AtMostFive-OutboxSteps}
use bunmail.Webhooks.Retention.{purge_old_deliveries}
use bunmail.Webhooks.Retention.Whole.{kept_deliveries, finished_count, purge_old_deliveries-kept}

abbrev hooks : Hooks
hooks =
    (
      "h",
      record {
        api_key_id = "k";
        events = "email.sent" ∷ [];
        is_active = true;
        key_active = true;
        key_is_admin = false;
        url = "u";
        secret = some "s";
      },
    )
    ∷ []

abbrev scan : DeliveryScan
scan = record { now = 9; locked = λ id. false; id_before = λ a b. false }

-- A failure is retried after a minute, then after five.
first_wait : next_attempt_at 1 0 ≡ some 60000
first_wait = refl

second_wait : next_attempt_at 2 0 ≡ some 300000
second_wait = refl

abbrev inserted : Outbox
inserted = record {
  rows = (enqueue_event [] hooks "email.sent" (api_key "k") "b" 5 (λ h. "d")).0;
  log = started (event_rows hooks "email.sent" (api_key "k") "b" 5 (λ h. "d")) [];
}

abbrev claimed : Outbox
claimed = record {
  rows = (claim_due_deliveries inserted.rows hooks scan 25).0;
  log = logged (claim_due_deliveries inserted.rows hooks scan 25).1 inserted.log;
}

picked : fair_due_delivery_ids scan 25 inserted.rows hooks ≡ "d" ∷ []
unfolding fair_due_delivery_ids enqueue_event all_due hook_due rank_in_key
picked = refl

AtMostFive-OutboxSteps_example : AtMostFive claimed.log
unfolding enqueue_event get
AtMostFive-OutboxSteps_example = AtMostFive-OutboxSteps claimed (
    next (by_event hooks "email.sent" (api_key "k") "b" 5 (λ h. "d") (refl, tt))
      (next (by_claim hooks scan 25) none_left))

abbrev two_rows : Deliveries
two_rows =
    ("new", new_delivery "h" "email.sent" "b" 5)
    ∷ ("old", record (new_delivery "h" "email.sent" "b" 5) { status = delivered })
    ∷ []

purge_old_deliveries-kept_example :
    (kept_deliveries 7 (purge_old_deliveries two_rows 7 10).0 ≡ kept_deliveries 7 two_rows)
    × (finished_count 7 two_rows ≤ 100 * 10
        → purge_old_deliveries two_rows 7 10
          ≡ (kept_deliveries 7 two_rows, finished_count 7 two_rows))
purge_old_deliveries-kept_example = purge_old_deliveries-kept two_rows 7 10
