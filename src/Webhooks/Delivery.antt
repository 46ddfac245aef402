-- ===== src/Webhooks/Delivery.antt =====
-- src/modules/webhooks: the rows of deliveries, the claim of due ones and what an attempt records.
-- Hooks carry what the queries join from their API keys; the secret is what readWebhookSecret gives.
pub mod Pick
pub mod Replay
pub mod Log
pub mod Counts
pub mod Requests
pub mod Purge
pub mod Limit
use bunmail.Prelude.{
  ℕ, suc, ◌+◌, ◌-◌, String, Bool, true, false, not, ◌&&◌, List, [], ◌∷◌, ◌++◌, Option, none, some,
  leb, ltb, if◌then◌else◌, str_eq, any, length,
}
use bunmail.Dict.{Dict, get, set}
use bunmail.Webhooks.Schedule.{max_delivery_attempts, next_attempt_at}

pub data DeliveryStatus : Type 0 where
  pending delivered failed : DeliveryStatus

abbrev pub is_pending : DeliveryStatus → Bool
is_pending pending = true
is_pending _ = false

pub record Delivery : Type 0 where
  pub webhook_id : String
  pub event : String
  pub payload : String
  pub status : DeliveryStatus
  pub attempts : ℕ
  pub next_attempt_at : ℕ
  pub delivered_at : Option ℕ
  pub updated_at : ℕ
  pub last_error : Option String
  pub last_response_status : Option ℕ
  pub last_response_body : Option String

abbrev pub Deliveries : Type 0
Deliveries = Dict Delivery

pub record Hook : Type 0 where
  pub api_key_id : String
  pub events : List String
  pub is_active : Bool
  pub key_active : Bool
  pub key_is_admin : Bool
  pub url : String
  pub secret : Option String

abbrev pub Hooks : Type 0
Hooks = Dict Hook

-- `ATTEMPT_LOCK_MS`
abbrev pub attempt_lock_ms : ℕ
attempt_lock_ms = 30000

pub data DispatchScope : Type 0 where
  api_key : String → DispatchScope
  admin_only : DispatchScope

abbrev pub in_scope : DispatchScope → Hook → Bool
in_scope (api_key id) h = str_eq h.api_key_id id
in_scope admin_only h = h.key_is_admin

-- `matchingWebhooks`
abbrev pub matching_webhook : String → DispatchScope → Hook → Bool
matching_webhook event scope h =
    h.is_active && (h.key_active && (any (λ e. str_eq e event) h.events && in_scope scope h))

abbrev pub new_delivery : String → String → String → ℕ → Delivery
new_delivery hook_id event body now = record {
  webhook_id = hook_id;
  event = event;
  payload = body;
  status = pending;
  attempts = 0;
  next_attempt_at = now;
  delivered_at = none;
  updated_at = now;
  last_error = none;
  last_response_status = none;
  last_response_body = none;
}

-- The rows that `enqueueEvent` inserts, under the ids that the database makes up.
unfoldable pub event_rows :
    Hooks → String → DispatchScope → String → ℕ → (String → String) → Deliveries
event_rows [] event scope body now new_id = []
event_rows ((hook_id, h) ∷ hooks) event scope body now new_id =
    let rest = event_rows hooks event scope body now new_id in
    if matching_webhook event scope h
    then (new_id hook_id, new_delivery hook_id event body now) ∷ rest
    else rest

unfoldable pub enqueue_event :
    Deliveries → Hooks → String → DispatchScope → String → ℕ → (String → String) → Deliveries × ℕ
unfolding event_rows
enqueue_event rows hooks event scope body now new_id =
    let new = event_rows hooks event scope body now new_id in (rows ++ new, length new)

-- The row as the claim's first update leaves it: the attempt is counted before it is made.
abbrev pub claimed_delivery : ℕ → Delivery → Delivery
claimed_delivery now r = record r {
  next_attempt_at = now + attempt_lock_ms;
  attempts = r.attempts + 1;
  updated_at = now;
}

pub data Verdict : Type 0 where
  interrupted inactive : Verdict
  live : Hook → Verdict

abbrev pub hook_verdict : Option Hook → Verdict
hook_verdict none = inactive
hook_verdict (some h) =
    if not h.is_active then inactive else if not h.key_active then inactive else live h

-- What the claim makes of a claimed row.
abbrev pub verdict_of : Hooks → Delivery → Verdict
verdict_of hooks r =
    if ltb max_delivery_attempts r.attempts
    then interrupted
    else hook_verdict (get hooks r.webhook_id)

abbrev pub settled_delivery : ℕ → Delivery → Verdict → Delivery
settled_delivery now r interrupted = record r {
  status = failed;
  attempts = max_delivery_attempts;
  last_error = some "attempt limit reached: earlier attempts were interrupted";
  updated_at = now;
}
settled_delivery now r inactive = record r {
  status = failed;
  attempts = r.attempts - 1;
  last_error = some "webhook or its API key inactive at delivery time";
  updated_at = now;
}
settled_delivery now r (live h) = r

-- A claimed delivery, with the attempts before the claim.
pub record DueDelivery : Type 0 where
  pub id : String
  pub webhook_id : String
  pub event : String
  pub payload : String
  pub attempts : ℕ
  pub url : String
  pub secret : Option String

abbrev pub due_delivery : String → Delivery → Verdict → List DueDelivery
due_delivery id r interrupted = []
due_delivery id r inactive = []
due_delivery id r (live h) =
    record {
      id = id;
      webhook_id = r.webhook_id;
      event = r.event;
      payload = r.payload;
      attempts = r.attempts - 1;
      url = h.url;
      secret = h.secret;
    }
    ∷ []

-- The transaction of `claimDueDeliveries`, for the ids that it picks.
abbrev pub claimed_by : List String → String → Bool
claimed_by ids id = any (λ i. str_eq i id) ids

abbrev pub settle : Hooks → ℕ → Delivery → Delivery
settle hooks now r = let c = claimed_delivery now r in settled_delivery now c (verdict_of hooks c)

abbrev pub due_of : Hooks → ℕ → String → Delivery → List DueDelivery
due_of hooks now id r = let c = claimed_delivery now r in due_delivery id c (verdict_of hooks c)

unfoldable pub claim_rows : Hooks → ℕ → List String → Deliveries → Deliveries
claim_rows hooks now ids [] = []
claim_rows hooks now ids ((id, r) ∷ rows) =
    (id, if claimed_by ids id then settle hooks now r else r) ∷ claim_rows hooks now ids rows

unfoldable pub claim_due : Hooks → ℕ → List String → Deliveries → List DueDelivery
claim_due hooks now ids [] = []
claim_due hooks now ids ((id, r) ∷ rows) =
    (if claimed_by ids id then due_of hooks now id r else []) ++ claim_due hooks now ids rows

pub record AttemptOutcome : Type 0 where
  pub ok : Bool
  pub status : Option ℕ
  pub error : Option String
  pub body_preview : Option String

-- `slice(0, RESPONSE_PREVIEW_LIMIT)` is the argument `cut`.
abbrev pub error_text : (String → String) → Option String → String
error_text cut none = "unknown"
error_text cut (some e) = cut e

abbrev pub failed_attempt :
    (String → String) → AttemptOutcome → ℕ → ℕ → Delivery → Option ℕ → Delivery
failed_attempt cut o attempts now r none = record r {
  status = failed;
  attempts = attempts;
  last_error = some (error_text cut o.error);
  last_response_status = o.status;
  last_response_body = o.body_preview;
  updated_at = now;
}
failed_attempt cut o attempts now r (some next) = record r {
  attempts = attempts;
  last_error = some (error_text cut o.error);
  last_response_status = o.status;
  last_response_body = o.body_preview;
  next_attempt_at = next;
  updated_at = now;
}

abbrev pub recorded : (String → String) → AttemptOutcome → ℕ → ℕ → Delivery → Delivery
recorded cut o prior now r =
    if o.ok
    then record r {
      status = delivered;
      attempts = prior + 1;
      last_error = none;
      last_response_status = o.status;
      last_response_body = o.body_preview;
      delivered_at = some now;
      updated_at = now;
    }
    else failed_attempt cut o (prior + 1) now r (next_attempt_at (prior + 1) now)

abbrev pub record_found :
    (String → String) → Deliveries → String → AttemptOutcome → ℕ → ℕ → Option Delivery → Deliveries
record_found cut rows id o prior now none = rows
record_found cut rows id o prior now (some r) = set rows id (recorded cut o prior now r)

unfoldable pub record_attempt :
    (String → String) → Deliveries → String → AttemptOutcome → ℕ → ℕ → Deliveries
record_attempt cut rows id o prior now = record_found cut rows id o prior now (get rows id)
