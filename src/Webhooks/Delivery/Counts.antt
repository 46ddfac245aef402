-- ===== src/Webhooks/Delivery/Counts.antt =====
-- The attempts in a row count the requests since its last fresh start.
use bunmail.Prelude.{
  ℕ, suc, ◌+◌, ◌≤◌, ◌≡◌, refl, ap, subst, ◌∙◌, String, false, not, List, [], ◌∷◌, ◌++◌, Option,
  none, some, ltb, if◌then◌else◌, str_eq, eq_iff, eq_refl, arith, Bool-cases, inl, inr,
}
use bunmail.Dict.{get}
use bunmail.Webhooks.Schedule.{max_delivery_attempts}
use bunmail.Webhooks.Delivery.{
  Delivery, Deliveries, Hook, Hooks, Verdict, interrupted, inactive, live, hook_verdict, verdict_of,
  claimed_delivery, settled_delivery, due_delivery, settle, due_of, claimed_by, claim_due,
  DueDelivery,
}
use bunmail.Webhooks.Delivery.Log.{DeliveryEvent, requested, reset, requests, newest_prior, logged}

abbrev pub Counts : ℕ → Option ℕ → Option Delivery → Type 0
Counts sent newest none = Unit
Counts sent newest (some r) =
    (sent ≤ r.attempts)
    × (r.attempts ≤ 5)
    × ((prior : ℕ) → newest ≡ some prior → r.attempts ≡ prior + 1)

abbrev pub CountsIn : List DeliveryEvent → String → Option Delivery → Type 0
CountsIn log id found = Counts (requests id log) (newest_prior id log) found

abbrev pub AllCount : List DeliveryEvent → Deliveries → Type 0
AllCount log rows = (id : String) → CountsIn log id (get rows id)

pub tail-AllCount :
    (j : String) (r : Delivery) (rows : Deliveries) (log : List DeliveryEvent)
    → get rows j ≡ none
    → AllCount log ((j, r) ∷ rows)
    → AllCount log rows
unfolding get
tail-AllCount j r rows log new h id = elim (Bool-cases (str_eq j id)) [
  | inl t ↦
      (let e : j ≡ id = ground (arith, eq_iff j id) in
        let missing : get rows id ≡ none = subst (λ k. get rows k ≡ none) e new in rw missing tt)
  | inr f ↦ rw f at (h id)
]

-- Each request is at most the fifth since the last fresh start.
abbrev pub AtMostFive : List DeliveryEvent → Type 0
AtMostFive [] = Unit
AtMostFive (requested id prior ∷ log) = (suc (requests id log) ≤ 5) × AtMostFive log
AtMostFive (reset id ∷ log) = AtMostFive log

abbrev Fits : ℕ → Verdict → Type 0
Fits attempts interrupted = 5 ≤ attempts
Fits attempts inactive = Unit
Fits attempts (live h) = attempts + 1 ≤ 5

hook_verdict-Fits :
    (attempts : ℕ) (found : Option Hook) → attempts + 1 ≤ 5 → Fits attempts (hook_verdict found)
hook_verdict-Fits attempts none h = tt
hook_verdict-Fits attempts (some k) h = elim (Bool-cases (not k.is_active)) [
  | inl t ↦ rw t tt
  | inr f ↦ elim (Bool-cases (not k.key_active)) [ inl t ↦ rw (f, t) tt | inr g ↦ rw (f, g) h ]
]

verdict_of-Fits :
    (hooks : Hooks) (now : ℕ) (r : Delivery)
    → Fits r.attempts (verdict_of hooks (claimed_delivery now r))
verdict_of-Fits hooks now r = elim (Bool-cases (ltb max_delivery_attempts (r.attempts + 1))) [
  | inl t ↦ rw t (let over : 5 ≤ r.attempts = ground arith in over)
  | inr f ↦ rw f (hook_verdict-Fits r.attempts (get hooks r.webhook_id) (ground arith))
]

settled_delivery-Counts :
    (now : ℕ) (id : String) (r : Delivery) (log : List DeliveryEvent) (v : Verdict)
    → Fits r.attempts v
    → CountsIn log id (some r)
    → AtMostFive log
    → let c = claimed_delivery now r in
      CountsIn (logged (due_delivery id c v) log) id (some (settled_delivery now c v))
      × AtMostFive (logged (due_delivery id c v) log)
settled_delivery-Counts now id r log interrupted fits (sent, bound, last) five =
    ((omega arith, omega arith, λ prior e. omega (arith, last prior e)), five)
settled_delivery-Counts now id r log inactive fits (sent, bound, last) five =
    ((omega arith, omega arith, λ prior e. omega (arith, last prior e)), five)
settled_delivery-Counts now id r log (live h) fits (sent, bound, last) five =
    rw (eq_refl id) ((omega arith, omega arith, λ prior e. ground arith), (omega arith, five))

-- Requests for another delivery do not count.
module _ (id j : String) (other : str_eq j id ≡ false) (r : Delivery)
    (log : List DeliveryEvent) where
  requests-due_delivery :
      (v : Verdict) → requests id (logged (due_delivery j r v) log) ≡ requests id log
  requests-due_delivery interrupted = refl
  requests-due_delivery inactive = refl
  requests-due_delivery (live h) = rw other refl

  newest_prior-due_delivery :
      (v : Verdict) → newest_prior id (logged (due_delivery j r v) log) ≡ newest_prior id log
  newest_prior-due_delivery interrupted = refl
  newest_prior-due_delivery inactive = refl
  newest_prior-due_delivery (live h) = rw other refl

pub logged-append :
    (ds es : List DueDelivery) (log : List DeliveryEvent)
    → logged (ds ++ es) log ≡ logged ds (logged es log)
logged-append [] es log = refl
logged-append (d ∷ ds) es log = ap (◌∷◌ (requested d.id d.attempts)) (logged-append ds es log)

module _ (hooks : Hooks) (now : ℕ) (ids : List String) where
  abbrev pub own : String → Delivery → List DueDelivery
  own j r = if claimed_by ids j then due_of hooks now j r else []

  abbrev pub after : Deliveries → List DeliveryEvent → List DeliveryEvent
  after rows log = logged (claim_due hooks now ids rows) log

  pub requests-own :
      (id j : String) (r : Delivery) (log : List DeliveryEvent)
      → str_eq j id ≡ false
      → (requests id (logged (own j r) log) ≡ requests id log)
        × (newest_prior id (logged (own j r) log) ≡ newest_prior id log)
  requests-own id j r log other = elim (Bool-cases (claimed_by ids j)) [
    | inl t ↦
        (let c = claimed_delivery now r in
          let v = verdict_of hooks c in
          rw t (
            requests-due_delivery id j other c log v,
            newest_prior-due_delivery id j other c log v,
          ))
    | inr f ↦ rw f (refl, refl)
  ]

  -- A delivery that is not in the table is not requested.
  pub requests-after_absent :
      (rows : Deliveries) (id : String) (log : List DeliveryEvent)
      → get rows id ≡ none
      → (requests id (after rows log) ≡ requests id log)
        × (newest_prior id (after rows log) ≡ newest_prior id log)
  unfolding claim_due get
  requests-after_absent [] id log h = (refl, refl)
  requests-after_absent ((j, r) ∷ rows) id log h = elim (Bool-cases (str_eq j id)) [
    | inl t ↦ absurd (let found : some r ≡ none = rw t at h in cc)
    | inr f ↦
        (let (same, newest) = requests-after_absent rows id log (rw f at h) in
          let (same', newest') = requests-own id j r (after rows log) f in
          let split = logged-append (own j r) (claim_due hooks now ids rows) log in
          (ap (requests id) split ∙ same' ∙ same, ap (newest_prior id) split ∙ newest' ∙ newest))
  ]

  -- One row of the claim.
  pub own-Counts :
      (j : String) (r : Delivery) (log : List DeliveryEvent)
      → CountsIn log j (some r)
      → AtMostFive log
      → CountsIn
          (logged (own j r) log)
          j
          (some (if claimed_by ids j then settle hooks now r else r))
        × AtMostFive (logged (own j r) log)
  own-Counts j r log counts five = elim (Bool-cases (claimed_by ids j)) [
    | inl t ↦
        (let v = verdict_of hooks (claimed_delivery now r) in
          rw t (settled_delivery-Counts now j r log v (verdict_of-Fits hooks now r) counts five))
    | inr f ↦ rw f (counts, five)
  ]
